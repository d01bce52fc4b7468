-- ===== src/Conf/Runs.antt =====
-- A configuration file of four lines.
use lodos.Base.{◌≡◌, refl, none, some, List, [], ◌∷◌, ◌++◌, arith}
use lodos.Conf.{read_file, load_config}
use lodos.Conf.Comments.{ended, read_file-lines}
use lodos.Io.Result.{panic}
use lodos.Io.Reader.{Bytes}

abbrev comment : Bytes
comment = 9 ∷ b'/' ∷ b'/' ∷ b'a' ∷ []

abbrev lines : List Bytes
lines = comment ∷ (b'{' ∷ []) ∷ [] ∷ []

abbrev tail_text : Bytes
tail_text = b'/' ∷ b'/' ∷ []

read_file-lines_example :
    read_file (ended lines ++ tail_text) ≡ some (ended ((b'{' ∷ []) ∷ [] ∷ []) ++ tail_text)
read_file-lines_example =
    read_file-lines lines tail_text
      (
        ((refl, (refl, (refl, (refl, tt)))), omega arith),
        (((refl, tt), omega arith), ((tt, omega arith), tt)),
      )
      ((refl, (refl, tt)), omega arith)

missing_file : load_config (λ s. panic) none ≡ panic
unfolding load_config
missing_file = refl
