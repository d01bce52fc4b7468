-- ===== src/Conf.antt =====
-- conf/conf.go: the configuration file without its lines of comments, and the defaults of LoadConfig. The file is its
-- bytes, and encoding/json a parameter.
pub mod Comments
mod Runs
use lodos.Base.{
  ℕ, zero, suc, Bool, true, false, ◌||◌, Option, none, some, List, [], ◌∷◌, ◌++◌, ◌==◌, take,
  length, has_prefix, if◌then◌else◌,
}
use lodos.Io.Result.{Error, Result, ok, err, panic, stuck}
use lodos.Io.Reader.{Bytes}
use lodos.Utils.Numbers.{ℤ, pos, negsuc}

-- The size of the buffer of a bufio.Reader.
abbrev pub buffer_size : ℕ
buffer_size = 4096

-- The bytes up to the first end of a line among the first n, with it, and the rest.
abbrev with_front : ℕ → Option (Bytes × Bytes) → Option (Bytes × Bytes)
with_front b none = none
with_front b (some (line, rest)) = some (b ∷ line, rest)

abbrev pub cut : ℕ → Bytes → Option (Bytes × Bytes)
cut zero s = none
cut (suc n) [] = none
cut (suc n) (b ∷ s) =
    let more = with_front b (cut n s) in if b == b'\n' then some (b ∷ [], s) else more

-- ReadSlice: a line, or without an end of a line in a full buffer what the buffer holds, with an error.
abbrev pub sliced : ℕ → Bytes → Option (Bytes × Bytes) → (Bytes × Bool) × Bytes
sliced n s none = ((take n s, false), [])
sliced n s (some (line, rest)) = ((line, true), rest)

abbrev pub read_slice : ℕ → Bytes → (Bytes × Bool) × Bytes
read_slice n s = sliced n s (cut n s)

-- `strings.TrimLeft(line, "\t ")`
abbrev pub trim_left : Bytes → Bytes
trim_left [] = []
trim_left (b ∷ s) = let rest = trim_left s in if (b == 9) || (b == b' ') then rest else b ∷ s

abbrev pub slashes : Bytes
slashes = b'/' ∷ b'/' ∷ []

abbrev pub is_comment : Bytes → Bool
is_comment line = has_prefix (trim_left line) slashes

-- The loop of readFileInto, on a buffer of n bytes, which ends at an error of ReadSlice; each line has a byte at least.
abbrev pub kept : Bytes → Option Bytes → Option Bytes
kept line none = none
kept line (some text) = some (if is_comment line then text else line ++ text)

abbrev pub after_slice : (Bytes × Bool) × Bytes → Option Bytes → Option Bytes
after_slice ((line, true), rest) more = kept line more
after_slice ((line, false), rest) more = some line

pub read_loop : ℕ → ℕ → Bytes → Option Bytes
read_loop n zero s = none
read_loop n (suc fuel) s = after_slice (read_slice n s) (read_loop n fuel (read_slice n s).1)

pub read_file : Bytes → Option Bytes
read_file s = read_loop buffer_size (suc (length s)) s

-- What LoadConfig reads and changes of the configuration.
pub record Rpc : Type 0 where
  pub max_coroutine : ℤ
  pub rpc_expired : ℤ

abbrev or_else : ℤ → ℤ → ℤ
or_else d (pos zero) = d
or_else d n = n

abbrev pub defaults : Rpc → Rpc
defaults c = record {
  max_coroutine = or_else (pos 100) c.max_coroutine;
  rpc_expired = or_else (pos 2) c.rpc_expired;
}

-- LoadConfig on a file that can be opened or not, with json.Unmarshal of what is left of it; an error panics.
abbrev parsed : Option (Result Rpc) → Result Rpc
parsed (some (ok c)) = ok (defaults c)
parsed (some r) = panic
parsed none = stuck

abbrev unmarshalled : (Bytes → Result Rpc) → Option Bytes → Option (Result Rpc)
unmarshalled unmarshal none = none
unmarshalled unmarshal (some text) = some (unmarshal text)

pub load_config : (Bytes → Result Rpc) → Option Bytes → Result Rpc
load_config unmarshal none = panic
load_config unmarshal (some s) = parsed (unmarshalled unmarshal (read_file s))
