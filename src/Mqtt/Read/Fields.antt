-- ===== src/Mqtt/Read/Fields.antt =====
-- Integers and strings are read back as they are written.
use lodos.Base.{ℕ, ◌+◌, ◌*◌, ◌^◌, ◌<◌, ◌≡◌, [], ◌∷◌, ◌++◌, length, arith, lt→ltb, le→leb}
use lodos.Io.Result.{ok}
use lodos.Io.Reader.{Bytes, read_full-append}
use lodos.Mqtt.Message.{be16, text}
use lodos.Mqtt.Read.{read_int, read_string}

pub read_int-be16 : (i : ℕ) (s : Bytes) → i < 2 ^ 16 → read_int (be16 i ++ s) ≡ (ok i, s)
unfolding read_int
read_int-be16 i s h = ground (arith, read_full-append (be16 i) s)

pub read_string-text :
    (t s : Bytes) → length t < 2 ^ 16 → read_string (text t ++ s) ≡ (ok (t, length t), s)
unfolding read_string
read_string-text [] s h = rw (read_int-be16 0 s (omega arith))
read_string-text (c ∷ t) s h =
    rw (read_int-be16 (length (c ∷ t)) ((c ∷ t) ++ s) h)
      (rw (lt→ltb 0 (length (c ∷ t)) (omega arith)) (rw (read_full-append (c ∷ t) s)))

pub read_int-two : (a b : ℕ) (s : Bytes) → read_int (a ∷ b ∷ s) ≡ (ok (a * 256 + b), s)
unfolding read_int
read_int-two a b s = rw (le→leb 2 (length (a ∷ b ∷ s)) (omega arith))
