-- ===== src/Io/Reader.antt =====
-- `bufio.Reader` as gate/base/mqtt uses it: the bytes that will still arrive, after which the
-- connection is at its end. `ReadByte` and `io.ReadFull` block until they have what they want, so
-- how the network cuts the bytes into packets does not show.
pub mod Sound
use lodos.Base.{
  ℕ, zero, suc, ◌-◌, ◌≡◌, refl, List, [], ◌∷◌, ◌++◌, leb, if◌then◌else◌, length, take, drop,
  replicate, arith, append-nil, length-append, take-append_length, drop-append_length, le→leb,
}
use lodos.Io.Result.{Io, Error, ok, err, eof, unexpected_eof}

abbrev pub Bytes : Type 0
Bytes = List ℕ

abbrev pub Reader : Type 0 → Type 0
Reader A = Io Bytes A

unfoldable pub read_byte : Reader ℕ
read_byte [] = (err eof, [])
read_byte (b ∷ s) = (ok b, s)

-- The error of `io.ReadFull` on a stream that is too short.
abbrev short : Bytes → Error
short [] = eof
short (b ∷ s) = unexpected_eof

-- `io.ReadFull` into a buffer of n bytes. A short stream is read to its end.
unfoldable pub read_full : ℕ → Reader Bytes
read_full zero s = (ok [], s)
read_full (suc n) s =
    if leb (suc n) (length s) then (ok (take (suc n) s), drop (suc n) s) else (err (short s), [])

-- The same call with its error dropped: what did not arrive stays zero in the buffer.
unfoldable pub read_full_unchecked : ℕ → Bytes → Bytes × Bytes
read_full_unchecked n s = (take n s ++ replicate (n - length s) 0, drop n s)

pub read_full-append : (b : Bytes) (s : Bytes) → read_full (length b) (b ++ s) ≡ (ok b, s)
unfolding read_full
read_full-append [] s = refl
read_full-append (x ∷ b) s =
    rw (le→leb (suc (length b)) (suc (length (b ++ s))) (omega (arith, length-append b s)))
      (rw (take-append_length b s, drop-append_length b s))

pub read_full_unchecked-append :
    (b : Bytes) (s : Bytes) → read_full_unchecked (length b) (b ++ s) ≡ (b, s)
unfolding read_full_unchecked
read_full_unchecked-append b s =
    let e : length b - length (b ++ s) ≡ 0 = omega (arith, length-append b s) in
    rw (e, take-append_length b s, drop-append_length b s, append-nil b)
