-- ===== src/Mqtt/Length/RoundTrip.antt =====
-- getRemainingLength against the loop of ReadPack.
use lodos.Base.{
  ℕ, zero, suc, ◌+◌, ◌*◌, ◌/◌, ◌%◌, ◌^◌, ◌<◌, ◌≡◌, ◌∷◌, ◌++◌, some, arith, bit_or_top, ltb,
  if◌then◌else◌,
}
use lodos.Io.Result.{ok}
use lodos.Io.Reader.{Bytes, read_byte}
use lodos.Mqtt.Length.{
  remaining_length_loop, get_remaining_length, read_length_loop, read_length, length_bytes,
}

remaining_length_loop-some :
    (k n : ℕ) → n < 128 ^ suc k → remaining_length_loop (suc k) n ≡ some (length_bytes k n)
unfolding remaining_length_loop length_bytes
remaining_length_loop-some zero n h = ground arith
remaining_length_loop-some (suc k) n h =
    ground (arith, bit_or_top (n % 128), remaining_length_loop-some k (n / 128) (omega arith))

-- Every length below 2 ^ 28 is written in the format of the protocol, seven bits a byte.
pub get_remaining_length-some :
    (n : ℕ) → n < 2 ^ 28 → get_remaining_length n ≡ some (length_bytes 3 n)
unfolding get_remaining_length
get_remaining_length-some n h = remaining_length_loop-some 3 n h

-- ReadPack reads three bytes of the length at most: a length below 2 ^ 21 is read back, of a longer one
-- the last byte is left to be taken for a byte of the body.
pub read_length-length_bytes :
    (n : ℕ) (rest : Bytes)
    → n < 2 ^ 28
    → read_length (length_bytes 3 n ++ rest)
      ≡ (ok (n % 2 ^ 21), if ltb n (2 ^ 21) then rest else (n / 2 ^ 21) ∷ rest)
unfolding read_length read_length_loop length_bytes read_byte
read_length-length_bytes n rest h = ground arith

pub read_length-two :
    (n x : ℕ) (s : Bytes)
    → n < 128
    → x < 128
    → read_length ((n + 128) ∷ x ∷ s) ≡ (ok (n + x * 128), s)
unfolding read_length read_length_loop read_byte
read_length-two n x s hn hx = ground arith
