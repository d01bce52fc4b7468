-- ===== src/Mqtt/Length.antt =====
-- The "remaining length" of a packet: getRemainingLength, and the loop of ReadPack that reads it.
pub mod RoundTrip
pub mod Sound
use lodos.Base.{
  ℕ, zero, suc, ◌+◌, ◌*◌, ◌/◌, ◌%◌, bit_or, Option, none, some, List, [], ◌∷◌, ltb, leb, ◌&&◌,
  if◌then◌else◌,
}
use lodos.Io.Result.{pure, out_of_fuel, ◌>>=◌}
use lodos.Io.Reader.{Bytes, Reader, read_byte}
use mathlib.Core.Option as Option

-- The loop of getRemainingLength with `slots` places of its array of four left; without one the
-- write is out of range, which panics (`none`). The digit is below 256, so `byte(digit)` is `digit`.
remaining_length_loop : ℕ → ℕ → Option Bytes
remaining_length_loop zero length = none
remaining_length_loop (suc slots) length =
    let rest = remaining_length_loop slots (length / 128) in
    if ltb 0 (length / 128)
    then Option.map (◌∷◌ (bit_or (length % 128) 128)) rest
    else some ((length % 128) ∷ [])

pub get_remaining_length : ℕ → Option Bytes
unfolding remaining_length_loop
get_remaining_length length = remaining_length_loop 4 length

-- The `for` loop of ReadPack: `temp_byte` is the last byte read, `count_len` counts the bytes of the
-- fixed header before this round. The first argument is fuel; three rounds are enough.
read_length_loop : ℕ → ℕ → ℕ → ℕ → ℕ → Reader ℕ
read_length_loop zero temp_byte count_len multiplier length = out_of_fuel
read_length_loop (suc fuel) temp_byte count_len multiplier length =
    let length' = length + temp_byte % 128 * multiplier in
    let more : Reader ℕ = do
      temp_byte' ← read_byte
      read_length_loop fuel temp_byte' (count_len + 1) (multiplier * 128) length'
    in if ltb 0 (temp_byte / 128) && ltb (count_len + 1) 4 then more else pure length'

-- From the second byte of the packet on.
pub read_length : Reader ℕ
unfolding read_length_loop
read_length = do temp_byte ← read_byte; read_length_loop 3 temp_byte 1 1 0

-- What the wire carries: seven bits a byte, lowest first, the top bit on all bytes but the last.
-- At most k + 1 bytes.
unfoldable pub length_bytes : ℕ → ℕ → Bytes
length_bytes zero n = n ∷ []
length_bytes (suc k) n =
    let rest = length_bytes k (n / 128) in if ltb n 128 then n ∷ [] else (n % 128 + 128) ∷ rest

abbrev pub length_byte : ℕ → ℕ
length_byte n = if ltb n 128 then n else n % 128 + 128
