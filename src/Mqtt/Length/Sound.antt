-- ===== src/Mqtt/Length/Sound.antt =====
-- The loop of ReadPack that reads the length ends.
use lodos.Base.{ℕ, zero, suc, ◌+◌, ◌*◌, ◌/◌, ◌<◌, ◌≤◌, arith, ltb, ◌&&◌, Bool-cases, inl, inr}
use lodos.Io.Reader.{read_byte}
use lodos.Io.Reader.Sound.{IsSound, IsSound-bind, IsSound-pure, IsSound-read_byte}
use lodos.Mqtt.Length.{read_length, read_length_loop}

-- Three rounds are enough: the byte after the third is never asked for.
IsSound-read_length_loop :
    (fuel temp_byte count_len multiplier len : ℕ)
    → 4 ≤ count_len + fuel
    → 0 < fuel
    → IsSound (read_length_loop fuel temp_byte count_len multiplier len)
unfolding read_length_loop
IsSound-read_length_loop zero temp_byte count_len multiplier len h h0 = absurd (omega arith)
IsSound-read_length_loop (suc fuel) temp_byte count_len multiplier len h h0 =
    elim (Bool-cases (ltb 0 (temp_byte / 128) && ltb (count_len + 1) 4)) [
      | inl e ↦ rw e (
          IsSound-bind read_byte _ IsSound-read_byte (λ b.
            IsSound-read_length_loop fuel b (count_len + 1) (multiplier * 128) _ (omega arith)
              (ground arith)))
      | inr e ↦ rw e (IsSound-pure _)
    ]

pub IsSound-read_length : IsSound read_length
unfolding read_length
IsSound-read_length =
    IsSound-bind read_byte _ IsSound-read_byte
      (λ b. IsSound-read_length_loop 3 b 1 1 0 (omega arith) (omega arith))
