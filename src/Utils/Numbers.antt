-- ===== src/Utils/Numbers.antt =====
-- utils/params_bytes.go: Booleans and numbers as bytes.
pub mod RoundTrip
use lodos.Base.{
  ℕ, zero, suc, ◌+◌, ◌-◌, ◌*◌, ◌/◌, ◌%◌, ◌^◌, ◌<◌, ◌≤◌, Bool, true, false, not, List, [], ◌∷◌, ltb,
  ◌==◌, if◌then◌else◌,
}
use lodos.Io.Result.{Result, ok, panic}
use lodos.Io.Reader.{Bytes}

-- A signed number: `negsuc n` is `-(n + 1)`.
pub data ℤ : Type 0 where
  pos : ℕ → ℤ
  negsuc : ℕ → ℤ

-- `uint32(i)` and `uint64(i)`: two's complement, modulo 2 ^ 32 and 2 ^ 64.
abbrev pub uint32 : ℤ → ℕ
uint32 (pos n) = n % 2 ^ 32
uint32 (negsuc n) = 2 ^ 32 - 1 - n % 2 ^ 32

abbrev pub uint64 : ℤ → ℕ
uint64 (pos n) = n % 2 ^ 64
uint64 (negsuc n) = 2 ^ 64 - 1 - n % 2 ^ 64

-- `int32(n)` of a uint32, and `int64(n)` of a uint64.
abbrev pub signed32 : ℕ → ℤ
signed32 n = if ltb n (2 ^ 31) then pos n else negsuc (2 ^ 32 - 1 - n)

abbrev pub signed64 : ℕ → ℤ
signed64 n = if ltb n (2 ^ 63) then pos n else negsuc (2 ^ 64 - 1 - n)

-- The values that an int32 and an int64 (or int) hold.
abbrev pub IsInt32 : ℤ → Type 0
IsInt32 (pos n) = n < 2 ^ 31
IsInt32 (negsuc n) = n < 2 ^ 31

abbrev pub IsInt64 : ℤ → Type 0
IsInt64 (pos n) = n < 2 ^ 63
IsInt64 (negsuc n) = n < 2 ^ 63

-- `binary.BigEndian` and `binary.LittleEndian`. A read of too few bytes panics, of more it leaves the rest.
abbrev pub put_big32 : ℕ → Bytes
put_big32 v = (v / 2 ^ 24 % 256) ∷ (v / 2 ^ 16 % 256) ∷ (v / 2 ^ 8 % 256) ∷ (v % 256) ∷ []

abbrev pub put_big64 : ℕ → Bytes
put_big64 v =
    (v / 2 ^ 56 % 256) ∷ (v / 2 ^ 48 % 256) ∷ (v / 2 ^ 40 % 256) ∷ (v / 2 ^ 32 % 256) ∷ put_big32 v

abbrev pub put_little32 : ℕ → Bytes
put_little32 v = (v % 256) ∷ (v / 2 ^ 8 % 256) ∷ (v / 2 ^ 16 % 256) ∷ (v / 2 ^ 24 % 256) ∷ []

abbrev pub put_little64 : ℕ → Bytes
put_little64 v =
    (v % 256)
    ∷ (v / 2 ^ 8 % 256)
    ∷ (v / 2 ^ 16 % 256)
    ∷ (v / 2 ^ 24 % 256)
    ∷ put_little32 (v / 2 ^ 32)

abbrev pub big32 : Bytes → Result ℕ
big32 (a ∷ b ∷ c ∷ d ∷ _) = ok (((a * 256 + b) * 256 + c) * 256 + d)
big32 _ = panic

abbrev pub big64 : Bytes → Result ℕ
big64 (a ∷ b ∷ c ∷ d ∷ e ∷ f ∷ g ∷ h ∷ _) =
    ok (((((((a * 256 + b) * 256 + c) * 256 + d) * 256 + e) * 256 + f) * 256 + g) * 256 + h)
big64 _ = panic

abbrev pub little32 : Bytes → Result ℕ
little32 (a ∷ b ∷ c ∷ d ∷ _) = ok (((d * 256 + c) * 256 + b) * 256 + a)
little32 _ = panic

abbrev pub little64 : Bytes → Result ℕ
little64 (a ∷ b ∷ c ∷ d ∷ e ∷ f ∷ g ∷ h ∷ _) =
    ok (((((((h * 256 + g) * 256 + f) * 256 + e) * 256 + d) * 256 + c) * 256 + b) * 256 + a)
little64 _ = panic

-- A conversion of what was read.
abbrev pub converted : {A B : Type 0} → (A → B) → Result A → Result B
converted f (ok a) = ok (f a)
converted f (Result.err e) = Result.err e
converted f panic = panic
converted f Result.stuck = Result.stuck

-- A float32 and a float64 by their bits: `math.Float32bits` and `math.Float32frombits` are the field and
-- the constructor.
pub record Float32 : Type 0 where
  pub bits : ℕ

pub record Float64 : Type 0 where
  pub bits : ℕ

abbrev pub bool_to_bytes : Bool → Bytes
bool_to_bytes v = (if v then 1 else 0) ∷ []

abbrev pub bytes_to_bool : Bytes → Result Bool
bytes_to_bool [] = panic
bytes_to_bool (b ∷ _) = ok (not (b == 0))

unfoldable pub int_to_bytes : ℤ → Bytes
int_to_bytes i = put_big32 (uint32 i)

unfoldable pub bytes_to_int : Bytes → Result ℤ
bytes_to_int buf = converted pos (big32 buf)

unfoldable pub int32_to_bytes : ℤ → Bytes
int32_to_bytes i = put_big32 (uint32 i)

unfoldable pub bytes_to_int32 : Bytes → Result ℤ
bytes_to_int32 buf = converted signed32 (big32 buf)

unfoldable pub int64_to_bytes : ℤ → Bytes
int64_to_bytes i = put_big64 (uint64 i)

unfoldable pub bytes_to_int64 : Bytes → Result ℤ
bytes_to_int64 buf = converted signed64 (big64 buf)

unfoldable pub float32_to_bytes : Float32 → Bytes
float32_to_bytes float = put_little32 float.bits

unfoldable pub bytes_to_float32 : Bytes → Result Float32
bytes_to_float32 bytes = converted (λ bits. record { bits = bits }) (little32 bytes)

unfoldable pub float64_to_bytes : Float64 → Bytes
float64_to_bytes float = put_little64 float.bits

unfoldable pub bytes_to_float64 : Bytes → Result Float64
bytes_to_float64 bytes = converted (λ bits. record { bits = bits }) (little64 bytes)
