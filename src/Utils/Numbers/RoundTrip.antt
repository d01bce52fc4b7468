-- ===== src/Utils/Numbers/RoundTrip.antt =====
-- Reading the bytes of a number gives the number back.
use lodos.Base.{ℕ, ◌^◌, ◌<◌, ◌≡◌, refl, ap, ◌∙◌, Bool, true, false, arith}
use lodos.Io.Result.{ok}
use lodos.Utils.Numbers.{
  ℤ, pos, negsuc, uint32, uint64, signed32, signed64, IsInt32, IsInt64, put_big32, put_big64,
  put_little32, put_little64, big32, big64, little32, little64, converted, Float32, Float64,
  bool_to_bytes, bytes_to_bool, int_to_bytes, bytes_to_int, int32_to_bytes, bytes_to_int32,
  int64_to_bytes, bytes_to_int64, float32_to_bytes, bytes_to_float32, float64_to_bytes,
  bytes_to_float64,
}

big32-put_big32 : (v : ℕ) → v < 2 ^ 32 → big32 (put_big32 v) ≡ ok v
big32-put_big32 v h = ap ok (omega arith)

big64-put_big64 : (v : ℕ) → v < 2 ^ 64 → big64 (put_big64 v) ≡ ok v
big64-put_big64 v h = ap ok (omega arith)

little32-put_little32 : (v : ℕ) → v < 2 ^ 32 → little32 (put_little32 v) ≡ ok v
little32-put_little32 v h = ap ok (omega arith)

little64-put_little64 : (v : ℕ) → v < 2 ^ 64 → little64 (put_little64 v) ≡ ok v
little64-put_little64 v h = ap ok (omega arith)

uint32-lt : (i : ℤ) → uint32 i < 2 ^ 32
uint32-lt (pos n) = omega arith
uint32-lt (negsuc n) = omega arith

uint64-lt : (i : ℤ) → uint64 i < 2 ^ 64
uint64-lt (pos n) = omega arith
uint64-lt (negsuc n) = omega arith

signed32-uint32 : (i : ℤ) → IsInt32 i → signed32 (uint32 i) ≡ i
signed32-uint32 (pos n) h = ground arith
signed32-uint32 (negsuc n) h = ground arith

signed64-uint64 : (i : ℤ) → IsInt64 i → signed64 (uint64 i) ≡ i
signed64-uint64 (pos n) h = ground arith
signed64-uint64 (negsuc n) h = ground arith

pub bytes_to_bool-bool_to_bytes : (v : Bool) → bytes_to_bool (bool_to_bytes v) ≡ ok v
bytes_to_bool-bool_to_bytes true = refl
bytes_to_bool-bool_to_bytes false = refl

-- An int is 64 bits wide, and IntToBytes keeps its low 32: BytesToInt gives it back modulo 2 ^ 32.
pub bytes_to_int-int_to_bytes : (i : ℤ) → bytes_to_int (int_to_bytes i) ≡ ok (pos (uint32 i))
unfolding bytes_to_int int_to_bytes
bytes_to_int-int_to_bytes i = ap (converted pos) (big32-put_big32 (uint32 i) (uint32-lt i))

-- An int32 comes back from its bytes.
pub bytes_to_int32-int32_to_bytes : (i : ℤ) → IsInt32 i → bytes_to_int32 (int32_to_bytes i) ≡ ok i
unfolding bytes_to_int32 int32_to_bytes
bytes_to_int32-int32_to_bytes i h =
    ap (converted signed32) (big32-put_big32 (uint32 i) (uint32-lt i)) ∙ ap ok (signed32-uint32 i h)

-- An int64 comes back from its bytes.
pub bytes_to_int64-int64_to_bytes : (i : ℤ) → IsInt64 i → bytes_to_int64 (int64_to_bytes i) ≡ ok i
unfolding bytes_to_int64 int64_to_bytes
bytes_to_int64-int64_to_bytes i h =
    ap (converted signed64) (big64-put_big64 (uint64 i) (uint64-lt i)) ∙ ap ok (signed64-uint64 i h)

pub bytes_to_float32-float32_to_bytes :
    (x : Float32) → x.bits < 2 ^ 32 → bytes_to_float32 (float32_to_bytes x) ≡ ok x
unfolding bytes_to_float32 float32_to_bytes
bytes_to_float32-float32_to_bytes x h =
    ap (converted (λ b. record { bits = b })) (little32-put_little32 x.bits h)

pub bytes_to_float64-float64_to_bytes :
    (x : Float64) → x.bits < 2 ^ 64 → bytes_to_float64 (float64_to_bytes x) ≡ ok x
unfolding bytes_to_float64 float64_to_bytes
bytes_to_float64-float64_to_bytes x h =
    ap (converted (λ b. record { bits = b })) (little64-put_little64 x.bits h)
