-- ===== src/Base/Bits.antt =====
-- Masks as arithmetic: two functions are compared on a small range by listing where they differ.
use Prim.Native.Nat.{ℕ, zero, suc, ◌+◌, ◌*◌, ◌/◌, ◌%◌, ◌<◌, bit_or}
use mathlib.Core.Path.{◌≡◌, refl}
use mathlib.Core.List.{List, [], ◌∷◌}
use native.Mathlib.Omega.{arith}
use mathlib.Core.Bool.{Bool, true, false}
use mathlib.Core.Logic.{◌⊎◌, inl, inr}
use lodos.Base.Tests.{◌==◌, ==_iff}

note : Bool → ℕ → List ℕ → List ℕ
note true x xs = xs
note false x xs = x ∷ xs

note-empty : (same : Bool) (x : ℕ) (xs : List ℕ) → note same x xs ≡ [] → (same ≡ true) × (xs ≡ [])
unfolding note
note-empty true x xs h = (refl, h)
note-empty false x xs h = cc

-- The numbers below a bound at which the two functions differ.
differences : (ℕ → ℕ) → (ℕ → ℕ) → ℕ → List ℕ
differences f g zero = []
differences f g (suc bound) = note (f bound == g bound) bound (differences f g bound)

less_or_equal : (x bound : ℕ) → x < suc bound → (x < bound) ⊎ (x ≡ bound)
less_or_equal x bound h = omega arith

equal_without_differences :
    (bound : ℕ) (f g : ℕ → ℕ) → differences f g bound ≡ [] → (x : ℕ) → x < bound → f x ≡ g x
unfolding differences
equal_without_differences zero f g h x below = absurd (omega arith)
equal_without_differences (suc bound) f g h x below =
    let (same, fewer) = note-empty (f bound == g bound) bound (differences f g bound) h in
    let before = equal_without_differences bound f g fewer x in
    let last = (==_iff (f bound) (g bound)).0 same in
    elim (less_or_equal x bound below) [ inl less ↦ before less | inr e ↦ rw (e, last) ]

pub bit_or_top : (x : ℕ) → x < 128 → bit_or x 128 ≡ x + 128
unfolding differences note
bit_or_top x below = equal_without_differences 128 (λ y. bit_or y 128) (λ y. y + 128) refl x below

-- Three fields of four, one and two bits, shifted into one byte.
abbrev fields : ℕ → ℕ → ℕ → ℕ
fields k d q = bit_or (bit_or (k * 16 % 256) (d * 8 % 256)) (q * 2 % 256)

abbrev apart : ℕ → ℕ
apart x = x / 8 * 16 + x / 4 % 2 * 8 + x % 4 * 2

fields-apart : (x : ℕ) → x < 128 → fields (x / 8) (x / 4 % 2) (x % 4) ≡ apart x
unfolding differences note
fields-apart x below =
    equal_without_differences 128 (λ y. fields (y / 8) (y / 4 % 2) (y % 4)) apart refl x below

pub bit_or_fields :
    (k d q : ℕ)
    → k < 16
    → d < 2
    → q < 4
    → bit_or (bit_or (k * 16 % 256) (d * 8 % 256)) (q * 2 % 256) ≡ k * 16 + d * 8 + q * 2
bit_or_fields k d q hk hd hq = rw (ek, ed, eq) at whole
  where
    x : ℕ
    x = k * 8 + d * 4 + q

    ek : x / 8 ≡ k
    ek = omega arith

    ed : x / 4 % 2 ≡ d
    ed = omega arith

    eq : x % 4 ≡ q
    eq = omega arith

    whole : fields (x / 8) (x / 4 % 2) (x % 4) ≡ apart x
    whole = fields-apart x (omega arith)
