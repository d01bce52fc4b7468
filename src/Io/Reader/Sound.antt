-- ===== src/Io/Reader/Sound.antt =====
-- Readers that answer on every stream, and take what they read from its front.
use lodos.Base.{
  ℕ, zero, suc, ◌≡◌, refl, [], ◌∷◌, ◌++◌, append_assoc, arith, Bool, true, false, if◌then◌else◌,
  leb, length, take, drop, take-append-drop, append-nil, sym,
}
use lodos.Io.Result.{
  Result, Error, ok, err, panic, stuck, next, attempt, pure, fail, fail_if, ◌>>=◌, ◌>>◌,
}
use lodos.Io.Reader.{Bytes, Reader, read_byte, short, read_full, read_full_unchecked}

-- A value or an error, never a panic or a loop out of fuel; what is left is the end of what there was.
abbrev pub Answers : {A : Type 0} → Bytes → Result A × Bytes → Type 0
Answers s (ok a, rest) = (front : Bytes) × (s ≡ front ++ rest)
Answers s (err e, rest) = (front : Bytes) × (s ≡ front ++ rest)
Answers s (panic, rest) = ⊥
Answers s (stuck, rest) = ⊥

pub record IsSound {A : Type 0} (m : Reader A) : Type 0 where
  pub at : (s : Bytes) → Answers s (m s)

later :
    {A : Type 0} (s front t : Bytes) (r : Result A × Bytes)
    → s ≡ front ++ t
    → Answers t r
    → Answers s r
later s front t (ok a, u) h (mid, e) = (front ++ mid, ground (arith, append_assoc front mid u))
later s front t (err x, u) h (mid, e) = (front ++ mid, ground (arith, append_assoc front mid u))
later s front t (panic, u) h e = e
later s front t (stuck, u) h e = e

module _ {A B : Type 0} where
  next-Answers :
      (s : Bytes) (r : Result A × Bytes) (f : A → Reader B)
      → ((a : A) → IsSound (f a))
      → Answers s r
      → Answers s (next r f)
  next-Answers s (ok a, t) f hf (front, e) = later s front t (f a t) e ((hf a).at t)
  next-Answers s (err x, t) f hf h = h
  next-Answers s (panic, t) f hf h = h
  next-Answers s (stuck, t) f hf h = h

  pub IsSound-bind :
      (m : Reader A) (f : A → Reader B) → IsSound m → ((a : A) → IsSound (f a)) → IsSound (m >>= f)
  IsSound-bind m f hm hf = record { at = λ s. next-Answers s (m s) f hf (hm.at s) }

  pub IsSound-then : (m : Reader A) (k : Reader B) → IsSound m → IsSound k → IsSound (m >> k)
  IsSound-then m k hm hk = record { at = λ s. next-Answers s (m s) (λ _. k) (λ _. hk) (hm.at s) }

  -- A read whose error is dropped, on what an earlier read left.
  attempt-Answers :
      (s : Bytes) (r : Result A × Bytes) (f : A → Reader B) (g : Reader B)
      → Answers s r
      → ((a : A) → IsSound (f a))
      → IsSound g
      → Answers s (attempt r f g)
  attempt-Answers s (ok a, t) f g (front, e) hf hg = later s front t (f a t) e ((hf a).at t)
  attempt-Answers s (err x, t) f g (front, e) hf hg = later s front t (g t) e (hg.at t)
  attempt-Answers s (panic, t) f g h hf hg = h
  attempt-Answers s (stuck, t) f g h hf hg = h

  pub IsSound-attempt :
      (m : Reader A) (f : A → Reader B) (g : Reader B)
      → IsSound m
      → ((a : A) → IsSound (f a))
      → IsSound g
      → IsSound (λ s. attempt (m s) f g)
  IsSound-attempt m f g hm hf hg = record { at = λ s. attempt-Answers s (m s) f g (hm.at s) hf hg }

module _ {A : Type 0} where
  pub IsSound-unchecked :
      (n : ℕ) (f : Bytes → Reader A)
      → ((buf : Bytes) → IsSound (f buf))
      → IsSound (λ s. f (read_full_unchecked n s).0 (read_full_unchecked n s).1)
  unfolding read_full_unchecked
  IsSound-unchecked n f hf = record {
    at = λ s.
        later s (take n s) (drop n s) (f (read_full_unchecked n s).0 (drop n s))
          (sym (take-append-drop n s)) ((hf (read_full_unchecked n s).0).at (drop n s));
  }

  pub IsSound-pure : (a : A) → IsSound (pure {S = Bytes} a)
  IsSound-pure a = record { at = λ s. ([], refl) }

  pub IsSound-fail : (e : Error) → IsSound (fail {S = Bytes} {A = A} e)
  IsSound-fail e = record { at = λ s. ([], refl) }

  pub IsSound-if :
      (b : Bool) (m k : Reader A) → IsSound m → IsSound k → IsSound (if b then m else k)
  IsSound-if true m k hm hk = hm
  IsSound-if false m k hm hk = hk

pub IsSound-fail_if : (b : Bool) (e : Error) → IsSound (fail_if {S = Bytes} b e)
IsSound-fail_if true e = IsSound-fail e
IsSound-fail_if false e = IsSound-pure tt

pub read_byte-Answers : (s : Bytes) → Answers s (read_byte s)
unfolding read_byte
read_byte-Answers [] = ([], refl)
read_byte-Answers (b ∷ s) = (b ∷ [], refl)

pub IsSound-read_byte : IsSound read_byte
IsSound-read_byte = record { at = read_byte-Answers }

read_full-Answers : (n : ℕ) (s : Bytes) → Answers s (read_full n s)
unfolding read_full
read_full-Answers zero s = ([], refl)
read_full-Answers (suc n) s = cut (leb (suc n) (length s))
  where
    cut :
        (b : Bool)
        → Answers s (if b then (ok (take (suc n) s), drop (suc n) s) else (err (short s), []))
    cut true = (take (suc n) s, sym (take-append-drop (suc n) s))
    cut false = (s, sym (append-nil s))

pub IsSound-read_full : (n : ℕ) → IsSound (read_full n)
IsSound-read_full n = record { at = read_full-Answers n }

pub ruleset sound_rules = (
  IsSound-bind, IsSound-then, IsSound-pure, IsSound-fail, IsSound-if, IsSound-fail_if,
  IsSound-read_byte, IsSound-read_full,
)
