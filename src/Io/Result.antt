-- ===== src/Io/Result.antt =====
-- What a Go call comes back with, and actions on a state that come back so.
use lodos.Base.{◌≡◌, refl, Bool, true, false, Option, none, some}

-- The errors of `io` and `bufio`, then those that the code makes by `fmt.Errorf` and
-- `errors.New`, one for each message.
pub data Error : Type 0 where
  eof unexpected_eof broken_pipe : Error
  out_of_range identifier_rejected length_error bad_length nil_pointer : Error
  not_connect_package closed_connection : Error
  type_not_allowed no_session : Error

-- `panic` is a run-time panic (a nil pointer, a failed type assertion, an index out of range).
-- `stuck` is no Go value: a loop of the model ran out of fuel.
pub data Result {ℓ} (A : Type ℓ) : Type ℓ where
  ok : A → Result A
  err : Error → Result A
  panic : Result A
  stuck : Result A

abbrev pub Io {ℓ} : Type ℓ → Type ℓ → Type ℓ
Io S A = S → Result A × S

module _ {ℓ} {S A : Type ℓ} where
  abbrev pub pure : A → Io S A
  pure a s = (ok a, s)

  abbrev pub fail : Error → Io S A
  fail e s = (err e, s)

  abbrev pub crash : Io S A
  crash s = (panic, s)

  abbrev pub out_of_fuel : Io S A
  out_of_fuel s = (stuck, s)

  -- A pointer that is read: `none` is nil.
  abbrev pub deref : Option A → Io S A
  deref none = crash
  deref (some a) = pure a

-- `if test { err = e; break }`
abbrev pub fail_if {ℓ} : {S : Type ℓ} → Bool → Error → Io S (Unit {ℓ})
fail_if true e = fail e
fail_if false e = pure tt

module _ {ℓ} {S A B : Type ℓ} where
  abbrev pub next : Result A × S → (A → Io S B) → Result B × S
  next (ok a, s) f = f a s
  next (err e, s) f = (err e, s)
  next (panic, s) f = (panic, s)
  next (stuck, s) f = (stuck, s)

  infixl 10 ◌>>=◌ ◌>>◌
  abbrev pub ◌>>=◌ : Io S A → (A → Io S B) → Io S B
  ◌>>=◌ m f s = next (m s) f

  abbrev pub ◌>>◌ : Io S A → Io S B → Io S B
  ◌>>◌ m k s = next (m s) (λ _. k)

  -- `if err != nil { break }` around a loop whose own error is dropped: `g` goes on from the state
  -- that the failed call left.
  abbrev pub attempt : Result A × S → (A → Io S B) → Io S B → Result B × S
  attempt (ok a, s) f g = f a s
  attempt (err e, s) f g = g s
  attempt (panic, s) f g = (panic, s)
  attempt (stuck, s) f g = (stuck, s)

  pub next-eq-ok :
      (r : Result A × S) (f : A → Io S B) {b : B} {t : S}
      → next r f ≡ (ok b, t)
      → (a : A) × (s : S) × (r ≡ (ok a, s)) × (f a s ≡ (ok b, t))
  next-eq-ok (ok a, s) f h = (a, s, refl, h)
  next-eq-ok (err e, s) f h = cc
  next-eq-ok (panic, s) f h = cc
  next-eq-ok (stuck, s) f h = cc
