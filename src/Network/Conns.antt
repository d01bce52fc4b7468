-- ===== src/Network/Conns.antt =====
-- The sets of connections that network's servers and clients keep, `ConnSet` and `WebsocketConnSet`.
use lodos.Base.{
  ℕ, ◌≤◌, ◌<◌, ◌≡◌, ◌⊎◌, inl, inr, Bool-cases, Option, none, some, List, [], ◌∷◌, ◌++◌,
  if◌then◌else◌, if_true, if_false, ◌==◌, length, arith,
}
use mathlib.Core.Path.{subst}
use lodos.Io.Result.{Result, ok, panic}

-- A connection is known by its number. The map is nil before it is made and after a Close.
abbrev pub ConnSet : Type 0
ConnSet = Option (List ℕ)

abbrev pub Has : ℕ → List ℕ → Type 0
Has c [] = ⊥
Has c (x ∷ xs) = (c ≡ x) ⊎ Has c xs

abbrev pub Holds : ℕ → ConnSet → Type 0
Holds c none = ⊥
Holds c (some xs) = Has c xs

abbrev pub remove : ℕ → List ℕ → List ℕ
remove c [] = []
remove c (x ∷ xs) = let rest = remove c xs in if x == c then rest else x ∷ rest

-- `len(conns)`, `conns[conn] = struct{}{}`, `delete(conns, conn)` and the loop over the set.
abbrev pub len : ConnSet → ℕ
len none = 0
len (some xs) = length xs

abbrev pub put : ℕ → ConnSet → Result ConnSet
put c none = panic
put c (some xs) = ok (some (c ∷ remove c xs))

abbrev pub delete : ℕ → ConnSet → ConnSet
delete c none = none
delete c (some xs) = some (remove c xs)

abbrev pub members : ConnSet → List ℕ
members none = []
members (some xs) = xs

pub length-remove : (c : ℕ) (xs : List ℕ) → length (remove c xs) ≤ length xs
length-remove c [] = omega arith
length-remove c (x ∷ xs) = elim (Bool-cases (x == c)) [
  | inl e ↦ rw e (omega (arith, length-remove c xs))
  | inr e ↦ rw e (omega (arith, length-remove c xs))
]

pub length-remove_less : (c : ℕ) (xs : List ℕ) → Has c xs → length (remove c xs) < length xs
length-remove_less c [] h = absurd h
length-remove_less c (x ∷ xs) h = elim (Bool-cases (x == c)) [
  | inl e ↦ rw e (omega (arith, length-remove c xs))
  | inr e ↦ elim h [
    | inl q ↦ absurd (ground (arith, e, q))
    | inr m ↦ rw e (omega (arith, length-remove_less c xs m))
  ]
]

-- What is taken out of a list is the one connection and no other.
pub Has-remove : (b c : ℕ) (xs : List ℕ) → Has b xs → (b ≡ c) ⊎ Has b (remove c xs)
Has-remove b c [] h = absurd h
Has-remove b c (x ∷ xs) (inl e) = elim (Bool-cases (x == c)) [
  | inl t ↦ inl (ground (arith, e, t))
  | inr f ↦ rw f (inr (inl e))
]
Has-remove b c (x ∷ xs) (inr h) = elim (Has-remove b c xs h) [
  | inl e ↦ inl e
  | inr r ↦ elim (Bool-cases (x == c)) [ inl t ↦ rw t (inr r) | inr f ↦ rw f (inr (inr r)) ]
]

pub Has-remove_back : (b c : ℕ) (xs : List ℕ) → Has b (remove c xs) → Has b xs
Has-remove_back b c [] h = h
Has-remove_back b c (x ∷ xs) h = elim (Bool-cases (x == c)) [
  | inl t ↦ inr (Has-remove_back b c xs (subst (Has b) (if_true (x == c) _ _ t) h))
  | inr f ↦ elim (subst (Has b) (if_false (x == c) _ (x ∷ remove c xs) f) h) [
    | inl e ↦ inl e
    | inr m ↦ inr (Has-remove_back b c xs m)
  ]
]

pub Holds-delete : (b c : ℕ) (s : ConnSet) → Holds b s → (b ≡ c) ⊎ Holds b (delete c s)
Holds-delete b c none h = absurd h
Holds-delete b c (some xs) h = Has-remove b c xs h

pub len-delete : (c : ℕ) (s : ConnSet) → len (delete c s) ≤ len s
len-delete c none = omega arith
len-delete c (some xs) = length-remove c xs

pub Has-left : (b : ℕ) (xs ys : List ℕ) → Has b xs → Has b (xs ++ ys)
Has-left b [] ys h = absurd h
Has-left b (x ∷ xs) ys (inl e) = inl e
Has-left b (x ∷ xs) ys (inr h) = inr (Has-left b xs ys h)

pub Has-right : (b : ℕ) (xs ys : List ℕ) → Has b ys → Has b (xs ++ ys)
Has-right b [] ys h = h
Has-right b (x ∷ xs) ys h = inr (Has-right b xs ys h)

pub Holds-members : (b : ℕ) (s : ConnSet) → Holds b s → Has b (members s)
Holds-members b none h = absurd h
Holds-members b (some xs) h = h
