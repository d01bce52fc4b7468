-- ===== src/Utils/BeeMap/Pairs.antt =====
-- A map as a list of pairs, the newest pair of a key first, has the laws of the interface.
use lodos.Base.{
  ◌≡◌, refl, sym, ap, ◌∙◌, inl, inr, Bool-cases, false, Option, none, some, List, [], ◌∷◌, same,
  same_self, same-eq, if◌then◌else◌, if_true, if_false, All, arith,
}
use mathlib.Core.Path.{subst}
use lodos.Io.Reader.{Bytes}
use lodos.Utils.BeeMap.{BeeMap, IsMap, HasNot, Distinct, Held}

module _ {V : Type 0} where
  abbrev find : Bytes → List (Bytes × V) → Option V
  find j [] = none
  find j ((k, v) ∷ m) = if same j k then some v else find j m

  abbrev without : Bytes → List (Bytes × V) → List (Bytes × V)
  without j [] = []
  without j ((k, v) ∷ m) = let rest = without j m in if same k j then rest else (k, v) ∷ rest

  abbrev once_each : List (Bytes × V) → List (Bytes × V)
  once_each [] = []
  once_each ((k, v) ∷ m) = (k, v) ∷ without k (once_each m)

abbrev pub pairs : {V : Type 0} → BeeMap (List (Bytes × V)) V
pairs = record {
  lookup = find;
  insert = λ k v m. (k, v) ∷ m;
  delete = without;
  delete_all = λ m. [];
  items = once_each;
}

module _ {V : Type 0} where
  find-without :
      (j k : Bytes) (m : List (Bytes × V))
      → find j (without k m) ≡ (if same j k then none else find j m)
  find-without j k [] = ground arith
  find-without j k ((i, v) ∷ m) = elim (Bool-cases (same i k)) [
    | inl e ↦
        ap (find j) (if_true (same i k) (without k m) _ e)
        ∙ ground (arith, find-without j k m, ap (same j) (same-eq i k e))
    | inr e ↦ ap (find j) (if_false (same i k) (without k m) _ e) ∙ elim (Bool-cases (same j i)) [
      | inl d ↦ ground (arith, d, ap (λ x. same x k) (same-eq j i d), e)
      | inr d ↦ ground (arith, find-without j k m, d)
    ]
  ]

  find-front : (k : Bytes) (v : V) (m : List (Bytes × V)) → find k ((k, v) ∷ m) ≡ some v
  find-front k v m = if_true (same k k) (some v) (find k m) (same_self k)

  without-HasNot : (k : Bytes) (m : List (Bytes × V)) → HasNot k (without k m)
  without-HasNot k [] = tt
  without-HasNot k ((i, v) ∷ m) = elim (Bool-cases (same i k)) [
    | inl e ↦ subst (HasNot k) (sym (if_true (same i k) (without k m) _ e)) (without-HasNot k m)
    | inr e ↦ subst (HasNot k) (sym (if_false (same i k) (without k m) _ e)) (e, without-HasNot k m)
  ]

  -- What holds of every pair holds of those that are left.
  All-without :
      (P : Bytes × V → Type 0) (k : Bytes) (m : List (Bytes × V)) → All P m → All P (without k m)
  All-without P k [] h = tt
  All-without P k ((i, v) ∷ m) (p, h) = elim (Bool-cases (same i k)) [
    | inl e ↦ subst (All P) (sym (if_true (same i k) (without k m) _ e)) (All-without P k m h)
    | inr e ↦ subst (All P) (sym (if_false (same i k) (without k m) _ e)) (p, All-without P k m h)
  ]

  without-Distinct : (k : Bytes) (m : List (Bytes × V)) → Distinct m → Distinct (without k m)
  without-Distinct k [] h = tt
  without-Distinct k ((i, v) ∷ m) (n, h) = elim (Bool-cases (same i k)) [
    | inl e ↦ subst Distinct (sym (if_true (same i k) (without k m) _ e)) (without-Distinct k m h)
    | inr e ↦
        subst Distinct (sym (if_false (same i k) (without k m) _ e))
          (All-without (λ (p : Bytes × V). same p.0 i ≡ false) k m n, without-Distinct k m h)
  ]

  once_each-Distinct : (m : List (Bytes × V)) → Distinct (once_each m)
  once_each-Distinct [] = tt
  once_each-Distinct ((k, v) ∷ m) =
      (without-HasNot k (once_each m), without-Distinct k (once_each m) (once_each-Distinct m))

  found-behind :
      (k : Bytes) (v : V) (m rest : List (Bytes × V))
      → All (λ (p : Bytes × V). find p.0 m ≡ some p.1) rest
      → HasNot k rest
      → All (λ (p : Bytes × V). find p.0 ((k, v) ∷ m) ≡ some p.1) rest
  found-behind k v m [] h n = tt
  found-behind k v m ((i, w) ∷ rest) (p, h) (e, n) =
      (if_false (same i k) (some v) (find i m) e ∙ p, found-behind k v m rest h n)

  once_each-found :
      (m : List (Bytes × V)) → All (λ (p : Bytes × V). find p.0 m ≡ some p.1) (once_each m)
  once_each-found [] = tt
  once_each-found ((k, v) ∷ m) = (
    find-front k v m,
    found-behind k v m (without k (once_each m))
        (All-without (λ (p : Bytes × V). find p.0 m ≡ some p.1) k (once_each m) (once_each-found m))
        (without-HasNot k (once_each m)),
  )

  Held-without :
      (j k : Bytes) (v : V) (m : List (Bytes × V))
      → same j k ≡ false
      → Held j v m
      → Held j v (without k m)
  Held-without j k v [] e h = h
  Held-without j k v ((i, w) ∷ m) e (inl (p, q)) =
      subst (Held j v) (sym (if_false (same i k) (without k m) _ (ap (λ x. same x k) p ∙ e)))
        (inl (p, q))
  Held-without j k v ((i, w) ∷ m) e (inr h) = elim (Bool-cases (same i k)) [
    | inl d ↦
        subst (Held j v) (sym (if_true (same i k) (without k m) _ d)) (Held-without j k v m e h)
    | inr d ↦
        subst (Held j v) (sym (if_false (same i k) (without k m) _ d))
          (inr (Held-without j k v m e h))
  ]

  once_each-Held :
      (k : Bytes) (v : V) (m : List (Bytes × V)) → find k m ≡ some v → Held k v (once_each m)
  once_each-Held k v [] h = cc
  once_each-Held k v ((i, w) ∷ m) h = elim (Bool-cases (same k i)) [
    | inl e ↦ inl (sym (same-eq k i e), cc (sym (if_true (same k i) (some w) (find k m) e) ∙ h))
    | inr e ↦ inr (
        Held-without k i v (once_each m) e
          (once_each-Held k v m (sym (if_false (same k i) (some w) (find k m) e) ∙ h)))
  ]

pub pairs-IsMap : {V : Type 0} → IsMap (pairs {V = V})
pairs-IsMap = record {
  lookup-insert = λ j k v m. refl;
  lookup-delete = find-without;
  items_sound = once_each-found;
  items_complete = once_each-Held;
  items_distinct = once_each-Distinct;
}
