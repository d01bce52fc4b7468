-- ===== src/Seq/Fresh.antt =====
-- A section never gives a user the same number twice.
use lodos.Base.{
  ℕ, suc, ◌+◌, ◌*◌, ◌^◌, ◌<◌, ◌≤◌, ◌≡◌, refl, sym, ap, ◌∙◌, Bool-cases, inl, inr, true, false,
  Option, none, some, List, [], ◌∷◌, if_true, if_false, length, arith, All, All-map,
}
use lodos.Seq.{
  Section, wrap, before, same_id, put_user, raised, limit, of_user, get_seq, noted, get_seqs,
}
use lodos.Utils.Numbers.{ℤ, pos, negsuc}

-- No user is past the limit of the section, which n more steps do not take past an int64.
pub record IsWithin (n : ℕ) (s : Section) : Type 0 where
  pub step_positive : 0 < s.step
  pub room : s.max_seq + n * s.step < 2 ^ 63
  pub within : (id : ℤ) (u : ℕ) → s.users id ≡ some u → u ≤ s.max_seq

-- What a call of GetSeq does to the section of a user at u.
abbrev taken : ℤ → ℕ → Section → Section
taken id u s = raised (wrap (u + 1)) (put_user id (wrap (u + 1)) s)

wrapped : (u max room : ℕ) → u ≤ max → max + room < 2 ^ 63 → 0 < room → wrap (u + 1) ≡ u + 1
wrapped u max room h b p = omega (arith, h, b, p)

limit-bounds :
    (u max step : ℕ)
    → u ≤ max
    → max + step < 2 ^ 63
    → 0 < step
    → (u + 1 ≤ limit max step (wrap (u + 1)))
      × (max ≤ limit max step (wrap (u + 1)))
      × (limit max step (wrap (u + 1)) ≤ max + step)
limit-bounds u max step h b p = elim (Bool-cases (before max (wrap (u + 1)))) [
  | inl e ↦
      let q : limit max step (wrap (u + 1)) ≡ max + step =
        if_true (before max (wrap (u + 1))) _ _ e ∙ (omega (arith, b)) in
      (omega (arith, q, h, p), omega (arith, q), omega (arith, q))
  | inr e ↦
      let q : limit max step (wrap (u + 1)) ≡ max = if_false (before max (wrap (u + 1))) _ _ e in
      (ground (arith, q, h, b, p, e), omega (arith, q), omega (arith, q))
]

some_eq : {a b : ℕ} → some a ≡ some b → a ≡ b
some_eq h = cc h

same_id-eq : (j k : ℤ) → same_id j k ≡ true → j ≡ k
same_id-eq (pos m) (pos n) h = ap pos (ground (arith, h))
same_id-eq (pos m) (negsuc n) h = cc
same_id-eq (negsuc m) (pos n) h = cc
same_id-eq (negsuc m) (negsuc n) h = ap negsuc (ground (arith, h))

abbrev Issued : Type 0
Issued = ℤ × ℕ

-- The numbers of a user grow.
abbrev pub Growing : List Issued → Type 0
Growing [] = Unit {0}
Growing ((id, q) ∷ rest) = All (λ (i : Issued). same_id i.0 id ≡ true → q < i.1) rest × Growing rest

-- What calls of GetSeq come to: the numbers of a user grow, from the number that it had on, none is past the
-- limit of the section, and the limit never sinks.
pub record Grown (s : Section) (issued : List Issued) (s' : Section) : Type 0 where
  pub newer : All (λ (i : Issued). (u : ℕ) → s.users i.0 ≡ some u → u < i.1) issued
  pub growing : Growing issued
  pub limited : All (λ (i : Issued). i.1 ≤ s'.max_seq) issued
  pub kept : IsWithin 0 s'
  pub higher : s.max_seq ≤ s'.max_seq

IsWithin-less : (n : ℕ) (s : Section) → IsWithin (suc n) s → IsWithin n s
IsWithin-less n s v = record {
  step_positive = v.step_positive;
  room = omega (arith, v.room);
  within = v.within;
}

module _ (id : ℤ) (u : ℕ) (s : Section) where
  taken-user : (j : ℤ) → same_id j id ≡ true → (taken id u s).users j ≡ some (wrap (u + 1))
  taken-user j e = if_true (same_id j id) (some (wrap (u + 1))) (s.users j) e

  taken-other : (j : ℤ) → same_id j id ≡ false → (taken id u s).users j ≡ s.users j
  taken-other j e = if_false (same_id j id) (some (wrap (u + 1))) (s.users j) e

  module _ (n : ℕ) (v : IsWithin (suc n) s) (h : s.users id ≡ some u) where
    bounds :
        (wrap (u + 1) ≡ u + 1)
        × (u + 1 ≤ (taken id u s).max_seq)
        × (s.max_seq ≤ (taken id u s).max_seq)
        × ((taken id u s).max_seq ≤ s.max_seq + s.step)
    bounds =
        let le = v.within id u h in
        let b : s.max_seq + s.step < 2 ^ 63 = omega (arith, v.room) in
        let (p, q, r) = limit-bounds u s.max_seq s.step le b v.step_positive in
        (wrapped u s.max_seq s.step le b v.step_positive, p, q, r)

    taken-IsWithin : IsWithin n (taken id u s)
    taken-IsWithin =
        let (w, p, q, r) = bounds in
        record {
          step_positive = v.step_positive;
          room = omega (arith, r, v.room);
          within = λ j u' e. elim (Bool-cases (same_id j id)) [
            | inl m ↦ omega (arith, w, p, some_eq (sym (taken-user j m) ∙ e))
            | inr m ↦ omega (arith, q, v.within j u' (sym (taken-other j m) ∙ e))
          ];
        }

    -- What is newer than the numbers after the call is newer than those before it.
    newer-before :
        (i : Issued)
        → ((u' : ℕ) → (taken id u s).users i.0 ≡ some u' → u' < i.1)
        → (u' : ℕ) → s.users i.0 ≡ some u'
        → u' < i.1
    newer-before (j, q) f u' e = elim (Bool-cases (same_id j id)) [
      | inl m ↦
          let eq : u' ≡ u = some_eq (sym e ∙ (ap s.users (same_id-eq j id m) ∙ h)) in
          omega (arith, f (wrap (u + 1)) (taken-user j m), bounds.0, eq)
      | inr m ↦ f u' (taken-other j m ∙ e)
    ]

of_user-Grown :
    (o : Option ℕ) (id : ℤ) (ids : List ℤ) (s : Section)
    → s.users id ≡ o
    → IsWithin (suc (length ids)) s
    → ((t : Section) → IsWithin (length ids) t → Grown t (get_seqs ids t).0 (get_seqs ids t).1)
    → Grown s
        (noted id (of_user o id s).0 (get_seqs ids (of_user o id s).1).0)
        (get_seqs ids (of_user o id s).1).1
of_user-Grown none id ids s h v more = more s (IsWithin-less (length ids) s v)
of_user-Grown (some u) id ids s h v more =
    let t = taken id u s in
    let later = (get_seqs ids t).0 in
    let (w, p, q, r) = bounds id u s (length ids) v h in
    let g = more t (taken-IsWithin id u s (length ids) v h) in
    record {
      newer = (
        λ u' e. omega (arith, w, some_eq (sym e ∙ h)),
        All-map (λ (i : Issued). (u' : ℕ) → t.users i.0 ≡ some u' → u' < i.1)
            (λ (i : Issued). (u' : ℕ) → s.users i.0 ≡ some u' → u' < i.1) later
            (newer-before id u s (length ids) v h) g.newer,
      );
      growing = (
        All-map (λ (i : Issued). (u' : ℕ) → t.users i.0 ≡ some u' → u' < i.1)
            (λ (i : Issued). same_id i.0 id ≡ true → wrap (u + 1) < i.1) later
            (λ i f m. f (wrap (u + 1)) (taken-user id u s i.0 m)) g.newer,
        g.growing,
      );
      limited = (omega (arith, w, p, g.higher), g.limited);
      kept = g.kept;
      higher = omega (arith, q, g.higher);
    }

-- Numbers that GetSeq gives to users in any order: those of a user grow, from the number that it had on, none is
-- past the limit at the end, so that a restart from the limit repeats none, and the limit never sinks. (When the
-- users are within the limit at first, and the calls cannot take it past an int64.)
pub get_seqs-Grown :
    (ids : List ℤ) (s : Section)
    → IsWithin (length ids) s
    → Grown s (get_seqs ids s).0 (get_seqs ids s).1
unfolding get_seqs get_seq
get_seqs-Grown [] s v = record {
  newer = tt;
  growing = tt;
  limited = tt;
  kept = v;
  higher = omega arith;
}
get_seqs-Grown (id ∷ ids) s v = of_user-Grown (s.users id) id ids s refl v (get_seqs-Grown ids)
