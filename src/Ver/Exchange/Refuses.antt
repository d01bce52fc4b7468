-- ===== src/Ver/Exchange/Refuses.antt =====
-- An exchange in which an entity gives goods out is refused.
use lodos.Base.{
  ℕ, zero, suc, ◌+◌, ◌^◌, ◌<◌, ◌≤◌, ◌≡◌, ◌≢◌, refl, sym, ap, ◌∙◌, ◌⊎◌, inl, inr, Bool, Bool-cases,
  true, false, ◌||◌, Option, none, some, List, [], ◌∷◌, ◌==◌, All, if_true, if_false, arith,
}
use mathlib.Core.Path.{subst}
use lodos.Seq.{wrap}
use lodos.Ver.{
  Goods, Entity, ExchangeUnit, Outcome, done, refuses, panics, not_belonging, has_key, without,
  opposite, toggle, negative, check_owner, check_one, check_each, check_units, listed, balanced,
  Written, Store,
}
use lodos.Ver.Exchange.{then_do, saved, checked, exchange_goods}
use lodos.Ver.Exchange.Conserves.{and_then-done, done_eq}

-- A number of 64 bits that is not the least one, which is its own opposite.
abbrev pub IsProper : Goods → Type 0
IsProper g = (g.self_sequence < 2 ^ 64) × ((g.self_sequence == 2 ^ 63) ≡ false)

-- Whether goods are given out.
abbrev pub gives_out : List Goods → Bool
gives_out [] = false
gives_out (g ∷ gs) = negative g.self_sequence || gives_out gs

abbrev pub any_gives_out : List ExchangeUnit → Bool
any_gives_out [] = false
any_gives_out (u ∷ us) = gives_out (listed u.goods) || any_gives_out us

abbrev Given : List ℕ → Type 0
Given = All (λ (k : ℕ). 2 ^ 63 < k)

abbrev Some : List ℕ → Type 0
Some ks = ks ≡ [] → ⊥

has_key-not : (k : ℕ) (ks : List ℕ) → Given ks → k ≤ 2 ^ 63 → has_key k ks ≡ false
has_key-not k [] h le = refl
has_key-not k (j ∷ ks) (p, h) le =
    if_false (j == k) true _ (ground (arith, p, le)) ∙ has_key-not k ks h le

without-Given : (k : ℕ) (ks : List ℕ) → Given ks → Given (without k ks)
without-Given k [] h = tt
without-Given k (j ∷ ks) (p, h) = elim (Bool-cases (j == k)) [
  | inl e ↦ subst Given (sym (if_true (j == k) _ _ e)) (without-Given k ks h)
  | inr e ↦ subst Given (sym (if_false (j == k) (without k ks) _ e)) (p, without-Given k ks h)
]

toggle-eq :
    (k : ℕ) (ks : List ℕ) → Given ks → 2 ^ 63 < k → k < 2 ^ 64 → toggle k ks ≡ k ∷ without k ks
toggle-eq k ks h lo hi =
    if_false (has_key (opposite k) ks) _ _ (has_key-not (opposite k) ks h (omega arith))

toggled :
    (k : ℕ) (ks : List ℕ)
    → Given ks
    → 2 ^ 63 < k
    → k < 2 ^ 64
    → Given (toggle k ks) × Some (toggle k ks)
toggled k ks h lo hi =
    let q = toggle-eq k ks h lo hi in
    (subst Given (sym q) (lo, without-Given k ks h), λ e. cc (sym q ∙ e))

-- What holds of the keys once a loop has gone on from them.
abbrev Later : Bool → List ℕ → List ℕ → Type 0
Later gave ks ks' = Given ks' × ((gave ≡ true) ⊎ Some ks → Some ks')

check_owner-done :
    (e : Option Entity) (g : Goods) (ks : List ℕ) {ks' : List ℕ}
    → check_owner e g ks ≡ done ks'
    → ks' ≡ toggle g.self_sequence ks
check_owner-done none g ks h = absurd (cc h)
check_owner-done (some e) g ks h = elim (Bool-cases (g.belong_to == e.self_sequence)) [
  | inl t ↦ done_eq (sym h ∙ if_true (g.belong_to == e.self_sequence) _ _ t)
  | inr f ↦ absurd (
      cc (
        sym (
          if_false (g.belong_to == e.self_sequence) (done (toggle g.self_sequence ks))
            (refuses not_belonging) f)
        ∙ h))
]

check_one-Later :
    (e : Option Entity) (g : Goods) (ks : List ℕ) {ks' : List ℕ}
    → IsProper g
    → Given ks
    → check_one e g ks ≡ done ks'
    → Later (negative g.self_sequence) ks ks'
check_one-Later e g ks {ks'} (lt, ne) h q = elim (Bool-cases (negative g.self_sequence)) [
  | inl t ↦
      let p =
        check_owner-done e g ks (sym (if_true (negative g.self_sequence) _ (done ks) t) ∙ q) in
      let (a, b) = toggled g.self_sequence ks h (ground (arith, t, ne)) lt in
      (subst Given (sym p) a, λ x. subst Some (sym p) b)
  | inr f ↦
      let p =
        done_eq (sym q ∙ if_false (negative g.self_sequence) (check_owner e g ks) (done ks) f) in
      (
        subst Given (sym p) h,
        λ x. elim x [ inl t ↦ absurd (cc (t, f)) | inr s ↦ subst Some (sym p) s ],
      )
]

either : (b c : Bool) → (b || c) ≡ true → (b ≡ true) ⊎ (c ≡ true)
either true c h = inl refl
either false c h = inr h

-- One loop behind another.
Later-then :
    (b c : Bool) (ks ks' ks'' : List ℕ) → Later b ks ks' → Later c ks' ks'' → Later (b || c) ks ks''
Later-then b c ks ks' ks'' (p, f) (q, g) = (
  q,
  λ x. elim x [
    | inl h ↦ elim (either b c h) [ inl t ↦ g (inr (f (inl t))) | inr t ↦ g (inl t) ]
    | inr s ↦ g (inr (f (inr s)))
  ],
)

check_each-Later :
    (e : Option Entity) (gs : List Goods) (ks : List ℕ) {ks' : List ℕ}
    → All IsProper gs
    → Given ks
    → check_each e gs ks ≡ done ks'
    → Later (gives_out gs) ks ks'
unfolding check_each
check_each-Later e [] ks v h q = (
  subst Given (done_eq q) h,
  λ x. elim x [ inl t ↦ absurd (cc t) | inr s ↦ subst Some (done_eq q) s ],
)
check_each-Later e (g ∷ gs) ks {ks'} (v, vs) h q =
    let (js, p, r) = and_then-done (check_one e g ks) _ q in
    let m = check_one-Later e g ks v h p in
    Later-then (negative g.self_sequence) (gives_out gs) ks js ks' m
      (check_each-Later e gs js vs m.0 r)

check_units-Later :
    (us : List ExchangeUnit) (sum : ℕ) (ks : List ℕ) {n : ℕ} {ks' : List ℕ}
    → All (λ (u : ExchangeUnit). All IsProper (listed u.goods)) us
    → Given ks
    → check_units us sum ks ≡ done (n, ks')
    → Later (any_gives_out us) ks ks'
unfolding check_units
check_units-Later [] sum ks v h q =
    let e = ap (λ x. x.1) (done_eq q) in
    (subst Given e h, λ x. elim x [ inl t ↦ absurd (cc t) | inr s ↦ subst Some e s ])
check_units-Later (u ∷ us) sum ks {n} {ks'} (v, vs) h q =
    let (js, p, r) = and_then-done (check_each u.entity (listed u.goods) ks) _ q in
    let m = check_each-Later u.entity (listed u.goods) ks v h p in
    Later-then (gives_out (listed u.goods)) (any_gives_out us) ks js ks' m
      (check_units-Later us (wrap (sum + u.fund)) js vs m.0 r)

balanced-empty : (s : ℕ × List ℕ) → balanced s ≡ done tt → s.1 ≡ []
balanced-empty (zero, []) h = refl
balanced-empty (zero, k ∷ ks) h = absurd (cc h)
balanced-empty (suc n, ks) h = absurd (cc h)

module _ {R : Type 0} (store : Store R) where
  checked-not :
      (us : List ExchangeUnit) (r : R) {ws : List Written}
      → All (λ (u : ExchangeUnit). All IsProper (listed u.goods)) us
      → any_gives_out us ≡ true
      → checked store us r ≡ done ws
      → ⊥
  unfolding checked
  checked-not us r v g h =
      let ((n, ks), p, q) = and_then-done (check_units us 0 []) _ h in
      let (x, p', q') = and_then-done (balanced (n, ks)) _ q in
      (check_units-Later us 0 [] v tt p).1 (inl g) (balanced-empty (n, ks) p')

  refused_or :
      (o : Outcome (List Written)) (save : Bool) (r : R)
      → ((ws : List Written) → o ≡ done ws → ⊥)
      → let x = then_do (o, r) (saved store save) in (x.1 ≡ r) × (x.0 ≢ done tt)
  refused_or (done ws) save r h = absurd (h ws refl)
  refused_or (refuses e) save r h = (refl, λ q. cc q)
  refused_or panics save r h = (refl, λ q. cc q)

  -- An exchange in which a unit names goods by a negative number, as what its entity gives out, never comes to its end
  -- without an error, and writes nothing, whatever the other units take (all numbers being 64 bits other than the
  -- least one).
  pub exchange_goods-gives_out :
      (save : Bool) (us : List ExchangeUnit) (r : R)
      → All (λ (u : ExchangeUnit). All IsProper (listed u.goods)) us
      → any_gives_out us ≡ true
      → ((exchange_goods store save us r).1 ≡ r) × ((exchange_goods store save us r).0 ≢ done tt)
  unfolding exchange_goods
  exchange_goods-gives_out save us r v g =
      refused_or (checked store us r) save r (λ ws e. checked-not us r v g e)
