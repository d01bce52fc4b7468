-- ===== src/Ver/Exchange/Conserves.antt =====
-- What an exchange that comes about has done: the funds add up as before, and no goods have changed hands.
use mathlib.Core.Path.{subst}
use lodos.Base.{
  true, false, ◌%◌, ◌&&◌, ltb, if_both, if◌then◌else◌, ℕ, zero, suc, ◌+◌, ◌^◌, ◌<◌, ◌≡◌, refl, sym,
  ap, ◌∙◌, inl, inr, Bool, Bool-cases, Option-cases, Option, none, some, List, [], ◌∷◌, ◌==◌,
  ==_iff, All, if_false, arith, map,
}
use lodos.Io.Result.{Result, ok, err, panic, stuck}
use lodos.Io.Reader.{Bytes}
use lodos.Seq.{wrap}
use lodos.Ver.{
  Goods, Entity, ExchangeUnit, not_belonging, Outcome, done, refuses, panics, and_then, check_each,
  check_units, listed, positive, received, balanced, Written, written, of_entity, Store, no_goods,
  owner_is, verify_each, verify_goods, verify_units,
}
use lodos.Ver.Exchange.{then_do, saved, checked, exchange_goods}

-- A sum of 64-bit numbers.
abbrev pub total : List ℕ → ℕ
total [] = 0
total (x ∷ xs) = wrap (x + total xs)

abbrev pub deltas : List ExchangeUnit → List ℕ
deltas = map (λ (u : ExchangeUnit). u.fund)

abbrev fund_of : Option Entity → ℕ
fund_of none = 0
fund_of (some e) = e.fund

abbrev pub funds : List ExchangeUnit → List ℕ
funds = map (λ (u : ExchangeUnit). fund_of u.entity)

abbrev pub new_funds : List Written → List ℕ
new_funds = map (λ (w : Written). w.entity.fund)

pub done_eq : {A : Type 0} {a b : A} → done a ≡ done b → a ≡ b
done_eq e = cc e

-- A chain that comes to an end has come through its first part.
pub and_then-done :
    {A B : Type 0} (o : Outcome A) (f : A → Outcome B) {b : B}
    → and_then o f ≡ done b
    → (a : A) × (o ≡ done a) × (f a ≡ done b)
and_then-done (done a) f h = (a, refl, h)
and_then-done (refuses e) f h = absurd (cc h)
and_then-done panics f h = absurd (cc h)

total-wrap : (xs : List ℕ) → wrap (total xs) ≡ total xs
total-wrap [] = refl
total-wrap (x ∷ xs) = omega arith

check_units-total :
    (us : List ExchangeUnit) (sum : ℕ) (keys : List ℕ) {n : ℕ} {ks : List ℕ}
    → sum < 2 ^ 64
    → check_units us sum keys ≡ done (n, ks)
    → n ≡ wrap (sum + total (deltas us))
unfolding check_units
check_units-total [] sum keys {n} lt h = omega (arith, lt, ap (λ x. x.0) (done_eq h))
check_units-total (u ∷ us) sum keys {n} lt h =
    let (ks', p, q) = and_then-done (check_each u.entity (listed u.goods) keys) _ h in
    omega (arith, check_units-total us (wrap (sum + u.fund)) ks' (omega arith) q)

entity_none :
    (u : ExchangeUnit) (us : List ExchangeUnit) → u.entity ≡ none → written (u ∷ us) ≡ panics
unfolding written
entity_none u us q = rw q

entity_some :
    (u : ExchangeUnit) (us : List ExchangeUnit) (e : Entity)
    → u.entity ≡ some e
    → written (u ∷ us) ≡ and_then (written us) (λ ws. done (of_entity e u ∷ ws))
unfolding written
entity_some u us e q = rw q

balanced-zero : (s : ℕ × List ℕ) → balanced s ≡ done tt → s.0 ≡ 0
balanced-zero (zero, ks) h = refl
balanced-zero (suc n, ks) h = absurd (cc h)

written-total :
    (us : List ExchangeUnit) {ws : List Written}
    → written us ≡ done ws
    → total (new_funds ws) ≡ wrap (total (funds us) + total (deltas us))
unfolding written
written-total [] h = ap (λ ws. total (new_funds ws)) (sym (done_eq h))
written-total (u ∷ us) {ws} h = elim (Option-cases u.entity) [
  | inl q ↦ absurd (cc (sym (entity_none u us q) ∙ h))
  | inr (e, q) ↦
      let (vs, p, r) = and_then-done (written us) _ (sym (entity_some u us e q) ∙ h) in
      omega (arith, written-total us p, ap (λ x. total (new_funds x)) (done_eq r), ap fund_of q)
]

-- The goods that a unit gets, which have a positive number as 64 bits with a sign, less their owner.
abbrev gets : Goods → Bool
gets g = ltb 0 g.self_sequence && ltb g.self_sequence (2 ^ 63)

abbrev pub kept : List Goods → List (ℕ × (ℕ × Bool))
kept [] = []
kept (g ∷ gs) = (g.self_sequence, (g.g_type, g.stackable)) ∷ kept gs

abbrev pub gained : List Goods → List Goods
gained [] = []
gained (g ∷ gs) = if gets g then g ∷ gained gs else gained gs

-- What is to be written for a unit: its entity, of the same user, with its fund and that of the unit (as 64 bits), and
-- the goods that it gets, each of them now the entity's.
abbrev pub Settles : ExchangeUnit → Written → Type 0
Settles u w =
    (e : Entity) × (u.entity ≡ some e)
    × (w.entity.fund ≡ (e.fund + u.fund) % 2 ^ 64)
    × (w.entity.belong_to ≡ e.belong_to)
    × All (λ (g : Goods). g.belong_to ≡ e.self_sequence) w.goods
    × (kept w.goods ≡ kept (gained (listed u.goods)))

abbrev pub AllSettle : List ExchangeUnit → List Written → Type 0
AllSettle [] [] = Unit {0}
AllSettle [] (w ∷ ws) = ⊥
AllSettle (u ∷ us) [] = ⊥
AllSettle (u ∷ us) (w ∷ ws) = Settles u w × AllSettle us ws

received-owned :
    (e : Entity) (gs : List Goods)
    → All (λ (g : Goods). g.belong_to ≡ e.self_sequence) (received e gs)
received-owned e [] = tt
received-owned e (g ∷ gs) =
    if_both (All (λ (x : Goods). x.belong_to ≡ e.self_sequence)) (positive g.self_sequence) _ _
      (refl, received-owned e gs) (received-owned e gs)

positive-gets : (g : Goods) → positive g.self_sequence ≡ gets g
positive-gets g = ground arith

kept-if :
    (b : Bool) (g h : Goods) (gs hs : List Goods)
    → kept (g ∷ []) ≡ kept (h ∷ [])
    → kept gs ≡ kept hs
    → kept (if b then g ∷ gs else gs) ≡ kept (if b then h ∷ hs else hs)
kept-if true g h gs hs p q = cc
kept-if false g h gs hs p q = q

received-kept : (e : Entity) (gs : List Goods) → kept (received e gs) ≡ kept (gained gs)
received-kept e [] = refl
received-kept e (g ∷ gs) =
    kept-if (positive g.self_sequence) _ g (received e gs) (gained gs) refl (received-kept e gs)
    ∙ ap (λ b. kept (if b then g ∷ gained gs else gained gs)) (positive-gets g)

written-AllSettle :
    (us : List ExchangeUnit) {ws : List Written} → written us ≡ done ws → AllSettle us ws
unfolding written
written-AllSettle [] h = subst (AllSettle []) (done_eq h) tt
written-AllSettle (u ∷ us) {ws} h = elim (Option-cases u.entity) [
  | inl q ↦ absurd (cc (sym (entity_none u us q) ∙ h))
  | inr (e, q) ↦
      let (vs, p, r) = and_then-done (written us) _ (sym (entity_some u us e q) ∙ h) in
      subst (AllSettle (u ∷ us)) (done_eq r) (
        (e, q, refl, refl, received-owned e (listed u.goods), received-kept e (listed u.goods)),
        written-AllSettle us p,
      )
]

-- Each of the goods of a unit is, by the store, its entity's.
abbrev pub IsOwner : {R : Type 0} → Store R → R → Entity → Goods → Type 0
IsOwner store r e g =
    (b : Bytes) × (store.get g.self_sequence r ≡ ok b)
    × ((store.unmarshal b no_goods).belong_to ≡ e.self_sequence)

abbrev pub Owns : {R : Type 0} → Store R → R → ExchangeUnit → Type 0
Owns store r u =
    (e : Entity) × (gs : List Goods) × (u.entity ≡ some e)
    × (u.goods ≡ some gs)
    × All (IsOwner store r e) gs

module _ {R : Type 0} (store : Store R) where
  owner_is-IsOwner :
      (e : Entity) (g : Goods) (r : R) (reply : Result Bytes)
      → store.get g.self_sequence r ≡ reply
      → owner_is store e reply ≡ done tt
      → IsOwner store r e g
  owner_is-IsOwner e g r (ok b) q h =
      elim (Bool-cases ((store.unmarshal b no_goods).belong_to == e.self_sequence)) [
        | inl t ↦ (b, q, (==_iff _ e.self_sequence).0 t)
        | inr f ↦ absurd (cc (sym (if_false _ (done tt) (refuses not_belonging) f) ∙ h))
      ]
  owner_is-IsOwner e g r (err x) q h = absurd (cc h)
  owner_is-IsOwner e g r panic q h = absurd (cc h)
  owner_is-IsOwner e g r stuck q h = absurd (cc h)

  verify_each-IsOwner :
      (e : Entity) (gs : List Goods) (r : R)
      → verify_each store e gs r ≡ done tt
      → All (IsOwner store r e) gs
  unfolding verify_each
  verify_each-IsOwner e [] r h = tt
  verify_each-IsOwner e (g ∷ gs) r h =
      let (u, p, q) = and_then-done (owner_is store e (store.get g.self_sequence r)) _ h in
      (owner_is-IsOwner e g r (store.get g.self_sequence r) refl p, verify_each-IsOwner e gs r q)

  verify_goods-Owns :
      (u : ExchangeUnit) (e : Option Entity) (gs : Option (List Goods)) (r : R)
      → u.entity ≡ e
      → u.goods ≡ gs
      → verify_goods store e gs r ≡ done tt
      → Owns store r u
  unfolding verify_goods
  verify_goods-Owns u (some e) (some gs) r p q h = (e, gs, p, q, verify_each-IsOwner e gs r h)
  verify_goods-Owns u (some e) none r p q h = absurd (cc h)
  verify_goods-Owns u none gs r p q h = absurd (cc h)

  verify_units-Owns :
      (us : List ExchangeUnit) (r : R) → verify_units store us r ≡ done tt → All (Owns store r) us
  unfolding verify_units
  verify_units-Owns [] r h = tt
  verify_units-Owns (u ∷ us) r h =
      let (x, p, q) = and_then-done (verify_goods store u.entity u.goods r) _ h in
      (verify_goods-Owns u u.entity u.goods r refl refl p, verify_units-Owns us r q)

  then_do-done :
      {A B : Type 0} (o : Outcome A) (r r' : R) (f : A → R → Outcome B × R) {b : B}
      → then_do (o, r) f ≡ (done b, r')
      → (a : A) × (o ≡ done a) × (f a r ≡ (done b, r'))
  then_do-done (done a) r r' f h = (a, refl, h)
  then_do-done (refuses e) r r' f h = absurd (cc h)
  then_do-done panics r r' f h = absurd (cc h)

  checked-done :
      (us : List ExchangeUnit) (r : R) {ws : List Written}
      → checked store us r ≡ done ws
      → (total (deltas us) ≡ 0)
        × (total (new_funds ws) ≡ total (funds us))
        × All (Owns store r) us
        × AllSettle us ws
  unfolding checked
  checked-done us r h =
      let (s, p, q) = and_then-done (check_units us 0 []) _ h in
      let (x, p', q') = and_then-done (balanced s) _ q in
      let (y, p'', q'') = and_then-done (verify_units store us r) _ q' in
      let z = balanced-zero s p' ∙ refl in
      let t = check_units-total us 0 [] (omega arith) p in
      (
        omega (arith, z, t, total-wrap (deltas us)),
        omega (arith, z, t, total-wrap (deltas us), total-wrap (funds us), written-total us q''),
        verify_units-Owns us r p'',
        written-AllSettle us q'',
      )

  -- Where an exchange comes to its end without an error, the changes of the funds add up to 0, each of the goods that
  -- it names belongs, by the store, to the entity of its unit already, and there is one record for each unit: its
  -- entity, of the same user, with its fund and that of the unit, and the goods of positive numbers, as the
  -- entity's. The funds of these records add up to the funds of the entities before (both as 64 bits), and what is
  -- done to the store, where the exchange is to be saved, is PushToRedis of these records. (What encoding/json
  -- makes of a record, and so what stands in Redis behind that, is not said.)
  pub exchange_goods-Conserves :
      (save : Bool) (us : List ExchangeUnit) (r r' : R)
      → exchange_goods store save us r ≡ (done tt, r')
      → (ws : List Written) × (total (deltas us) ≡ 0)
        × (total (new_funds ws) ≡ total (funds us))
        × All (Owns store r) us
        × AllSettle us ws
        × (saved store save ws r ≡ (done tt, r'))
  unfolding exchange_goods
  exchange_goods-Conserves save us r r' h =
      let (ws, p, q) = then_do-done (checked store us r) r r' (saved store save) h in
      let (a, b, c, d) = checked-done us r p in (ws, a, b, c, d, q)
