-- ===== src/Ver/Exchange.antt =====
-- addon/ver/base/exchange_verify.go: ExchangeGoods and PushToRedis.
pub mod Conserves
pub mod Refuses
use lodos.Base.{Bool, true, false, Option, none, some, List, [], ◌∷◌}
use lodos.Io.Result.{Error, Result, ok, err, panic, stuck}
use lodos.Io.Reader.{Bytes}
use lodos.Ver.{
  Goods, Entity, ExchangeUnit, Refusal, of_redis, of_json, Outcome, done, refuses, panics, and_then,
  check_units, balanced, Written, written, Store, verify_units,
}

-- An outcome, and what the store holds then.
module _ {R : Type 0} where
  abbrev pub then_do : {A B : Type 0} → Outcome A × R → (A → R → Outcome B × R) → Outcome B × R
  then_do (done a, r) f = f a r
  then_do (refuses e, r) f = (refuses e, r)
  then_do (panics, r) f = (panics, r)

  abbrev encoded : {A : Type 0} → Result Bytes → R → (Bytes → R → Outcome A × R) → Outcome A × R
  encoded (ok b) r f = f b r
  encoded (err e) r f = (refuses (of_json e), r)
  encoded panic r f = (panics, r)
  encoded stuck r f = (panics, r)

  -- The reply to a SET of goods; that to the SET of an entity is not looked at.
  abbrev put_reply : Option Error × R → Outcome (Unit {0}) × R
  put_reply (none, r) = (done tt, r)
  put_reply (some e, r) = (refuses (of_redis e), r)

module _ {R : Type 0} (store : Store R) where
  unfoldable pub push_goods : List Goods → R → Outcome (Unit {0}) × R
  push_goods [] r = (done tt, r)
  push_goods (g ∷ gs) r =
      then_do
        (encoded (store.marshal_goods g) r (λ b r'. put_reply (store.put g.self_sequence b r')))
        (λ u. push_goods gs)

  unfoldable pub push_to_redis : List Written → R → Outcome (Unit {0}) × R
  push_to_redis [] r = (done tt, r)
  push_to_redis (w ∷ ws) r =
      then_do
        (encoded (store.marshal_entity w.entity) r
          (λ b r'. push_goods w.goods (store.put w.entity.self_sequence b r').1))
        (λ u. push_to_redis ws)

  abbrev pub saved : Bool → List Written → R → Outcome (Unit {0}) × R
  saved true ws r = push_to_redis ws r
  saved false ws r = (done tt, r)

  -- What is checked before anything is written, and what is to be written.
  pub checked : List ExchangeUnit → R → Outcome (List Written)
  checked us r =
      and_then (check_units us 0 [])
        (λ s. and_then (balanced s) (λ u. and_then (verify_units store us r) (λ v. written us)))

  unfoldable pub exchange_goods : Bool → List ExchangeUnit → R → Outcome (Unit {0}) × R
  unfolding checked
  exchange_goods save us r = then_do (checked us r, r) (saved save)
