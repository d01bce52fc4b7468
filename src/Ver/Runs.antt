-- ===== src/Ver/Runs.antt =====
-- Exchanges on concrete inputs.
use lodos.Base.{
  ℕ, suc, ◌-◌, ◌^◌, ◌≡◌, ◌≢◌, refl, true, false, none, some, List, [], ◌∷◌, All, arith,
}
use lodos.Io.Result.{ok}
use lodos.Ver.{
  ExchangeUnit, Written, done, Store, new_good, new_entity, create_entity, create_goods,
  ExchangeVerify, check_units, check_each, verify_units, verify_goods, verify_each, written,
}
use lodos.Ver.Exchange.{saved, exchange_goods, push_to_redis, push_goods}
use lodos.Ver.Exchange.Conserves.{
  total, deltas, new_funds, Owns, AllSettle, exchange_goods-Conserves,
}
use lodos.Ver.Exchange.Refuses.{exchange_goods-gives_out}

-- A store that counts its writes; every goods that it knows belongs to the entity 0.
abbrev store : Store ℕ
store = record {
  get = λ key n. ok (b'{' ∷ []);
  put = λ key value n. (none, suc n);
  unmarshal = λ value g. g;
  marshal_entity = λ e. ok [];
  marshal_goods = λ g. ok [];
}

abbrev seller : ExchangeUnit
seller = record { entity = some (new_entity (b's' ∷ []) 7 1 10); fund = 30; goods = some [] }

abbrev buyer : ExchangeUnit
buyer = record {
  entity = some (new_entity (b'b' ∷ []) 8 1 100);
  fund = 2 ^ 64 - 30;
  goods = some (new_good 0 5 2 false ∷ []);
}

exchange_goods-Conserves_example :
    (ws : List Written) × (total (deltas (seller ∷ buyer ∷ [])) ≡ 0)
    × (total (new_funds ws) ≡ 110)
    × All (Owns store 0) (seller ∷ buyer ∷ [])
    × AllSettle (seller ∷ buyer ∷ []) ws
    × (saved store true ws 0 ≡ (done tt, 3))
unfolding exchange_goods check_units check_each verify_units verify_goods verify_each written
    push_to_redis push_goods
exchange_goods-Conserves_example =
    exchange_goods-Conserves store true (seller ∷ buyer ∷ []) 0 3 refl

abbrev giver : ExchangeUnit
giver = record seller { goods = some (new_good 0 (2 ^ 64 - 5) 2 false ∷ []) }

exchange_goods-gives_out_example :
    ((exchange_goods store true (giver ∷ buyer ∷ []) 0).1 ≡ 0)
    × ((exchange_goods store true (giver ∷ buyer ∷ []) 0).0 ≢ done tt)
exchange_goods-gives_out_example =
    exchange_goods-gives_out store true (giver ∷ buyer ∷ []) 0
      (((omega arith, refl), tt), (((omega arith, refl), tt), tt)) refl

-- An entity and the goods made behind it have one number.
abbrev counters : ExchangeVerify
counters = record { cur_seq = 4; max_seq = 10; step = 10 }

shared_number :
    ((create_entity [] 1 0 counters).0.0 ≡ 5)
    × ((create_goods 5 1 false (create_entity [] 1 0 counters).1).0.0 ≡ 5)
unfolding create_entity create_goods
shared_number = (refl, refl)
