-- ===== src/Ver.antt =====
-- addon/ver/base: the verification service, which makes entities and goods and exchanges goods and funds. An int and a
-- Sequence are 64 bits, a number below 2 ^ 64. Redis and encoding/json are parameters.
pub mod Exchange
mod Runs
use lodos.Base.{
  ℕ, zero, suc, ◌+◌, ◌-◌, ◌%◌, ◌^◌, Bool, true, false, not, ◌&&◌, Option, none, some, List, [], ◌∷◌,
  ltb, leb, ◌==◌, if◌then◌else◌,
}
use lodos.Io.Result.{Error, Result, ok, err, panic, stuck}
use lodos.Io.Reader.{Bytes}
use lodos.Seq.{wrap}

-- What the methods of a `ver.Goods` give.
pub record Goods : Type 0 where
  pub belong_to : ℕ
  pub self_sequence : ℕ
  pub g_type : ℕ
  pub stackable : Bool

-- What the methods of a `ver.Entity` give. `belong_to` is the uuid of a user.
pub record Entity : Type 0 where
  pub belong_to : Bytes
  pub self_sequence : ℕ
  pub entity_type : ℕ
  pub fund : ℕ

-- A `ver.ExchangeUnit`; its entity may be nil, and so may its slice of goods.
pub record ExchangeUnit : Type 0 where
  pub entity : Option Entity
  pub fund : ℕ
  pub goods : Option (List Goods)

-- NewGood, and NewEntity, whose methods give 0 for the number and for the type.
abbrev pub new_good : ℕ → ℕ → ℕ → Bool → Goods
new_good belong seq kind stackable = record {
  belong_to = belong;
  self_sequence = seq;
  g_type = kind;
  stackable = stackable;
}

abbrev pub new_entity : Bytes → ℕ → ℕ → ℕ → Entity
new_entity belong seq kind fund = record {
  belong_to = belong;
  self_sequence = 0;
  entity_type = 0;
  fund = fund;
}

pub record ExchangeVerify : Type 0 where
  pub cur_seq : ℕ
  pub max_seq : ℕ
  pub step : ℕ

-- `_step <= 0`, and the number that CreateEntity and CreateGoods take, both by one turn of their loops.
abbrev pub negative : ℕ → Bool
negative a = leb (2 ^ 63) a

abbrev pub positive : ℕ → Bool
positive a = ltb 0 a && not (negative a)

pub new_exchange_verify : ℕ → ℕ → Option ExchangeVerify
new_exchange_verify max step =
    if positive step then some (record { cur_seq = 0; max_seq = max; step = step }) else none

-- `a > b` on 64 bits.
abbrev pub above : ℕ → ℕ → Bool
above a b = ltb (wrap (b + 2 ^ 63)) (wrap (a + 2 ^ 63))

abbrev pub taken : ExchangeVerify → ExchangeVerify
taken ex =
    let cur = wrap (ex.cur_seq + 1) in
    record ex {
      cur_seq = cur;
      max_seq = if above cur ex.max_seq then wrap (ex.max_seq + ex.step) else ex.max_seq;
    }

-- What is made goes with the number that it was given (NewEntity keeps it in a field that no method reads).
pub create_entity : Bytes → ℕ → ℕ → ExchangeVerify → (ℕ × Entity) × ExchangeVerify
create_entity uid kind fund ex =
    let seq = wrap (ex.cur_seq + 1) in ((seq, new_entity uid seq kind fund), taken ex)

pub create_goods : ℕ → ℕ → Bool → ExchangeVerify → (ℕ × Goods) × ExchangeVerify
create_goods belong kind stackable ex =
    let seq = ex.cur_seq in ((seq, new_good belong seq kind stackable), taken ex)

-- The errors of an exchange.
pub data Refusal : Type 0 where
  not_belonging fund_not_zero goods_not_equal nil_argument no_connection : Refusal
  of_redis of_json : Error → Refusal

pub data Outcome (A : Type 0) : Type 0 where
  done : A → Outcome A
  refuses : Refusal → Outcome A
  panics : Outcome A

module _ {A B : Type 0} where
  abbrev pub and_then : Outcome A → (A → Outcome B) → Outcome B
  and_then (done a) f = f a
  and_then (refuses e) f = refuses e
  and_then panics f = panics

-- The keys of `goodsMap`.
abbrev pub has_key : ℕ → List ℕ → Bool
has_key k [] = false
has_key k (j ∷ keys) = if j == k then true else has_key k keys

abbrev pub without : ℕ → List ℕ → List ℕ
without k [] = []
without k (j ∷ keys) = let rest = without k keys in if j == k then rest else j ∷ rest

abbrev pub opposite : ℕ → ℕ
opposite a = wrap (2 ^ 64 - a)

abbrev pub toggle : ℕ → List ℕ → List ℕ
toggle seq keys =
    if has_key (opposite seq) keys then without (opposite seq) keys else seq ∷ without seq keys

-- The first loops of ExchangeGoods.
abbrev check_owner : Option Entity → Goods → List ℕ → Outcome (List ℕ)
check_owner none g keys = panics
check_owner (some e) g keys =
    if g.belong_to == e.self_sequence
    then done (toggle g.self_sequence keys)
    else refuses not_belonging

abbrev pub check_one : Option Entity → Goods → List ℕ → Outcome (List ℕ)
check_one e g keys = if negative g.self_sequence then check_owner e g keys else done keys

pub check_each : Option Entity → List Goods → List ℕ → Outcome (List ℕ)
check_each e [] keys = done keys
check_each e (g ∷ gs) keys = and_then (check_one e g keys) (check_each e gs)

abbrev pub listed : Option (List Goods) → List Goods
listed none = []
listed (some gs) = gs

pub check_units : List ExchangeUnit → ℕ → List ℕ → Outcome (ℕ × List ℕ)
check_units [] sum keys = done (sum, keys)
check_units (u ∷ us) sum keys =
    and_then (check_each u.entity (listed u.goods) keys) (check_units us (wrap (sum + u.fund)))

-- The two tests behind them.
abbrev pub balanced : ℕ × List ℕ → Outcome (Unit {0})
balanced (zero, []) = done tt
balanced (zero, k ∷ keys) = refuses goods_not_equal
balanced (suc n, keys) = refuses fund_not_zero

-- What is written for a unit: the fund of its entity changed, and the goods that it gets as those of its entity.
pub record Written : Type 0 where
  pub entity : Entity
  pub goods : List Goods

abbrev pub received : Entity → List Goods → List Goods
received e [] = []
received e (g ∷ gs) =
    let rest = received e gs in
    if positive g.self_sequence
    then new_good e.self_sequence g.self_sequence g.g_type g.stackable ∷ rest
    else rest

abbrev pub of_entity : Entity → ExchangeUnit → Written
of_entity e u = record {
  entity = new_entity e.belong_to e.self_sequence e.entity_type (wrap (e.fund + u.fund));
  goods = received e (listed u.goods);
}

pub written : List ExchangeUnit → Outcome (List Written)
written [] = done []
written (u ∷ us) = elim u.entity [
  | none ↦ panics
  | some e ↦ and_then (written us) (λ ws. done (of_entity e u ∷ ws))
]

-- Redis by its GET and SET, and encoding/json: Unmarshal into goods that are given, its error not looked at, and
-- Marshal. A connection is never nil.
pub record Store (R : Type 0) : Type 0 where
  pub get : ℕ → R → Result Bytes
  pub put : ℕ → Bytes → R → (Option Error × R)
  pub unmarshal : Bytes → Goods → Goods
  pub marshal_entity : Entity → Result Bytes
  pub marshal_goods : Goods → Result Bytes

abbrev pub no_goods : Goods
no_goods = new_good 0 0 0 false

module _ {R : Type 0} (store : Store R) where
  -- VerifyGoods
  abbrev owner_is : Entity → Result Bytes → Outcome (Unit {0})
  owner_is e (ok reply) =
      if (store.unmarshal reply no_goods).belong_to == e.self_sequence
      then done tt
      else refuses not_belonging
  owner_is e (err x) = refuses (of_redis x)
  owner_is e panic = panics
  owner_is e stuck = panics

  pub verify_each : Entity → List Goods → R → Outcome (Unit {0})
  verify_each e [] r = done tt
  verify_each e (g ∷ gs) r =
      and_then (owner_is e (store.get g.self_sequence r)) (λ u. verify_each e gs r)

  pub verify_goods : Option Entity → Option (List Goods) → R → Outcome (Unit {0})
  verify_goods (some e) (some gs) r = verify_each e gs r
  verify_goods _ _ r = refuses nil_argument

  pub verify_units : List ExchangeUnit → R → Outcome (Unit {0})
  verify_units [] r = done tt
  verify_units (u ∷ us) r = and_then (verify_goods u.entity u.goods r) (λ x. verify_units us r)
