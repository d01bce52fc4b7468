-- ===== src/Rpc/Broker/Runs.antt =====
-- Calls through a broker on concrete inputs.
use lodos.Base.{ℕ, suc, ◌≡◌, refl, inr, true, false, none, List, [], ◌∷◌}
use lodos.Io.Result.{ok, panic}
use lodos.Io.Reader.{Bytes}
use lodos.Rpc.Broker.{
  Table, Broker, Stored, info_value, info_pointer, entry, amqp_call, amqp_on_response, redis_call,
  redis_on_response,
}
use lodos.Rpc.Broker.Answers.{amqp_call-answered, redis_call-panics}
use lodos.Rpc.Info.{RpcInfo, ResultInfo, blank, no_code}
use lodos.Rpc.Local.Once.{unused, finished}
use lodos.Utils.BeeMap.Pairs.{pairs, pairs-IsMap}

abbrev idle_table : Table (List (Bytes × Stored))
idle_table = record { call_infos = []; chans = λ a. unused; is_close = false }

abbrev ask : RpcInfo
ask = record {
  fn = b'f' ∷ [];
  reply = true;
  expired = 5000;
  cid = b'1' ∷ [];
  args_type = [];
  args = [];
}

abbrev an_answer : ResultInfo
an_answer = record {
  cid = b'1' ∷ [];
  err_code = no_code;
  error = blank;
  results_type = [];
  results = [];
}

-- A broker that counts what is published.
abbrev broker : Broker ℕ
broker = record {
  callback_queue = λ q. inr (b'q' ∷ []);
  marshal = λ queue info. inr info.cid;
  publish = λ body q. (none, suc q);
  unmarshal = λ body. inr an_answer;
}

abbrev asked : Table (List (Bytes × Stored))
asked = record idle_table { call_infos = (b'1' ∷ [], info_value (entry ask 0)) ∷ [] }

amqp_call-answered_example :
    (t : Table (List (Bytes × Stored))) × (amqp_on_response pairs broker [] asked ≡ ok t)
    × (t.chans 0 ≡ finished (an_answer ∷ []))
    × (pairs.lookup (b'1' ∷ []) t.call_infos ≡ none)
unfolding amqp_call
amqp_call-answered_example =
    amqp_call-answered pairs broker pairs-IsMap ask 0 idle_table asked 3 4 [] an_answer refl refl
      refl refl

redis_call-panics_example :
    redis_on_response pairs broker []
      (record idle_table { call_infos = (b'1' ∷ [], info_pointer (entry ask 0)) ∷ [] })
    ≡ panic
unfolding redis_call
redis_call-panics_example =
    redis_call-panics pairs broker pairs-IsMap (b'q' ∷ []) ask 0 idle_table
      (record idle_table { call_infos = (b'1' ∷ [], info_pointer (entry ask 0)) ∷ [] }) 3 4 []
      an_answer refl refl refl
