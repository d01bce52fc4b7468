-- ===== src/Gate/Recover/Runs.antt =====
-- The theorems on OnRecover at concrete inputs.
use lodos.Base.{◌≡◌, refl, inl, inr, true, false, Option, none, some, List, [], ◌∷◌, arith}
use lodos.Gate.Session.{no_settings}
use lodos.Gate.Recover.{Surroundings, Serving, on_recover}
use lodos.Gate.Recover.Answers.{Told, IsSound, Same, on_recover-Told}
use lodos.Gate.Recover.Handlers.{HandlersOnly, on_recover-HandlersOnly}
use lodos.Gate.Recover.Serves.{calling, on_recover-applies}
use lodos.Gate.Recover.Quiet.{on_recover-Same}
use lodos.Io.Result.{ok}
use lodos.Io.Reader.{Bytes}
use lodos.Io.Writer.{Writer}
use lodos.Mqtt.Client.{new_client, write_msg}
use lodos.Mqtt.Kinds
use lodos.Mqtt.Pack.{Pack, Publish, publish}
use lodos.Rpc.Args.{Tag, Arg, Serializer}
use lodos.Rpc.Args.Runs.{as_it_was, plain, plain-IsJson, takes_all, custom-arrives}
use lodos.Rpc.Client.{returned, RpcClient, local_exchange}
use lodos.Rpc.Info.{no_code, blank}
use lodos.Rpc.Local.Runs.{idle_client, idle_client-IsSettled}
use lodos.Rpc.Server.{returns, FuncInfo}
use lodos.Rpc.Server.Runs.{V, no_faults, bytes-encoded}
use lodos.Utils.BeeMap.Pairs.{pairs, pairs-IsMap}

-- One module, which returns nothing to every call.
abbrev one_module : Surroundings (Unit {0}) Bytes
one_module = record {
  is_json = λ b. true;
  route = λ typ hash. some tt;
  call_args = λ m fn types args. returned [];
  marshalled = λ v. none;
  marshal = λ vs e. ok [];
  serializable = λ s. ok s.sessionid;
  traced = λ s topic msg. s;
  server_id = [];
  has_storage = false;
  min_heartbeat = 60;
  now = 1000;
}

one_module-IsSound : IsSound one_module
one_module-IsSound = record {
  errors = λ e. ([], refl);
  results = λ vs e. inl ([], refl);
  sessions = λ s. (s.sessionid, refl);
  calls = λ m fn types args. inl ([], refl);
}

abbrev pub idle_writer : Writer
idle_writer = record { sent = []; buffered = []; broken = false; faults = [] }

abbrev pub guest : Serving
guest = record {
  client = new_client 10 idle_writer 60;
  session = record {
    ip = [];
    network = [];
    userid = [];
    sessionid = b'1' ∷ [];
    serverid = [];
    settings = some no_settings;
    has_app = true;
  };
  send_num = 0;
  rev_num = 0;
  last_heartbeat = 0;
  requests = [];
  heartbeats = [];
}

-- The topics `t/HD_/7` and `t/HD_`.
abbrev with_id : Bytes
with_id = b't' ∷ b'/' ∷ b'H' ∷ b'D' ∷ b'_' ∷ b'/' ∷ b'7' ∷ []

abbrev without_id : Bytes
without_id = b't' ∷ b'/' ∷ b'H' ∷ b'D' ∷ b'_' ∷ []

abbrev published : Bytes → Publish
published topic = record { topic_name = some topic; mid = 1; msg = b'x' ∷ [] }

abbrev on_topic : Bytes → Pack
on_topic topic = record {
  msg_type = Kinds.publish;
  dup_flag = 0;
  qos_level = 0;
  retain = 0;
  length = 0;
  variable = publish (published topic);
}

on_recover-Told_example : Told with_id guest (on_recover one_module (on_topic with_id) guest)
on_recover-Told_example =
    on_recover-Told one_module one_module-IsSound (on_topic with_id) (published with_id) with_id
      (b't' ∷ []) (b'H' ∷ b'D' ∷ b'_' ∷ []) (b'7' ∷ []) b'x' [] guest refl refl refl refl refl refl

on_recover-HandlersOnly_example :
    HandlersOnly (on_recover one_module (on_topic with_id) guest).requests
on_recover-HandlersOnly_example = on_recover-HandlersOnly one_module (on_topic with_id) guest tt

on_recover-Same_example : Same one_module guest (on_recover one_module (on_topic without_id) guest)
on_recover-Same_example =
    on_recover-Same one_module (on_topic without_id) (published without_id) without_id guest refl
      refl refl (inr refl)

-- A module of this process with one function of a session and a message, which gives the message back.
abbrev second : List V → List V
second (a ∷ b ∷ rest) = b ∷ Arg.null ∷ []
second _ = Arg.null ∷ []

abbrev repeats : FuncInfo V
repeats = record {
  arity = 2;
  zero = λ k. Arg.null;
  body = λ vs. returns (second vs);
  goroutine = true;
}

abbrev serializers : Option (List (Serializer Bytes Bytes Bytes))
serializers = some (takes_all ∷ [])

abbrev this_process : RpcClient
this_process = record {
  local_client = some (
      local_exchange plain serializers pairs no_faults (λ fn. some repeats) 1000000000 9000
        idle_client);
  remote_client = none;
  redis_client = none;
}

abbrev application : Surroundings RpcClient V
application = record {
  is_json = λ b. true;
  route = λ typ hash. some this_process;
  call_args = λ m fn types args. returned [];
  marshalled = λ v. none;
  marshal = λ vs e. ok (b'!' ∷ []);
  serializable = λ s. ok s.sessionid;
  traced = λ s topic msg. s;
  server_id = [];
  has_storage = false;
  min_heartbeat = 60;
  now = 1000;
}

on_recover-applies_example :
    (on_recover
      (calling as_it_was plain serializers no_faults plain-IsJson pairs pairs-IsMap 1000000000 5
        (b'9' ∷ [])
        application)
      (on_topic with_id)
      guest).client
    ≡ (write_msg with_id (b'!' ∷ []) guest.client).1
on_recover-applies_example =
    on_recover-applies as_it_was plain serializers no_faults plain-IsJson pairs pairs-IsMap
      application (λ fn. some repeats) repeats idle_client 1000000000 1000000000 9000 5 this_process
      (b'9' ∷ []) (on_topic with_id) (published with_id) with_id (b't' ∷ [])
      (b'H' ∷ b'D' ∷ b'_' ∷ []) (b'7' ∷ []) guest (b'1' ∷ []) (Arg.other (b'1' ∷ []))
      (Arg.bytes (b'x' ∷ [])) Arg.null [] no_code blank (Tag.bytes ∷ []) ((b'x' ∷ []) ∷ [])
      (b'!' ∷ []) refl refl refl refl refl refl refl refl refl (custom-arrives _ (b'1' ∷ []))
      idle_client-IsSettled refl refl refl refl (omega arith) refl refl refl (tt, tt)
      (bytes-encoded serializers (b'x' ∷ [])) refl refl
