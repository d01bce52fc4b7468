-- ===== src/Gate/Recover.antt =====
-- gate/base/mqtt_agent.go: OnRecover, which hands a packet of a client to the module that it names.
pub mod Answers
pub mod Handlers
pub mod Quiet
pub mod Serves
pub mod Runs
use lodos.Base.{
  ℕ, suc, ◌+◌, Bool, true, false, Option, none, some, List, [], ◌∷◌, ◌++◌, ltb, ◌==◌, ◌&&◌,
  if◌then◌else◌, is_empty, has_prefix, split_at,
}
use lodos.Gate.Session.{Session}
use lodos.Io.Result.{Io, Error, Result, ok, err, panic, stuck}
use lodos.Io.Reader.{Bytes}
use lodos.Mqtt.Client.{Client, write_msg}
use lodos.Mqtt.Kinds
use lodos.Mqtt.Pack.{Pack, Variable, Publish, publish}
use lodos.Rpc.Args.{Tag}
use lodos.Rpc.Client.{CallError, remote, CallResult, returned, failed, panicked}
use lodos.Rpc.Info.{Text}
use lodos.Utils.Numbers.{ℤ, pos, negsuc}

-- The texts of errors that a client gets, one constructor for each text of the source.
pub data Answer : Type 0 where
  no_error bad_json in_server : Answer
  not_found must_begin : Bytes → Answer
  reason : Text → Answer
  other_error : CallError → Answer
  not_marshalled : Error → Answer

-- A call that the gate makes for a client, and whether it waits for the results.
pub record Request : Type 0 where
  pub fn : Bytes
  pub args_type : List Tag
  pub args : List Bytes
  pub waits : Bool

-- What OnRecover calls: encoding/json, the application with its modules and the format of its answers, the
-- format of sessions, the handler of traces (with CreateRootSpan), and the clock in seconds.
pub record Surroundings (Module Value : Type 0) : Type 0 where
  pub is_json : Bytes → Bool
  pub route : Bytes → Bytes → Option Module
  pub call_args : Module → Bytes → List Tag → List Bytes → CallResult (List Value)
  pub marshalled : Value → Option Bytes
  pub marshal : Option (List Value) → Answer → Result Bytes
  pub serializable : Session → Result Bytes
  pub traced : Session → Bytes → Bytes → Session
  pub server_id : Bytes
  pub has_storage : Bool
  pub min_heartbeat : ℕ
  pub now : ℕ

-- The agent of a client that has logged in, with its counters, the calls that it has made and the users whose heartbeat it has stored.
pub record Serving : Type 0 where
  pub client : Client
  pub session : Session
  pub send_num : ℕ
  pub rev_num : ℕ
  pub last_heartbeat : ℕ
  pub requests : List Request
  pub heartbeats : List Bytes

-- `"HD_"`
abbrev pub handler_prefix : Bytes
handler_prefix = b'H' ∷ b'D' ∷ b'_' ∷ []

-- `RPC_PARAM_SESSION_TYPE`
abbrev pub session_type : Tag
session_type = Tag.custom (b'S' ∷ b'E' ∷ b'S' ∷ b'S' ∷ b'I' ∷ b'O' ∷ b'N' ∷ [])

abbrev last_byte : ℕ → Bytes → ℕ
last_byte b [] = b
last_byte b (c ∷ cs) = last_byte c cs

-- `msg[0] == '{' && msg[len(msg)-1] == '}'`; an empty message is an index out of range.
abbrev pub in_braces : Bytes → Option Bool
in_braces [] = none
in_braces (b ∷ bs) = some ((b == b'{') && (last_byte b bs == b'}'))

-- The id of a message is the third part of its topic of three.
abbrev pub msgid_of : List Bytes → Bytes
msgid_of (a ∷ b ∷ c ∷ []) = c
msgid_of _ = []

abbrev of_code : ℤ → Text → Answer
of_code (pos n) text = in_server
of_code (negsuc n) text = reason text

-- The switch on the error of a call.
abbrev pub told : CallError → Answer
told (remote code text) = of_code code text
told e = other_error e

module _ {Module Value : Type 0} (env : Surroundings Module Value) where
  -- WriteMsg, whose error is dropped.
  abbrev pub write : Bytes → Bytes → Serving → Result (Unit {0}) × Serving
  write topic body s =
      (ok tt, record s { client = (write_msg topic body s.client).1; send_num = suc s.send_num })

  -- `br, _ := ProtocolMarshal(...)`: with an error br is nil, and br.GetData() panics.
  abbrev write_data : Bytes → Result Bytes → Serving → Result (Unit {0}) × Serving
  write_data topic (ok body) s = write topic body s
  write_data topic _ s = (panic, s)

  abbrev write_or_error : Bytes → Result Bytes → Serving → Result (Unit {0}) × Serving
  write_or_error topic (ok body) s = write topic body s
  write_or_error topic (err e) s = write_data topic (env.marshal none (not_marshalled e)) s
  write_or_error topic panic s = (panic, s)
  write_or_error topic stuck s = (stuck, s)

  -- `case module.ProtocolMarshal` gives its own bytes.
  abbrev write_first :
      Option Bytes → Bytes → List Value → Answer → Serving → Result (Unit {0}) × Serving
  write_first none topic vs e s = write_or_error topic (env.marshal (some vs) e) s
  write_first (some body) topic vs e s = write topic body s

  -- toResult
  pub to_result : Bytes → Option (List Value) → Answer → Serving → Result (Unit {0}) × Serving
  to_result topic none e s = write_data topic (env.marshal none e) s
  to_result topic (some []) e s = write_data topic (env.marshal none e) s
  to_result topic (some (v ∷ vs)) e s = write_first (env.marshalled v) topic (v ∷ vs) e s

  -- `if msgid != "" { toResult(...) }`
  abbrev tell : Bytes → Bytes → Answer → Serving → Result (Unit {0}) × Serving
  tell msgid topic e s = if is_empty msgid then (ok tt, s) else to_result topic none e s

  -- The heartbeat of a bound user, when the last one is longer ago than the gate asks for.
  abbrev pub heartbeat : Serving → Serving
  heartbeat s =
      if is_empty s.session.userid
      then s
      else if ltb (s.last_heartbeat + env.min_heartbeat) env.now && env.has_storage
      then record s {
        heartbeats = s.heartbeats ++ (s.session.userid ∷ []);
        last_heartbeat = env.now;
      }
      else s

  abbrev answered : Bytes → CallResult (List Value) → Serving → Result (Unit {0}) × Serving
  answered topic (returned vs) s = to_result topic (some vs) no_error s
  answered topic (failed e) s = to_result topic none (told e) s
  answered topic panicked s = (panic, s)

  abbrev then_heartbeat : Result (Unit {0}) × Serving → Result (Unit {0}) × Serving
  then_heartbeat (ok u, s) = (ok u, heartbeat s)
  then_heartbeat r = r

  abbrev requested : Bytes → List Tag → List Bytes → Bool → Serving → Serving
  requested fn args_type args waits s = record s {
    requests =
        s.requests ++ (record { fn = fn; args_type = args_type; args = args; waits = waits } ∷ []);
  }

  -- CallArgs or CallArgsNR, whose error is only logged.
  abbrev call_module :
      Module
      → Bytes
      → Bytes
      → Bytes
      → Tag
      → Bytes
      → Result Bytes
      → Serving
      → Result (Unit {0}) × Serving
  call_module m fn msgid topic tag msg (ok b) s =
      let types = session_type ∷ tag ∷ [] in
      let args = b ∷ msg ∷ [] in
      if is_empty msgid
      then then_heartbeat (ok tt, requested fn types args false s)
      else then_heartbeat
          (answered topic (env.call_args m fn types args) (requested fn types args true s))
  call_module m fn msgid topic tag msg (err e) s = (ok tt, s)
  call_module m fn msgid topic tag msg panic s = (panic, s)
  call_module m fn msgid topic tag msg stuck s = (stuck, s)

  abbrev on_route :
      Option Module
      → Bytes
      → Bytes
      → Bytes
      → Bytes
      → Tag
      → Bytes
      → Serving
      → Result (Unit {0}) × Serving
  on_route none typ fn msgid topic tag msg s = tell msgid topic (not_found typ) s
  on_route (some m) typ fn msgid topic tag msg s =
      if has_prefix fn handler_prefix
      then call_module m fn msgid topic tag msg (env.serializable s.session) s
      else tell msgid topic (must_begin fn) s

  abbrev hash_of : Serving → Bytes
  hash_of s = if is_empty s.session.userid then env.server_id else s.session.userid

  abbrev to_module :
      Bytes → Bytes → Bytes → Bytes → Tag → Bytes → Serving → Result (Unit {0}) × Serving
  to_module typ fn msgid topic tag msg s =
      on_route (env.route typ (hash_of s)) typ fn msgid topic tag msg
        (record s { session = env.traced s.session topic msg })

  abbrev on_body :
      Option Bool → Bytes → Bytes → Bytes → Bytes → Bytes → Serving → Result (Unit {0}) × Serving
  on_body none typ fn msgid topic msg s = (panic, s)
  on_body (some true) typ fn msgid topic msg s =
      if env.is_json msg
      then to_module typ fn msgid topic Tag.map msg s
      else tell msgid topic bad_json s
  on_body (some false) typ fn msgid topic msg s = to_module typ fn msgid topic Tag.bytes msg s

  abbrev on_topics : List Bytes → Bytes → Bytes → Serving → Result (Unit {0}) × Serving
  on_topics (typ ∷ fn ∷ rest) topic msg s =
      on_body (in_braces msg) typ fn (msgid_of (typ ∷ fn ∷ rest)) topic msg s
  on_topics _ topic msg s = (ok tt, s)

  abbrev on_message : Option Bytes → Bytes → Serving → Result (Unit {0}) × Serving
  on_message none msg s = (panic, s)
  on_message (some topic) msg s = on_topics (split_at b'/' topic) topic msg s

  abbrev on_publish : Variable → Serving → Result (Unit {0}) × Serving
  on_publish (publish p) s = on_message p.topic_name p.msg s
  on_publish _ s = (panic, s)

  -- The deferred function recovers from a panic.
  pub on_recover : Pack → Serving → Serving
  on_recover pack s =
      if pack.msg_type == Kinds.publish
      then (on_publish pack.variable (record s { rev_num = suc s.rev_num })).1
      else if pack.msg_type == Kinds.pingreq
      then heartbeat s
      else s
