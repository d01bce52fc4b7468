-- ===== src/Gate/Recover/Serves.antt =====
-- A request of a client, from its packet to its answer.
use lodos.Base.{
  ℕ, suc, ◌*◌, ◌≤◌, ◌≡◌, sym, ap, ◌∙◌, true, false, Option, none, some, List, [], ◌∷◌, ◌==◌, ==_iff,
  if_true, if_false, is_empty, has_prefix, split_at, map, All,
}
use lodos.Gate.Recover.{
  no_error, Surroundings, Serving, session_type, handler_prefix, in_braces, write, write_first,
  write_or_error, to_result, answered, then_heartbeat, requested, call_module, on_route, hash_of,
  on_body, on_topics, on_message, on_publish, on_recover,
}
use lodos.Gate.Recover.Answers.{heartbeat-Same}
use lodos.Io.Result.{Result, ok}
use lodos.Io.Reader.{Bytes}
use lodos.Mqtt.Client.{write_msg}
use lodos.Mqtt.Kinds
use lodos.Mqtt.Pack.{Pack, Publish, publish}
use lodos.Rpc.Args.{Tag, Arg, Json, Serializer, bytes2args}
use lodos.Rpc.Args.RoundTrip.{Decoded, IsJson, IsBuiltin, arrived, bytes2args-bytes}
use lodos.Rpc.Client.{returned, failed, remote, RpcClient, call_args, expiry, local_exchange}
use lodos.Rpc.Client.Applies.{call_args-decoded}
use lodos.Rpc.Info.{Text, is_blank}
use lodos.Rpc.Local.{ClientCallInfo, LocalClient}
use lodos.Rpc.Local.Once.{IsSettled}
use lodos.Rpc.Server.{
  returns, Fault, FuncInfo, Functions, or_zero, encode_all, but_last, last, error_of,
}
use lodos.Rpc.Server.Codes.{in_values-two}
use lodos.Utils.BeeMap.{BeeMap, IsMap}
use lodos.Utils.Numbers.{ℤ}

-- The session of the agent after the handler of traces.
abbrev traced_session :
    {Module Value : Type 0} → Surroundings Module Value → Bytes → Bytes → Serving → Serving
traced_session env topic msg s = record s {
  session = env.traced s.session topic msg;
  rev_num = suc s.rev_num;
}

module _ {Module Value : Type 0} (env : Surroundings Module Value) where
  to_result-write :
      (topic : Bytes) (w : Value) (ws : List Value) (body : Bytes) (s : Serving)
      → env.marshalled w ≡ none
      → env.marshal (some (w ∷ ws)) no_error ≡ ok body
      → to_result env topic (some (w ∷ ws)) no_error s ≡ write env topic body s
  unfolding to_result
  to_result-write topic w ws body s p q =
      ap (λ o. write_first env o topic (w ∷ ws) no_error s) p
      ∙ ap (λ r. write_or_error env topic r s) q

  -- The results of the module go to the client.
  on_recover-returns :
      (pack : Pack) (p : Publish) (topic typ fn id : Bytes) (s : Serving) (m : Module) (sb : Bytes)
      (w : Value) (ws : List Value) (body : Bytes)
      → pack.msg_type ≡ Kinds.publish
      → pack.variable ≡ publish p
      → p.topic_name ≡ some topic
      → split_at b'/' topic ≡ typ ∷ fn ∷ id ∷ []
      → is_empty id ≡ false
      → in_braces p.msg ≡ some false
      → env.route typ (hash_of env s) ≡ some m
      → has_prefix fn handler_prefix ≡ true
      → env.serializable (env.traced s.session topic p.msg) ≡ ok sb
      → env.call_args m fn (session_type ∷ Tag.bytes ∷ []) (sb ∷ p.msg ∷ []) ≡ returned (w ∷ ws)
      → env.marshalled w ≡ none
      → env.marshal (some (w ∷ ws)) no_error ≡ ok body
      → (on_recover env pack s).client ≡ (write_msg topic body s.client).1
  unfolding on_recover
  on_recover-returns pack p topic typ fn id s m sb w ws body hp hv ht hs hi hb hr hf hz hc hw hm =
      let s1 = record s { rev_num = suc s.rev_num } in
      let s2 = traced_session env topic p.msg s in
      let types = session_type ∷ Tag.bytes ∷ [] in
      let s3 = requested env fn types (sb ∷ p.msg ∷ []) true s2 in
      let all =
        ap (λ x. on_publish env x s1) hv
        ∙ (ap (λ t. on_message env t p.msg s1) ht
            ∙ (ap (λ ts. on_topics env ts topic p.msg s1) hs
                ∙ (ap (λ o. on_body env o typ fn id topic p.msg s1) hb
                    ∙ (ap (λ o. on_route env o typ fn id topic Tag.bytes p.msg s2) hr
                        ∙ (if_true (has_prefix fn handler_prefix) _ _ hf
                            ∙ (ap (λ r. call_module env m fn id topic Tag.bytes p.msg r s2) hz
                                ∙ (if_false (is_empty id) _ _ hi
                                    ∙ (ap (λ r. then_heartbeat env (answered env topic r s3)) hc
                                        ∙ ap (then_heartbeat env)
                                            (to_result-write topic w ws body s3 hw hm))))))))) in
      ap (λ (x : Serving). x.client)
        (if_true (pack.msg_type == Kinds.publish) _ _ ((==_iff pack.msg_type Kinds.publish).1 hp))
      ∙ (ap (λ (r : Result (Unit {0}) × Serving). r.1.client) all
          ∙ (heartbeat-Same env (write env topic body s3).1).0)

module _ {Object StringMap Other : Type 0} (decoded : Decoded Object StringMap)
    (json : Json Object StringMap) (app : Option (List (Serializer Object StringMap Other)))
    (fault : Other → Fault) (hj : IsJson decoded json) {M : Type 0} (bm : BeeMap M ClientCallInfo)
    (laws : IsMap bm) where
  abbrev Value : Type 0
  Value = Arg Object StringMap Other

  -- The gate calls modules by their RPC clients, at the time `sent`, with the id and the seconds of a call.
  abbrev pub calling : ℕ → ℕ → Bytes → Surroundings RpcClient Value → Surroundings RpcClient Value
  calling sent seconds cid env = record env {
    call_args = λ m fn types args. call_args json app m sent seconds cid fn types args;
  }

  -- A PUBLISH on a topic `type/function/id` whose message is not empty and does not stand in braces is answered by
  -- WriteMsg with what the function returns, less its error, at the session of the client and the message; its
  -- results are marshalled as they arrive: an int has lost its sign and its high 32 bits, objects and maps of
  -- strings are what JSON makes of them. (The application routes the type to a module of this process, which has
  -- the function, with two parameters; it has a result and no error to tell and is in time, the session arrives
  -- as sv, and the results need no serializer.)
  pub on_recover-applies :
      (env : Surroundings RpcClient Value) (functions : Functions Value) (f : FuncInfo Value)
      (c : LocalClient M) (sent now later seconds : ℕ) (others : RpcClient) (cid : Bytes)
      (pack : Pack) (p : Publish) (topic typ fn id : Bytes) (s : Serving) (sb : Bytes) (sv : Value)
      (v v' : Value) (vs : List Value) (code : ℤ) (text : Text) (rt : List Tag) (rb : List Bytes)
      (body : Bytes)
      → pack.msg_type ≡ Kinds.publish
      → pack.variable ≡ publish p
      → p.topic_name ≡ some topic
      → split_at b'/' topic ≡ typ ∷ fn ∷ id ∷ []
      → is_empty id ≡ false
      → in_braces p.msg ≡ some false
      → has_prefix fn handler_prefix ≡ true
      → env.route typ (hash_of env s)
        ≡ some (record others {
          local_client = some (local_exchange json app bm fault functions now later c);
        })
      → env.serializable (env.traced s.session topic p.msg) ≡ ok sb
      → bytes2args json app session_type sb ≡ ok sv
      → IsSettled bm c
      → c.is_close ≡ false
      → c.server_is_close ≡ false
      → functions fn ≡ some f
      → f.arity ≡ 2
      → now ≤ expiry sent seconds * 1000 * 1000
      → f.body (or_zero json app fault (f.zero 0) sv ∷ Arg.bytes p.msg ∷ []) ≡ returns (v ∷ v' ∷ vs)
      → error_of json app fault (last json app fault v' vs) ≡ some (code, text)
      → is_blank text ≡ true
      → All
          (IsBuiltin {Object = Object} {StringMap = StringMap} {Other = Other})
          (but_last json app fault v (v' ∷ vs))
      → encode_all json app fault (but_last json app fault v (v' ∷ vs)) ≡ ok (rt, rb)
      → env.marshalled (arrived decoded v) ≡ none
      → env.marshal (some (map (arrived decoded) (but_last json app fault v (v' ∷ vs)))) no_error
        ≡ ok body
      → (on_recover (calling sent seconds cid env) pack s).client
        ≡ (write_msg topic body s.client).1
  on_recover-applies env functions f c sent now later seconds others cid pack p topic typ fn id s sb
        sv v v' vs code text rt rb body hp hv ht hs hi hb hf hr hz hsv hc open' server_open hfn ha
        htime hbody hl hblank hob ho hw hm =
      let m : RpcClient = record others {
        local_client = some (local_exchange json app bm fault functions now later c);
      } in
      let outs = but_last json app fault v (v' ∷ vs) in
      let called =
        call_args-decoded decoded json app fault hj bm laws functions f c sent now later seconds
          others cid fn (session_type ∷ Tag.bytes ∷ []) (sb ∷ p.msg ∷ [])
          (or_zero json app fault (f.zero 0) sv ∷ Arg.bytes p.msg ∷ []) v (v' ∷ vs) code text rt rb
          hc open' server_open hfn (sym ha) (sym ha) htime
          (in_values-two decoded json app fault hj f.zero session_type Tag.bytes sb p.msg sv
            (Arg.bytes p.msg) hsv (bytes2args-bytes json app p.msg))
          hbody hl hob ho
        ∙ if_true (is_blank text) (returned (map (arrived decoded) outs))
            (failed (remote code text)) hblank in
      on_recover-returns (calling sent seconds cid env) pack p topic typ fn id s m sb
        (arrived decoded v) (map (arrived decoded) (but_last json app fault v' vs)) body hp hv ht hs
        hi hb hr hf hz called hw hm
