-- ===== src/Gate/Recover/Handlers.antt =====
-- Clients reach the handlers of modules only.
use lodos.Base.{
  suc, ◌≡◌, sym, inl, inr, Bool, Bool-cases, true, false, Option, none, some, List, [], ◌∷◌, ◌++◌,
  ◌==◌, if_true, if_false, if_both, is_empty, has_prefix, split_at, All,
}
use mathlib.Core.Path.{subst}
use lodos.Gate.Recover.{
  Answer, Surroundings, Serving, Request, session_type, handler_prefix, in_braces, msgid_of,
  write_data, write_or_error, write_first, to_result, tell, heartbeat, answered, then_heartbeat,
  requested, call_module, on_route, hash_of, on_body, on_topics, on_message, on_publish, on_recover,
  told, not_found, must_begin, bad_json, no_error,
}
use lodos.Io.Result.{Result, ok, err, panic, stuck}
use lodos.Io.Reader.{Bytes}
use lodos.Mqtt.Kinds
use lodos.Mqtt.Pack.{Pack, Variable, publish}
use lodos.Rpc.Args.{Tag}
use lodos.Rpc.Client.{CallResult, returned, failed, panicked}

-- The function of each request that was made has the prefix of a handler.
abbrev pub HandlersOnly : List Request → Type 0
HandlersOnly rs = All (λ (r : Request). has_prefix r.fn handler_prefix ≡ true) rs

HandlersOnly-append :
    (rs qs : List Request) → HandlersOnly rs → HandlersOnly qs → HandlersOnly (rs ++ qs)
HandlersOnly-append [] qs h k = k
HandlersOnly-append (r ∷ rs) qs (p, h) k = (p, HandlersOnly-append rs qs h k)

-- So it is after a call, whatever comes of it.
abbrev Safe : Result (Unit {0}) × Serving → Type 0
Safe (r, s) = HandlersOnly s.requests

module _ {Module Value : Type 0} (env : Surroundings Module Value) where
  write_data-Safe :
      (topic : Bytes) (r : Result Bytes) (s : Serving)
      → HandlersOnly s.requests
      → Safe (write_data env topic r s)
  write_data-Safe topic (ok b) s h = h
  write_data-Safe topic (err e) s h = h
  write_data-Safe topic panic s h = h
  write_data-Safe topic stuck s h = h

  write_or_error-Safe :
      (topic : Bytes) (r : Result Bytes) (s : Serving)
      → HandlersOnly s.requests
      → Safe (write_or_error env topic r s)
  write_or_error-Safe topic (ok b) s h = h
  write_or_error-Safe topic (err e) s h = write_data-Safe topic _ s h
  write_or_error-Safe topic panic s h = h
  write_or_error-Safe topic stuck s h = h

  write_first-Safe :
      (o : Option Bytes) (topic : Bytes) (vs : List Value) (e : Answer) (s : Serving)
      → HandlersOnly s.requests
      → Safe (write_first env o topic vs e s)
  write_first-Safe none topic vs e s h = write_or_error-Safe topic _ s h
  write_first-Safe (some b) topic vs e s h = h

  to_result-Safe :
      (topic : Bytes) (vs : Option (List Value)) (e : Answer) (s : Serving)
      → HandlersOnly s.requests
      → Safe (to_result env topic vs e s)
  unfolding to_result
  to_result-Safe topic none e s h = write_data-Safe topic _ s h
  to_result-Safe topic (some []) e s h = write_data-Safe topic _ s h
  to_result-Safe topic (some (v ∷ vs)) e s h =
      write_first-Safe (env.marshalled v) topic (v ∷ vs) e s h

  tell-Safe :
      (id topic : Bytes) (e : Answer) (s : Serving)
      → HandlersOnly s.requests
      → Safe (tell env id topic e s)
  tell-Safe id topic e s h = if_both Safe (is_empty id) _ _ h (to_result-Safe topic none e s h)

  heartbeat-HandlersOnly :
      (s : Serving) → HandlersOnly s.requests → HandlersOnly (heartbeat env s).requests
  heartbeat-HandlersOnly s h =
      let P : Serving → Type 0 = λ x. HandlersOnly x.requests in
      if_both P (is_empty s.session.userid) s _ h (
        if_both P _
          (record s {
            heartbeats = s.heartbeats ++ (s.session.userid ∷ []);
            last_heartbeat = env.now;
          })
          s h h)

  then_heartbeat-Safe : (r : Result (Unit {0}) × Serving) → Safe r → Safe (then_heartbeat env r)
  then_heartbeat-Safe (ok u, s) h = heartbeat-HandlersOnly s h
  then_heartbeat-Safe (err e, s) h = h
  then_heartbeat-Safe (panic, s) h = h
  then_heartbeat-Safe (stuck, s) h = h

  answered-Safe :
      (topic : Bytes) (r : CallResult (List Value)) (s : Serving)
      → HandlersOnly s.requests
      → Safe (answered env topic r s)
  answered-Safe topic (returned vs) s h = to_result-Safe topic (some vs) no_error s h
  answered-Safe topic (failed e) s h = to_result-Safe topic none (told e) s h
  answered-Safe topic panicked s h = h

  call_module-Safe :
      (m : Module) (fn id topic : Bytes) (tag : Tag) (msg : Bytes) (r : Result Bytes) (s : Serving)
      → has_prefix fn handler_prefix ≡ true
      → HandlersOnly s.requests
      → Safe (call_module env m fn id topic tag msg r s)
  call_module-Safe m fn id topic tag msg (ok b) s p h =
      let types = session_type ∷ tag ∷ [] in
      let args = b ∷ msg ∷ [] in
      if_both Safe (is_empty id) _ _
        (heartbeat-HandlersOnly (requested env fn types args false s)
          (HandlersOnly-append s.requests _ h (p, tt)))
        (then_heartbeat-Safe
          (answered env topic (env.call_args m fn types args) (requested env fn types args true s))
          (answered-Safe topic (env.call_args m fn types args) (requested env fn types args true s)
            (HandlersOnly-append s.requests _ h (p, tt))))
  call_module-Safe m fn id topic tag msg (err e) s p h = h
  call_module-Safe m fn id topic tag msg panic s p h = h
  call_module-Safe m fn id topic tag msg stuck s p h = h

  on_route-Safe :
      (o : Option Module) (typ fn id topic : Bytes) (tag : Tag) (msg : Bytes) (s : Serving)
      → HandlersOnly s.requests
      → Safe (on_route env o typ fn id topic tag msg s)
  on_route-Safe none typ fn id topic tag msg s h = tell-Safe id topic (not_found typ) s h
  on_route-Safe (some m) typ fn id topic tag msg s h =
      elim (Bool-cases (has_prefix fn handler_prefix)) [
        | inl e ↦
            subst Safe (sym (if_true (has_prefix fn handler_prefix) _ _ e))
              (call_module-Safe m fn id topic tag msg (env.serializable s.session) s e h)
        | inr e ↦
            subst Safe (sym (if_false (has_prefix fn handler_prefix) _ _ e))
              (tell-Safe id topic (must_begin fn) s h)
      ]

  on_body-Safe :
      (o : Option Bool) (typ fn id topic msg : Bytes) (s : Serving)
      → HandlersOnly s.requests
      → Safe (on_body env o typ fn id topic msg s)
  on_body-Safe none typ fn id topic msg s h = h
  on_body-Safe (some true) typ fn id topic msg s h =
      if_both Safe (env.is_json msg) _ _
        (on_route-Safe (env.route typ (hash_of env s)) typ fn id topic Tag.map msg _ h)
        (tell-Safe id topic bad_json s h)
  on_body-Safe (some false) typ fn id topic msg s h =
      on_route-Safe (env.route typ (hash_of env s)) typ fn id topic Tag.bytes msg _ h

  on_topics-Safe :
      (ts : List Bytes) (topic msg : Bytes) (s : Serving)
      → HandlersOnly s.requests
      → Safe (on_topics env ts topic msg s)
  on_topics-Safe [] topic msg s h = h
  on_topics-Safe (typ ∷ []) topic msg s h = h
  on_topics-Safe (typ ∷ fn ∷ rest) topic msg s h =
      on_body-Safe (in_braces msg) typ fn (msgid_of (typ ∷ fn ∷ rest)) topic msg s h

  on_message-Safe :
      (o : Option Bytes) (msg : Bytes) (s : Serving)
      → HandlersOnly s.requests
      → Safe (on_message env o msg s)
  on_message-Safe none msg s h = h
  on_message-Safe (some topic) msg s h = on_topics-Safe (split_at b'/' topic) topic msg s h

  on_publish-Safe :
      (v : Variable) (s : Serving) → HandlersOnly s.requests → Safe (on_publish env v s)
  on_publish-Safe (publish p) s h = on_message-Safe p.topic_name p.msg s h
  on_publish-Safe _ s h = h

  -- Whatever packet a client sends, every function that is called for it in another module has a name that
  -- begins with `HD_`.
  pub on_recover-HandlersOnly :
      (pack : Pack) (s : Serving)
      → HandlersOnly s.requests
      → HandlersOnly (on_recover env pack s).requests
  unfolding on_recover
  on_recover-HandlersOnly pack s h =
      let P : Serving → Type 0 = λ x. HandlersOnly x.requests in
      if_both P (pack.msg_type == Kinds.publish) _ _
        (on_publish-Safe pack.variable (record s { rev_num = suc s.rev_num }) h)
        (if_both P (pack.msg_type == Kinds.pingreq) _ s (heartbeat-HandlersOnly s h) h)
