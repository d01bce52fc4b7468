-- ===== src/Gate/Recover/Answers.antt =====
-- A request of a client is answered once.
use lodos.Base.{
  ℕ, suc, ◌≡◌, refl, sym, ap, ◌∙◌, ◌⊎◌, inl, inr, Bool, true, false, Option, none, some, List, [],
  ◌∷◌, ◌++◌, ◌==◌, ◌&&◌, if_true, if_false, is_empty, has_prefix, split_at, if_both, ==_iff,
}
use mathlib.Core.Path.{subst}
use lodos.Gate.Session.{Session}
use lodos.Gate.Recover
use lodos.Gate.Recover.{
  Answer, no_error, not_found, must_begin, bad_json, told, Surroundings, Serving, Request,
  session_type, handler_prefix, in_braces, msgid_of, write, write_data, write_or_error, write_first,
  to_result, tell, heartbeat, answered, then_heartbeat, requested, call_module, on_route, to_module,
  hash_of, on_body, on_topics, on_message, on_publish, on_recover,
}
use lodos.Io.Result.{Error, Result, ok, err, panic, stuck}
use lodos.Io.Reader.{Bytes}
use lodos.Mqtt.Client.{write_msg}
use lodos.Mqtt.Kinds
use lodos.Mqtt.Pack.{Pack, Publish, publish}
use lodos.Rpc.Args.{Tag}
use lodos.Rpc.Client.{returned, failed}

-- One WriteMsg was called, on the topic.
abbrev pub Told : Bytes → Serving → Serving → Type 0
Told topic s s' =
    (body : Bytes) × (s'.client ≡ (write_msg topic body s.client).1)
    × (s'.send_num ≡ suc s.send_num)

-- The call returned and told the client.
abbrev pub Tells : Bytes → Serving → Result (Unit {0}) × Serving → Type 0
Tells topic s (r, s') = (r ≡ ok tt) × Told topic s s'

-- What the answers rely on: the application has a format for every error, and for every result or an error,
-- the session has one, and a call gives results or an error.
pub record IsSound {Module Value : Type 0} (env : Surroundings Module Value) : Type 0 where
  pub errors : (e : Answer) → (b : Bytes) × (env.marshal none e ≡ ok b)
  pub results :
      (vs : List Value) (e : Answer)
      → ((b : Bytes) × (env.marshal (some vs) e ≡ ok b))
        ⊎ ((x : Error) × (env.marshal (some vs) e ≡ err x))
  pub sessions : (s : Session) → (b : Bytes) × (env.serializable s ≡ ok b)
  pub calls :
      (m : Module) (fn : Bytes) (types : List Tag) (args : List Bytes)
      → ((vs : List Value) × (env.call_args m fn types args ≡ returned vs))
        ⊎ ((e : _) × (env.call_args m fn types args ≡ failed e))

module _ {Module Value : Type 0} (env : Surroundings Module Value) where
  write_data-Tells :
      (topic : Bytes) (r : Result Bytes) (s : Serving) (b : Bytes)
      → r ≡ ok b
      → Tells topic s (write_data env topic r s)
  write_data-Tells topic r s b h =
      subst (λ x. Tells topic s (write_data env topic x s)) (sym h) (refl, (b, refl, refl))

  -- A heartbeat writes nothing.
  abbrev pub Same : Serving → Serving → Type 0
  Same s s' = (s'.client ≡ s.client) × (s'.send_num ≡ s.send_num)

  pub heartbeat-Same : (s : Serving) → Same s (heartbeat env s)
  heartbeat-Same s =
      let kept : Same s s = (refl, refl) in
      if_both (Same s) (is_empty s.session.userid) _ _ kept (
        if_both (Same s) _
          (record s {
            heartbeats = s.heartbeats ++ (s.session.userid ∷ []);
            last_heartbeat = env.now;
          })
          s (refl, refl) kept)

  module _ (v : IsSound env) where
    marshalled-Tells :
        (topic : Bytes) (vs : List Value) (e : Answer) (s : Serving)
        → Tells topic s (write_or_error env topic (env.marshal (some vs) e) s)
    marshalled-Tells topic vs e s = elim (v.results vs e) [
      | inl (b, h) ↦
          subst (λ x. Tells topic s (write_or_error env topic x s)) (sym h) (refl, (b, refl, refl))
      | inr (x, h) ↦
          let (b, p) = v.errors (Answer.not_marshalled x) in
          subst (λ r. Tells topic s (write_or_error env topic r s)) (sym h)
            (write_data-Tells topic _ s b p)
    ]

    write_first-Tells :
        (o : Option Bytes) (topic : Bytes) (vs : List Value) (e : Answer) (s : Serving)
        → Tells topic s (write_first env o topic vs e s)
    write_first-Tells none topic vs e s = marshalled-Tells topic vs e s
    write_first-Tells (some body) topic vs e s = (refl, (body, refl, refl))

    to_result-Tells :
        (topic : Bytes) (vs : Option (List Value)) (e : Answer) (s : Serving)
        → Tells topic s (to_result env topic vs e s)
    unfolding to_result
    to_result-Tells topic none e s = let (b, p) = v.errors e in write_data-Tells topic _ s b p
    to_result-Tells topic (some []) e s = let (b, p) = v.errors e in write_data-Tells topic _ s b p
    to_result-Tells topic (some (w ∷ vs)) e s =
        write_first-Tells (env.marshalled w) topic (w ∷ vs) e s

    tell-Tells :
        (id topic : Bytes) (e : Answer) (s : Serving)
        → is_empty id ≡ false
        → Tells topic s (tell env id topic e s)
    tell-Tells id topic e s h =
        subst (Tells topic s) (sym (if_false (is_empty id) _ _ h)) (to_result-Tells topic none e s)

    then_heartbeat-Tells :
        (topic : Bytes) (s : Serving) (r : Result (Unit {0}) × Serving)
        → Tells topic s r
        → Tells topic s (then_heartbeat env r)
    then_heartbeat-Tells topic s (ok u, s') (e, (body, p, q)) =
        let (hc, hn) = heartbeat-Same s' in (e, (body, hc ∙ p, hn ∙ q))
    then_heartbeat-Tells topic s (err x, s') h = h
    then_heartbeat-Tells topic s (panic, s') h = h
    then_heartbeat-Tells topic s (stuck, s') h = h

    answered-Tells :
        (topic : Bytes) (m : Module) (fn : Bytes) (types : List Tag) (args : List Bytes)
        (s : Serving)
        → Tells topic s (answered env topic (env.call_args m fn types args) s)
    answered-Tells topic m fn types args s = elim (v.calls m fn types args) [
      | inl (vs, h) ↦
          subst (λ r. Tells topic s (answered env topic r s)) (sym h)
            (to_result-Tells topic (some vs) no_error s)
      | inr (e, h) ↦
          subst (λ r. Tells topic s (answered env topic r s)) (sym h)
            (to_result-Tells topic none (told e) s)
    ]

    call_module-Tells :
        (m : Module) (fn id topic : Bytes) (tag : Tag) (msg : Bytes) (s : Serving)
        → is_empty id ≡ false
        → Tells topic s (call_module env m fn id topic tag msg (env.serializable s.session) s)
    call_module-Tells m fn id topic tag msg s h =
        let (b, p) = v.sessions s.session in
        let types = session_type ∷ tag ∷ [] in
        let s1 = requested env fn types (b ∷ msg ∷ []) true s in
        subst (λ r. Tells topic s (call_module env m fn id topic tag msg r s)) (sym p)
          (subst (Tells topic s) (sym (if_false (is_empty id) _ _ h))
            (then_heartbeat-Tells topic s _ (answered-Tells topic m fn types (b ∷ msg ∷ []) s1)))

    on_route-Tells :
        (o : Option Module) (typ fn id topic : Bytes) (tag : Tag) (msg : Bytes) (s : Serving)
        → is_empty id ≡ false
        → Tells topic s (on_route env o typ fn id topic tag msg s)
    on_route-Tells none typ fn id topic tag msg s h = tell-Tells id topic (not_found typ) s h
    on_route-Tells (some m) typ fn id topic tag msg s h =
        if_both (Tells topic s) (has_prefix fn handler_prefix) _ _
          (call_module-Tells m fn id topic tag msg s h) (tell-Tells id topic (must_begin fn) s h)

    on_body-Tells :
        (o : Bool) (typ fn id topic msg : Bytes) (s : Serving)
        → is_empty id ≡ false
        → Tells topic s (on_body env (some o) typ fn id topic msg s)
    on_body-Tells true typ fn id topic msg s h =
        if_both (Tells topic s) (env.is_json msg) _ _
          (on_route-Tells (env.route typ (hash_of env s)) typ fn id topic Tag.map msg
            (record s { session = env.traced s.session topic msg }) h)
          (tell-Tells id topic bad_json s h)
    on_body-Tells false typ fn id topic msg s h =
        on_route-Tells (env.route typ (hash_of env s)) typ fn id topic Tag.bytes msg
          (record s { session = env.traced s.session topic msg }) h

    -- A PUBLISH that is not empty, on a topic of three parts whose last is not empty, is answered by one
    -- WriteMsg on its topic, whatever becomes of the request. (Where there is a format for the session and for
    -- every answer or its error, and calls return.)
    pub on_recover-Told :
        (pack : Pack) (p : Publish) (topic typ fn id : Bytes) (b : ℕ) (bs : Bytes) (s : Serving)
        → pack.msg_type ≡ Kinds.publish
        → pack.variable ≡ publish p
        → p.topic_name ≡ some topic
        → split_at b'/' topic ≡ typ ∷ fn ∷ id ∷ []
        → is_empty id ≡ false
        → p.msg ≡ b ∷ bs
        → Told topic s (on_recover env pack s)
    unfolding on_recover
    on_recover-Told pack p topic typ fn id b bs s hp hv ht hs hi hm =
        let s1 = record s { rev_num = suc s.rev_num } in
        let all =
          ap (λ x. on_publish env x s1) hv
          ∙ (ap (λ t. on_message env t p.msg s1) ht
              ∙ (ap (λ ts. on_topics env ts topic p.msg s1) hs
                  ∙ ap (λ m. on_body env (in_braces m) typ fn id topic m s1) hm)) in
        subst (Told topic s)
          (sym (
            if_true (pack.msg_type == Kinds.publish) _ _ ((==_iff pack.msg_type Kinds.publish).1 hp)
            ∙ ap (λ (r : Result (Unit {0}) × Serving). r.1) all))
          (on_body-Tells ((b == b'{') && (Recover.last_byte b bs == b'}')) typ fn id topic (b ∷ bs)
            s1 hi).1
