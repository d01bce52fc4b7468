-- ===== src/Gate/Recover/Quiet.antt =====
-- Packets that a client gets no message for.
use lodos.Base.{
  suc, ◌≡◌, refl, sym, ap, ◌∙◌, ◌⊎◌, inl, inr, Bool, true, false, Option, none, some, List, [], ◌∷◌,
  ◌==◌, ==_iff, if_true, if_both, is_empty, has_prefix, split_at,
}
use mathlib.Core.Path.{subst}
use lodos.Gate.Recover.{
  Surroundings, Serving, session_type, handler_prefix, in_braces, msgid_of, tell, requested,
  call_module, on_route, hash_of, on_body, on_topics, on_message, on_publish, on_recover, not_found,
  must_begin, bad_json,
}
use lodos.Gate.Recover.Answers.{Same, heartbeat-Same}
use lodos.Io.Result.{Result, ok, err, panic, stuck}
use lodos.Io.Reader.{Bytes}
use lodos.Mqtt.Kinds
use lodos.Mqtt.Pack.{Pack, Publish, publish}
use lodos.Rpc.Args.{Tag}

module _ {Module Value : Type 0} (env : Surroundings Module Value) where
  abbrev Quiet : Serving → Result (Unit {0}) × Serving → Type 0
  Quiet s (r, s') = Same env s s'

  call_module-Quiet :
      (m : Module) (fn id topic : Bytes) (tag : Tag) (msg : Bytes) (r : Result Bytes) (s : Serving)
      → is_empty id ≡ true
      → Quiet s (call_module env m fn id topic tag msg r s)
  call_module-Quiet m fn id topic tag msg (ok b) s h =
      subst (Quiet s) (sym (if_true (is_empty id) _ _ h))
        (heartbeat-Same env (requested env fn (session_type ∷ tag ∷ []) (b ∷ msg ∷ []) false s))
  call_module-Quiet m fn id topic tag msg (err e) s h = (refl, refl)
  call_module-Quiet m fn id topic tag msg panic s h = (refl, refl)
  call_module-Quiet m fn id topic tag msg stuck s h = (refl, refl)

  tell-Quiet :
      (id topic : Bytes) (e : _) (s : Serving)
      → is_empty id ≡ true
      → Quiet s (tell env id topic e s)
  tell-Quiet id topic e s h = subst (Quiet s) (sym (if_true (is_empty id) _ _ h)) (refl, refl)

  on_route-Quiet :
      (o : Option Module) (typ fn id topic : Bytes) (tag : Tag) (msg : Bytes) (s : Serving)
      → is_empty id ≡ true
      → Quiet s (on_route env o typ fn id topic tag msg s)
  on_route-Quiet none typ fn id topic tag msg s h = tell-Quiet id topic (not_found typ) s h
  on_route-Quiet (some m) typ fn id topic tag msg s h =
      if_both (Quiet s) (has_prefix fn handler_prefix) _ _
        (call_module-Quiet m fn id topic tag msg (env.serializable s.session) s h)
        (tell-Quiet id topic (must_begin fn) s h)

  on_body-Quiet :
      (o : Option Bool) (typ fn id topic msg : Bytes) (s : Serving)
      → (o ≡ none) ⊎ (is_empty id ≡ true)
      → Quiet s (on_body env o typ fn id topic msg s)
  on_body-Quiet none typ fn id topic msg s h = (refl, refl)
  on_body-Quiet (some b) typ fn id topic msg s (inl h) = absurd (cc h)
  on_body-Quiet (some true) typ fn id topic msg s (inr h) =
      if_both (Quiet s) (env.is_json msg) _ _
        (on_route-Quiet (env.route typ (hash_of env s)) typ fn id topic Tag.map msg
          (record s { session = env.traced s.session topic msg }) h)
        (tell-Quiet id topic bad_json s h)
  on_body-Quiet (some false) typ fn id topic msg s (inr h) =
      on_route-Quiet (env.route typ (hash_of env s)) typ fn id topic Tag.bytes msg
        (record s { session = env.traced s.session topic msg }) h

  on_topics-Quiet :
      (ts : List Bytes) (topic msg : Bytes) (s : Serving)
      → (msg ≡ []) ⊎ (is_empty (msgid_of ts) ≡ true)
      → Quiet s (on_topics env ts topic msg s)
  on_topics-Quiet [] topic msg s h = (refl, refl)
  on_topics-Quiet (typ ∷ []) topic msg s h = (refl, refl)
  on_topics-Quiet (typ ∷ fn ∷ rest) topic msg s (inl h) =
      on_body-Quiet (in_braces msg) typ fn (msgid_of (typ ∷ fn ∷ rest)) topic msg s
        (inl (ap in_braces h))
  on_topics-Quiet (typ ∷ fn ∷ rest) topic msg s (inr h) =
      on_body-Quiet (in_braces msg) typ fn (msgid_of (typ ∷ fn ∷ rest)) topic msg s (inr h)

  -- At a PUBLISH on a topic without the id of a message, and at one that is empty, OnRecover writes nothing to the
  -- client. (The PUBACK or PUBREC of waitPack, for a PUBLISH at QoS 1 or 2, is not of OnRecover.)
  pub on_recover-Same :
      (pack : Pack) (p : Publish) (topic : Bytes) (s : Serving)
      → pack.msg_type ≡ Kinds.publish
      → pack.variable ≡ publish p
      → p.topic_name ≡ some topic
      → (p.msg ≡ []) ⊎ (is_empty (msgid_of (split_at b'/' topic)) ≡ true)
      → Same env s (on_recover env pack s)
  unfolding on_recover
  on_recover-Same pack p topic s hp hv ht h =
      let s1 = record s { rev_num = suc s.rev_num } in
      subst (Same env s)
        (sym (
          if_true (pack.msg_type == Kinds.publish) _ _ ((==_iff pack.msg_type Kinds.publish).1 hp)
          ∙ ap (λ (r : Result (Unit {0}) × Serving). r.1)
              (ap (λ x. on_publish env x s1) hv ∙ ap (λ t. on_message env t p.msg s1) ht)))
        (on_topics-Quiet (split_at b'/' topic) topic p.msg s1 h)
