-- ===== src/Rpc/Broker/Answers.antt =====
-- What becomes of the answer to a call through a broker.
use lodos.Base.{
  ℕ, ◌≡◌, refl, sym, ap, ◌∙◌, ◌⊎◌, inl, inr, Bool-cases, true, false, Option, none, some, [], ◌∷◌,
  ◌==◌, ==_iff, if_true, if_false, same, same_self, if◌then◌else◌,
}
use lodos.Io.Result.{Error, ok, panic, closed_connection}
use lodos.Io.Reader.{Bytes}
use lodos.Rpc.Info.{RpcInfo, ResultInfo}
use lodos.Rpc.Local.Once.{unused, finished}
use lodos.Rpc.Broker.{
  Table, Broker, Stored, info_value, info_pointer, as_value, entry, of_map, put_chan, taken_out,
  hand_over, deliver, on_body, State, published, waiting, amqp_call_on, amqp_call, amqp_on_response,
  redis_call_on, redis_call, redis_on_response,
}
use lodos.Utils.BeeMap.{BeeMap, IsMap}

module _ {M Q : Type 0} (bm : BeeMap M Stored) (broker : Broker Q) where
  published-keeps :
      (b : Error ⊎ Bytes) (t t' : Table M) (q q' : Q)
      → published bm broker b (t, q) ≡ (none, (t', q'))
      → t' ≡ t
  published-keeps (inr body) t t' q q' h = sym (ap (λ x. x.1.0) h)
  published-keeps (inl e) t t' q q' h = absurd (cc (ap (λ x. x.0) h))

  amqp_call_on-waiting :
      (b : Error ⊎ Bytes) (info : RpcInfo) (chan : ℕ) (t t' : Table M) (q q' : Q)
      → amqp_call_on bm broker b info chan (t, q) ≡ (none, (t', q'))
      → t' ≡ waiting bm broker info (info_value (entry info chan)) t
  amqp_call_on-waiting (inr queue) info chan t t' q q' h =
      published-keeps (broker.marshal queue info)
        (waiting bm broker info (info_value (entry info chan)) t) t' q q' h
  amqp_call_on-waiting (inl e) info chan t t' q q' h = absurd (cc (ap (λ x. x.0) h))

  redis_call_on-waiting :
      (b : Error ⊎ Bytes) (info : RpcInfo) (chan : ℕ) (t t' : Table M) (q q' : Q)
      → redis_call_on bm broker b info chan (t, q) ≡ (none, (t', q'))
      → t' ≡ waiting bm broker info (info_pointer (entry info chan)) t
  redis_call_on-waiting (inr body) info chan t t' q q' h =
      published-keeps (inr body) (waiting bm broker info (info_pointer (entry info chan)) t) t' q q'
        h
  redis_call_on-waiting (inl e) info chan t t' q q' h = absurd (cc (ap (λ x. x.0) h))

  -- A call without an error is one on a client that is open.
  open-call :
      (t t' : Table M) (q q' : Q) (r : Option Error × State bm broker)
      → (if t.is_close then (some closed_connection, (t, q)) else r) ≡ (none, (t', q'))
      → (t.is_close ≡ false) × (r ≡ (none, (t', q')))
  open-call t t' q q' r h = elim (Bool-cases t.is_close) [
    | inl e ↦ absurd (cc (ap (λ x. x.0) (sym (if_true t.is_close _ r e) ∙ h)))
    | inr e ↦ (e, sym (if_false t.is_close _ r e) ∙ h)
  ]

  module _ (laws : IsMap bm) where
    -- The body of an answer to a call finds what the call left.
    on_body-waiting :
        (v : Stored) (info : RpcInfo) (r : ResultInfo) (t : Table M)
        → same r.cid info.cid ≡ true
        → on_body bm as_value (inr r) (waiting bm broker info v t)
          ≡ hand_over bm (as_value v) r (taken_out bm r.cid (waiting bm broker info v t))
    on_body-waiting v info r t e =
        ap (λ o. deliver bm as_value o r (waiting bm broker info v t))
          (laws.lookup-insert r.cid info.cid v t.call_infos ∙ if_true (same r.cid info.cid) _ _ e)

    hand_over-eq :
        (info : RpcInfo) (chan : ℕ) (r : ResultInfo) (t : Table M)
        → t.chans chan ≡ unused
        → hand_over bm (some (entry info chan)) r t ≡ ok (put_chan bm chan (finished (r ∷ [])) t)
    hand_over-eq info chan r t h = rw h

    -- A call through RabbitMQ that gives no error, on a channel that is new, and then a message from the broker that is the
    -- answer to it: the caller has that one result, the channel is closed, and the call waits no more.
    pub amqp_call-answered :
        (info : RpcInfo) (chan : ℕ) (t t' : Table M) (q q' : Q) (body : Bytes) (r : ResultInfo)
        → t.chans chan ≡ unused
        → amqp_call bm broker info chan (t, q) ≡ (none, (t', q'))
        → broker.unmarshal body ≡ inr r
        → same r.cid info.cid ≡ true
        → (t'' : Table M) × (amqp_on_response bm broker body t' ≡ ok t'')
          × (t''.chans chan ≡ finished (r ∷ []))
          × (bm.lookup r.cid t''.call_infos ≡ none)
    unfolding amqp_call amqp_on_response
    amqp_call-answered info chan t t' q q' body r fresh h dec e =
        let w = waiting bm broker info (info_value (entry info chan)) t in
        let (opened, called) = open-call t t' q q' _ h in
        let p = amqp_call_on-waiting (broker.callback_queue q) info chan t t' q q' called in
        (
          put_chan bm chan (finished (r ∷ [])) (taken_out bm r.cid w),
          ap (λ b. of_map bm broker t'.is_close b t') dec
              ∙ (ap (λ (x : Table M). of_map bm broker x.is_close (inr r) x) p
                  ∙ ap (λ b. of_map bm broker b (inr r) w) opened
                  ∙ (on_body-waiting (info_value (entry info chan)) info r t e
                      ∙ hand_over-eq info chan r (taken_out bm r.cid w) fresh)),
          if_true (chan == chan) _ _ ((==_iff chan chan).1 refl),
          laws.lookup-delete r.cid r.cid w.call_infos
              ∙ if_true (same r.cid r.cid) _ _ (same_self r.cid),
        )

    -- A call through Redis that gives no error, and then a message from the broker that is the answer to it: the client
    -- panics in its goroutine, which ends the process.
    pub redis_call-panics :
        (queue : Bytes) (info : RpcInfo) (chan : ℕ) (t t' : Table M) (q q' : Q) (body : Bytes)
        (r : ResultInfo)
        → redis_call bm broker queue info chan (t, q) ≡ (none, (t', q'))
        → broker.unmarshal body ≡ inr r
        → same r.cid info.cid ≡ true
        → redis_on_response bm broker body t' ≡ panic
    unfolding redis_call redis_on_response
    redis_call-panics queue info chan t t' q q' body r h dec e =
        let p =
          redis_call_on-waiting (broker.marshal queue info) info chan t t' q q'
            (open-call t t' q q' _ h).1 in
        ap (λ b. on_body bm as_value b t') dec
        ∙ (ap (on_body bm as_value (inr r)) p
            ∙ on_body-waiting (info_pointer (entry info chan)) info r t e)
