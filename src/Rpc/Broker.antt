-- ===== src/Rpc/Broker.antt =====
-- rpc/base/amqp_client.go and redis_client.go: the clients that call through a broker. RabbitMQ, Redis and proto are
-- parameters.
pub mod Answers
mod Runs
use lodos.Base.{
  ℕ, ◌⊎◌, inl, inr, Bool, true, false, Option, none, some, List, [], ◌∷◌, ◌++◌, ltb, ◌==◌,
  if◌then◌else◌,
}
use lodos.Io.Result.{Error, Result, ok, err, panic, stuck, closed_connection}
use lodos.Io.Reader.{Bytes}
use lodos.Rpc.Info.{Text, timeout, said, RpcInfo, ResultInfo, error_info, no_code}
use lodos.Rpc.Local.{Chan, ClientCallInfo, send, close}
use lodos.Utils.BeeMap.{BeeMap}

-- What the clients keep: the calls that wait, in a map, and whether the client is closed, which is whether Done has come to
-- its end. `chans` are the channels of the callers.
pub record Table (M : Type 0) : Type 0 where
  pub call_infos : M
  pub chans : ℕ → Chan
  pub is_close : Bool

-- A broker, by its queue: the name of the queue for the answers (of RabbitAgent, or one that the client of Redis made),
-- proto.Marshal of a request with that name, the publishing, and proto.Unmarshal of an answer.
pub record Broker (Q : Type 0) : Type 0 where
  pub callback_queue : Q → Error ⊎ Bytes
  pub marshal : Bytes → RpcInfo → Error ⊎ Bytes
  pub publish : Bytes → Q → (Option Error × Q)
  pub unmarshal : Bytes → Error ⊎ ResultInfo

abbrev late_text : Bytes
late_text =
    b't' ∷ b'i' ∷ b'm' ∷ b'e' ∷ b'o' ∷ b'u' ∷ b't' ∷ b':' ∷ b' ' ∷ b'T' ∷ b'h' ∷ b'i' ∷ b's' ∷ b' '
    ∷ b'i' ∷ b's' ∷ b' ' ∷ b'C' ∷ b'a' ∷ b'l' ∷ b'l' ∷ []

-- What stands in the map: a ClientCallInfo (AMQP) or a pointer to one (Redis).
pub data Stored : Type 0 where
  info_value : ClientCallInfo → Stored
  info_pointer : ClientCallInfo → Stored

-- `x.(ClientCallInfo)` and `x.(*ClientCallInfo)`, which panic where they give none.
abbrev pub as_value : Stored → Option ClientCallInfo
as_value (info_value i) = some i
as_value (info_pointer i) = none

abbrev pub as_pointer : Stored → Option ClientCallInfo
as_pointer (info_value i) = none
as_pointer (info_pointer i) = some i

abbrev pub entry : RpcInfo → ℕ → ClientCallInfo
entry info chan = record { correlation_id = info.cid; timeout_at = info.expired; call_chan = chan }

module _ {M : Type 0} (bm : BeeMap M Stored) where
  abbrev pub put_chan : ℕ → Chan → Table M → Table M
  put_chan a ch t = record t { chans = λ b. if b == a then ch else t.chans b }

  abbrev after_close : Result Chan → ℕ → Table M → Result (Table M)
  after_close (ok ch) a t = ok (put_chan a ch t)
  after_close (err e) a t = err e
  after_close panic a t = panic
  after_close stuck a t = stuck

  abbrev after_send : Result Chan → ℕ → Table M → Result (Table M)
  after_send (ok ch) a t = after_close (close ch) a t
  after_send (err e) a t = err e
  after_send panic a t = panic
  after_send stuck a t = stuck

  -- A result is sent to the caller of an entry that was taken out, and its channel is closed.
  abbrev pub hand_over : Option ClientCallInfo → ResultInfo → Table M → Result (Table M)
  hand_over none r t = panic
  hand_over (some i) r t = after_send (send r (t.chans i.call_chan)) i.call_chan t

  abbrev pub taken_out : Bytes → Table M → Table M
  taken_out key t = record t { call_infos = bm.delete key t.call_infos }

  abbrev and_then : Result (Table M) → (Table M → Result (Table M)) → Result (Table M)
  and_then (ok t) f = f t
  and_then (err e) f = err e
  and_then panic f = panic
  and_then stuck f = stuck

  -- An answer from the broker, its type assertion given; one that is not decoded, and one that nobody waits for any
  -- more, are dropped.
  abbrev deliver :
      (Stored → Option ClientCallInfo) → Option Stored → ResultInfo → Table M → Result (Table M)
  deliver assert none r t = ok t
  deliver assert (some v) r t = hand_over (assert v) r (taken_out r.cid t)

  abbrev pub on_body :
      (Stored → Option ClientCallInfo) → Error ⊎ ResultInfo → Table M → Result (Table M)
  on_body assert (inr r) t = deliver assert (bm.lookup r.cid t.call_infos) r t
  on_body assert (inl e) t = ok t

  -- The loops of on_timeout_handle over the entries, at `now` in milliseconds, with the result for an entry.
  abbrev expire :
      (Stored → Option ClientCallInfo)
      → (ClientCallInfo → ResultInfo)
      → ℕ
      → Bytes
      → Option ClientCallInfo
      → Table M
      → Result (Table M)
  expire assert late now key none t = panic
  expire assert late now key (some i) t =
      if ltb i.timeout_at now then hand_over (some i) (late i) (taken_out key t) else ok t

  pub expire_each :
      (Stored → Option ClientCallInfo)
      → (ClientCallInfo → ResultInfo)
      → ℕ
      → List (Bytes × Stored)
      → Table M
      → Result (Table M)
  expire_each assert late now [] t = ok t
  expire_each assert late now ((key, v) ∷ rest) t =
      and_then (expire assert late now key (assert v) t) (expire_each assert late now rest)

  -- The loops of Done.
  abbrev shut : Option ClientCallInfo → Bytes → Table M → Result (Table M)
  shut none key t = panic
  shut (some i) key t = after_close (close (t.chans i.call_chan)) i.call_chan (taken_out key t)

  pub shut_each :
      (Stored → Option ClientCallInfo) → List (Bytes × Stored) → Table M → Result (Table M)
  shut_each assert [] t = ok t
  shut_each assert ((key, v) ∷ rest) t = and_then (shut (assert v) key t) (shut_each assert rest)

  module _ {Q : Type 0} (broker : Broker Q) where
    abbrev pub State : Type 0
    State = Table M × Q

    abbrev pub published : Error ⊎ Bytes → State → Option Error × State
    published (inr body) (t, q) = let (e, q') = broker.publish body q in (e, (t, q'))
    published (inl e) s = (some e, s)

    abbrev pub waiting : RpcInfo → Stored → Table M → Table M
    waiting info v t = record t { call_infos = bm.insert info.cid v t.call_infos }

    -- Call of the client of AMQP: the entry is made before the request is encoded.
    abbrev pub amqp_call_on : Error ⊎ Bytes → RpcInfo → ℕ → State → Option Error × State
    amqp_call_on (inr queue) info chan (t, q) =
        published (broker.marshal queue info) (waiting info (info_value (entry info chan)) t, q)
    amqp_call_on (inl e) info chan s = (some e, s)

    pub amqp_call : RpcInfo → ℕ → State → Option Error × State
    amqp_call info chan (t, q) =
        if t.is_close
        then (some closed_connection, (t, q))
        else amqp_call_on (broker.callback_queue q) info chan (t, q)

    pub amqp_call_nr : RpcInfo → State → Option Error × State
    amqp_call_nr info (t, q) =
        if t.is_close
        then (some closed_connection, (t, q))
        else published (broker.marshal [] info) (t, q)

    -- Done leaves `callInfos` nil: the Get of an answer panics on it.
    abbrev of_map : Bool → Error ⊎ ResultInfo → Table M → Result (Table M)
    of_map is_nil (inl e) t = ok t
    of_map false (inr r) t = on_body as_value (inr r) t
    of_map true (inr r) t = panic

    pub amqp_on_response : Bytes → Table M → Result (Table M)
    amqp_on_response body t = of_map t.is_close (broker.unmarshal body) t

    pub amqp_on_timeout : ℕ → Table M → Result (Table M)
    amqp_on_timeout now t =
        if t.is_close
        then ok t
        else expire_each as_value
            (λ i. error_info i.correlation_id no_code (timeout i.correlation_id)) now
            (bm.items t.call_infos) t

    -- Done closes its channel `done` behind its send, which the loop receives (it is taken to run still), so that the
    -- send of a second one panics. From its end on `callInfos` is nil.
    pub amqp_done : Table M → Result (Table M)
    amqp_done t =
        if t.is_close
        then panic
        else shut_each as_value (bm.items t.call_infos) (record t { is_close = true })

    -- Call of the client of Redis: the entry is made once the request is encoded.
    abbrev pub redis_call_on : Error ⊎ Bytes → RpcInfo → ℕ → State → Option Error × State
    redis_call_on (inr body) info chan (t, q) =
        published (inr body) (waiting info (info_pointer (entry info chan)) t, q)
    redis_call_on (inl e) info chan s = (some e, s)

    pub redis_call : Bytes → RpcInfo → ℕ → State → Option Error × State
    redis_call queue info chan (t, q) =
        if t.is_close
        then (some closed_connection, (t, q))
        else redis_call_on (broker.marshal queue info) info chan (t, q)

    pub redis_call_nr : RpcInfo → State → Option Error × State
    redis_call_nr info s = published (broker.marshal [] info) s

    pub redis_on_response : Bytes → Table M → Result (Table M)
    redis_on_response body t = on_body as_value (broker.unmarshal body) t

    -- The result for a call of Redis that is late has no id.
    pub redis_on_timeout : ℕ → Table M → Result (Table M)
    redis_on_timeout now t =
        expire_each as_pointer (λ i. error_info [] no_code (said late_text)) now
          (bm.items t.call_infos) t

    -- As for AMQP, but the map stays, and its channel is `timeout_done`.
    pub redis_done : Table M → Result (Table M)
    redis_done t =
        if t.is_close
        then panic
        else shut_each as_pointer (bm.items t.call_infos) (record t { is_close = true })
