-- ===== src/Rpc/Local.antt =====
-- rpc/base/local_client.go and local_server.go: calls inside a process.
pub mod Once
pub mod Inserts
pub mod Calls
pub mod Runs
use lodos.Base.{
  ℕ, suc, ◌+◌, ◌/◌, Bool, true, false, Option, none, some, List, [], ◌∷◌, ◌++◌, ltb, ◌==◌,
  if◌then◌else◌,
}
use lodos.Io.Result.{Error, Result, ok, err, panic, stuck, closed_connection}
use lodos.Io.Reader.{Bytes}
use lodos.Rpc.Info.{Text, timeout, RpcInfo, ResultInfo, error_info, server_expired}
use lodos.Utils.BeeMap.{BeeMap}

-- The channel on which a caller waits for its result: what was sent on it, and whether it is closed.
pub record Chan : Type 0 where
  pub sent : List ResultInfo
  pub closed : Bool

-- A send and a close panic on a closed channel. (The channel of a call holds one result, so that the first
-- send does not wait.)
abbrev pub send : ResultInfo → Chan → Result Chan
send r ch = if ch.closed then panic else ok (record ch { sent = ch.sent ++ (r ∷ []) })

abbrev pub close : Chan → Result Chan
close ch = if ch.closed then panic else ok (record ch { closed = true })

-- `ClientCallInfo`; a channel is known by its number.
pub record ClientCallInfo : Type 0 where
  pub correlation_id : Bytes
  pub timeout_at : ℕ
  pub call_chan : ℕ

-- The client, the channels that its callers have made, and the requests that it has written to the server.
pub record LocalClient (M : Type 0) : Type 0 where
  pub call_infos : M
  pub chans : ℕ → Chan
  pub next_chan : ℕ
  pub is_close : Bool
  pub server_is_close : Bool
  pub written : List RpcInfo

-- What happens to the client: the calls, and the inputs of its loop.
pub data Event : Type 0 where
  calls : RpcInfo → Event
  calls_nr : RpcInfo → Event
  answers : ResultInfo → Event
  ticks : ℕ → Event
  ends : Event
  stops : Event

module _ {M : Type 0} (bm : BeeMap M ClientCallInfo) where
  abbrev pub put_chan : ℕ → Chan → LocalClient M → LocalClient M
  put_chan a ch c = record c { chans = λ b. if b == a then ch else c.chans b }

  -- What localServer.WriteToRpcServer puts on the channel to the server; its answer is not looked at.
  abbrev pub written_with : RpcInfo → LocalClient M → List RpcInfo
  written_with info c = if c.server_is_close then c.written else c.written ++ (info ∷ [])

  -- localServer.StopConsume
  pub stop_consume : LocalClient M → LocalClient M
  stop_consume c = record c { server_is_close = true }

  -- Call, on a channel of the caller; an error leaves the client as it is.
  pub call : RpcInfo → ℕ → LocalClient M → Option Error × LocalClient M
  call info chan c = if c.is_close then (some closed_connection, c) else (
    none,
    record c {
      call_infos =
          bm.insert info.cid
            (record { correlation_id = info.cid; timeout_at = info.expired; call_chan = chan })
            c.call_infos;
      written = written_with info c;
    },
  )

  -- CallNR
  pub call_nr : RpcInfo → LocalClient M → Option Error × LocalClient M
  call_nr info c =
      if c.is_close
      then (some closed_connection, c)
      else (none, record c { written = written_with info c })

  -- Taking an entry out of the table, sending on its channel and closing it.
  abbrev after_close : Result Chan → ℕ → LocalClient M → Result (LocalClient M)
  after_close (ok ch) a c = ok (put_chan a ch c)
  after_close (err e) a c = err e
  after_close panic a c = panic
  after_close stuck a c = stuck

  abbrev after_send : Result Chan → ℕ → LocalClient M → Result (LocalClient M)
  after_send (ok ch) a c = after_close (close ch) a c
  after_send (err e) a c = err e
  after_send panic a c = panic
  after_send stuck a c = stuck

  pub settle : Bytes → ClientCallInfo → ResultInfo → LocalClient M → Result (LocalClient M)
  settle key info r c =
      after_send (send r (c.chans info.call_chan)) info.call_chan
        (record c { call_infos = bm.delete key c.call_infos })

  -- on_response_handle at a result; one that nobody waits for any more is dropped.
  abbrev deliver : Option ClientCallInfo → ResultInfo → LocalClient M → Result (LocalClient M)
  deliver none r c = ok c
  deliver (some info) r c = settle r.cid info r c

  pub on_response : ResultInfo → LocalClient M → Result (LocalClient M)
  on_response r c = deliver (bm.lookup r.cid c.call_infos) r c

  -- The loop of on_timeout_handle over the entries, at `now` in milliseconds.
  abbrev and_then :
      Result (LocalClient M) → (LocalClient M → Result (LocalClient M)) → Result (LocalClient M)
  and_then (ok c) f = f c
  and_then (err e) f = err e
  and_then panic f = panic
  and_then stuck f = stuck

  abbrev expire : ℕ → Bytes → ClientCallInfo → LocalClient M → Result (LocalClient M)
  expire now key info c =
      if ltb info.timeout_at now
      then settle key info (error_info [] server_expired (timeout info.correlation_id)) c
      else ok c

  pub expire_each : ℕ → List (Bytes × ClientCallInfo) → LocalClient M → Result (LocalClient M)
  expire_each now [] c = ok c
  expire_each now ((key, info) ∷ rest) c = and_then (expire now key info c) (expire_each now rest)

  pub on_timeout : ℕ → LocalClient M → Result (LocalClient M)
  on_timeout now c = expire_each now (bm.items c.call_infos) c

  -- The loop of Done.
  pub drop : Bytes → ClientCallInfo → LocalClient M → Result (LocalClient M)
  drop key info c =
      after_close (close (c.chans info.call_chan)) info.call_chan
        (record c { call_infos = bm.delete key c.call_infos })

  pub drop_each : List (Bytes × ClientCallInfo) → LocalClient M → Result (LocalClient M)
  drop_each [] c = ok c
  drop_each ((key, info) ∷ rest) c = and_then (drop key info c) (drop_each rest)

  -- Done ends the loop by its send on `done` and closes the channel of the results. Behind it nobody receives on `done`,
  -- so that a second Done waits in its send for ever.
  pub done : LocalClient M → Result (LocalClient M)
  done c =
      if c.is_close then stuck else drop_each (bm.items c.call_infos) (record c { is_close = true })

  -- A result on its way: localServer.Callback sends it on the channel of the results, which panics once that is
  -- closed; the loop takes it.
  pub arrive : ResultInfo → LocalClient M → Result (LocalClient M)
  arrive r c = if c.is_close then panic else on_response r c

  -- A second has gone by; a loop that has ended does not look.
  pub tick : ℕ → LocalClient M → Result (LocalClient M)
  tick now c = if c.is_close then ok c else on_timeout now c

  -- A caller makes a channel, `make(chan rpcpb.ResultInfo, 1)`, and calls.
  pub call_on_new : RpcInfo → LocalClient M → Option Error × LocalClient M
  unfolding call
  call_on_new info c = call info c.next_chan (record c { next_chan = suc c.next_chan })

  pub step : Event → LocalClient M → Result (LocalClient M)
  unfolding call_on_new call_nr stop_consume arrive tick done
  step (calls info) c = ok (call_on_new info c).1
  step (calls_nr info) c = ok (call_nr info c).1
  step (answers r) c = arrive r c
  step (ticks now) c = tick now c
  step ends c = done c
  step stops c = ok (stop_consume c)

  pub run : List Event → LocalClient M → Result (LocalClient M)
  run [] c = ok c
  run (e ∷ es) c = and_then (step e c) (run es)
