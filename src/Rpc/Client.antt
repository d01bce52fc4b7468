-- ===== src/Rpc/Client.antt =====
-- rpc/base/rpc_client.go: a call from its parameters to its results.
pub mod Applies
pub mod Later
mod Runs
use lodos.Base.{
  ℕ, suc, ◌+◌, ◌*◌, ◌/◌, Bool, true, false, Option, none, some, List, [], ◌∷◌, ◌==◌, if◌then◌else◌,
  length, map,
}
use lodos.Io.Result.{Error, Result, ok, err, panic, stuck}
use lodos.Io.Reader.{Bytes}
use lodos.Rpc.Args.{Tag, Arg, Json, Serializer, bytes2args}
use lodos.Rpc.Info.{Text, is_blank, RpcInfo, ResultInfo}
use lodos.Rpc.Local.{Chan, ClientCallInfo, LocalClient, call_on_new, on_response, on_timeout}
use lodos.Rpc.Server.{FuncInfo, Fault, Functions, Reply, reply, crash, encode_all, on_call}
use lodos.Utils.BeeMap.{BeeMap}
use lodos.Utils.Numbers.{ℤ}

-- The errors of a call: of the connection, of the server, and of the formats on this side.
pub data CallError : Type 0 where
  no_connection closed lengths_differ : CallError
  refused_call : Error → CallError
  remote : ℤ → Text → CallError
  args_error : Error → CallError
  format_error : Error → CallError

pub data CallResult (A : Type 0) : Type 0 where
  returned : A → CallResult A
  failed : CallError → CallResult A
  panicked : CallResult A

-- What a caller receives from its channel: a result, or nothing when the channel is closed.
abbrev pub received : Chan → Option ResultInfo
received ch = elim ch.sent [ [] ↦ none | r ∷ rs ↦ some r ]

-- One of the clients of a server: it sends a request and gives what arrives for it.
abbrev pub Exchange : Type 0
Exchange = RpcInfo → Result (Option ResultInfo)

-- `rpcClient`
pub record RpcClient : Type 0 where
  pub local_client : Option Exchange
  pub remote_client : Option Exchange
  pub redis_client : Option Exchange

-- The local client comes first, then the remote one, then that of Redis.
abbrev first_of : Option Exchange → Option Exchange → Option Exchange
first_of none other = other
first_of (some e) other = some e

abbrev pub chosen : RpcClient → Option Exchange
chosen c = first_of c.local_client (first_of c.remote_client c.redis_client)

-- `time.Now().UTC().Add(seconds).UnixNano() / 1000000`
abbrev pub expiry : ℕ → ℕ → ℕ
expiry now seconds = (now + seconds * 1000 * 1000 * 1000) / 1000000

module _ {Object StringMap Other : Type 0} (json : Json Object StringMap)
    (app : Option (List (Serializer Object StringMap Other))) where
  abbrev Value : Type 0
  Value = Arg Object StringMap Other

  abbrev one_result : Result Value → CallResult (List Value) → CallResult (List Value)
  one_result (ok v) (returned vs) = returned (v ∷ vs)
  one_result (ok v) rest = rest
  one_result (err e) rest = failed (format_error e)
  one_result panic rest = panicked
  one_result stuck rest = panicked

  -- The loop over the results.
  pub decode_results : List Tag → List Bytes → CallResult (List Value)
  decode_results (t ∷ ts) (b ∷ bs) = one_result (bytes2args json app t b) (decode_results ts bs)
  decode_results _ _ = returned []

  -- CallArgs behind the channel.
  pub resolve : Option ResultInfo → CallResult (List Value)
  unfolding decode_results
  resolve none = failed closed
  resolve (some r) =
      if is_blank r.error
      then (if length r.results == length r.results_type
          then decode_results r.results_type r.results
          else failed lengths_differ)
      else failed (remote r.err_code r.error)

  abbrev resolved : Result (Option ResultInfo) → CallResult (List Value)
  resolved (ok o) = resolve o
  resolved (err e) = failed (refused_call e)
  resolved panic = panicked
  resolved stuck = panicked

  abbrev exchanged : Option Exchange → RpcInfo → CallResult (List Value)
  exchanged none info = failed no_connection
  exchanged (some e) info = resolved (e info)

  -- CallArgs at the time `now`, with the id that uuid.Rand gives and the seconds of the settings.
  pub call_args :
      RpcClient → ℕ → ℕ → Bytes → Bytes → List Tag → List Bytes → CallResult (List Value)
  unfolding resolve
  call_args c now seconds id fn args_type args = exchanged (chosen c) (record {
    fn = fn;
    reply = true;
    expired = expiry now seconds;
    cid = id;
    args_type = args_type;
    args = args;
  })

  -- `case gate.Session: param = v2.Clone()`; `clone` leaves every other value as it is.
  abbrev pub cloned : (Other → Other) → Value → Value
  cloned clone (Arg.other o) = Arg.other (clone o)
  cloned clone v = v

  abbrev encoded :
      Result (List Tag × List Bytes)
      → (List Tag → List Bytes → CallResult (List Value))
      → CallResult (List Value)
  encoded (ok (ts, bs)) f = f ts bs
  encoded (err e) f = failed (args_error e)
  encoded panic f = panicked
  encoded stuck f = panicked

  -- Call
  pub call :
      (Other → Fault)
      → (Other → Other)
      → RpcClient
      → ℕ
      → ℕ
      → Bytes
      → Bytes
      → List Value
      → CallResult (List Value)
  unfolding call_args
  call fault clone c now seconds id fn params =
      encoded (encode_all json app fault (map (cloned clone) params))
        (call_args c now seconds id fn)

  -- A call by the local client: the request goes to the server, the server's answer to on_response, and what
  -- the server dropped, or is closed to, is answered by the tick at `later`, in milliseconds.
  module _ {M : Type 0} (bm : BeeMap M ClientCallInfo) (fault : Other → Fault) where
    abbrev arrives : ℕ → Result (LocalClient M) → Result (Option ResultInfo)
    arrives a (ok c) = ok (received (c.chans a))
    arrives a (err e) = err e
    arrives a panic = panic
    arrives a stuck = stuck

    abbrev answered_by : Option Reply → ℕ → LocalClient M → Result (LocalClient M)
    answered_by none later c = on_timeout bm later c
    answered_by (some crash) later c = panic
    answered_by (some (reply r)) later c = on_response bm r c

    abbrev sent_by :
        Option Error × LocalClient M
        → ℕ
        → RpcInfo
        → Functions Value
        → ℕ
        → ℕ
        → Result (Option ResultInfo)
    sent_by (some e, c) a info functions now later = err e
    sent_by (none, c) a info functions now later = arrives a (
        answered_by (if c.server_is_close then none else on_call json app fault functions info now)
          later c)

    pub local_exchange : Functions Value → ℕ → ℕ → LocalClient M → Exchange
    local_exchange functions now later c info =
        sent_by (call_on_new bm info c) c.next_chan info functions now later
