-- ===== src/Rpc/Client/Later.antt =====
-- rpc/base/rpc_client.go: the calls that do not wait for their result, and the end of a client.
use lodos.Base.{
  ℕ, [], ◌∷◌, ◌++◌, ◌==◌, if◌then◌else◌, not, length, ◌⊎◌, inl, inr, Bool, true, false, Option,
  none, some, List, map,
}
use lodos.Io.Result.{Error, Result, ok, err, panic, stuck}
use lodos.Io.Reader.{Bytes}
use lodos.Rpc.Args.{Tag, Arg, Json, Serializer, bytes2args}
use lodos.Rpc.Info.{is_blank, RpcInfo, ResultInfo}
use lodos.Rpc.Server.{Fault, encode_all}
use lodos.Rpc.Client.{
  CallError, no_connection, refused_call, args_error, CallResult, returned, failed, panicked,
  expiry, cloned, remote, lengths_differ, format_error,
}

-- One of the clients of a server, on a state of their own: Call on a channel that it gives by its number, CallNR and
-- Done, with the errors that they return. `wait` is what arrives on a channel.
pub record Sender (W : Type 0) : Type 0 where
  pub call : RpcInfo → W → (Error ⊎ ℕ) × W
  pub call_nr : RpcInfo → W → Option Error × W
  pub done : W → Option Error × W

-- What ResolveCallbackChan gives: `client_closed` is its own error at a closed channel, "client closed".
pub data LaterResult (A : Type 0) : Type 0 where
  arrived_later : A → LaterResult A
  given_up : CallError → LaterResult A
  client_closed later_panicked : LaterResult A

pub record Senders (W : Type 0) : Type 0 where
  pub local_client : Option (Sender W)
  pub remote_client : Option (Sender W)
  pub redis_client : Option (Sender W)

abbrev pub request : Bool → ℕ → ℕ → Bytes → Bytes → List Tag → List Bytes → RpcInfo
request reply now seconds id fn args_type args = record {
  fn = fn;
  reply = reply;
  expired = expiry now seconds;
  cid = id;
  args_type = args_type;
  args = args;
}

module _ {W : Type 0} where
  abbrev first_sender : Option (Sender W) → Option (Sender W) → Option (Sender W)
  first_sender none other = other
  first_sender (some s) other = some s

  -- The local client comes first, then the remote one, then that of Redis.
  abbrev pub chosen_sender : Senders W → Option (Sender W)
  chosen_sender c = first_sender c.local_client (first_sender c.remote_client c.redis_client)

  -- Done: every client is closed, and the error of the last one counts.
  abbrev done_with : Option (Sender W) → Option Error × W → Option Error × W
  done_with none r = r
  done_with (some s) (e, w) = s.done w

  pub done_all : Senders W → W → Option Error × W
  done_all c w =
      done_with c.local_client (done_with c.redis_client (done_with c.remote_client (none, w)))

  -- SyncCallArgs and CallArgsNR behind the request.
  abbrev sent : (Error ⊎ ℕ) × W → CallResult ℕ × W
  sent (inl e, w) = (failed (refused_call e), w)
  sent (inr chan, w) = (returned chan, w)

  abbrev pub sent_by : Option (Sender W) → RpcInfo → W → CallResult ℕ × W
  sent_by none info w = (failed no_connection, w)
  sent_by (some s) info w = sent (s.call info w)

  -- The error of the client is dropped.
  abbrev pub told_by : Option (Sender W) → RpcInfo → W → Option CallError × W
  told_by none info w = (some no_connection, w)
  told_by (some s) info w = (none, (s.call_nr info w).1)

  pub sync_call_args :
      Senders W → ℕ → ℕ → Bytes → Bytes → List Tag → List Bytes → W → CallResult ℕ × W
  sync_call_args c now seconds id fn ts bs w =
      sent_by (chosen_sender c) (request true now seconds id fn ts bs) w

  pub call_args_nr :
      Senders W → ℕ → ℕ → Bytes → Bytes → List Tag → List Bytes → W → Option CallError × W
  call_args_nr c now seconds id fn ts bs w =
      told_by (chosen_sender c) (request false now seconds id fn ts bs) w

module _ {Object StringMap Other W : Type 0} (json : Json Object StringMap)
    (app : Option (List (Serializer Object StringMap Other))) (fault : Other → Fault)
    (clone : Other → Other) where
  -- SyncCall
  abbrev pub with_args :
      Result (List Tag × List Bytes)
      → (List Tag → List Bytes → W → CallResult ℕ × W)
      → W
      → CallResult ℕ × W
  with_args (ok (ts, bs)) f w = f ts bs w
  with_args (err e) f w = (failed (args_error e), w)
  with_args panic f w = (panicked, w)
  with_args stuck f w = (panicked, w)

  pub sync_call :
      Senders W → ℕ → ℕ → Bytes → Bytes → List (Arg Object StringMap Other) → W → CallResult ℕ × W
  sync_call c now seconds id fn params w =
      with_args (encode_all json app fault (map (cloned json app clone) params))
        (sync_call_args c now seconds id fn) w

  -- CallNR
  abbrev pub told_args :
      Result (List Tag × List Bytes)
      → (List Tag → List Bytes → W → Option CallError × W)
      → W
      → Result (Option CallError × W)
  told_args (ok (ts, bs)) f w = ok (f ts bs w)
  told_args (err e) f w = ok (some (args_error e), w)
  told_args panic f w = panic
  told_args stuck f w = panic

  pub call_nr :
      Senders W
      → ℕ
      → ℕ
      → Bytes
      → Bytes
      → List (Arg Object StringMap Other)
      → W
      → Result (Option CallError × W)
  call_nr c now seconds id fn params w =
      told_args (encode_all json app fault (map (cloned json app clone) params))
        (call_args_nr c now seconds id fn) w

module _ {Object StringMap Other : Type 0} (json : Json Object StringMap)
    (app : Option (List (Serializer Object StringMap Other))) where
  -- ResolveCallbackChan, whose loop over the results stops at the first that cannot be decoded; `o` is what arrives
  -- on the channel, none when it is closed.
  abbrev decoded_so_far :
      Result (Arg Object StringMap Other)
      → (Arg Object StringMap Other → LaterResult (List (Arg Object StringMap Other)))
      → LaterResult (List (Arg Object StringMap Other))
  decoded_so_far (ok v) rest = rest v
  decoded_so_far (err e) rest = given_up (format_error e)
  decoded_so_far panic rest = later_panicked
  decoded_so_far stuck rest = later_panicked

  pub decode_later :
      List Tag
      → List Bytes
      → List (Arg Object StringMap Other)
      → LaterResult (List (Arg Object StringMap Other))
  decode_later (t ∷ ts) (b ∷ bs) vs =
      decoded_so_far (bytes2args json app t b) (λ v. decode_later ts bs (vs ++ (v ∷ [])))
  decode_later _ _ vs = arrived_later vs

  pub resolve_callback_chan : Option ResultInfo → LaterResult (List (Arg Object StringMap Other))
  unfolding decode_later
  resolve_callback_chan none = client_closed
  resolve_callback_chan (some r) =
      if not (is_blank r.error)
      then given_up (remote r.err_code r.error)
      else if not (length r.results == length r.results_type)
      then given_up lengths_differ
      else decode_later r.results_type r.results []
