-- ===== src/Rpc/Client/Applies.antt =====
-- A remote call applies the function that is registered under its name.
use lodos.Base.{
  ℕ, ◌*◌, ◌≤◌, ◌≡◌, refl, sym, ap, ◌∙◌, arith, ◌==◌, ==_iff, if◌then◌else◌, if_true, if_false, true,
  false, Option, none, some, List, [], ◌∷◌, length, map, All, same, same_self,
}
use mathlib.Core.Path.{ap₂, subst}
use lodos.Io.Result.{ok}
use lodos.Io.Reader.{Bytes}
use lodos.Rpc.Args.{Tag, Arg, Json, Serializer, args_type_and_bytes}
use lodos.Rpc.Args.RoundTrip.{Decoded, IsJson, IsBuiltin, arrived, bytes2args-args_type_and_bytes}
use lodos.Rpc.Client.{
  returned, failed, lengths_differ, remote, RpcClient, expiry, received, decode_results, one_result,
  resolve, resolved, call_args, answered_by, arrives, sent_by, local_exchange,
}
use lodos.Rpc.Info.{Text, is_blank, RpcInfo, ResultInfo}
use lodos.Rpc.Local.{ClientCallInfo, LocalClient}
use lodos.Rpc.Local.Calls.{on_response-delivers}
use lodos.Rpc.Local.Inserts.{inserted, inserted-IsSettled, entry, call_on_new-open}
use lodos.Rpc.Local.Once.{IsSettled}
use lodos.Rpc.Server.{
  returns, Fault, FuncInfo, Functions, reply, encode_all, but_last, last, error_of, in_values,
  on_call,
}
use lodos.Rpc.Server.Answers.{on_call-decoded}
use lodos.Rpc.Server.Codes.{encode_all-cons, encode_all-nil}
use lodos.Utils.BeeMap.{BeeMap, IsMap}
use lodos.Utils.Numbers.{ℤ}

module _ {Object StringMap Other : Type 0} (decoded : Decoded Object StringMap)
    (json : Json Object StringMap) (app : Option (List (Serializer Object StringMap Other)))
    (fault : Other → Fault) (hj : IsJson decoded json) where
  abbrev Value : Type 0
  Value = Arg Object StringMap Other

  decode_results-encoded :
      (v : Value) (vs : List Value) (t : Tag) (b : Bytes) (ts : List Tag) (bs : List Bytes)
      → IsBuiltin v
      → args_type_and_bytes json app v ≡ ok (t, b)
      → decode_results json app ts bs ≡ returned (map (arrived decoded) vs)
      → decode_results json app (t ∷ ts) (b ∷ bs) ≡ returned (map (arrived decoded) (v ∷ vs))
  unfolding decode_results
  decode_results-encoded v vs t b ts bs hv p d =
      ap₂ (one_result json app) (bytes2args-args_type_and_bytes decoded json app v t b hj hv p) d

  decode_results-encode_all :
      (vs : List Value) (ts : List Tag) (bs : List Bytes)
      → All (IsBuiltin {Object = Object} {StringMap = StringMap} {Other = Other}) vs
      → encode_all json app fault vs ≡ ok (ts, bs)
      → (decode_results json app ts bs ≡ returned (map (arrived decoded) vs))
        × (length bs ≡ length ts)
  unfolding decode_results
  decode_results-encode_all [] ts bs h e =
      let (et, eb) = encode_all-nil decoded json app fault hj ts bs e in
      (ap₂ (decode_results json app) et eb, omega (arith, ap length et, ap length eb))
  decode_results-encode_all (v ∷ vs) ts bs (hv, h) e =
      let (t, b, ts', bs', p, q, et, eb) = encode_all-cons decoded json app fault hj v vs ts bs e in
      let (d, l) = decode_results-encode_all vs ts' bs' h q in
      (
        ap₂ (decode_results json app) et eb ∙ decode_results-encoded v vs t b ts' bs' hv p d,
        omega (arith, ap length et, ap length eb, l),
      )

  module _ {M : Type 0} (bm : BeeMap M ClientCallInfo) (laws : IsMap bm) where
    entry-pending :
        (info : RpcInfo) (c : LocalClient M)
        → bm.lookup info.cid (inserted bm laws info c).call_infos ≡ some (entry bm laws info c)
    entry-pending info c =
        laws.lookup-insert info.cid info.cid (entry bm laws info c) c.call_infos
        ∙ if_true (same info.cid info.cid) (some (entry bm laws info c)) _ (same_self info.cid)

    -- The answer of the server to a local call is what its caller receives.
    local_exchange-reply :
        (functions : Functions Value) (now later : ℕ) (c : LocalClient M) (info : RpcInfo)
        (r : ResultInfo)
        → IsSettled bm c
        → c.is_close ≡ false
        → c.server_is_close ≡ false
        → r.cid ≡ info.cid
        → on_call json app fault functions info now ≡ some (reply r)
        → local_exchange json app bm fault functions now later c info ≡ ok (some r)
    unfolding local_exchange
    local_exchange-reply functions now later c info r v open' server_open id h =
        let c1 = inserted bm laws info c in
        let e1 = entry bm laws info c in
        let pending =
          subst (λ k. bm.lookup k c1.call_infos ≡ some e1) (sym id) (entry-pending info c) in
        let (c2, p, got, gone, again) =
          on_response-delivers bm laws r e1 c1 (inserted-IsSettled bm laws info c v) pending in
        ap (λ s. sent_by json app bm fault s c.next_chan info functions now later)
          (call_on_new-open bm laws info c open')
        ∙ (ap
              (λ o.
                arrives json app bm fault c.next_chan (answered_by json app bm fault o later c1))
              (if_false c.server_is_close none _ server_open ∙ h)
            ∙ (ap (arrives json app bm fault c.next_chan) p ∙ ap (λ ch. ok (received ch)) got))

    resolve-reply :
        (r : ResultInfo) (outs : List Value)
        → All (IsBuiltin {Object = Object} {StringMap = StringMap} {Other = Other}) outs
        → encode_all json app fault outs ≡ ok (r.results_type, r.results)
        → resolve json app (some r) ≡ (
            if is_blank r.error
            then returned (map (arrived decoded) outs)
            else failed (remote r.err_code r.error))
    unfolding resolve
    resolve-reply r outs h e =
        let (d, l) = decode_results-encode_all outs r.results_type r.results h e in
        ap (λ x. if is_blank r.error then x else failed (remote r.err_code r.error))
          (if_true (length r.results == length r.results_type) _ (failed lengths_differ)
              ((==_iff (length r.results) (length r.results_type)).1 l)
            ∙ d)

    -- A call of a local function, in time, whose arguments are decoded as ws gives what the function returns at ws.
    pub call_args-decoded :
        (functions : Functions Value) (f : FuncInfo Value) (c : LocalClient M)
        (sent now later seconds : ℕ) (others : RpcClient) (id fn : Bytes) (ts : List Tag)
        (bs : List Bytes) (ws : List Value) (v : Value) (vs : List Value) (code : ℤ) (text : Text)
        (rt : List Tag) (rb : List Bytes)
        → IsSettled bm c
        → c.is_close ≡ false
        → c.server_is_close ≡ false
        → functions fn ≡ some f
        → length bs ≡ f.arity
        → length ws ≡ f.arity
        → now ≤ expiry sent seconds * 1000 * 1000
        → in_values json app fault f.zero ts bs ≡ ok (map some ws)
        → f.body ws ≡ returns (v ∷ vs)
        → error_of json app fault (last json app fault v vs) ≡ some (code, text)
        → All
            (IsBuiltin {Object = Object} {StringMap = StringMap} {Other = Other})
            (but_last json app fault v vs)
        → encode_all json app fault (but_last json app fault v vs) ≡ ok (rt, rb)
        → call_args json app
            (record others {
              local_client = some (local_exchange json app bm fault functions now later c);
            })
            sent
            seconds
            id
            fn
            ts
            bs
          ≡ (if is_blank text
              then returned (map (arrived decoded) (but_last json app fault v vs))
              else failed (remote code text))
    unfolding call_args
    call_args-decoded functions f c sent now later seconds others id fn ts bs ws v vs code text rt
          rb hc open' server_open hf hn hw ht hd hr hl hob ho =
        let info : RpcInfo = record {
          fn = fn;
          reply = true;
          expired = expiry sent seconds;
          cid = id;
          args_type = ts;
          args = bs;
        } in
        let r : ResultInfo = record {
          cid = id;
          err_code = code;
          error = text;
          results_type = rt;
          results = rb;
        } in
        let answer =
          on_call-decoded decoded json app fault hj functions f info now ws v vs code text rt rb hf
            hn hw ht hd hr hl ho in
        ap (resolved json app)
          (local_exchange-reply functions now later c info r hc open' server_open refl answer)
        ∙ resolve-reply r (but_last json app fault v vs) hob ho
