-- ===== src/Rpc/Server/Answers.antt =====
-- What the server answers to a request.
use lodos.Base.{
  map, ℕ, ◌*◌, ◌/◌, ◌≤◌, ◌<◌, ◌≡◌, sym, ap, ◌∙◌, arith, ltb, le→ltb, ◌==◌, ==_iff, if_true,
  if_false, Option, none, some, List, [], ◌∷◌, length, All,
}
use mathlib.Core.Path.{ap₂}
use lodos.Io.Result.{ok}
use lodos.Io.Reader.{Bytes}
use lodos.Rpc.Args.{Tag, Arg, Json, Serializer}
use lodos.Rpc.Args.RoundTrip.{Decoded, IsJson, IsBuiltin}
use lodos.Rpc.Info.{Text, RpcInfo}
use lodos.Rpc.Server.{
  returns, panics, Fault, FuncInfo, Functions, reply, crash, in_values, encode_all, but_last, last,
  error_of, answered, finish, invoke, dispatch, run_func, on_call,
}
use lodos.Rpc.Server.Codes.{passed, in_values-encode_all, apply-some, length-passed}
use lodos.Utils.Numbers.{ℤ}

module _ {Object StringMap Other : Type 0} (decoded : Decoded Object StringMap)
    (json : Json Object StringMap) (app : Option (List (Serializer Object StringMap Other)))
    (fault : Other → Fault) (hj : IsJson decoded json) where
  abbrev Value : Type 0
  Value = Arg Object StringMap Other

  -- A request in time of a registered function whose arguments are decoded as ws is answered with what the function
  -- returns at ws.
  pub on_call-decoded :
      (functions : Functions Value) (f : FuncInfo Value) (info : RpcInfo) (now : ℕ)
      (ws : List Value) (v : Value) (vs : List Value) (code : ℤ) (text : Text) (rt : List Tag)
      (rb : List Bytes)
      → functions info.fn ≡ some f
      → length info.args ≡ f.arity
      → length ws ≡ f.arity
      → now ≤ info.expired * 1000 * 1000
      → in_values json app fault f.zero info.args_type info.args ≡ ok (map some ws)
      → f.body ws ≡ returns (v ∷ vs)
      → error_of json app fault (last json app fault v vs) ≡ some (code, text)
      → encode_all json app fault (but_last json app fault v vs) ≡ ok (rt, rb)
      → on_call json app fault functions info now
        ≡ some (
            reply (record {
              cid = info.cid;
              err_code = code;
              error = text;
              results_type = rt;
              results = rb;
            }))
  unfolding on_call run_func finish
  on_call-decoded functions f info now ws v vs code text rt rb hf ha hw ht d hr hl ho =
      let called = apply-some decoded json app fault hj f ws hw ∙ hr in
      if_false (ltb info.expired (now / 1000 / 1000)) none _ (le→ltb _ _ (omega (arith, ht)))
      ∙ ap some (
          ap (λ o. dispatch json app fault o info now) hf
          ∙ (if_true (length info.args == f.arity) _ _ ((==_iff (length info.args) f.arity).1 ha)
              ∙ (ap (invoke json app fault f info now) d
                  ∙ (if_false (ltb (info.expired * 1000 * 1000) now) _ _ (le→ltb _ _ ht)
                      ∙ (ap (finish json app fault info.cid) called
                          ∙ ap₂ (λ e r. reply (answered json app fault info.cid e r)) hl ho)))))

  -- A request in time of a registered function is answered with what the function returns at the arguments
  -- that arrived: all results but the last, and the last as the error. (Arguments and results need no serializer.)
  pub on_call-returns :
      (functions : Functions Value) (f : FuncInfo Value) (info : RpcInfo) (now : ℕ)
      (params : List Value) (v : Value) (vs : List Value) (code : ℤ) (text : Text) (rt : List Tag)
      (rb : List Bytes)
      → functions info.fn ≡ some f
      → f.arity ≡ length params
      → now ≤ info.expired * 1000 * 1000
      → All (IsBuiltin {Object = Object} {StringMap = StringMap} {Other = Other}) params
      → encode_all json app fault params ≡ ok (info.args_type, info.args)
      → f.body (passed decoded json app fault hj f.zero 0 params) ≡ returns (v ∷ vs)
      → error_of json app fault (last json app fault v vs) ≡ some (code, text)
      → encode_all json app fault (but_last json app fault v vs) ≡ ok (rt, rb)
      → on_call json app fault functions info now
        ≡ some (
            reply (record {
              cid = info.cid;
              err_code = code;
              error = text;
              results_type = rt;
              results = rb;
            }))
  on_call-returns functions f info now params v vs code text rt rb hf ha ht hb he hr hl ho =
      let (d, lt, lb) =
        in_values-encode_all decoded json app fault hj f.zero params info.args_type info.args hb
          he in
      on_call-decoded functions f info now (passed decoded json app fault hj f.zero 0 params) v vs
        code text rt rb hf (lb ∙ sym ha)
        (length-passed decoded json app fault hj f.zero 0 params ∙ sym ha) ht d hr hl ho

  -- A request in time with the right number of arguments but without their types ends the process, for every
  -- function that has a parameter: the call of reflection panics in a goroutine that nothing recovers.
  pub on_call-crash :
      (functions : Functions Value) (f : FuncInfo Value) (info : RpcInfo) (now : ℕ)
      → functions info.fn ≡ some f
      → 0 < f.arity
      → length info.args ≡ f.arity
      → info.args_type ≡ []
      → now ≤ info.expired * 1000 * 1000
      → on_call json app fault functions info now ≡ some crash
  unfolding on_call run_func in_values finish
  on_call-crash functions f info now hf hp hn ht hi =
      if_false (ltb info.expired (now / 1000 / 1000)) none _ (le→ltb _ _ (omega (arith, hi)))
      ∙ ap some (
          ap (λ o. dispatch json app fault o info now) hf
          ∙ (if_true (length info.args == f.arity) _ _ ((==_iff (length info.args) f.arity).1 hn)
              ∙ (ap
                    (λ ts.
                      invoke json app fault f info now
                        (in_values json app fault f.zero ts info.args))
                    ht
                  ∙ (if_false (ltb (info.expired * 1000 * 1000) now) _ _ (le→ltb _ _ hi)
                      ∙ ap (finish json app fault info.cid)
                          (if_false (0 == f.arity) (f.body []) panics (ground (arith, hp)))))))
