-- ===== src/Rpc/Server.antt =====
-- rpc/base/rpc_server.go: the functions of a module and how a request of one is answered.
pub mod Codes
pub mod Answers
pub mod Runs
use lodos.Base.{
  ℕ, suc, ◌+◌, ◌*◌, ◌/◌, ◌^◌, Bool, true, false, Option, none, some, List, [], ◌∷◌, ltb, ◌==◌, not,
  ◌&&◌, if◌then◌else◌, length, map, same,
}
use lodos.Io.Result.{Error, Result, ok, err, panic, stuck}
use lodos.Io.Reader.{Bytes}
use lodos.Rpc.Args.{Tag, Arg, Json, Serializer, args_type_and_bytes, bytes2args}
use lodos.Rpc.Info.{
  Text, said, coded, not_found, not_adapted, recovered, expired, no_output, not_an_error, refused,
  blank, no_code, client_param_not_adapted, server_format_error, server_expired, RpcInfo,
  ResultInfo, error_info,
}
use lodos.Utils.Numbers.{ℤ}

-- What a registered function does with its arguments: it returns values, it panics, or it is not done when
-- the call expires.
pub data Outcome (A : Type 0) : Type 0 where
  returns : List A → Outcome A
  panics : Outcome A
  is_slow : Outcome A

-- `rpc.FuncInfo` of a function with `arity` parameters; `zero k` is the zero value of parameter k.
pub record FuncInfo (A : Type 0) : Type 0 where
  pub arity : ℕ
  pub zero : ℕ → A
  pub body : List A → Outcome A
  pub goroutine : Bool

-- What a value of a type of its own is to the server: a `*Error`, another error, or none.
pub data Fault : Type 0 where
  with_code : ℤ → Bytes → Fault
  plain : Bytes → Fault
  no_fault : Fault

-- The request is answered, or a panic outside the goroutine that would recover ends the process.
pub data Reply : Type 0 where
  reply : ResultInfo → Reply
  crash : Reply

abbrev pub Functions : Type 0 → Type 0
Functions A = Bytes → Option (FuncInfo A)

-- Register and RegisterGo, on the map of functions: a second registration panics.
module _ {A : Type 0} where
  abbrev add : Option (FuncInfo A) → Bytes → FuncInfo A → Functions A → Result (Functions A)
  add (some old) id f functions = panic
  add none id f functions = ok (λ k. if same k id then some f else functions k)

  unfoldable pub register : Bytes → FuncInfo A → Functions A → Result (Functions A)
  register id f functions = add (functions id) id (record f { goroutine = false }) functions

  unfoldable pub register_go : Bytes → FuncInfo A → Functions A → Result (Functions A)
  register_go id f functions = add (functions id) id (record f { goroutine = true }) functions

  -- The values that a call of reflection passes on; a slot that was not filled makes it panic.
  abbrev pub filled : List (Option A) → Option (List A)
  filled [] = some []
  filled (none ∷ slots) = none
  filled (some v ∷ slots) = elim (filled slots) [ none ↦ none | some vs ↦ some (v ∷ vs) ]

  -- `f.Call(in)`
  abbrev pub apply : FuncInfo A → Option (List A) → Outcome A
  apply f none = panics
  apply f (some vs) = if length vs == f.arity then f.body vs else panics

module _ {Object StringMap Other : Type 0} (json : Json Object StringMap)
    (app : Option (List (Serializer Object StringMap Other))) (fault : Other → Fault) where
  abbrev Value : Type 0
  Value = Arg Object StringMap Other

  -- `case nil: in[k] = reflect.Zero(...)`
  abbrev pub or_zero : Value → Value → Value
  or_zero zero Arg.null = zero
  or_zero zero v = v

  abbrev more_slots :
      Result Value → Value → Result (List (Option Value)) → Result (List (Option Value))
  more_slots (ok v) zero (ok slots) = ok (some (or_zero zero v) ∷ slots)
  more_slots (ok v) zero rest = rest
  more_slots (err e) zero rest = err e
  more_slots panic zero rest = panic
  more_slots stuck zero rest = stuck

  -- The loop over argsType, from argument k; an argument that it has no type for keeps an empty slot, and
  -- a type without an argument is an index out of range.
  pub decode_args : (ℕ → Value) → ℕ → List Tag → List Bytes → Result (List (Option Value))
  decode_args zero k [] args = ok (map (λ b. none) args)
  decode_args zero k (t ∷ types) [] = panic
  decode_args zero k (t ∷ types) (b ∷ args) =
      more_slots (bytes2args json app t b) (zero k) (decode_args zero (suc k) types args)

  -- `if len(argsType) > 0`
  pub in_values : (ℕ → Value) → List Tag → List Bytes → Result (List (Option Value))
  unfolding decode_args
  in_values zero [] args = ok []
  in_values zero (t ∷ types) args = decode_args zero 0 (t ∷ types) args

  -- The loop that encodes all results but the last.
  abbrev one_more :
      Result (Tag × Bytes) → Result (List Tag × List Bytes) → Result (List Tag × List Bytes)
  one_more (ok (t, b)) (ok (ts, bs)) = ok (t ∷ ts, b ∷ bs)
  one_more (ok r) rest = rest
  one_more (err e) rest = err e
  one_more panic rest = panic
  one_more stuck rest = stuck

  pub encode_all : List Value → Result (List Tag × List Bytes)
  encode_all [] = ok ([], [])
  encode_all (v ∷ vs) = one_more (args_type_and_bytes json app v) (encode_all vs)

  abbrev pub but_last : Value → List Value → List Value
  but_last v [] = []
  but_last v (w ∷ ws) = v ∷ but_last w ws

  abbrev pub last : Value → List Value → Value
  last v [] = v
  last v (w ∷ ws) = last w ws

  -- The switch on the last result: its text and its code, or none where it is no error.
  abbrev of_fault : Fault → Option (ℤ × Text)
  of_fault (with_code code reason) = some (code, coded code reason)
  of_fault (plain text) = some (no_code, said text)
  of_fault no_fault = none

  abbrev pub error_of : Value → Option (ℤ × Text)
  error_of Arg.null = some (no_code, blank)
  error_of (Arg.string s) = some (no_code, said s)
  error_of (Arg.other o) = of_fault (fault o)
  error_of _ = none

  abbrev answer : Bytes → Option (ℤ × Text) → List Tag × List Bytes → ResultInfo
  answer cid none (ts, bs) = error_info cid server_format_error not_an_error
  answer cid (some (code, text)) (ts, bs) = record {
    cid = cid;
    err_code = code;
    error = text;
    results_type = ts;
    results = bs;
  }

  -- The deferred function of _runFunc answers a panic of its own goroutine.
  abbrev answered : Bytes → Option (ℤ × Text) → Result (List Tag × List Bytes) → ResultInfo
  answered cid e (ok r) = answer cid e r
  answered cid e (err x) = error_info cid server_format_error (refused x)
  answered cid e panic = error_info cid no_code recovered
  answered cid e stuck = error_info cid no_code recovered

  -- What follows the call.
  pub finish : Bytes → Outcome Value → Reply
  finish cid panics = crash
  finish cid is_slow = reply (error_info cid server_expired expired)
  finish cid (returns []) = reply (error_info cid no_code no_output)
  finish cid (returns (v ∷ vs)) =
      reply (answered cid (error_of (last v vs)) (encode_all (but_last v vs)))

  -- _runFunc at the time `now`, in nanoseconds.
  abbrev invoke : FuncInfo Value → RpcInfo → ℕ → Result (List (Option Value)) → Reply
  invoke f info now (ok slots) =
      if ltb (info.expired * 1000 * 1000) now
      then reply (error_info info.cid server_expired expired)
      else finish info.cid (apply f (filled slots))
  invoke f info now (err e) = reply (error_info info.cid server_format_error (refused e))
  invoke f info now panic = reply (error_info info.cid no_code recovered)
  invoke f info now stuck = reply (error_info info.cid no_code recovered)

  abbrev dispatch : Option (FuncInfo Value) → RpcInfo → ℕ → Reply
  dispatch none info now = reply (error_info info.cid no_code (not_found info.fn))
  dispatch (some f) info now =
      if length info.args == f.arity
      then invoke f info now (in_values f.zero info.args_type info.args)
      else reply (error_info info.cid client_param_not_adapted not_adapted)

  pub run_func : Functions Value → RpcInfo → ℕ → Reply
  unfolding in_values finish
  run_func functions info now = dispatch (functions info.fn) info now

  -- on_call_handle: a request that has expired is dropped.
  pub on_call : Functions Value → RpcInfo → ℕ → Option Reply
  unfolding run_func
  on_call functions info now =
      if ltb info.expired (now / 1000 / 1000) then none else some (run_func functions info now)
