-- ===== src/Rpc/Server/Codes.antt =====
-- Values that one side encodes are decoded on the other.
use lodos.Base.{
  ℕ, suc, ◌<◌, ◌≡◌, refl, ap, ◌∙◌, ◌==◌, ==_iff, if_true, Option, some, List, [], ◌∷◌, length, map,
  All, arith,
}
use mathlib.Core.Path.{ap₂}
use lodos.Io.Result.{Result, ok, err, panic, stuck}
use lodos.Io.Reader.{Bytes}
use lodos.Rpc.Args.{Tag, Arg, Json, Serializer, args_type_and_bytes, bytes2args}
use lodos.Rpc.Args.RoundTrip.{Decoded, IsJson, IsBuiltin, arrived, bytes2args-args_type_and_bytes}
use lodos.Rpc.Server.{
  Fault, FuncInfo, panics, apply, filled, decode_args, in_values, more_slots, one_more, or_zero,
  encode_all,
}

module _ {Object StringMap Other : Type 0} (decoded : Decoded Object StringMap)
    (json : Json Object StringMap) (app : Option (List (Serializer Object StringMap Other)))
    (fault : Other → Fault) (hj : IsJson decoded json) where
  abbrev Value : Type 0
  Value = Arg Object StringMap Other

  -- The arguments that the function gets: a nil is the zero value of its parameter.
  abbrev pub passed : (ℕ → Value) → ℕ → List Value → List Value
  passed zero k [] = []
  passed zero k (v ∷ vs) =
      or_zero json app fault (zero k) (arrived decoded v) ∷ passed zero (suc k) vs

  pub one_more-ok :
      (r : Result (Tag × Bytes)) (rest : Result (List Tag × List Bytes)) (ts : List Tag)
      (bs : List Bytes)
      → one_more json app fault r rest ≡ ok (ts, bs)
      → (t : Tag) × (b : Bytes) × (ts' : List Tag) × (bs' : List Bytes) × (r ≡ ok (t, b))
        × (rest ≡ ok (ts', bs'))
        × (ts ≡ t ∷ ts')
        × (bs ≡ b ∷ bs')
  one_more-ok (ok (t, b)) (ok (ts', bs')) ts bs h = (t, b, ts', bs', refl, refl, cc, cc)
  one_more-ok (ok r) (err e) ts bs h = cc
  one_more-ok (ok r) panic ts bs h = cc
  one_more-ok (ok r) stuck ts bs h = cc
  one_more-ok (err e) rest ts bs h = cc
  one_more-ok panic rest ts bs h = cc
  one_more-ok stuck rest ts bs h = cc

  -- What encode_all gives is decoded on the side of the server.
  decode_args-encode_all :
      (zero : ℕ → Value) (k : ℕ) (vs : List Value) (ts : List Tag) (bs : List Bytes)
      → All (IsBuiltin {Object = Object} {StringMap = StringMap} {Other = Other}) vs
      → encode_all json app fault vs ≡ ok (ts, bs)
      → (decode_args json app fault zero k ts bs ≡ ok (map some (passed zero k vs)))
        × (length ts ≡ length vs)
        × (length bs ≡ length vs)
  unfolding encode_all decode_args
  decode_args-encode_all zero k [] ts bs h e = (cc, cc, cc)
  decode_args-encode_all zero k (v ∷ vs) ts bs (hv, h) e =
      let (t, b, ts', bs', p, q, et, eb) =
        one_more-ok (args_type_and_bytes json app v) (encode_all json app fault vs) ts bs e in
      let (d, lt, lb) = decode_args-encode_all zero (suc k) vs ts' bs' h q in
      let a = bytes2args-args_type_and_bytes decoded json app v t b hj hv p in
      (
        ap₂ (decode_args json app fault zero k) et eb
            ∙ ap₂ (λ r rest. more_slots json app fault r (zero k) rest) a d,
        omega (arith, ap length et, lt),
        omega (arith, ap length eb, lb),
      )

  in_values-args :
      (zero : ℕ → Value) (ts : List Tag) (bs : List Bytes)
      → 0 < length ts
      → in_values json app fault zero ts bs ≡ decode_args json app fault zero 0 ts bs
  unfolding in_values
  in_values-args zero [] bs h = absurd (omega arith)
  in_values-args zero (t ∷ ts) bs h = refl

  -- in_values fills every slot.
  pub in_values-encode_all :
      (zero : ℕ → Value) (vs : List Value) (ts : List Tag) (bs : List Bytes)
      → All (IsBuiltin {Object = Object} {StringMap = StringMap} {Other = Other}) vs
      → encode_all json app fault vs ≡ ok (ts, bs)
      → (in_values json app fault zero ts bs ≡ ok (map some (passed zero 0 vs)))
        × (length ts ≡ length vs)
        × (length bs ≡ length vs)
  unfolding in_values encode_all
  in_values-encode_all zero [] ts bs h e = (cc, cc, cc)
  in_values-encode_all zero (v ∷ vs) ts bs h e =
      let (d, lt, lb) = decode_args-encode_all zero 0 (v ∷ vs) ts bs h e in
      (in_values-args zero ts bs (omega (arith, lt)) ∙ d, lt, lb)

  filled-some : (vs : List Value) → filled (map some vs) ≡ some vs
  filled-some [] = refl
  filled-some (v ∷ vs) = rw (filled-some vs)

  pub apply-some :
      (f : FuncInfo Value) (vs : List Value)
      → length vs ≡ f.arity
      → apply f (filled (map some vs)) ≡ f.body vs
  apply-some f vs h =
      ap (apply f) (filled-some vs)
      ∙ if_true (length vs == f.arity) _ panics ((==_iff (length vs) f.arity).1 h)

  pub length-passed :
      (zero : ℕ → Value) (k : ℕ) (vs : List Value) → length (passed zero k vs) ≡ length vs
  length-passed zero k [] = refl
  length-passed zero k (v ∷ vs) = ap suc (length-passed zero (suc k) vs)

  -- How encode_all comes about.
  pub encode_all-cons :
      (v : Value) (vs : List Value) (ts : List Tag) (bs : List Bytes)
      → encode_all json app fault (v ∷ vs) ≡ ok (ts, bs)
      → (t : Tag) × (b : Bytes) × (ts' : List Tag) × (bs' : List Bytes) × (args_type_and_bytes json
            app v
          ≡ ok (t, b))
        × (encode_all json app fault vs ≡ ok (ts', bs'))
        × (ts ≡ t ∷ ts')
        × (bs ≡ b ∷ bs')
  unfolding encode_all
  encode_all-cons v vs ts bs e =
      one_more-ok (args_type_and_bytes json app v) (encode_all json app fault vs) ts bs e

  pub encode_all-nil :
      (ts : List Tag) (bs : List Bytes)
      → encode_all json app fault [] ≡ ok (ts, bs)
      → (ts ≡ []) × (bs ≡ [])
  unfolding encode_all
  encode_all-nil ts bs e = (cc, cc)

  -- Two arguments are decoded one by one.
  pub in_values-two :
      (zero : ℕ → Value) (t t' : Tag) (b b' : Bytes) (v v' : Value)
      → bytes2args json app t b ≡ ok v
      → bytes2args json app t' b' ≡ ok v'
      → in_values json app fault zero (t ∷ t' ∷ []) (b ∷ b' ∷ [])
        ≡ ok
            (map some (or_zero json app fault (zero 0) v ∷ or_zero json app fault (zero 1) v' ∷ []))
  unfolding in_values decode_args
  in_values-two zero t t' b b' v v' p q =
      ap₂
        (λ r r'.
          more_slots json app fault r (zero 0) (more_slots json app fault r' (zero 1) (ok [])))
        p q
