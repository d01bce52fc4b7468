-- ===== src/Rpc/Args/RoundTrip.antt =====
-- An argument that is sent is the argument that arrives.
use lodos.Base.{◌^◌, ◌<◌, ◌≡◌, refl, sym, ap, ◌∙◌, Option, List}
use lodos.Io.Result.{Result, ok, err, panic, stuck}
use lodos.Io.Reader.{Bytes}
use lodos.Rpc.Args.{Tag, Arg, Json, Serializer, args_type_and_bytes, bytes2args}
use lodos.Utils.Numbers.{pos, uint32, IsInt32, IsInt64, converted}
use lodos.Utils.Numbers.RoundTrip.{
  bytes_to_bool-bool_to_bytes, bytes_to_int-int_to_bytes, bytes_to_int32-int32_to_bytes,
  bytes_to_int64-int64_to_bytes, bytes_to_float32-float32_to_bytes,
  bytes_to_float64-float64_to_bytes,
}

-- What comes back of a map from json.Marshal and json.Unmarshal: of an object the values that its JSON has, of a
-- map of strings its texts, in which the bytes that are no UTF-8 are replaced.
pub record Decoded (Object StringMap : Type 0) : Type 0 where
  pub objects : Object → Object
  pub strings : StringMap → StringMap

-- json.Unmarshal gives that of a map that json.Marshal took.
pub record IsJson {Object StringMap : Type 0} (decoded : Decoded Object StringMap)
    (json : Json Object StringMap) : Type 0 where
  pub objects :
      (m : Object) (b : Bytes) → json.marshal m ≡ ok b → json.unmarshal b ≡ ok (decoded.objects m)
  pub strings :
      (m : StringMap) (b : Bytes)
      → json.marshal_strings m ≡ ok b
      → json.unmarshal_strings b ≡ ok (decoded.strings m)

converted-ok :
    {A B : Type 0} (f : A → B) (r : Result A) {y : B}
    → converted f r ≡ ok y
    → (x : A) × (r ≡ ok x) × (f x ≡ y)
converted-ok f (ok x) h = (x, refl, cc)
converted-ok f (err e) h = cc
converted-ok f panic h = cc
converted-ok f stuck h = cc

module _ {Object StringMap Other : Type 0} where
  -- A value of a type that needs no serializer, of the width that its type has.
  abbrev pub IsBuiltin : Arg Object StringMap Other → Type 0
  IsBuiltin (Arg.int32 v) = IsInt32 v
  IsBuiltin (Arg.int64 v) = IsInt64 v
  IsBuiltin (Arg.float32 v) = v.bits < 2 ^ 32
  IsBuiltin (Arg.float64 v) = v.bits < 2 ^ 64
  IsBuiltin (Arg.other v) = ⊥
  IsBuiltin _ = Unit {0}

  -- What arrives: an int less its sign and its high 32 bits, and of a map what JSON keeps.
  abbrev pub arrived :
      Decoded Object StringMap → Arg Object StringMap Other → Arg Object StringMap Other
  arrived decoded (Arg.int v) = Arg.int (pos (uint32 v))
  arrived decoded (Arg.map v) = Arg.map (decoded.objects v)
  arrived decoded (Arg.mapstr v) = Arg.mapstr (decoded.strings v)
  arrived decoded arg = arg

  abbrev pub sent_on :
      Json Object StringMap
      → Option (List (Serializer Object StringMap Other))
      → Result (Tag × Bytes)
      → Result (Arg Object StringMap Other)
  sent_on json app (ok (t, b)) = bytes2args json app t b
  sent_on json app (err e) = err e
  sent_on json app panic = panic
  sent_on json app stuck = stuck

  -- Bytes2Args gives back the argument that ArgsTypeAnd2Bytes took, for every type that needs no
  -- serializer of the application, but for an int, of which the low 32 bits arrive as a number that is not
  -- negative, and for the values inside an object and the texts of a map of strings, which are what JSON makes of
  -- them.
  pub bytes2args-args_type_and_bytes :
      (decoded : Decoded Object StringMap) (json : Json Object StringMap)
      (app : Option (List (Serializer Object StringMap Other))) (arg : Arg Object StringMap Other)
      (t : Tag) (b : Bytes)
      → IsJson decoded json
      → IsBuiltin arg
      → args_type_and_bytes json app arg ≡ ok (t, b)
      → bytes2args json app t b ≡ ok (arrived decoded arg)
  unfolding args_type_and_bytes bytes2args
  bytes2args-args_type_and_bytes decoded json app (Arg.null) t b hj h e =
      sym (ap (sent_on json app) e)
  bytes2args-args_type_and_bytes decoded json app (Arg.string v) t b hj h e =
      sym (ap (sent_on json app) e)
  bytes2args-args_type_and_bytes decoded json app (Arg.bytes v) t b hj h e =
      sym (ap (sent_on json app) e)
  bytes2args-args_type_and_bytes decoded json app (Arg.bool v) t b hj h e =
      sym (ap (sent_on json app) e) ∙ ap (converted Arg.bool) (bytes_to_bool-bool_to_bytes v)
  bytes2args-args_type_and_bytes decoded json app (Arg.int v) t b hj h e =
      sym (ap (sent_on json app) e) ∙ ap (converted Arg.int) (bytes_to_int-int_to_bytes v)
  bytes2args-args_type_and_bytes decoded json app (Arg.int32 v) t b hj h e =
      sym (ap (sent_on json app) e) ∙ ap (converted Arg.int32) (bytes_to_int32-int32_to_bytes v h)
  bytes2args-args_type_and_bytes decoded json app (Arg.int64 v) t b hj h e =
      sym (ap (sent_on json app) e) ∙ ap (converted Arg.int64) (bytes_to_int64-int64_to_bytes v h)
  bytes2args-args_type_and_bytes decoded json app (Arg.float32 v) t b hj h e =
      sym (ap (sent_on json app) e)
      ∙ ap (converted Arg.float32) (bytes_to_float32-float32_to_bytes v h)
  bytes2args-args_type_and_bytes decoded json app (Arg.float64 v) t b hj h e =
      sym (ap (sent_on json app) e)
      ∙ ap (converted Arg.float64) (bytes_to_float64-float64_to_bytes v h)
  bytes2args-args_type_and_bytes decoded json app (Arg.map v) t b hj h e =
      let (b', marshalled, same) = converted-ok _ (json.marshal v) e in
      sym (ap (λ tb. bytes2args json app (tb.0) (tb.1)) same)
      ∙ ap (converted Arg.map) (hj.objects v b' marshalled)
  bytes2args-args_type_and_bytes decoded json app (Arg.mapstr v) t b hj h e =
      let (b', marshalled, same) = converted-ok _ (json.marshal_strings v) e in
      sym (ap (λ tb. bytes2args json app (tb.0) (tb.1)) same)
      ∙ ap (converted Arg.mapstr) (hj.strings v b' marshalled)
  bytes2args-args_type_and_bytes decoded json app (Arg.other v) t b hj h e = absurd h

-- Bytes arrive as they are.
pub bytes2args-bytes :
    {Object StringMap Other : Type 0} (json : Json Object StringMap)
    (app : Option (List (Serializer Object StringMap Other))) (b : Bytes)
    → bytes2args json app Tag.bytes b ≡ ok (Arg.bytes b)
unfolding bytes2args
bytes2args-bytes json app b = refl
