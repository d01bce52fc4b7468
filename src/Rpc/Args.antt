-- ===== src/Rpc/Args.antt =====
-- rpc/argsutil/argsutil.go: the arguments of a remote call as a type and bytes.
pub mod RoundTrip
pub mod Runs
use lodos.Base.{ℕ, Bool, Option, none, some, List, [], ◌∷◌}
use lodos.Io.Result.{Error, Result, ok, err, panic, stuck, type_not_allowed}
use lodos.Io.Reader.{Bytes}
use lodos.Utils.Numbers.{
  ℤ, Float32, Float64, converted, bool_to_bytes, bytes_to_bool, int_to_bytes, bytes_to_int,
  int32_to_bytes, bytes_to_int32, int64_to_bytes, bytes_to_int64, float32_to_bytes,
  bytes_to_float32, float64_to_bytes, bytes_to_float64,
}

-- The names of the types, which are distinct strings; `custom` is every other string.
pub data Tag : Type 0 where
  null bool int int32 long float double bytes string map mapstr : Tag
  custom : Bytes → Tag

-- The values that the type switch tells apart: `Object` stands for map[string]interface{}, `StringMap` for
-- map[string]string and `Other` for the values of every other type.
pub data Arg (Object StringMap Other : Type 0) : Type 0 where
  null : Arg Object StringMap Other
  string : Bytes → Arg Object StringMap Other
  bool : Bool → Arg Object StringMap Other
  int32 : ℤ → Arg Object StringMap Other
  int : ℤ → Arg Object StringMap Other
  int64 : ℤ → Arg Object StringMap Other
  float32 : Float32 → Arg Object StringMap Other
  float64 : Float64 → Arg Object StringMap Other
  bytes : Bytes → Arg Object StringMap Other
  map : Object → Arg Object StringMap Other
  mapstr : StringMap → Arg Object StringMap Other
  other : Other → Arg Object StringMap Other

-- encoding/json on the two types of maps.
pub record Json (Object StringMap : Type 0) : Type 0 where
  pub marshal : Object → Result Bytes
  pub unmarshal : Bytes → Result Object
  pub marshal_strings : StringMap → Result Bytes
  pub unmarshal_strings : Bytes → Result StringMap

-- `module.RPCSerialize`
pub record Serializer (Object StringMap Other : Type 0) : Type 0 where
  pub serialize : Arg Object StringMap Other → Result (Tag × Bytes)
  pub deserialize : Tag → Bytes → Result (Arg Object StringMap Other)

-- `if err == nil { return }` in a loop.
abbrev or_next : {A : Type 0} → Result A → Result A → Result A
or_next (ok a) rest = ok a
or_next (err e) rest = rest
or_next panic rest = panic
or_next stuck rest = stuck

module _ {Object StringMap Other : Type 0} where
  -- The serializers of the application stand in the order in which the loop meets them.
  abbrev serialize_first :
      List (Serializer Object StringMap Other) → Arg Object StringMap Other → Result (Tag × Bytes)
  serialize_first [] arg = err type_not_allowed
  serialize_first (v ∷ vs) arg = or_next (v.serialize arg) (serialize_first vs arg)

  abbrev deserialize_first :
      List (Serializer Object StringMap Other) → Tag → Bytes → Result (Arg Object StringMap Other)
  deserialize_first [] args_type args = err type_not_allowed
  deserialize_first (v ∷ vs) args_type args =
      or_next (v.deserialize args_type args) (deserialize_first vs args_type args)

  -- `app` is nil or has its serializers. On an error the type that comes with it is left out.
  pub args_type_and_bytes :
      Json Object StringMap
      → Option (List (Serializer Object StringMap Other))
      → Arg Object StringMap Other
      → Result (Tag × Bytes)
  args_type_and_bytes json app (Arg.bytes v) = ok (Tag.bytes, v)
  args_type_and_bytes json app Arg.null = ok (Tag.null, [])
  args_type_and_bytes json app (Arg.string v) = ok (Tag.string, v)
  args_type_and_bytes json app (Arg.bool v) = ok (Tag.bool, bool_to_bytes v)
  args_type_and_bytes json app (Arg.int32 v) = ok (Tag.int32, int32_to_bytes v)
  args_type_and_bytes json app (Arg.int v) = ok (Tag.int, int_to_bytes v)
  args_type_and_bytes json app (Arg.int64 v) = ok (Tag.long, int64_to_bytes v)
  args_type_and_bytes json app (Arg.float32 v) = ok (Tag.float, float32_to_bytes v)
  args_type_and_bytes json app (Arg.float64 v) = ok (Tag.double, float64_to_bytes v)
  args_type_and_bytes json app (Arg.map v) = converted (λ b. (Tag.map, b)) (json.marshal v)
  args_type_and_bytes json app (Arg.mapstr v) =
      converted (λ b. (Tag.mapstr, b)) (json.marshal_strings v)
  args_type_and_bytes json none (Arg.other v) = err type_not_allowed
  args_type_and_bytes json (some vs) (Arg.other v) = serialize_first vs (Arg.other v)

  pub bytes2args :
      Json Object StringMap
      → Option (List (Serializer Object StringMap Other))
      → Tag
      → Bytes
      → Result (Arg Object StringMap Other)
  bytes2args json app Tag.null args = ok Arg.null
  bytes2args json app Tag.string args = ok (Arg.string args)
  bytes2args json app Tag.bool args = converted Arg.bool (bytes_to_bool args)
  bytes2args json app Tag.int args = converted Arg.int (bytes_to_int args)
  bytes2args json app Tag.int32 args = converted Arg.int32 (bytes_to_int32 args)
  bytes2args json app Tag.long args = converted Arg.int64 (bytes_to_int64 args)
  bytes2args json app Tag.float args = converted Arg.float32 (bytes_to_float32 args)
  bytes2args json app Tag.double args = converted Arg.float64 (bytes_to_float64 args)
  bytes2args json app Tag.bytes args = ok (Arg.bytes args)
  bytes2args json app Tag.map args = converted Arg.map (json.unmarshal args)
  bytes2args json app Tag.mapstr args = converted Arg.mapstr (json.unmarshal_strings args)
  bytes2args json none (Tag.custom name) args = err type_not_allowed
  bytes2args json (some vs) (Tag.custom name) args = deserialize_first vs (Tag.custom name) args
