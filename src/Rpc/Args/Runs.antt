-- ===== src/Rpc/Args/Runs.antt =====
-- The theorems on the arguments of remote calls at concrete inputs.
use lodos.Base.{◌≡◌, refl, sym, Option, none, some, List, [], ◌∷◌}
use lodos.Io.Result.{ok, err, type_not_allowed}
use lodos.Io.Reader.{Bytes}
use lodos.Rpc.Args.{Tag, Arg, Json, Serializer, args_type_and_bytes, bytes2args}
use lodos.Rpc.Args.RoundTrip.{Decoded, IsJson, arrived, bytes2args-args_type_and_bytes}
use lodos.Utils.Numbers.{negsuc, int_to_bytes}

-- Maps whose JSON is their text.
abbrev pub plain : Json Bytes Bytes
plain = record { marshal = ok; unmarshal = ok; marshal_strings = ok; unmarshal_strings = ok }

-- With this format a map comes back as it was.
abbrev pub as_it_was : Decoded Bytes Bytes
as_it_was = record { objects = λ m. m; strings = λ m. m }

pub plain-IsJson : IsJson as_it_was plain
plain-IsJson = record { objects = λ m b h. sym h; strings = λ m b h. sym h }

pub string-sent :
    (s : Bytes) → args_type_and_bytes {Other = Bytes} plain none (Arg.string s) ≡ ok (Tag.string, s)
unfolding args_type_and_bytes
string-sent s = refl

-- A serializer that takes the bytes of every type of its own for the value.
abbrev pub takes_all : Serializer Bytes Bytes Bytes
takes_all = record { serialize = λ v. err type_not_allowed; deserialize = λ t b. ok (Arg.other b) }

pub custom-arrives :
    (name b : Bytes)
    → bytes2args plain (some (takes_all ∷ [])) (Tag.custom name) b ≡ ok (Arg.other b)
unfolding bytes2args
custom-arrives name b = refl

pub bytes-sent :
    (app : Option (List (Serializer Bytes Bytes Bytes))) (s : Bytes)
    → args_type_and_bytes plain app (Arg.bytes s) ≡ ok (Tag.bytes, s)
unfolding args_type_and_bytes
bytes-sent app s = refl

minus_one-sent :
    args_type_and_bytes {Other = Bytes} plain none (Arg.int (negsuc 0))
    ≡ ok (Tag.int, int_to_bytes (negsuc 0))
unfolding args_type_and_bytes
minus_one-sent = refl

bytes2args-args_type_and_bytes_example :
    bytes2args {Other = Bytes} plain none Tag.int (int_to_bytes (negsuc 0))
    ≡ ok (arrived as_it_was (Arg.int (negsuc 0)))
bytes2args-args_type_and_bytes_example =
    bytes2args-args_type_and_bytes as_it_was plain none (Arg.int (negsuc 0)) Tag.int
      (int_to_bytes (negsuc 0)) plain-IsJson tt minus_one-sent
