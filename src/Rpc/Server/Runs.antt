-- ===== src/Rpc/Server/Runs.antt =====
-- The theorems on the server of remote calls at concrete inputs.
use lodos.Base.{◌≡◌, ap, true, none, some, List, [], ◌∷◌, same, if◌then◌else◌}
use lodos.Io.Result.{ok}
use lodos.Io.Reader.{Bytes}
use lodos.Rpc.Args.{Tag, Arg}
use lodos.Rpc.Args.Runs.{plain, string-sent, bytes-sent}
use lodos.Rpc.Info.{RpcInfo}
use lodos.Rpc.Server.{returns, Fault, no_fault, FuncInfo, Functions, encode_all, one_more}

abbrev pub V : Type 0
V = Arg Bytes Bytes Bytes

abbrev pub echo : Bytes
echo = b'e' ∷ []

-- A function that returns its arguments, and nil as the error.
abbrev and_null : List V → List V
and_null [] = Arg.null ∷ []
and_null (v ∷ vs) = v ∷ and_null vs

abbrev pub echoes : FuncInfo V
echoes = record {
  arity = 1;
  zero = λ k. Arg.null;
  body = λ vs. returns (and_null vs);
  goroutine = true;
}

abbrev pub only_echo : Functions V
only_echo name = if same name echo then some echoes else none

abbrev pub no_faults : Bytes → Fault
no_faults o = no_fault

abbrev pub hello : Bytes
hello = b'h' ∷ b'i' ∷ []

pub hello-encoded :
    encode_all plain none no_faults (Arg.string hello ∷ []) ≡ ok (Tag.string ∷ [], hello ∷ [])
unfolding encode_all
hello-encoded = ap (λ r. one_more plain none no_faults r (ok ([], []))) (string-sent hello)

pub bytes-encoded :
    (app : _) (b : Bytes)
    → encode_all plain app no_faults (Arg.bytes b ∷ []) ≡ ok (Tag.bytes ∷ [], b ∷ [])
unfolding encode_all
bytes-encoded app b = ap (λ r. one_more plain app no_faults r (ok ([], []))) (bytes-sent app b)

abbrev greeting : RpcInfo
greeting = record {
  fn = echo;
  reply = true;
  expired = 5000;
  cid = b'1' ∷ [];
  args_type = Tag.string ∷ [];
  args = hello ∷ [];
}
