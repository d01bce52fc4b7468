-- ===== src/Rpc/Info.antt =====
-- What goes between the two sides of a remote call: rpc/pb and rpc.CallInfo, and rpc/base/error.go.
use lodos.Base.{ℕ, Bool, false, List, [], is_empty}
use lodos.Io.Result.{Error}
use lodos.Io.Reader.{Bytes}
use lodos.Rpc.Args.{Tag}
use lodos.Utils.Numbers.{ℤ, pos, negsuc}

-- The texts of the errors that the server reports, one constructor for each `fmt.Sprintf`; `said` is a
-- text of the function itself, `coded` that of a `*Error` that it returned. No other text is empty.
pub data Text : Type 0 where
  said : Bytes → Text
  coded : ℤ → Bytes → Text
  not_found : Bytes → Text
  not_adapted recovered expired no_output not_an_error : Text
  refused : Error → Text
  timeout : Bytes → Text

-- `text == ""`
abbrev pub is_blank : Text → Bool
is_blank (said s) = is_empty s
is_blank _ = false

abbrev pub blank : Text
blank = said []

abbrev pub client_param_not_adapted : ℤ
client_param_not_adapted = negsuc 0

abbrev pub server_format_error : ℤ
server_format_error = pos 2

abbrev pub server_expired : ℤ
server_expired = pos 102

abbrev pub no_code : ℤ
no_code = pos 0

-- `rpcpb.RPCInfo`, its time in milliseconds.
pub record RpcInfo : Type 0 where
  pub fn : Bytes
  pub reply : Bool
  pub expired : ℕ
  pub cid : Bytes
  pub args_type : List Tag
  pub args : List Bytes

-- `rpcpb.ResultInfo`
pub record ResultInfo : Type 0 where
  pub cid : Bytes
  pub err_code : ℤ
  pub error : Text
  pub results_type : List Tag
  pub results : List Bytes

abbrev pub error_info : Bytes → ℤ → Text → ResultInfo
error_info cid code error = record {
  cid = cid;
  err_code = code;
  error = error;
  results_type = [];
  results = [];
}
