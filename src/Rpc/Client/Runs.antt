-- ===== src/Rpc/Client/Runs.antt =====
-- A remote call at concrete inputs.
use lodos.Base.{none}
use lodos.Rpc.Client.{RpcClient}

abbrev unconnected : RpcClient
unconnected = record { local_client = none; remote_client = none; redis_client = none }
