-- ===== src/Rpc.antt =====
-- rpc/: the arguments of remote calls.
pub mod Args
pub mod Info
pub mod Server
pub mod Local
pub mod Broker
pub mod Client
