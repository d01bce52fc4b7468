-- ===== src/Network.antt =====
-- network: connections, and the servers and clients that keep them.
pub mod Conns
pub mod TcpConn
pub mod Runs
pub mod TcpClient
pub mod TcpServer
pub mod Turns
pub mod WsConn
pub mod WsServer
