-- ===== src/Gate.antt =====
-- gate/base: the sessions of the gate, and what it does with the requests of its clients.
pub mod Remote
pub mod Session
pub mod Handler
pub mod Recover
pub mod Login
