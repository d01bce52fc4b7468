-- ===== src/Mqtt.antt =====
-- gate/base/mqtt: the MQTT packets, their reader and writer, and the connection's queue and client.
pub mod Kinds
pub mod Pack
pub mod Length
pub mod Write
pub mod Message
pub mod Read
pub mod Queue
pub mod Client
mod Runs
