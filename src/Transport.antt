-- ===== src/Transport.antt =====
-- src/transport: the reassembly buffer, the CONNECT parser, and what a connection does with bytes.
pub mod Reassembly
pub mod Connect
pub mod Pump
pub mod Send
pub mod Endpoint
pub mod Datagram
pub mod Session
pub mod Duplex
