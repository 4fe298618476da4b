-- ===== src/Tls.antt =====
-- src/tls: the server name of a ClientHello, and the patching of decrypted text.
pub mod Sni
pub mod Plaintext
pub mod Process
pub mod Certificate
pub mod Session
