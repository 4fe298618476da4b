-- ===== src/Protocol.antt =====
-- src/protocol: detection, the HTTP adapter and the manager, in the modules below.
pub mod Detector
pub mod Message
pub mod Adapter
pub mod Manager
