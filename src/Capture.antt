-- ===== src/Capture.antt =====
-- src/capture: the flow table, the packet rewriting and the redirect controller.
pub mod FlowTable
pub mod Packet
pub mod Redirect
pub mod Wfp
pub mod Divert
