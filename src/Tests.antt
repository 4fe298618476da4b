-- ===== src/Tests.antt =====
-- Runs of the code on concrete inputs, and the theorems at concrete inputs.
mod Runs
mod Witnesses
mod Traffic
mod Messages
mod Systems
mod Connections
mod Starts
mod Launches
