-- ===== src/Rules.antt =====
-- src/rules/rule_engine.cpp: the rule engine, loader and appliers, in the modules below.
pub mod Types
pub mod Text
pub mod Replace
pub mod Hex
pub mod Match
pub mod Apply
pub mod Load
