-- ===== src/Patch.antt =====
-- src/patch/patch_engine.cpp: the patch engine. The rules are `none` where no engine was set.
pub mod Unchanged
pub mod Bytes
pub mod Engine
pub mod Agree
