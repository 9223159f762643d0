-- ===== src/Util.antt =====
-- src/util.c: byte strings as text, paths and versions.
pub mod Hex
pub mod Digests
pub mod Masks
pub mod Paths
pub mod Versions
mod Tests
