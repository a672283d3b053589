-- ===== src/Tests.antt =====
-- Tests at concrete inputs.
pub mod Coding
pub mod Buffer
pub mod Control
pub mod Download
pub mod Engine
pub mod Link
pub mod Hosts
pub mod Kernel
