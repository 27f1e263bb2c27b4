-- ===== src/Windows.antt =====
-- windows/src: the Windows shell.
pub mod Scan
pub mod Escapes
pub mod Ranges
pub mod Arrays
pub mod Rounds
pub mod Guard
pub mod Paths
pub mod Versions
pub mod Order
pub mod Arguments
mod Examples
mod SystemExamples
