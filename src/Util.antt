-- ===== src/Util.antt =====
-- linux/src/util.cpp
pub mod Version
pub mod Dirs
mod Examples
