-- ===== src/Plugins.antt =====
-- linux/src/plugins_manager.cpp: the data layer behind the plugins dialog.
pub mod Profile
pub mod Bundles
pub mod Saved
pub mod Tree
pub mod Cycles
pub mod Tail
pub mod Lines
pub mod Market
pub mod Listing
pub mod Sample
pub mod Dialog
mod Examples
mod MarketExamples
