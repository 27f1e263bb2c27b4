-- ===== src/Plugins/Dialog.antt =====
-- linux/src/plugins_manager.cpp: the plugins dialog, a state that handlers of the main thread and the
-- workers' idle callbacks change.
pub mod State
pub mod Rows
pub mod Buttons
pub mod Operations
pub mod Handlers
pub mod World
pub mod Ledger
pub mod Began
pub mod Workers
pub mod Settled
pub mod Lifetime
pub mod MarketRows
pub mod Shown
pub mod Clicks
pub mod Enabling
mod Examples
