-- ===== src/Window.antt =====
-- linux/src/main_window.cpp: the main window.
pub mod Preferences
pub mod SettingsFile
pub mod Lines
pub mod Logs
pub mod Chunks
pub mod About
pub mod Navigation
pub mod Origin
pub mod External
pub mod Grace
pub mod Polling
pub mod Growth
pub mod Polls
pub mod Waiting
pub mod Relay
pub mod Pairing
pub mod Address
pub mod Blanks
pub mod Bridge
pub mod Output
pub mod Bridging
pub mod Processes
pub mod Controls
pub mod Reopened
pub mod Installing
pub mod Ownership
mod Sample
mod Examples
mod PollExamples
mod ControlExamples
mod InstallExamples
mod BridgeExamples
