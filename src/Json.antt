-- ===== src/Json.antt =====
-- The JSON component: linux/src/json.h and linux/src/json.cpp.
pub mod Value
pub mod Floats
pub mod Naturals
pub mod Scan
pub mod Parser
pub mod Printer
pub mod Strings
pub mod Numbers
pub mod Gaps
pub mod Members
pub mod Printable
pub mod Steps
pub mod Texts
pub mod Fuel
pub mod RoundTrip
pub mod Shorter
pub mod WellFormed
pub mod Rounds
pub mod Total
pub mod Access
pub mod Utf8
mod Examples
