-- ===== src/Tests.antt =====
-- The theorems at concrete inputs, one file for each part of the program.
pub mod Data
pub mod Devctrl
pub mod Packets
pub mod Tools
pub mod Callouts
pub mod Lifecycle
pub mod Handler
pub mod Setup
pub mod Alpc
pub mod Strings
