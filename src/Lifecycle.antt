-- ===== src/Lifecycle.antt =====
-- Loading and unloading: wfpdriver/driver.c, and the part of wfpdriver/callouts.c that talks to the
-- filter engine.
pub mod Engine
pub mod Registration
pub mod EngineLaws
pub mod BalanceLaws
pub mod ReadyLaws
pub mod FreedLaws
pub mod InitLaws
pub mod DeviceLaws
pub mod Loading
pub mod Freeing
pub mod Entry
pub mod FreeLaws
pub mod Faults
pub mod EntryLaws
pub mod EntryFails
pub mod Waiting
