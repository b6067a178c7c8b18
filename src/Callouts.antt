-- ===== src/Callouts.antt =====
-- wfpdriver/callouts.c: the classify callbacks, and the registration with the filter engine.
pub mod Info
pub mod Layout
pub mod Flow
pub mod Mac
pub mod Redirect
pub mod ClassifyLaws
pub mod MacLaws
