-- ===== src/Tools.antt =====
-- The user-mode side, wfptools/.
pub mod WorkThread
pub mod Header
pub mod Batch
pub mod ReadLoop
pub mod ReadLaws
pub mod Paths
pub mod FilePath
pub mod SplitLaws
pub mod FindLaws
pub mod PathLaws
pub mod Handler
pub mod FieldLaws
pub mod HandlerLaws
