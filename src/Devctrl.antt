-- ===== src/Devctrl.antt =====
-- wfpdriver/devctrl.c, the device and its queues.
pub mod Push
pub mod Pop
pub mod Fill
pub mod Frame
pub mod Delivery
pub mod Room
pub mod Popping
pub mod Overrun
pub mod Overlap
pub mod Moved
pub mod PopMoves
pub mod FillMoves
pub mod Serves
pub mod Drains
pub mod Leak
pub mod Reads
pub mod SharedMem
pub mod Dispatch
pub mod MemoryLaws
pub mod Events
pub mod Keeps
pub mod ReadLaws
pub mod RunLaws
pub mod Rounds
pub mod Channel
pub mod Capture
pub mod Follows
pub mod RoundFollows
pub mod Refines
pub mod Covers
pub mod Accounts
pub mod CloseLaws
pub mod DispatchLaws
