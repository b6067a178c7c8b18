-- ===== src/Packets.antt =====
-- The two packet lists of the driver.
pub mod Alloc
pub mod Datalink
pub mod Established
pub mod DatalinkLaws
pub mod EstablishedLaws
