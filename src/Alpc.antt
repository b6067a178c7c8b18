-- ===== src/Alpc.antt =====
-- The message port between the driver and the program: wfpdriver/HlprDriverAlpc.c and
-- wfptools/HlprServerAlpc.cpp.
pub mod Message
pub mod Port
pub mod Server
pub mod PortLaws
pub mod ServerLaws
pub mod Overrun
pub mod Delivered
