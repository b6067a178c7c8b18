-- ===== src/Setup.antt =====
-- Installing and starting the driver: the service calls of wfptools/main.cpp.
pub mod Scm
pub mod Service
pub mod Install
pub mod Device
pub mod Init
pub mod Registry
pub mod RegistryLaws
pub mod Program
pub mod HandleLaws
pub mod Runs
pub mod ResultLaws
pub mod SleepLaws
pub mod InitLaws
