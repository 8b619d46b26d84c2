-- ===== src/Server.antt =====
-- pkg/server: the PCEP sessions of the PCE and the list of them.
pub mod SrpId
pub mod Intents
pub mod Session
pub mod Policies
pub mod Allocation
pub mod Send
pub mod Errors
pub mod Sessions
