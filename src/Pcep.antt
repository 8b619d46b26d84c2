-- ===== src/Pcep.antt =====
-- pkg/packet/pcep: the PCEP wire format.
pub mod Wire
pub mod Tlv
pub mod Report
pub mod Header
pub mod PcErr
pub mod Objects
pub mod Reports
pub mod Requests
