-- ===== src/Pcep/Tlv.antt =====
-- pkg/packet/pcep/tlv.go: the TLVs of PCEP, how they are written and read, and what holds of that.
pub mod Types
pub mod Write
pub mod Serialize
pub mod Read
pub mod Sequence
pub mod Ends
pub mod LeafEnds
pub mod SequenceEnds
pub mod RoundTrip
pub mod Lengths
