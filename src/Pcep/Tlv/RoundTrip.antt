-- ===== src/Pcep/Tlv/RoundTrip.antt =====
-- The decoders of pkg/packet/pcep/tlv.go read back what the serializers wrote.
pub mod Frame
pub mod WellFormed
pub mod Reads
pub mod Leaf
pub mod Flags
pub mod Fields
pub mod Values
pub mod Addresses
pub mod Vendors
pub mod Associations
pub mod Candidates
pub mod Nested
pub mod All
