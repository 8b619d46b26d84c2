-- ===== src/Table.antt =====
-- pkg/table: segments, SR Policies and the rules on their values.
pub mod Segment
pub mod Policy
pub mod Ted
pub mod SidValidate
