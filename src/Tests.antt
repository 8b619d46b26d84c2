-- ===== src/Tests.antt =====
-- The theorems applied to concrete inputs.
mod Messages
mod Wire
mod Servers
mod Paths
mod Routes
mod Texts
mod Labels
mod Reports
mod Tlvs
mod Sessions
