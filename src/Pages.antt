-- ===== src/Pages.antt =====
-- The scripts in the pages of ui/nats-kv-user/src/lib.rs, which run in the visitor's browser.
pub mod Uri
pub mod Percentile
pub mod LoadTest
pub mod GatePage
pub mod Verify
pub mod Session
pub mod Dashboard
pub mod Picker
pub mod Play
pub mod Topology
