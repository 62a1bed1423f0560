-- ===== src/Pages/Dashboard.antt =====
-- The dashboard of ui/nats-kv-user/src/lib.rs. A preview of a placement stands in Preview, the
-- markup of a placement in Placement, and the buckets in Buckets.
pub mod Placement
pub mod Preview
pub mod BucketRows
pub mod Buckets
pub mod Start
