-- ===== src/Example.antt =====
-- examples/vehicle-release-approvals/app: an application over MongoDB.
pub mod Mongo
