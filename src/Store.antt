-- ===== src/Store.antt =====
-- The stores: the contract of src/approvo/stores/base.py as tests/memory_stores.py implements it, which is what the conformance suite runs on.
pub mod Events
pub mod Reservations
pub mod Projections
