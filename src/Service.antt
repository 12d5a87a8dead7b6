-- ===== src/Service.antt =====
-- src/approvo/service.py.
pub mod Monad
pub mod Append
pub mod Status
pub mod Submit
pub mod Decide
pub mod Audit
pub mod Views
