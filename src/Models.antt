-- ===== src/Models.antt =====
-- The data model of src/approvo/models.py, one module for each class that is stored or signed.
pub mod Request
pub mod Decision
pub mod Entry
pub mod Checkpoint
pub mod Binding
pub mod Views
