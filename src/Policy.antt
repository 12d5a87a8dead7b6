-- ===== src/Policy.antt =====
-- src/approvo/policy: declarative policies (model.py) and their evaluation (engine.py).
pub mod Model
pub mod Engine
