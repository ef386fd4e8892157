-- ===== src/Policy.antt =====
-- The policy and approval engine: src/electripy/ai/policy/ (domain.py, adapters.py, services.py).
pub mod Domain
mod Samples
pub mod Evaluator
pub mod Store
pub mod Engine
