-- ===== src/LlmGateway.antt =====
-- The LLM gateway: src/electripy/ai/llm_gateway/ (domain.py, config.py, errors.py, services.py).
pub mod Domain
pub mod Validation
pub mod Client
