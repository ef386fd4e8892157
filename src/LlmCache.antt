-- ===== src/LlmCache.antt =====
-- The cache of LLM responses: src/electripy/ai/llm_cache/.
pub mod Memory
pub mod Port
mod Tests
