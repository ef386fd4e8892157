-- ===== src/Realtime.antt =====
-- Realtime sessions: src/electripy/ai/realtime/ (domain.py, services.py, and the in-memory store and
-- observer of adapters.py).
pub mod Domain
pub mod Store
pub mod Service
