-- ===== src/HttpResilience.antt =====
-- The HTTP resilience client of src/electripy/concurrency/http_resilience/: the breaker
-- (circuit_breaker.py, domain.py) and the retrying client (services.py).
pub mod Breaker
pub mod Retry
pub mod Client
