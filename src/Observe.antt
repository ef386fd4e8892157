-- ===== src/Observe.antt =====
-- The structured tracing of src/electripy/observability/observe/.
pub mod Domain
pub mod Metadata
pub mod Redaction
pub mod Tracer
pub mod Service
mod Tests
