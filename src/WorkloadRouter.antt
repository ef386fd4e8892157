-- ===== src/WorkloadRouter.antt =====
-- The routing of workloads to models (src/electripy/ai/workload_router/).
pub mod Domain
pub mod Scoring
pub mod Constraints
pub mod Service
mod Tests
