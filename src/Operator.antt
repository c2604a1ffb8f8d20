-- ===== src/Operator.antt =====
-- components/prophet/schedule/operator: the operators that Prophet schedules.
pub mod Pdpb
pub mod Status
pub mod Tracker
pub mod Resource
pub mod Influence
pub mod Step
pub mod Joint
pub mod OpStep
pub mod Plan
pub mod Builder
mod Tests
