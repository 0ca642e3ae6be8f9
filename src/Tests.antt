-- ===== src/Tests.antt =====
-- Tests, and a concrete instance of each theorem of the result list that has hypotheses.
pub mod Data
pub mod Decisions
pub mod Estimates
pub mod Merges
pub mod Knowledge
pub mod Choices
pub mod Stores
pub mod Operations
pub mod Gates
pub mod Plans
pub mod Attributions
pub mod Admissions
pub mod Banks
