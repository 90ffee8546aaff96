-- ===== src/Reviewer.antt =====
-- go/internal/agent/reviewer: the review of a pull request.
pub mod Findings
pub mod Scorecard
pub mod Hunks
pub mod Globs
pub mod Filter
pub mod Gates
pub mod Reports
pub mod Standards
pub mod Hub
pub mod Publish
pub mod Intake
pub mod Enqueue
pub mod Marker
pub mod Reconcile
mod Tests
