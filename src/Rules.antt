-- ===== src/Rules.antt =====
-- backend/app/services/limitation_service.py and aggregate_service.py: the rules that an owner saves.
-- `Scope` has what the two services share, `Limitation` and `Aggregate` the operations on the saved
-- rules, `Alerts` and `Totals` their evaluation.
pub mod Scope
pub mod Limitation
pub mod Prepared
pub mod Alerts
pub mod Counted
pub mod Tallied
pub mod Cached
pub mod Texts
pub mod Covered
pub mod Batched
pub mod Complete
pub mod Reading
pub mod Alerted
pub mod Aggregate
pub mod Totals
pub mod Shown
pub mod Checked
pub mod Changed
