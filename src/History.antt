-- ===== src/History.antt =====
-- Package internal/history: the account-keyed history of weekly windows, their resets and the
-- adjustments that the rate-limit service reports.
pub mod Windows
pub mod Adjustments
pub mod Events
pub mod Tracker
pub mod Observe
pub mod Reconcile
pub mod Open
mod Tests
