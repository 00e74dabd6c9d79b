-- ===== src/Hub.antt =====
-- Package internal/hub: the join of the collectors' snapshots and the hooks' activity into one status
-- for each account, and the choice of what the history observes.
pub mod Entry
pub mod Intake
pub mod Conflict
pub mod Chats
pub mod Sources
pub mod Account
pub mod Table
pub mod Observed
pub mod Start
pub mod State
mod Tests
