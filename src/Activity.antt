-- ===== src/Activity.antt =====
-- Package internal/activity: the events of the hook clients, and the tracker of their chats.
pub mod Event
pub mod Chats
pub mod Leases
pub mod Tracker
mod Tests
