-- ===== src/Model/Status.antt =====
-- internal/model/model.go: the status that the hub publishes.
use unibe_clan.Base.{ℕ, Bool, Option, List}
use unibe_clan.Base.Keys.{Text}
use unibe_clan.Base.Int.{ℤ}
use unibe_clan.Base.Time.{Time}
use unibe_clan.Model.{State, Account, Window, RateLimit}

pub data UserRole : Type 0 where
  anchor consumer : UserRole

-- The empty string stands for no health at all, in `AccountStatus`.
pub data AnchorHealth : Type 0 where
  ok stale signed_out wrong_account none_given : AnchorHealth

pub record UserStatus : Type 0 where
  pub username : Text
  pub codex_version : Text
  pub codex_version_observed_at : Option Time
  pub active_chats_known : Bool
  pub state : State
  pub role : UserRole
  pub last_seen_at : Time
  pub last_good_at : Option Time
  pub stale : Bool

pub record ActiveChat : Type 0 where
  pub task_name : Text
  pub username : Text
  pub started_at : Time
  pub updated_at : Time
  pub running : Bool

pub record AccountStatus : Type 0 where
  pub account_key : Text
  pub state : State
  pub account : Option Account
  pub main_usage : Option Window
  pub reset_credits_available : Option ℤ
  pub limits : List RateLimit
  pub observed_at : Time
  pub last_seen_at : Time
  pub last_good_at : Option Time
  pub stale : Bool
  pub users : List UserStatus
  pub active_chats : List ActiveChat
  pub lifetime_tokens : Option ℤ
  pub anchor_health : AnchorHealth
  pub source_conflict : Bool

pub record StatusResponse : Type 0 where
  pub schema_version : ℤ
  pub revision : ℕ
  pub generated_at : Time
  pub demo : Bool
  pub accounts : List AccountStatus
  pub unassigned_users : List UserStatus
