-- ===== src/Model.antt =====
-- Package internal/model: what a collector submits. An `int` or `int64` is a ℤ, and a pointer is an
-- Option: the records are never shared after they are decoded, cloned or built.
pub mod Names
pub mod Status
pub mod Validate
pub mod Normalize
mod Tests
use unibe_clan.Base.{Bool, Option, List, [], ◌∷◌, ◌++◌}
use unibe_clan.Base.Unicode.{text, trim_space}
use unibe_clan.Base.Keys.{Text}
use unibe_clan.Base.Int.{ℤ}
use unibe_clan.Base.Time.{Time}

-- `State` is a string in the source; `unknown` holds any other.
pub data State : Type 0 where
  ok signed_out api_key unavailable : State
  unknown : Text → State

pub record Account : Type 0 where
  pub kind : Text
  pub email : Option Text
  pub plan_type : Text

pub record Window : Type 0 where
  pub used_percent : ℤ
  pub remaining_percent : ℤ
  pub window_duration_mins : Option ℤ
  pub resets_at : Option ℤ

pub record Credits : Type 0 where
  pub has_credits : Bool
  pub unlimited : Bool
  pub balance : Option Text

pub record IndividualLimit : Type 0 where
  pub limit : Text
  pub used : Text
  pub remaining_percent : ℤ
  pub resets_at : ℤ

pub record RateLimit : Type 0 where
  pub id : Text
  pub name : Option Text
  pub plan_type : Option Text
  pub primary : Option Window
  pub secondary : Option Window
  pub credits : Option Credits
  pub individual_limit : Option IndividualLimit
  pub spend_control_reached : Option Bool
  pub reached_type : Option Text

pub record RecentThread : Type 0 where
  pub thread_id : Text
  pub task_name : Text
  pub created_at : ℤ
  pub updated_at : ℤ

pub record RuntimeThread : Type 0 where
  pub thread_id : Text
  pub task_name : Text
  pub created_at : ℤ
  pub updated_at : ℤ
  pub running : Bool

pub record Snapshot : Type 0 where
  pub schema_version : ℤ
  pub username : Text
  pub codex_version : Text
  pub codex_version_observed_at : Option Time
  pub state : State
  pub account : Option Account
  pub main_usage : Option Window
  pub reset_credits_available : Option ℤ
  pub lifetime_tokens : Option ℤ
  pub lifetime_tokens_read : Bool
  pub limits : List RateLimit
  pub recent_threads : List RecentThread
  pub recent_threads_read : Bool
  pub runtime_threads : List RuntimeThread
  pub runtime_threads_read : Bool
  pub observed_at : Time
  pub error_category : Text

-- What `AccountKey` calls: `strings.ToLower`, and the SHA-256 digest of a text's bytes in hexadecimal.
pub record Hashing : Type 0 where
  pub to_lower : Text → Text
  pub hex_digest : Text → Text

-- `AccountKey`. The prefix ends in a NUL byte.
unfoldable pub account_key : Hashing → Text → Text
account_key hashing email =
    hashing.hex_digest (text "chatgpt" ++ (0 ∷ []) ++ hashing.to_lower (trim_space email))
