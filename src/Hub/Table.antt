-- ===== src/Hub/Table.antt =====
-- internal/hub/hub.go: what a hub keeps, and what `New` fills in.
use unibe_clan.Base.{ℕ, ◌+◌, ◌%◌, Bool, false, Option, none, List, []}
use unibe_clan.Base.Keys.{Text, nat_eq, text_eq}
use unibe_clan.Base.Unicode.{text}
use unibe_clan.Model.{unavailable, Snapshot}
use unibe_clan.Model.Validate.{schema_version}
use unibe_clan.Model.Status.{StatusResponse}
use unibe_clan.History.Tracker.{Tracker}
use unibe_clan.Hub.Entry.{Identity, Entry}
use unibe_clan.Hub.Sources.{HistorySourceState}
use unibe_clan.Hub.Account.{View}

pub record HistoryUpdate : Type 0 where
  pub snapshot : Snapshot
  pub rebaseline : Bool

pub record Hub : Type 0 where
  pub order : List Text
  pub by_uid : List (ℕ × Text)
  pub entries : List (Text × Entry)
  pub expected_anchors : List (Text × Text)
  pub expected_emails : List (Text × Text)
  pub stale_after : ℕ
  pub demo : Bool
  pub revision : ℕ
  pub next_sub_id : ℕ
  pub subs : List (ℕ × Option StatusResponse)
  pub history : Option Tracker
  pub history_observed : List (Text × HistorySourceState)

pub data NewError : Type 0 where
  stale_after_not_positive invalid_identity duplicate_username duplicate_uid : NewError
  duplicate_account : NewError

pub data ApplyError : Type 0 where
  untrusted_uid wrong_username invalid_snapshot : ApplyError

-- The zero value of a snapshot, as `New` fills it in.
abbrev pub awaiting_snapshot : Text → Snapshot
awaiting_snapshot username = record {
  schema_version = schema_version;
  username = username;
  codex_version = [];
  codex_version_observed_at = none;
  state = unavailable;
  account = none;
  main_usage = none;
  reset_credits_available = none;
  lifetime_tokens = none;
  lifetime_tokens_read = false;
  limits = [];
  recent_threads = [];
  recent_threads_read = false;
  runtime_threads = [];
  runtime_threads_read = false;
  observed_at = 0;
  error_category = text "awaiting_collector";
}

abbrev pub new_entry : Identity → Entry
new_entry i = record {
  identity = i;
  current = awaiting_snapshot i.username;
  last_seen_at = 0;
  last_good = none;
  last_good_at = none;
  membership = [];
  lifetime_tokens = none;
  lifetime_at = 0;
  codex_version = [];
  codex_version_at = 0;
  recent_threads = [];
  runtime_threads = [];
  runtime_inventory_at = 0;
  runtime_quarantine = [];
  runtime_quarantine_pending = false;
  account_version = 0;
}

abbrev pub empty_hub : ℕ → Hub
empty_hub stale_after = record {
  order = [];
  by_uid = [];
  entries = [];
  expected_anchors = [];
  expected_emails = [];
  stale_after = stale_after;
  demo = false;
  revision = 0;
  next_sub_id = 0;
  subs = [];
  history = none;
  history_observed = [];
}

abbrev pub view_of : Hub → View
view_of h = record {
  order = h.order;
  entries = h.entries;
  expected_anchors = h.expected_anchors;
  expected_emails = h.expected_emails;
  stale_after = h.stale_after;
  history_observed = h.history_observed;
}

abbrev pub next_revision : ℕ → ℕ
next_revision r = (r + 1) % 18_446_744_073_709_551_616
