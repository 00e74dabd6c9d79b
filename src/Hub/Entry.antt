-- ===== src/Hub/Entry.antt =====
-- internal/hub/hub.go: what the hub keeps of one user, and what can be told from it at a time. A
-- difference of two times saturates in the source; this does not show for a duration below that.
use unibe_clan.Base.{
  ℕ, ◌+◌, ◌*◌, Bool, true, false, not, ◌&&◌, ◌||◌, Option, none, some, List, [], ◌∷◌, all, length,
  if◌then◌else◌, ltb, leb, ◌==◌ as nat_beq,
}
use unibe_clan.Base.Keys.{Text, text_beq, text_eq}
use unibe_clan.Base.Int.{ℤ}
pub use unibe_clan.Base.Map.{is_present, has}
use unibe_clan.Base.Time.{Time, is_zero, second}
use unibe_clan.Base.Unicode.{text, byte_len, trim_space}
use unibe_clan.Model.{
  State, ok, signed_out, api_key, unavailable, unknown, RecentThread, RuntimeThread, Snapshot,
  Hashing, account_key,
}
use unibe_clan.Model.Names.{is_empty, unsafe_display_rune}
use unibe_clan.Model.Status
use unibe_clan.Model.Status.{UserRole, anchor, consumer, AnchorHealth, UserStatus}

pub record Identity : Type 0 where
  pub username : Text
  pub uid : ℕ
  pub expected_email : Text

pub record ActivityRef : Type 0 where
  pub username : Text
  pub session_id : Text
  pub started_at : Time
  pub updated_at : Time
  pub running : Bool

-- `map[string]struct{}`
abbrev pub IdSet : Type 0
IdSet = List (Text × Bool)

pub record Entry : Type 0 where
  pub identity : Identity
  pub current : Snapshot
  pub last_seen_at : Time
  pub last_good : Option Snapshot
  pub last_good_at : Option Time
  pub membership : Text
  pub lifetime_tokens : Option ℤ
  pub lifetime_at : Time
  pub codex_version : Text
  pub codex_version_at : Time
  pub recent_threads : List (Text × RecentThread)
  pub runtime_threads : List (Text × RuntimeThread)
  pub runtime_inventory_at : Time
  pub runtime_quarantine : IdSet
  pub runtime_quarantine_pending : Bool
  pub account_version : ℕ

abbrev pub runtime_inventory_grace : ℕ
runtime_inventory_grace = 90 * second

-- `validateSafeText`, whether its error is nil.
unfoldable pub validate_safe_text : Text → ℕ → Bool → Bool
validate_safe_text value maximum allow_empty =
    if not allow_empty && is_empty (trim_space value)
    then false
    else if ltb maximum (byte_len value)
    then false
    else all (λ c. not (unsafe_display_rune c)) value

-- `strings.Count(s, "@")`
unfoldable pub count_at : Text → ℕ
count_at [] = 0
count_at (c ∷ cs) = let rest = count_at cs in if nat_beq c b'@' then rest + 1 else rest

unfoldable pub starts_with_at : Text → Bool
starts_with_at [] = false
starts_with_at (c ∷ cs) = nat_beq c b'@'

unfoldable pub ends_with_at : Text → Bool
ends_with_at [] = false
ends_with_at (c ∷ []) = nat_beq c b'@'
ends_with_at (c ∷ d ∷ ds) = ends_with_at (d ∷ ds)

unfoldable pub validate_identity : Identity → Bool
validate_identity i =
    let email = trim_space i.expected_email in
    if not (validate_safe_text i.username 64 false)
    then false
    else if is_empty i.expected_email
    then true
    else if not (validate_safe_text email 320 false)
    then false
    else not (not (nat_beq (count_at email) 1) || starts_with_at email || ends_with_at email)

abbrev pub is_consumer : Identity → Bool
is_consumer i = is_empty i.expected_email

unfoldable pub role_for : Identity → UserRole
role_for i = if is_consumer i then consumer else anchor

unfoldable pub is_ok : State → Bool
is_ok ok = true
is_ok _ = false

unfoldable pub is_unavailable : State → Bool
is_unavailable unavailable = true
is_unavailable _ = false

unfoldable pub runtime_inventory_recent : Entry → Time → Bool
runtime_inventory_recent e now =
    if is_zero e.runtime_inventory_at
    then false
    else ltb now e.runtime_inventory_at
      || leb now (e.runtime_inventory_at + runtime_inventory_grace)

unfoldable pub entry_stale : Entry → Time → ℕ → Bool
entry_stale e now stale_after =
    is_zero e.last_seen_at
    || is_unavailable e.current.state
    || ltb (e.last_seen_at + stale_after) now

module _ (hashing : Hashing) where
  unfoldable pub snapshot_account_key : Snapshot → Text
  snapshot_account_key s = elim (s.account) [
    | none ↦ []
    | some account ↦ elim (account.email) [
      | none ↦ []
      | some email ↦
          if not (text_beq account.kind (text "chatgpt")) || is_empty (trim_space email)
          then []
          else account_key hashing email
    ]
  ]

  -- `snapshotAccountKeyFromPointer`
  unfoldable pub last_account_key : Option Snapshot → Text
  last_account_key none = []
  last_account_key (some s) = snapshot_account_key s

  unfoldable pub anchor_health : Entry → Text → Time → ℕ → AnchorHealth
  anchor_health e expected_key now stale_after = elim (e.current.state) [
    | signed_out ↦ Status.AnchorHealth.signed_out
    | api_key ↦ Status.AnchorHealth.signed_out
    | unavailable ↦ Status.AnchorHealth.stale
    | ok ↦
        if entry_stale e now stale_after
        then Status.AnchorHealth.stale
        else if not (text_beq (snapshot_account_key e.current) expected_key)
        then Status.AnchorHealth.wrong_account
        else Status.AnchorHealth.ok
    | unknown _ ↦ Status.AnchorHealth.stale
  ]

unfoldable pub state_without_canonical : Entry → AnchorHealth → State
state_without_canonical e health = elim health [
  | Status.AnchorHealth.signed_out ↦ State.signed_out
  | Status.AnchorHealth.wrong_account ↦ State.unavailable
  | _ ↦ elim (e.current.state) [ api_key ↦ State.signed_out | _ ↦ State.unavailable ]
]

unfoldable pub user_status : Entry → Time → ℕ → UserStatus
user_status e now stale_after = record {
  username = e.identity.username;
  codex_version = e.codex_version;
  codex_version_observed_at =
      if not (is_empty e.codex_version) && not (is_zero e.codex_version_at)
      then some e.codex_version_at
      else none;
  active_chats_known =
      is_consumer e.identity
      && is_ok e.current.state
      && not (entry_stale e now stale_after)
      && runtime_inventory_recent e now
      && not e.runtime_quarantine_pending
      && nat_beq (length e.runtime_quarantine) 0;
  state = e.current.state;
  role = role_for e.identity;
  last_seen_at = e.last_seen_at;
  last_good_at = e.last_good_at;
  stale = entry_stale e now stale_after;
}
