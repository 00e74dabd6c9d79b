-- ===== src/Hub/Account.antt =====
-- internal/hub/hub.go: the status of one account, and what the history observes of it.
pub mod Display
use unibe_clan.Base.{
  ℕ, Bool, true, false, not, ◌&&◌, ◌||◌, Option, none, some, List, [], ◌∷◌, keep, map,
  if◌then◌else◌, ltb, ◌==◌ as nat_beq,
}
use unibe_clan.Base.Keys.{Text, text_beq, text_eq, text_lt}
use unibe_clan.Base.Int.{ℤ}
use unibe_clan.Base.Map.{lookup}
use unibe_clan.Base.Sort.{sort_by}
use unibe_clan.Base.Time.{Time}
use unibe_clan.Base.Unicode.{text}
use unibe_clan.Model.{
  State, signed_out, api_key, unavailable, Account, Snapshot, Hashing, account_key,
}
use unibe_clan.Model.Names.{is_empty}
use unibe_clan.Model.Status
use unibe_clan.Model.Status.{UserRole, anchor, consumer, UserStatus, AccountStatus}
use unibe_clan.Hub.Entry.{
  ActivityRef, Entry, is_consumer, user_status, last_account_key, anchor_health,
  state_without_canonical,
}
use unibe_clan.Hub.Conflict.{snapshots_conflict}
use unibe_clan.Hub.Chats.{active_chats}
use unibe_clan.Hub.Sources.{
  HistorySourceIdentity, HistorySourceState, SourceCandidate, belongs_to, candidates_of,
  sorted_candidates, select_history_candidate,
}

pub record CanonicalObservation : Type 0 where
  pub snapshot : Snapshot
  pub source : HistorySourceIdentity

-- What of the hub the status of an account depends on.
pub record View : Type 0 where
  pub order : List Text
  pub entries : List (Text × Entry)
  pub expected_anchors : List (Text × Text)
  pub expected_emails : List (Text × Text)
  pub stale_after : ℕ
  pub history_observed : List (Text × HistorySourceState)

unfoldable pub is_anchor_role : UserRole → Bool
is_anchor_role anchor = true
is_anchor_role consumer = false

unfoldable pub user_before : UserStatus → UserStatus → Bool
user_before a b = elim (a.role) [
  | anchor ↦ elim (b.role) [ anchor ↦ text_lt a.username b.username | consumer ↦ true ]
  | consumer ↦ elim (b.role) [ anchor ↦ false | consumer ↦ text_lt a.username b.username ]
]

-- A string at a key of a map; the empty one where there is none.
abbrev pub text_at : Text → List (Text × Text) → Text
text_at key m = elim (lookup key m) [ none ↦ [] | some t ↦ t ]

pub record LifetimeObservation : Type 0 where
  pub value : ℤ
  pub at : Time
  pub username : Text

unfoldable pub state_allows_lifetime : State → Bool
state_allows_lifetime signed_out = false
state_allows_lifetime api_key = false
state_allows_lifetime _ = true

-- The comparison of `selectLifetimeTokensLocked`.
unfoldable pub newer_lifetime :
    LifetimeObservation → Option LifetimeObservation → Option LifetimeObservation
newer_lifetime c none = some c
newer_lifetime c (some best) =
    if ltb best.at c.at || nat_beq c.at best.at && text_lt c.username best.username
    then some c
    else some best

unfoldable pub is_stale_health : Status.AnchorHealth → Bool
is_stale_health Status.AnchorHealth.stale = true
is_stale_health _ = false

-- The account of a snapshot, under the expected email.
unfoldable pub display_account : Text → Option Account → Option Account
display_account email none = none
display_account email (some account) =
    if is_empty email then some account else some (record account { email = some email })

-- The snapshots of the fresh candidates, in the order of the users: `freshSources`.
unfoldable pub fresh_sources : List SourceCandidate → List Snapshot
fresh_sources candidates =
    map (λ c. c.snapshot) (keep (λ (c : SourceCandidate). c.fresh) candidates)

-- What the history observes: no conflicting data, but of an anchor.
unfoldable pub canonical_of : Bool → Option SourceCandidate → Option CanonicalObservation
canonical_of conflict none = none
canonical_of conflict (some selected) =
    if not conflict || selected.anchor
    then some (record {
      snapshot = selected.snapshot;
      source = record {
        username = selected.username;
        account_version = selected.entry.account_version;
      };
    })
    else none

module _ (hashing : Hashing) where
  unfoldable pub lifetime_belongs : Text → Entry → Bool
  lifetime_belongs key e =
      if is_consumer e.identity
      then text_beq e.membership key
      else text_beq (account_key hashing e.identity.expected_email) key
        && text_beq (last_account_key hashing e.last_good) key
        && state_allows_lifetime e.current.state

  -- The loop of `selectLifetimeTokensLocked`.
  unfoldable pub select_lifetime :
      Text
      → List (Text × Entry)
      → List Text
      → Option LifetimeObservation
      → Option LifetimeObservation
  select_lifetime key entries [] selected = selected
  select_lifetime key entries (username ∷ order) selected =
      select_lifetime key entries order (elim (lookup username entries) [
        | none ↦ selected
        | some e ↦ elim (e.lifetime_tokens) [
          | none ↦ selected
          | some value ↦
              if lifetime_belongs key e
              then newer_lifetime
                  (record { value = value; at = e.lifetime_at; username = username }) selected
              else selected
        ]
      ])

  unfoldable pub select_lifetime_tokens : Text → View → Option ℤ
  select_lifetime_tokens key h = elim (select_lifetime key h.entries h.order none) [
    | none ↦ none
    | some best ↦ some best.value
  ]

  -- The users of an account.
  unfoldable pub users_of : Text → Time → View → List Text → List UserStatus
  users_of key now h [] = []
  users_of key now h (username ∷ order) =
      let rest = users_of key now h order in
      elim (lookup username h.entries) [
        | none ↦ rest
        | some e ↦ if belongs_to hashing key e then user_status e now h.stale_after ∷ rest else rest
      ]

  -- An account without a source.
  unfoldable pub bare_status : Text → Time → List ActivityRef → View → AccountStatus
  bare_status key now activities h = record {
    account_key = key;
    state = State.unavailable;
    account = none;
    main_usage = none;
    reset_credits_available = none;
    limits = [];
    observed_at = 0;
    last_seen_at = 0;
    last_good_at = none;
    stale = true;
    users = sort_by user_before (users_of key now h h.order);
    active_chats = active_chats key activities now h.stale_after h.entries h.order;
    lifetime_tokens = none;
    anchor_health = Status.AnchorHealth.none_given;
    source_conflict = false;
  }

  -- What the expected anchor of an account shows. An expected email has an anchor, and the anchor an
  -- entry.
  unfoldable pub anchored_status : Text → Time → View → AccountStatus → AccountStatus
  anchored_status key now h status =
      let email = text_at key h.expected_emails in
      if is_empty email then status else elim (lookup (text_at key h.expected_anchors) h.entries) [
        | none ↦ status
        | some e ↦
            let health = anchor_health hashing e key now h.stale_after in
            record status {
              account = some (record { kind = text "chatgpt"; email = some email; plan_type = [] });
              anchor_health = health;
              state = state_without_canonical e health;
              last_seen_at = e.last_seen_at;
              last_good_at = e.last_good_at;
              stale = is_stale_health health;
            }
      ]

  -- What the preferred candidate shows.
  unfoldable pub sourced_status : Text → View → List SourceCandidate → AccountStatus → AccountStatus
  sourced_status key h [] status = status
  sourced_status key h (selected ∷ others) status = record status {
    state = selected.entry.current.state;
    account = display_account (text_at key h.expected_emails) selected.snapshot.account;
    main_usage = selected.snapshot.main_usage;
    reset_credits_available = selected.snapshot.reset_credits_available;
    limits = selected.snapshot.limits;
    observed_at = selected.snapshot.observed_at;
    last_seen_at = selected.entry.last_seen_at;
    last_good_at = selected.entry.last_good_at;
    stale = selected.stale;
  }

  unfoldable pub account_status :
      Text → Time → List ActivityRef → View → AccountStatus × Option CanonicalObservation
  account_status key now activities h =
      let unsorted = candidates_of hashing key now h.stale_after h.entries h.order in
      let candidates = sorted_candidates hashing key now h.stale_after h.entries h.order in
      let conflict = snapshots_conflict hashing (fresh_sources unsorted) in
      let selected =
        select_history_candidate hashing key (lookup key h.history_observed) h.entries candidates
          now h.stale_after in
      (
        record (sourced_status key h candidates
            (anchored_status key now h (bare_status key now activities h))) {
              lifetime_tokens = select_lifetime_tokens key h;
              source_conflict = conflict;
            },
        canonical_of conflict selected,
      )
