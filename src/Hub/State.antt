-- ===== src/Hub/State.antt =====
-- internal/hub/hub.go: the hub and its methods. Its mutexes make each method one step: `applyMu`
-- orders the calls that reach the history. What the clock, the activity source and the history's
-- file writes answer in a call is an argument of the method. A subscriber's channel holds one status
-- at most, so a channel is an Option.
pub mod Errors
pub mod Valid
pub mod Updates
pub mod Reach
pub mod Subscribers
pub mod Keeps
pub mod Owned
pub mod Observing
use unibe_clan.Base.{
  ℕ, suc, ◌+◌, ◌%◌, Bool, true, false, not, ◌&&◌, ◌||◌, Option, none, some, List, [], ◌∷◌, ◌++◌,
  map, if◌then◌else◌, ltb, leb, ◌==◌ as nat_beq,
}
use unibe_clan.Base.Keys.{Text, nat_eq, text_beq, text_eq, text_lt}
use unibe_clan.Base.Int.{ℤ, pos, pos_part, eqb_ℤ, leb_ℤ}
use unibe_clan.Base.Map.{lookup, insert, delete}
use unibe_clan.Base.Result.{Result, ok, err}
use unibe_clan.Base.Sort.{sort_by}
use unibe_clan.Base.Time.{Time, is_zero}
use unibe_clan.Base.Unicode.{text, trim_space}
use unibe_clan.Model.{State, unavailable, Snapshot, Hashing, account_key}
use unibe_clan.Model.Names.{is_empty}
use unibe_clan.Model.Validate.{schema_version, validate_snapshot}
use unibe_clan.Model.Status.{UserStatus, AccountStatus, StatusResponse}
use unibe_clan.History.Tracker.{Tracker, Writes}
use unibe_clan.History.Observe
use unibe_clan.Hub.Entry.{
  Identity, ActivityRef, is_present, Entry, validate_identity, is_consumer, user_status,
  snapshot_account_key,
}
use unibe_clan.Hub.Intake.{take_snapshot}
use unibe_clan.Hub.Conflict.{bool_beq}
use unibe_clan.Hub.Sources.{HistorySignature, HistorySourceIdentity, HistorySourceState}
use unibe_clan.Hub.Account.{CanonicalObservation, View, account_status}
use unibe_clan.Hub.Table.{
  HistoryUpdate, Hub, ApplyError, untrusted_uid, wrong_username, invalid_snapshot, view_of,
  next_revision,
}
use unibe_clan.Hub.Observed.{collect_updates}

unfoldable pub offer :
    StatusResponse → List (ℕ × Option StatusResponse) → List (ℕ × Option StatusResponse)
offer response [] = []
offer response ((id, held) ∷ subs) = (id, some response) ∷ offer response subs

-- `broadcastLocked`: a full channel is emptied first.
unfoldable pub broadcast : StatusResponse → Hub → Hub
broadcast response h = record h { subs = offer response h.subs }

-- What the outside answers during a call of `Apply`: the clock in `Validate` and in `Apply`, the
-- activity source at its two calls, and for each update of the history the clock and the writes.
pub record World : Type 0 where
  pub checked_at : Time
  pub now : Time
  pub boundary_activities : List ActivityRef
  pub activities : List ActivityRef
  pub history_now : ℕ → Time
  pub history_writes : ℕ → Writes

-- `accountKeys`: the expected accounts, and those of the consumers.
unfoldable pub member_keys : List (Text × Entry) → List (Text × Bool) → List (Text × Bool)
member_keys [] keys = keys
member_keys ((_, e) ∷ entries) keys = member_keys entries (
    if is_consumer e.identity && not (is_empty e.membership)
    then insert e.membership true keys
    else keys)

unfoldable pub anchor_keys : List (Text × Text) → List (Text × Bool) → List (Text × Bool)
anchor_keys [] keys = keys
anchor_keys ((key, _) ∷ anchors) keys = anchor_keys anchors (insert key true keys)

unfoldable pub account_keys : Hub → List (Text × Bool)
account_keys h = member_keys h.entries (anchor_keys h.expected_anchors [])

unfoldable pub unassigned : Time → View → List Text → List UserStatus
unassigned now h [] = []
unassigned now h (username ∷ order) =
    let rest = unassigned now h order in
    elim (lookup username h.entries) [
      | none ↦ rest
      | some e ↦
          if is_consumer e.identity && is_empty e.membership
          then user_status e now h.stale_after ∷ rest
          else rest
    ]

abbrev pub by_username : UserStatus → UserStatus → Bool
by_username a b = text_lt a.username b.username

-- A snapshot that is not newer than the one that is kept.
unfoldable pub is_delayed : Snapshot → Entry → Bool
is_delayed s e =
    not (is_zero e.current.observed_at) && not (ltb e.current.observed_at s.observed_at)

-- The function that `Subscribe` returns.
unfoldable pub cancel : ℕ → Hub → Hub
cancel id h = record h { subs = delete id h.subs }

module _ (hashing : Hashing) where
  unfoldable pub update_before : HistoryUpdate → HistoryUpdate → Bool
  update_before a b =
      text_lt (snapshot_account_key hashing a.snapshot) (snapshot_account_key hashing b.snapshot)

  -- The statuses of some accounts, and their canonical observations.
  unfoldable pub statuses : Time → List ActivityRef → View → List (Text × Bool) → List AccountStatus
  statuses now activities h [] = []
  statuses now activities h ((key, _) ∷ keys) =
      (account_status hashing key now activities h).0 ∷ statuses now activities h keys

  unfoldable pub canonicals :
      Time → List ActivityRef → View → List (Text × Bool) → List (Text × CanonicalObservation)
  canonicals now activities h [] = []
  canonicals now activities h ((key, _) ∷ keys) =
      let rest = canonicals now activities h keys in
      elim ((account_status hashing key now activities h).1) [
        | none ↦ rest
        | some c ↦ (key, c) ∷ rest
      ]

  unfoldable pub account_display_email : AccountStatus → Text
  account_display_email status = elim (status.account) [
    | none ↦ []
    | some account ↦ elim (account.email) [
      | none ↦ []
      | some email ↦ hashing.to_lower (trim_space email)
    ]
  ]

  unfoldable pub account_before : AccountStatus → AccountStatus → Bool
  account_before a b =
      let left = account_display_email a in
      let right = account_display_email b in
      if not (text_beq left right) then text_lt left right else text_lt a.account_key b.account_key

  -- `statusLocked`, the first result of `aggregateLocked`.
  unfoldable pub status : Time → List ActivityRef → Hub → StatusResponse
  status now activities h = record {
    schema_version = schema_version;
    revision = h.revision;
    generated_at = now;
    demo = h.demo;
    accounts = sort_by account_before (statuses now activities (view_of h) (account_keys h));
    unassigned_users = sort_by by_username (unassigned now (view_of h) h.order);
  }

  -- `newHistoryUpdatesLocked` on the second result of `aggregateLocked`.
  unfoldable pub new_history_updates : Time → List ActivityRef → Hub → List HistoryUpdate × Hub
  new_history_updates now activities h =
      let (updates, observed) =
        collect_updates (canonicals now activities (view_of h) (account_keys h))
          h.history_observed in
      (sort_by update_before updates, record h { history_observed = observed })

  -- `applyHistoryUpdate`, for each update in turn; `n` counts them.
  unfoldable pub apply_updates : World → ℕ → List HistoryUpdate → Tracker → Tracker
  apply_updates world n [] t = t
  apply_updates world n (u ∷ us) t = apply_updates world (suc n) us (
      Observe.apply_snapshot hashing (world.history_writes n) u.snapshot u.rebaseline
        (world.history_now n) t)

  -- The history's part of `Apply` and of `SetHistory`.
  unfoldable pub update_history : World → Hub → Hub
  update_history world h = elim (h.history) [
    | none ↦ h
    | some t ↦
        let (updates, h') = new_history_updates world.now world.activities h in
        record h' { history = some (apply_updates world 0 updates t) }
  ]

  abbrev pub publish : World → Hub → Hub
  publish world h = broadcast (status world.now world.activities h) h

  -- `Apply` once the snapshot is accepted and the entry is found.
  unfoldable pub accept : World → Text → Entry → Snapshot → Hub → Hub
  accept world username e s h = update_history world (
      publish world (record h {
        entries =
            insert username (take_snapshot hashing world.boundary_activities world.now s e)
              h.entries;
        revision = next_revision h.revision;
      }))

  -- `Apply`. Each trusted user has an entry.
  unfoldable pub apply : World → ℕ → Snapshot → Hub → Hub × Option ApplyError
  apply world uid s h = elim (lookup uid h.by_uid) [
    | none ↦ (h, some untrusted_uid)
    | some username ↦
        if not (text_beq s.username username)
        then (h, some wrong_username)
        else if not (validate_snapshot world.checked_at s)
        then (h, some invalid_snapshot)
        else elim (lookup username h.entries) [
          | none ↦ (h, none)
          | some e ↦ if is_delayed s e then (h, none) else (accept world username e s h, none)
        ]
  ]

  unfoldable pub set_history : World → Option Tracker → Hub → Hub
  set_history world tracker h =
      update_history world (record h { history = tracker; history_observed = [] })

  -- `Refresh`, and `SetActivitySource`, after which `activities` come from the new source.
  unfoldable pub refresh : World → Hub → Hub
  refresh world h = publish world (record h { revision = next_revision h.revision })

  unfoldable pub set_demo : World → Bool → Hub → Hub
  set_demo world enabled h =
      if bool_beq h.demo enabled then h else refresh world (record h { demo = enabled })

  -- `Subscribe`: the channel holds the status at once.
  unfoldable pub subscribe : World → Hub → Hub × ℕ
  subscribe world h = (
    record h {
      next_sub_id = next_revision h.next_sub_id;
      subs = insert h.next_sub_id (some (status world.now world.activities h)) h.subs;
    },
    h.next_sub_id,
  )
