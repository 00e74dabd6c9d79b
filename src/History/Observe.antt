-- ===== src/History/Observe.antt =====
-- internal/history/history.go: how a snapshot moves the tracker. A helper takes what its caller has
-- already looked up and computed: the key, the account, the proposed window.
pub mod Parts
pub mod Keeps
pub mod Invariant
pub mod Laws
pub mod Submitted
pub mod Candidates
use unibe_clan.Base.{
  ℕ, ◌+◌, ◌-◌, ◌*◌, Bool, true, false, not, ◌&&◌, ◌||◌, Option, none, some, List, [], ◌∷◌, ◌++◌,
  if◌then◌else◌, leb,
}
use unibe_clan.Base.Keys.{Text, text_eq}
use unibe_clan.Base.Int.{ℤ, pos, ltb_ℤ, eqb_ℤ}
use unibe_clan.Base.Map.{lookup, insert, delete}
use unibe_clan.Base.Time.{Time, second, unix}
use unibe_clan.Model.{Window, Snapshot, State, ok, Hashing, account_key}
use unibe_clan.History.Windows.{
  ResetWindow, window_observation, propose, reset_timestamps_equivalent, meaningfully_before_reset,
  plausible_reset_transition,
}
use unibe_clan.History.Adjustments.{
  StoredAdjustment, Reason, reset_timestamp_changed, used_percent_decreased, append_adjustment,
}
use unibe_clan.History.Events.{DiskAccount, append_event, event_of}
use unibe_clan.History.Tracker.{
  Tracker, Candidate, Writes, adjustments_of, ensure_account, prune, commit_changes,
}

abbrev pub stable_after : ℕ
stable_after = 90 * second

abbrev pub set_used : ResetWindow → ℤ → ResetWindow
set_used w used = record w { used_percent = used }

abbrev pub put_account : Text → DiskAccount → Tracker → Tracker
put_account key a t = record t { accounts = insert key a t.accounts }

abbrev pub drop_candidate : Text → Tracker → Tracker
drop_candidate key t = record t { candidates = delete key t.candidates }

-- `appendAdjustment` on the adjustments of the key, stored back.
unfoldable pub record_adjustment :
    Text → Time → List Reason → ResetWindow → ResetWindow → Tracker → Tracker × Bool
record_adjustment key now reasons before after t =
    let (adjustments, adjusted) = append_adjustment (adjustments_of key t.adjustments) (record {
      adjustment = record {
        detected_at = now;
        reasons = reasons;
        before = window_observation before;
        after = window_observation after;
      };
      core_revision_before = t.core_revision;
    }) in
    (record t { adjustments = insert key adjustments t.adjustments }, adjusted)

-- The first case of the switch: the same window.
unfoldable pub observe_same :
    Text → Time → ResetWindow → ResetWindow → DiskAccount → Tracker → Tracker × Bool × Bool
observe_same key now active proposed a t =
    let used = proposed.used_percent in
    let (t1, adjusted) =
      if ltb_ℤ used active.used_percent
      then record_adjustment key now (used_percent_decreased ∷ []) active (set_used active used) t
      else (t, false) in
    let changed = not (eqb_ℤ active.used_percent used) in
    let updated : DiskAccount = record {
      active = some (if changed then set_used active used else active);
      events = a.events;
    } in
    (put_account key updated (drop_candidate key t1), changed, adjusted)

-- The code after the switch. The account has no active window there.
unfoldable pub open_window :
    Text → Time → ResetWindow → DiskAccount → Bool → Tracker → Tracker × Bool
open_window key now proposed a changed t =
    if ltb_ℤ (pos 0) proposed.used_percent
    then (
      put_account key (record { active = some proposed; events = a.events }) (drop_candidate key t),
      true,
    )
    else (let first : Tracker = put_account key a (record t {
      candidates =
          insert key
            (record {
              window = proposed;
              first_seen_at = now;
              last_seen_at = now;
              observations = 1;
            })
            t.candidates;
    }) in
        elim (lookup key t.candidates) [
          | none ↦ (first, changed)
          | some c ↦
              if not (eqb_ℤ c.window.resets_at proposed.resets_at)
              then (first, changed)
              else if leb 2 (c.observations + 1) && leb (c.first_seen_at + stable_after) now
              then (
                put_account key
                    (record {
                      active = some (record c.window { first_observed_at = c.first_seen_at });
                      events = a.events;
                    })
                    (drop_candidate key t),
                true,
              )
              else (
                put_account key a (record t {
                  candidates =
                      insert key
                        (record c { last_seen_at = now; observations = c.observations + 1 })
                        t.candidates;
                }),
                changed,
              )
        ])

-- The second case: a change before the window was due to reset.
unfoldable pub observe_early :
    Text → Time → ResetWindow → ResetWindow → DiskAccount → Tracker → Tracker × Bool × Bool
observe_early key now active proposed a t =
    let reasons =
      reset_timestamp_changed
      ∷ (if ltb_ℤ proposed.used_percent active.used_percent
          then used_percent_decreased ∷ []
          else []) in
    let (t1, adjusted) = record_adjustment key now reasons active proposed t in
    let cleared : DiskAccount = record { active = none; events = a.events } in
    let (t2, changed) = open_window key now proposed cleared true (drop_candidate key t1) in
    (t2, changed, adjusted)

-- The last case: the window ended.
unfoldable pub observe_ended :
    Text → Time → ResetWindow → ResetWindow → DiskAccount → Tracker → Tracker × Bool × Bool
observe_ended key now active proposed a t =
    let ended : DiskAccount = record {
      active = none;
      events = append_event a.events (event_of now active);
    } in
    let (t1, changed) = open_window key now proposed ended true t in (t1, changed, false)

-- `observeWindowLocked` after its guards.
unfoldable pub observe_proposed :
    Text → Time → ResetWindow → DiskAccount → Tracker → Tracker × Bool × Bool
observe_proposed key now proposed a t = elim (a.active) [
  | none ↦ let (t1, changed) = open_window key now proposed a false t in (t1, changed, false)
  | some active ↦
      if reset_timestamps_equivalent active.resets_at proposed.resets_at
      then observe_same key now active proposed a t
      else if meaningfully_before_reset active.resets_at (unix now)
      then observe_early key now active proposed a t
      else observe_ended key now active proposed a t
]

unfoldable pub observe_window : Text → Time → Window → Tracker → Tracker × Bool × Bool
observe_window key now window t = elim (lookup key t.accounts) [
  | none ↦ (t, false, false)
  | some a ↦ elim (propose now window) [
    | none ↦ (t, false, false)
    | some proposed ↦ observe_proposed key now proposed a t
  ]
]

-- The end of `rebaselineWindowLocked`: the proposed window replaces what the account had.
unfoldable pub replace_window :
    Text → Time → ResetWindow → DiskAccount → Tracker → Tracker × Bool × Bool
replace_window key now proposed a t =
    if ltb_ℤ (pos 0) proposed.used_percent
    then (
      put_account key (record { active = some proposed; events = a.events }) (drop_candidate key t),
      true,
      false,
    )
    else (
      put_account key (record { active = none; events = a.events })
          (record t {
            candidates =
                insert key
                  (record {
                    window = proposed;
                    first_seen_at = now;
                    last_seen_at = now;
                    observations = 1;
                  })
                  (delete key t.candidates);
          }),
      (elim (a.active) [ none ↦ false | some _ ↦ true ]),
      false,
    )

-- Whether the differences from the active window show that it ended or was reset early.
unfoldable pub shows_reset : Time → ResetWindow → ResetWindow → Bool
shows_reset now active proposed =
    not (meaningfully_before_reset active.resets_at (unix now))
    || ltb_ℤ proposed.used_percent active.used_percent
      && plausible_reset_transition active.first_observed_at proposed.window_started_at now

unfoldable pub rebaseline_proposed :
    Text → Time → ResetWindow → DiskAccount → Tracker → Tracker × Bool × Bool
rebaseline_proposed key now proposed a t = elim (a.active) [
  | none ↦ replace_window key now proposed a t
  | some active ↦
      if reset_timestamps_equivalent active.resets_at proposed.resets_at
      then (
        put_account key
            (record { active = some (set_used active proposed.used_percent); events = a.events })
            (drop_candidate key t),
        not (eqb_ℤ active.used_percent proposed.used_percent),
        false,
      )
      else if shows_reset now active proposed
      then observe_proposed key now proposed a t
      else replace_window key now proposed a t
]

-- `rebaselineWindowLocked`. Its call of `observeWindowLocked` meets the same guards again, with the
-- same values.
unfoldable pub rebaseline_window : Text → Time → Window → Tracker → Tracker × Bool × Bool
rebaseline_window key now window t = elim (lookup key t.accounts) [
  | none ↦ (t, false, false)
  | some a ↦ elim (propose now window) [
    | none ↦ (t, false, false)
    | some proposed ↦ rebaseline_proposed key now proposed a t
  ]
]

-- The email of a snapshot that `applySnapshot` takes the account from.
unfoldable pub canonical_email : Snapshot → Option Text
canonical_email s = elim (s.state) [
  | ok ↦ elim (s.account) [ none ↦ none | some account ↦ account.email ]
  | _ ↦ none
]

-- The second half of `applySnapshot`, where the account's key is known. The key of an email is never
-- empty: it is a hash.
unfoldable pub apply_window : Bool → Text → Time → Option Window → Tracker → Tracker × Bool × Bool
apply_window rebaseline key now usage t = elim usage [
  | none ↦ (t, false, false)
  | some window ↦
      if rebaseline then rebaseline_window key now window t else observe_window key now window t
]

-- `applySnapshot`, before the commit.
unfoldable pub move : Hashing → Snapshot → Bool → Time → Tracker → Tracker × Bool × Bool
move hashing s rebaseline now t =
    let (t1, history_changed, adjustments_changed) = prune now t in
    elim (canonical_email s) [
      | none ↦ (t1, history_changed, adjustments_changed)
      | some email ↦
          let key = account_key hashing email in
          let (t2, added) = ensure_account key t1 in
          let (t3, window_changed, adjustment_changed) =
            apply_window rebaseline key now s.main_usage t2 in
          (
            t3,
            history_changed || added || window_changed,
            adjustments_changed || added || adjustment_changed,
          )
    ]

unfoldable pub apply_snapshot : Hashing → Writes → Snapshot → Bool → Time → Tracker → Tracker
apply_snapshot hashing io s rebaseline now t =
    let (t1, history_changed, adjustments_changed) = move hashing s rebaseline now t in
    commit_changes io history_changed adjustments_changed t1
