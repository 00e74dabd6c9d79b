-- ===== src/History/Observe/Invariant.antt =====
-- A whole snapshot keeps the tracker valid.
use unibe_clan.Base.{
  ◌+◌, ◌≤◌, ◌≡◌, ◌≢◌, refl, inl, inr, Bool, true, false, Option, none, some, ◌∙◌, arith, Bool-cases,
  Option-cases,
}
use unibe_clan.Base.Keys.{Text, text_eq}
use unibe_clan.Base.Int.{pos, ltb_ℤ}
use unibe_clan.Base.Map.{lookup, All-lookup}
use unibe_clan.Base.Time.{Time}
use unibe_clan.Model.{Window, Snapshot, Hashing, account_key}
use unibe_clan.History.Windows.{
  ResetWindow, valid_window, propose, window_at, reset_timestamps_equivalent,
}
use unibe_clan.History.Events.{DiskAccount, valid_active}
use unibe_clan.History.Events.Append.{AccountIsValid}
use unibe_clan.History.Tracker.{
  Tracker, Writes, ensure_account, prune, prune_entries, prune_empty_accounts,
}
use unibe_clan.History.Tracker.Valid.{IsValid, ensure_account-IsValid, ensure_account_cases}
use unibe_clan.History.Tracker.Prune.{prune-IsValid}
use unibe_clan.History.Tracker.Commit.{HasRoom, commit_changes-IsValid, commit_changes-revision-le}
use unibe_clan.History.Observe.{
  observe_same, observe_early, observe_ended, open_window, record_adjustment, observe_proposed,
  observe_window, replace_window, shows_reset, rebaseline_proposed, rebaseline_window, apply_window,
  move, apply_snapshot, canonical_email,
}
use unibe_clan.History.Observe.Parts.{
  IsAt, put_account-IsValid, drop_candidate-IsAt, put_candidate-IsAt, with_active, without_active,
  set_used-valid,
}
use unibe_clan.History.Observe.Keeps.{observe_proposed-IsValid}

pub propose-valid :
    (now : Time) (w : Window) (p : ResetWindow) → propose now w ≡ some p → valid_window p ≡ true
unfolding propose
propose-valid now w p h = elim (Option-cases (w.window_duration_mins)) [
  | inl missing ↦ ground (arith, missing)
  | inr (mins, given) ↦ elim (Option-cases (w.resets_at)) [
    | inl missing ↦ ground (arith, missing, given)
    | inr (reset_at, due) ↦
        elim (Bool-cases (valid_window (window_at now reset_at w.used_percent))) [
          | inl fine ↦ ground (arith, given, due, fine)
          | inr bad ↦ ground (arith, given, due, bad)
        ]
  ]
]

module _ (key : Text) (now : Time) (nonzero : now ≢ 0) where
  replace_window-IsValid :
      (proposed : ResetWindow) (a : DiskAccount) (t : Tracker)
      → IsAt key t
      → AccountIsValid a
      → valid_window proposed ≡ true
      → IsValid (replace_window key now proposed a t).0
  unfolding replace_window
  replace_window-IsValid proposed a t at va vp =
      elim (Bool-cases (ltb_ℤ (pos 0) proposed.used_percent)) [
        | inl used ↦
            rw (used, replace_window)
              (put_account-IsValid key _ _ (drop_candidate-IsAt key t at)
                (with_active a proposed va vp))
        | inr unused ↦
            rw (unused, replace_window)
              (put_account-IsValid key _ _
                (put_candidate-IsAt key _ _ (record { window = vp; seen = nonzero })
                  (drop_candidate-IsAt key t at))
                (without_active a va))
      ]

  rebaseline_proposed-IsValid :
      (proposed : ResetWindow) (a : DiskAccount) (t : Tracker)
      → IsAt key t
      → AccountIsValid a
      → valid_window proposed ≡ true
      → IsValid (rebaseline_proposed key now proposed a t).0
  unfolding rebaseline_proposed valid_active
  rebaseline_proposed-IsValid proposed a t at va vp = elim (Option-cases (a.active)) [
    | inl idle ↦ rw (idle, rebaseline_proposed) (replace_window-IsValid proposed a t at va vp)
    | inr (active, running) ↦
        elim (Bool-cases (reset_timestamps_equivalent active.resets_at proposed.resets_at)) [
          | inl same ↦
              rw (running, same, rebaseline_proposed)
                (put_account-IsValid key _ _ (drop_candidate-IsAt key t at) (
                  with_active a _ va
                    (set_used-valid active proposed (ground (arith, va.active, running)) vp)))
          | inr other ↦ elim (Bool-cases (shows_reset now active proposed)) [
            | inl reset ↦
                rw (running, other, reset, rebaseline_proposed)
                  (observe_proposed-IsValid key now nonzero proposed a t at va vp)
            | inr handoff ↦
                rw (running, other, handoff, rebaseline_proposed)
                  (replace_window-IsValid proposed a t at va vp)
          ]
        ]
  ]

  IsAt-account :
      (a : DiskAccount) (t : Tracker) → IsValid t → lookup key t.accounts ≡ some a → IsAt key t
  IsAt-account a t v found = record {
    valid = v;
    named = (All-lookup _ key a t.accounts v.parts.accounts found).0;
    known = (a, found);
  }

  observe_window-IsValid :
      (w : Window) (t : Tracker) → IsValid t → IsValid (observe_window key now w t).0
  unfolding observe_window
  observe_window-IsValid w t v = elim (Option-cases (lookup key t.accounts)) [
    | inl missing ↦ rw (missing, observe_window) v
    | inr (a, found) ↦ elim (Option-cases (propose now w)) [
      | inl refused ↦ rw (found, refused, observe_window) v
      | inr (p, proposed) ↦
          rw (found, proposed, observe_window)
            (observe_proposed-IsValid key now nonzero p a t (IsAt-account a t v found)
              (All-lookup _ key a t.accounts v.parts.accounts found).1
              (propose-valid now w p proposed))
    ]
  ]

  rebaseline_window-IsValid :
      (w : Window) (t : Tracker) → IsValid t → IsValid (rebaseline_window key now w t).0
  unfolding rebaseline_window
  rebaseline_window-IsValid w t v = elim (Option-cases (lookup key t.accounts)) [
    | inl missing ↦ rw (missing, rebaseline_window) v
    | inr (a, found) ↦ elim (Option-cases (propose now w)) [
      | inl refused ↦ rw (found, refused, rebaseline_window) v
      | inr (p, proposed) ↦
          rw (found, proposed, rebaseline_window)
            (rebaseline_proposed-IsValid p a t (IsAt-account a t v found)
              (All-lookup _ key a t.accounts v.parts.accounts found).1
              (propose-valid now w p proposed))
    ]
  ]

  apply_window-IsValid :
      (rebaseline : Bool) (usage : Option Window) (t : Tracker)
      → IsValid t
      → IsValid (apply_window rebaseline key now usage t).0
  unfolding apply_window
  apply_window-IsValid rebaseline none t v = v
  apply_window-IsValid true (some w) t v = rebaseline_window-IsValid w t v
  apply_window-IsValid false (some w) t v = observe_window-IsValid w t v

pub move-IsValid :
    (hashing : Hashing) (s : Snapshot) (rebaseline : Bool) (now : Time) (t : Tracker)
    → now ≢ 0
    → IsValid t
    → IsValid (move hashing s rebaseline now t).0
unfolding move
move-IsValid hashing s rebaseline now t nonzero v =
    let pruned = prune-IsValid now t nonzero v in
    elim (Option-cases (canonical_email s)) [
      | inl anonymous ↦ rw (anonymous, move) pruned
      | inr (email, known) ↦
          let key = account_key hashing email in
          rw (known, move)
            (apply_window-IsValid key now nonzero rebaseline s.main_usage _
              (ensure_account-IsValid key (prune now t).0 pruned))
    ]

prune-revision : (now : Time) (t : Tracker) → (prune now t).0.revision ≡ t.revision
unfolding prune prune_entries prune_empty_accounts
prune-revision now t = ground arith

ensure_account-revision :
    (key : Text) (t : Tracker) → (ensure_account key t).0.revision ≡ t.revision
ensure_account-revision key t = elim (ensure_account_cases key t) [
  | inl same ↦ rw same refl
  | inr (fine, missing, room, added) ↦ rw added refl
]

observe_proposed-revision :
    (key : Text) (now : Time) (p : ResetWindow) (a : DiskAccount) (t : Tracker)
    → (observe_proposed key now p a t).0.revision ≡ t.revision
unfolding observe_proposed observe_same observe_early observe_ended open_window record_adjustment
observe_proposed-revision key now p a t = ground arith

apply_window-revision :
    (rebaseline : Bool) (key : Text) (now : Time) (usage : Option Window) (t : Tracker)
    → (apply_window rebaseline key now usage t).0.revision ≡ t.revision
unfolding apply_window observe_window rebaseline_window rebaseline_proposed replace_window
apply_window-revision rebaseline key now none t = refl
apply_window-revision rebaseline key now (some w) t = elim (Option-cases (lookup key t.accounts)) [
  | inl missing ↦ ground (arith, missing)
  | inr (a, found) ↦ elim (Option-cases (propose now w)) [
    | inl refused ↦ ground (arith, found, refused)
    | inr (p, proposed) ↦ ground (arith, found, proposed, observe_proposed-revision key now p a t)
  ]
]

move-revision :
    (hashing : Hashing) (s : Snapshot) (rebaseline : Bool) (now : Time) (t : Tracker)
    → (move hashing s rebaseline now t).0.revision ≡ t.revision
unfolding move
move-revision hashing s rebaseline now t = elim (Option-cases (canonical_email s)) [
  | inl anonymous ↦ rw (anonymous, move) (prune-revision now t)
  | inr (email, known) ↦
      rw (known, move)
        (apply_window-revision rebaseline (account_key hashing email) now s.main_usage _
          ∙ ensure_account-revision (account_key hashing email) (prune now t).0
          ∙ prune-revision now t)
]

-- Observing or rebaselining a snapshot keeps the tracker valid, whatever the snapshot and the
-- outcome of the file writes, at any time but the zero time, while the revision can be counted up:
-- at most 128 accounts under well-formed keys, the list of keys that of the accounts, sorted; in
-- each account a valid active window, at most 1024 valid events, sorted, and no window twice, and
-- at most 1024 valid adjustments in the order of their detection; only valid candidates.
pub apply_snapshot-IsValid :
    (hashing : Hashing) (io : Writes) (s : Snapshot) (rebaseline : Bool) (now : Time) (t : Tracker)
    → now ≢ 0
    → HasRoom t
    → IsValid t
    → IsValid (apply_snapshot hashing io s rebaseline now t)
unfolding apply_snapshot
apply_snapshot-IsValid hashing io s rebaseline now t nonzero room v =
    commit_changes-IsValid io _ _ _ (rw (move-revision hashing s rebaseline now t) room)
      (move-IsValid hashing s rebaseline now t nonzero v)

pub apply_snapshot-revision-le :
    (hashing : Hashing) (io : Writes) (s : Snapshot) (rebaseline : Bool) (now : Time) (t : Tracker)
    → (apply_snapshot hashing io s rebaseline now t).revision ≤ t.revision + 1
unfolding apply_snapshot
apply_snapshot-revision-le hashing io s rebaseline now t = ground (
  arith,
  move-revision hashing s rebaseline now t,
  commit_changes-revision-le io (move hashing s rebaseline now t).1
      (move hashing s rebaseline now t).2 (move hashing s rebaseline now t).0,
)
