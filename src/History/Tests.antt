-- ===== src/History/Tests.antt =====
-- The history's theorems on concrete windows, trackers and snapshots.
use unibe_clan.Base.{
  ◌+◌, ◌*◌, ◌≤◌, ◌<◌, ◌≡◌, ◌↔◌, refl, inl, true, false, not, ◌&&◌, ◌||◌, none, some, [], ◌∷◌, arith,
  All, all, length, if◌then◌else◌,
}
use unibe_clan.Base.Keys.{Text, text_eq, text_beq}
use unibe_clan.Base.Int.{ℤ, pos, sub_int64, wrap_int64, ◌+ℤ◌, ◌-ℤ◌, ◌<ℤ◌, ◌≤ℤ◌}
use unibe_clan.Base.Map.{lookup, insert, delete}
use unibe_clan.Base.Sort.{sort_by, IsSorted}
use unibe_clan.Base.Time.{Time, second, unix}
use unibe_clan.Base.Unicode.{
  text, byte_len, trim_space, is_space, is_control, is_format, is_surrogate, is_private_use,
  in_ranges, trim_left,
}
use unibe_clan.Model.Names.{validate_text, sanitize_codex_version, unsafe_display_rune}
use unibe_clan.Model.Validate.{
  validate_snapshot, validate_window, validate_state, validate_account, validate_main_usage,
  validate_limits, validate_recent, validate_runtime, validate_version, is_allowed_error, is_within,
  submits_nothing,
}
use unibe_clan.History.Observe.Submitted.{submitted_usage_proposed}
use unibe_clan.Model.{Hashing, Snapshot, ok, Window}
use unibe_clan.History.Windows.{
  latest_reset, ResetWindow, window_observation, valid_account_key, window_at, propose,
  reset_timestamps_equivalent, reset_timestamp_settled, meaningfully_before_reset, valid_window,
  valid_span, main_week_minutes,
}
use unibe_clan.History.Windows.Exact.{reset_timestamps_exact}
use unibe_clan.History.Reconcile.Redo.{early_adjustment}
use unibe_clan.History.Reconcile.{reconcile_account}
use unibe_clan.History.Reconcile.Chain.{Reconciled, reconcile_account_chain}
use unibe_clan.History.Adjustments.{StoredAdjustment, used_percent_decreased, sanitize_jitter}
use unibe_clan.History.Adjustments.Jitter.{is_jitter, sanitize_jitter_again}
use unibe_clan.History.Events.{
  DiskAccount, ResetEvent, event_of, valid_event, public_reset_points, point_before,
  max_reset_points_per_account,
}
use unibe_clan.History.Events.Points.{IsPoint, public_reset_points_ordered}
use unibe_clan.History.Tracker.{
  Tracker, Writes, keys, account_of, ensure_account, disk_state, adjustment_disk_state,
  validate_disk_state, validate_adjustment_disk_state, mark_changes, commit_changes,
}
use unibe_clan.History.Tracker.Valid.{IsValid, ensure_account-IsValid}
use unibe_clan.History.Tracker.Persist.{disk_states_valid}
use unibe_clan.History.Tracker.Commit.{history_passes, commit_changes_outcome}
use unibe_clan.History.Observe.{
  observe_window, observe_proposed, open_window, rebaseline_window, apply_snapshot,
}
use unibe_clan.History.Observe.Invariant.{apply_snapshot-IsValid}
use unibe_clan.History.Observe.Laws.{rebaseline_silent, Opened, observe_opens}
use unibe_clan.History.Observe.Candidates.{idle_account, unused_window_opens}

-- 2023-11-14 22:13:20 UTC
abbrev noon : Time
noon = (62_135_596_800 + 1_700_000_000) * second

abbrev alice_key : Text
alice_key = text "0123456789abcdef0123456789abcdef0123456789abcdef0123456789abcdef"

abbrev started : Tracker
started = record {
  in_memory = false;
  retention = 604_800 * second;
  order = [];
  accounts = [];
  adjustments = [];
  candidates = [];
  revision = 1;
  core_revision = 1;
  tracking_since = noon;
  adjustments_tracking_since = noon;
  dirty = true;
  adjustments_dirty = true;
  degraded = false;
}

started-IsValid : IsValid started
unfolding sort_by keys
started-IsValid = record {
  parts = record { accounts = tt; adjustments = tt; candidates = tt; unique = tt };
  order = record { keyed = tt; sorted = tt; counted = refl; bounded = omega arith; listing = refl };
  counting = omega arith;
  since = omega arith;
  adjustments_since = omega arith;
}

abbrev with_alice : Tracker
with_alice = (ensure_account alice_key started).0

with_alice-IsValid : IsValid with_alice
with_alice-IsValid = ensure_account-IsValid alice_key started started-IsValid

-- A window that resets three days after `noon`.
abbrev used : ℤ → Window
used percent = record {
  used_percent = percent;
  remaining_percent = pos 100 -ℤ percent;
  window_duration_mins = some (pos main_week_minutes);
  resets_at = some (pos 1_700_259_200);
}

abbrev proposed_at : Time → ℤ → ResetWindow
proposed_at now percent = window_at now (pos 1_700_259_200) percent

abbrev alice_snapshot : Snapshot
alice_snapshot = record {
  schema_version = pos 2;
  username = text "alice";
  codex_version = [];
  codex_version_observed_at = none;
  state = ok;
  account =
      some (record { kind = text "chatgpt"; email = some (text "a@b.ch"); plan_type = text "pro" });
  main_usage = some (used (pos 40));
  reset_credits_available = none;
  lifetime_tokens = none;
  lifetime_tokens_read = false;
  limits = [];
  recent_threads = [];
  recent_threads_read = false;
  runtime_threads = [];
  runtime_threads_read = false;
  observed_at = noon;
  error_category = [];
}

abbrev hashing : Hashing
hashing = record { to_lower = λ s. s; hex_digest = λ s. alice_key }

abbrev written : Writes
written = record { adjustments_written = true; history_written = false }

apply_snapshot-IsValid_example :
    IsValid (apply_snapshot hashing written alice_snapshot false noon started)
apply_snapshot-IsValid_example =
    apply_snapshot-IsValid hashing written alice_snapshot false noon started (omega arith)
      (omega arith) started-IsValid

disk_states_valid_example :
    (validate_disk_state (disk_state with_alice) ≡ true)
    × (validate_adjustment_disk_state (adjustment_disk_state with_alice) ≡ true)
disk_states_valid_example = disk_states_valid with_alice with_alice-IsValid

commit_changes_outcome_example :
    ((commit_changes written true true started).dirty ≡ (
      (mark_changes true true started).dirty
      && not (history_passes written (mark_changes true true started))))
    × ((commit_changes written true true started).adjustments_dirty
        ≡ ((mark_changes true true started).adjustments_dirty && not true))
    × ((commit_changes written true true started).core_revision ≡ (
        if (mark_changes true true started).dirty
          && history_passes written (mark_changes true true started)
        then (mark_changes true true started).revision
        else (mark_changes true true started).core_revision))
    × ((commit_changes written true true started).revision
        ≡ (mark_changes true true started).revision)
    × ((commit_changes written true true started).degraded ≡ (
        if (mark_changes true true started).dirty
          || (mark_changes true true started).adjustments_dirty
        then not (history_passes written (mark_changes true true started))
        else (mark_changes true true started).degraded))
commit_changes_outcome_example =
    commit_changes_outcome written true true started (omega arith) started-IsValid refl

alice_known : lookup alice_key with_alice.accounts ≡ some (idle_account [])
unfolding ensure_account lookup valid_account_key byte_len all insert text_beq
alice_known = refl

used_proposed : propose noon (used (pos 40)) ≡ some (proposed_at noon (pos 40))
unfolding propose valid_window valid_span unix sub_int64
used_proposed = refl

observe_opens_example :
    Opened alice_key
      (proposed_at noon (pos 40))
      (observe_window alice_key noon (used (pos 40)) with_alice).0
observe_opens_example =
    observe_opens alice_key noon (used (pos 40)) (proposed_at noon (pos 40)) (idle_account [])
      with_alice alice_known used_proposed refl

-- The tracker once Alice's window is active, and a minute later.
abbrev opened : Tracker
opened = (observe_window alice_key noon (used (pos 40)) with_alice).0

abbrev minute_later : Time
minute_later = noon + 60 * second

abbrev opened_account : DiskAccount
opened_account = record { active = some (proposed_at noon (pos 40)); events = [] }

-- What the tests compute with.
program : Unit {0}
unfolding ensure_account lookup valid_account_key byte_len all insert text_beq propose valid_window
    valid_span unix sub_int64 observe_window observe_proposed open_window delete
    reset_timestamps_equivalent
program = tt

opened_known : lookup alice_key opened.accounts ≡ some opened_account
unfolding program
opened_known = refl

again_proposed : propose minute_later (used (pos 40)) ≡ some (proposed_at minute_later (pos 40))
unfolding program
again_proposed = refl

same_reset : reset_timestamps_equivalent (pos 1_700_259_200) (pos 1_700_259_200) ≡ true
unfolding program
same_reset = refl

rebaseline_silent_example :
    ((rebaseline_window alice_key minute_later (used (pos 40)) opened).0.adjustments
      ≡ opened.adjustments)
    × ((account_of alice_key
          (rebaseline_window alice_key minute_later (used (pos 40)) opened).0.accounts).events
        ≡ [])
    × ((rebaseline_window alice_key minute_later (used (pos 40)) opened).2 ≡ false)
rebaseline_silent_example =
    rebaseline_silent alice_key minute_later (used (pos 40)) (proposed_at minute_later (pos 40))
      (proposed_at noon (pos 40)) opened_account opened opened_known refl again_proposed
      (inl same_reset)

alice_fresh : lookup alice_key with_alice.candidates ≡ none
unfolding program
alice_fresh = refl

unused_proposed : propose noon (used (pos 0)) ≡ some (proposed_at noon (pos 0))
unfolding program
unused_proposed = refl

abbrev two_minutes_later : Time
two_minutes_later = noon + 120 * second

still_unused :
    propose two_minutes_later (used (pos 0)) ≡ some (proposed_at two_minutes_later (pos 0))
unfolding program
still_unused = refl

unused_window_opens_example :
    (lookup alice_key (observe_window alice_key noon (used (pos 0)) with_alice).0.accounts
      ≡ some (idle_account []))
    × (lookup alice_key
          (observe_window alice_key two_minutes_later
            (used (pos 0))
            (observe_window alice_key noon (used (pos 0)) with_alice).0).0.accounts
        ≡ some (record {
          active = some (record (proposed_at noon (pos 0)) { first_observed_at = noon });
          events = [];
        }))
unused_window_opens_example =
    unused_window_opens alice_key noon two_minutes_later (used (pos 0)) (used (pos 0))
      (proposed_at noon (pos 0)) (proposed_at two_minutes_later (pos 0)) [] with_alice alice_known
      alice_fresh unused_proposed still_unused refl refl refl (omega arith)

minute_unused : propose minute_later (used (pos 0)) ≡ some (proposed_at minute_later (pos 0))
unfolding program
minute_unused = refl

abbrev ended : ResetEvent
ended = event_of noon (proposed_at noon (pos 40))

ended_valid : valid_event ended ≡ true
unfolding program valid_event
ended_valid = refl

-- Usage fell from 40 to 3 percent within a window.
abbrev fell : StoredAdjustment
fell = record {
  adjustment = record {
    detected_at = minute_later;
    reasons = used_percent_decreased ∷ [];
    before = window_observation (proposed_at noon (pos 40));
    after = window_observation (proposed_at noon (pos 3));
  };
  core_revision_before = 1;
}

public_reset_points_ordered_example :
    IsSorted point_before (public_reset_points (ended ∷ []) (fell ∷ []))
    × (length (public_reset_points (ended ∷ []) (fell ∷ [])) ≤ max_reset_points_per_account)
    × All (IsPoint (ended ∷ []) (fell ∷ [])) (public_reset_points (ended ∷ []) (fell ∷ []))
public_reset_points_ordered_example = public_reset_points_ordered (ended ∷ []) (fell ∷ [])

sanitize_jitter_again_example :
    All (λ s. is_jitter s ≡ false) (sanitize_jitter (fell ∷ [])).0
    × (sanitize_jitter (sanitize_jitter (fell ∷ [])).0 ≡ ((sanitize_jitter (fell ∷ [])).0, false))
sanitize_jitter_again_example = sanitize_jitter_again (fell ∷ [])

reset_timestamps_exact_example :
    ((reset_timestamps_equivalent (pos 1000) (pos 1120) ≡ true) ↔ ((1000 ≤ 1240) × (1120 ≤ 1120)))
    × ((reset_timestamp_settled (pos 1000) (pos 1120) ≡ true) ↔ (1120 ≤ 1120))
    × ((meaningfully_before_reset (pos 1000) (pos 1120) ≡ true) ↔ (1240 < 1000))
reset_timestamps_exact_example = reset_timestamps_exact 1000 1120 (omega arith) (omega arith)

submission : Unit {0}
unfolding validate_snapshot validate_window validate_text validate_state validate_account
    validate_main_usage validate_limits validate_recent validate_runtime validate_version
    is_allowed_error is_within submits_nothing sanitize_codex_version unsafe_display_rune text_beq
    trim_space is_space byte_len all is_control is_format is_surrogate is_private_use in_ranges
    trim_left sub_int64 wrap_int64 ◌+ℤ◌ ◌-ℤ◌ insert lookup unix
submission = tt

alice_accepted : validate_snapshot noon alice_snapshot ≡ true
unfolding submission
alice_accepted = refl

abbrev reset : ℤ
reset = pos 1_700_259_200

ahead : unix noon <ℤ reset
unfolding unix
ahead = omega arith

near : reset ≤ℤ unix (latest_reset noon)
unfolding unix
near = omega arith

submitted_usage_proposed_example :
    propose noon (used (pos 40)) ≡ some (window_at noon reset (pos 40))
submitted_usage_proposed_example =
    submitted_usage_proposed noon noon alice_snapshot (used (pos 40)) reset alice_accepted refl refl
      (omega arith) ahead near

reconcile_account_chain_example :
    Reconciled 1
      (fell ∷ [])
      (some (proposed_at noon (pos 40)))
      (window_observation (proposed_at noon (pos 40)))
      (reconcile_account 1 (fell ∷ []) (some (proposed_at noon (pos 40))))
reconcile_account_chain_example = reconcile_account_chain 1 (fell ∷ []) (proposed_at noon (pos 40))

-- An account with a window in use and a completed one.
abbrev in_use : Tracker
in_use = record started {
  accounts =
      (alice_key, record { active = some (proposed_at noon (pos 40)); events = ended ∷ [] }) ∷ [];
}

-- Two days later than the reset of `used`.
abbrev moved : ResetWindow
moved = window_at noon (pos 1_700_432_000) (pos 10)

abbrev seen_before : StoredAdjustment
seen_before = early_adjustment noon (proposed_at noon (pos 40)) moved 7

moved-valid : valid_window moved ≡ true
unfolding valid_window valid_span sub_int64 wrap_int64 ◌-ℤ◌
moved-valid = refl

-- The account has an adjustment that was recorded at another revision.
abbrev adjusted_before : Tracker
adjusted_before = record started { adjustments = (alice_key, seen_before ∷ []) ∷ [] }
