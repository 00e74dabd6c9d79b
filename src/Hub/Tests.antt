-- ===== src/Hub/Tests.antt =====
-- The hub's theorems on a hub of one user, who has submitted a snapshot or is about to.
use unibe_clan.Base.{
  ◌+◌, ◌*◌, ◌<◌, ◌≤◌, ◌≡◌, ◌↔◌, ◌⊎◌, refl, inr, true, false, none, some, [], ◌∷◌, arith, All, all,
  keep,
}
use unibe_clan.Base.Keys.{Text, nat_eq, text_beq, text_beq_iff, text_eq}
use unibe_clan.Base.Int.{pos}
use unibe_clan.Base.Map.{lookup, insert}
use unibe_clan.Base.Sort.{IsSorted, sort_by, insert_sorted}
use unibe_clan.Base.Time.{Time, second}
use unibe_clan.Base.Unicode.{
  text, byte_len, trim_space, is_space, is_control, is_format, is_surrogate, is_private_use,
  in_ranges, trim_left,
}
use unibe_clan.Model.Names.{unsafe_display_rune}
use unibe_clan.Hub.Conflict.{snapshots_conflict, conflicts_with, within_tolerance}
use unibe_clan.Model.{State, Account, Snapshot, Hashing, account_key}
use unibe_clan.Model.Validate.{validate_snapshot}
use unibe_clan.History.Tracker.{Tracker, keys}
use unibe_clan.History.Tracker.Valid.{IsValid}
use unibe_clan.Hub.Entry.{
  Identity, ActivityRef, Entry, validate_identity, validate_safe_text, entry_stale, is_ok,
  is_unavailable, is_consumer, snapshot_account_key, last_account_key,
}
use unibe_clan.Hub.Intake.{strip}
use unibe_clan.Hub.Intake.Hidden.{EntryIsValid, cleared-RuntimeIsHidden}
use unibe_clan.Hub.Chats.{chat_before, projected_chats, active_chats}
use unibe_clan.Hub.Chats.Shown.{IsShown}
use unibe_clan.Hub.Chats.Listed.{IsMemberChat, projected_chats-IsShown, active_chats_listed}
use unibe_clan.Hub.Sources.{
  HistorySourceState, SourceCandidate, candidates_of, candidate_of, sorted_candidates, belongs_to,
  select_consumer, follow_prior, same_source, first_by_name, better_choice, in_grace,
  still_followed, fresh_anchor, select_history_candidate,
}
use unibe_clan.Hub.Sources.Sticky.{select_sticky}
use unibe_clan.Hub.Account.{CanonicalObservation, canonical_of, fresh_sources, account_status}
use unibe_clan.Hub.Account.Display.{IsAtLeast, displayed_best}
use unibe_clan.Hub.Conflict.Tolerance.{within_tolerance_exact}
use unibe_clan.Hub.Table.{Hub, awaiting_snapshot, new_entry, empty_hub, view_of}
use unibe_clan.Hub.State.{World, apply, subscribe}
use unibe_clan.Hub.Start.{identity_error, add_identity, add_identities, new}
use unibe_clan.Hub.Observed.{collect_updates}
use unibe_clan.Hub.State.Errors.{apply_error}
use unibe_clan.Hub.State.Keeps.{apply_monotone}
use unibe_clan.Hub.State.Observing.{HistoryIsValid, apply-HistoryIsValid}
use unibe_clan.Hub.State.Owned.{canonical-account, sources-account}
use unibe_clan.Hub.State.Reach.{Reachable, started, stepped, subscribed, Reachable-HubIsValid}
use unibe_clan.Hub.State.Subscribers.{HoldsRevision, Reachable-HoldsRevision}
use unibe_clan.Hub.State.Updates.{collect_again}
use unibe_clan.Hub.State.Valid.{HubIsValid}

-- 2023-11-14 22:13:20 UTC
abbrev noon : Time
noon = (62_135_596_800 + 1_700_000_000) * second

abbrev key : Text
key = text "k1"

abbrev hashing : Hashing
hashing = record { to_lower = λ s. s; hex_digest = λ s. key }

abbrev anna : Identity
anna = record { username = text "anna"; uid = 1000; expected_email = [] }

-- What anna's collector submits.
abbrev given : Snapshot
given = record (awaiting_snapshot (text "anna")) {
  state = State.ok;
  account =
      some (record { kind = text "chatgpt"; email = some (text "a@b.ch"); plan_type = text "pro" });
  observed_at = noon;
  error_category = [];
}

abbrev served_entry : Entry
served_entry = record (new_entry anna) {
  current = given;
  last_seen_at = noon;
  last_good = some given;
  last_good_at = some noon;
  membership = key;
}

abbrev idle : Hub
idle = record (empty_hub (60 * second)) {
  order = text "anna" ∷ [];
  by_uid = (1000, text "anna") ∷ [];
  entries = (text "anna", new_entry anna) ∷ [];
}

abbrev served : Hub
served = record idle { entries = (text "anna", served_entry) ∷ [] }

abbrev world : World
world = record {
  checked_at = noon;
  now = noon;
  boundary_activities = [];
  activities = [];
  history_now = λ _. noon;
  history_writes = λ _. record { adjustments_written = true; history_written = true };
}

idle-Reachable : Reachable hashing idle
unfolding new identity_error add_identity validate_identity validate_safe_text insert lookup
    text_beq sort_by insert_sorted trim_space trim_left is_space in_ranges byte_len
    unsafe_display_rune all add_identities is_control is_format is_surrogate is_private_use
idle-Reachable = started (anna ∷ []) (pos (60 * second)) idle refl

Reachable-HubIsValid_example : HubIsValid hashing idle
Reachable-HubIsValid_example = Reachable-HubIsValid hashing idle idle-Reachable

Reachable-HoldsRevision_example :
    All
      (HoldsRevision (subscribe hashing world idle).0.revision)
      (subscribe hashing world idle).0.subs
Reachable-HoldsRevision_example =
    Reachable-HoldsRevision hashing (subscribe hashing world idle).0
      (stepped idle _ idle-Reachable (subscribed world))

served_entry-account : snapshot_account_key hashing given ≡ key
unfolding snapshot_account_key account_key text_beq trim_space trim_left is_space in_ranges
served_entry-account = refl

served_entry-EntryIsValid : EntryIsValid hashing served_entry
unfolding last_account_key
served_entry-EntryIsValid = record {
  runtime = cleared-RuntimeIsHidden served_entry refl refl;
  account = record {
    stripped = refl;
    good = λ s same. record { state = ground (arith, same); threads = ground (arith, same) };
    member = inr (refl, served_entry-account);
  };
}

served-HubIsValid : HubIsValid hashing served
unfolding lookup text_beq
served-HubIsValid = record {
  entries = ((refl, served_entry-EntryIsValid, λ _. refl), tt);
  trusted = λ uid u found. ground (arith, found, text_beq_iff (text "anna") u);
  listed = (refl, tt);
  anchored = tt;
}

abbrev observed : CanonicalObservation
observed = record {
  snapshot = given;
  source = record { username = text "anna"; account_version = 0 };
}

served-observed : (account_status hashing key noon [] (view_of served)).1 ≡ some observed
unfolding account_status candidates_of candidate_of sorted_candidates belongs_to
    select_history_candidate select_consumer first_by_name better_choice fresh_anchor entry_stale
    is_ok is_unavailable canonical_of snapshots_conflict conflicts_with lookup text_beq sort_by
    insert_sorted keep fresh_sources
served-observed = refl

canonical-account_example :
    (snapshot_account_key hashing given ≡ key)
    × (given.state ≡ State.ok)
    × (given.runtime_threads ≡ [])
    × ((e : Entry) × (lookup (text "anna") served.entries ≡ some e)
        × (e.last_good ≡ some given)
        × (((account_status hashing key noon [] (view_of served)).0.source_conflict ≡ false)
            ⊎ (is_consumer e.identity ≡ false)))
canonical-account_example =
    canonical-account hashing key (λ empty. ground (arith, empty)) noon [] served observed
      served-HubIsValid served-observed

apply_error_example :
    (((apply hashing world 7 given idle).1 ≡ none) ↔ (
      (lookup 7 idle.by_uid ≡ some given.username)
      × (validate_snapshot world.checked_at given ≡ true)))
    × (((apply hashing world 7 given idle).1 ≡ none)
        ⊎ ((apply hashing world 7 given idle).0 ≡ idle))
apply_error_example = apply_error hashing world 7 given idle

apply_monotone_example :
    (d : Entry) × (lookup (text "anna") (apply hashing world 1000 given idle).0.entries ≡ some d)
    × ((d ≡ new_entry anna)
        ⊎ ((lookup 1000 idle.by_uid ≡ some (text "anna"))
            × (d.current ≡ strip given)
            × (((new_entry anna).current.observed_at ≡ 0)
                ⊎ ((new_entry anna).current.observed_at < given.observed_at))))
unfolding lookup text_beq
apply_monotone_example =
    apply_monotone hashing world 1000 given idle (text "anna") (new_entry anna) refl

-- The history followed anna; her collector has been silent for longer than the hub waits, but her
-- last good snapshot is 30 seconds old.
abbrev followed : HistorySourceState
followed = record {
  source = observed.source;
  signature = record {
    observed_at = noon;
    used_percent = pos 0;
    resets_at = pos 0;
    has_window = false;
  };
}

abbrev candidate : SourceCandidate
candidate = record {
  username = text "anna";
  entry = served_entry;
  snapshot = given;
  anchor = false;
  stale = false;
  fresh = true;
}

select_sticky_example : (candidate.username ≡ text "anna") × (candidate.entry.account_version ≡ 0)
unfolding lookup text_beq still_followed last_account_key snapshot_account_key account_key
    trim_space trim_left is_space in_ranges in_grace fresh_anchor select_history_candidate
    select_consumer follow_prior same_source
select_sticky_example =
    select_sticky hashing key followed served_entry served.entries (candidate ∷ [])
      (noon + 30 * second) (60 * second) candidate refl refl refl refl refl

collect_again_example :
    collect_updates ((key, observed) ∷ []) (collect_updates ((key, observed) ∷ []) []).1
    ≡ ([], (collect_updates ((key, observed) ∷ []) []).1)
unfolding lookup
collect_again_example = collect_again ((key, observed) ∷ []) [] (refl, tt)

-- A turn of anna's that a hook reported.
abbrev turn : ActivityRef
turn = record {
  username = text "anna";
  session_id = text "s1";
  started_at = noon;
  updated_at = noon;
  running = true;
}

projected_chats-IsShown_example :
    All
      (IsShown key served.entries)
      (projected_chats key (turn ∷ []) noon (60 * second) served.entries served.order)
projected_chats-IsShown_example =
    projected_chats-IsShown key (turn ∷ []) noon (60 * second) served.entries served.order
      (cleared-RuntimeIsHidden served_entry refl refl, tt)

active_chats_listed_example :
    IsSorted chat_before
      (active_chats key (turn ∷ []) noon (60 * second) served.entries served.order)
    × All
        (λ chat. (chat.running ≡ true) × IsMemberChat key served.entries chat)
        (active_chats key (turn ∷ []) noon (60 * second) served.entries served.order)
active_chats_listed_example =
    active_chats_listed key (turn ∷ []) noon (60 * second) served.entries served.order
      (cleared-RuntimeIsHidden served_entry refl refl, tt)

-- A history that has just begun.
abbrev history : Tracker
history = record {
  in_memory = true;
  retention = 604_800 * second;
  order = [];
  accounts = [];
  adjustments = [];
  candidates = [];
  revision = 1;
  core_revision = 1;
  tracking_since = noon;
  adjustments_tracking_since = noon;
  dirty = false;
  adjustments_dirty = false;
  degraded = false;
}

history-IsValid : IsValid history
unfolding sort_by keys
history-IsValid = record {
  parts = record { accounts = tt; adjustments = tt; candidates = tt; unique = tt };
  order = record { keyed = tt; sorted = tt; counted = refl; bounded = omega arith; listing = refl };
  counting = omega arith;
  since = omega arith;
  adjustments_since = omega arith;
}

apply-HistoryIsValid_example :
    HistoryIsValid
      (apply hashing world 1000 given (record idle { history = some history })).0.history
apply-HistoryIsValid_example =
    apply-HistoryIsValid hashing world 1000 given (record idle { history = some history })
      (λ k. omega arith) (omega arith) history-IsValid

sources-account_example :
    All
      (λ c.
        (snapshot_account_key hashing c.snapshot ≡ key)
        × ((account : Account) × (c.snapshot.account ≡ some account)))
      (sorted_candidates hashing key noon served.stale_after served.entries served.order)
sources-account_example =
    sources-account hashing key (λ empty. ground (arith, empty)) noon served served-HubIsValid

within_tolerance_exact_example :
    (within_tolerance (pos 40) (pos 45) (pos 5) ≡ true) ↔ ((40 ≤ 45 + 5) × (45 ≤ 40 + 5))
within_tolerance_exact_example = within_tolerance_exact 40 45 5 (omega arith) (omega arith)

displayed_best_example :
    ((account_status hashing key noon [] (view_of served)).0.observed_at ≡ noon)
    × ((account_status hashing key noon [] (view_of served)).0.main_usage ≡ none)
    × ((account_status hashing key noon [] (view_of served)).0.stale ≡ false)
    × All (IsAtLeast candidate) []
unfolding candidates_of candidate_of sorted_candidates belongs_to entry_stale is_ok is_unavailable
    lookup text_beq sort_by insert_sorted
displayed_best_example = displayed_best hashing key noon [] (view_of served) candidate [] refl
