-- ===== src/History/Tracker/Valid.antt =====
-- What holds of a tracker between two calls, and that admitting an account and storing the parts of
-- one keep it.
use unibe_clan.Base.{
  ◌≤◌, ◌<◌, ◌≡◌, ◌≢◌, ◌⊎◌, refl, inl, inr, true, false, none, List, [], ◌∷◌, ◌++◌, arith, All,
  All-append, length, length-append, Bool-cases, Option-cases, leb,
}
use unibe_clan.Base.Keys.{Text, text_eq, text_lt}
use unibe_clan.Base.Map.{
  lookup, insert, Unique, insert-Unique, All-insert, All-lookup, length-insert_new,
}
use unibe_clan.Base.Sort.{IsSorted, sort_by, length-sort_by, All-sort_by, sort_by-IsSorted}
pub use unibe_clan.History.Tracker.Keys.{text_lt-StrictWeak}
use unibe_clan.History.Tracker.Keys.{sort-keys-insert_new}
use unibe_clan.History.Windows.{valid_window, valid_account_key}
use unibe_clan.History.Adjustments.{StoredAdjustment}
use unibe_clan.History.Adjustments.Append.{AdjustmentsAreValid}
use unibe_clan.History.Events.{valid_active}
use unibe_clan.History.Events.Append.{AccountIsValid, EventsAreValid}
use unibe_clan.History.Tracker.{
  Candidate, Tracker, ensure_account, empty_account, adjustments_of, keys, max_history_accounts,
}

pub record CandidateIsValid (c : Candidate) : Type 0 where
  pub window : valid_window c.window ≡ true
  pub seen : c.first_seen_at ≢ 0

-- The parts of a tracker that observing a window changes.
pub record PartsAreValid (t : Tracker) : Type 0 where
  pub accounts : All (λ e. (valid_account_key e.0 ≡ true) × AccountIsValid e.1) t.accounts
  pub adjustments : All (λ e. AdjustmentsAreValid e.1) t.adjustments
  pub candidates : All (λ e. CandidateIsValid e.1) t.candidates
  pub unique : Unique t.accounts

-- The list of keys, against the accounts.
pub record OrderIsValid (t : Tracker) : Type 0 where
  pub keyed : All (λ k. valid_account_key k ≡ true) t.order
  pub sorted : IsSorted text_lt t.order
  pub counted : length t.order ≡ length t.accounts
  pub bounded : length t.order ≤ max_history_accounts
  pub listing : t.order ≡ sort_by text_lt (keys t.accounts)

pub record IsValid (t : Tracker) : Type 0 where
  pub parts : PartsAreValid t
  pub order : OrderIsValid t
  pub counting : 0 < t.revision
  pub since : t.tracking_since ≢ 0
  pub adjustments_since : t.adjustments_tracking_since ≢ 0

pub no_events : EventsAreValid []
no_events = record { each = tt; bounded = omega arith; sorted = tt; distinct = tt }

pub no_adjustments : AdjustmentsAreValid []
no_adjustments = record { each = tt; bounded = omega arith; sorted = tt }

pub empty_account-AccountIsValid : AccountIsValid empty_account
unfolding valid_active
empty_account-AccountIsValid = record { events = no_events; active = refl }

pub adjustments_of-AdjustmentsAreValid :
    (key : Text) (m : List (Text × List StoredAdjustment))
    → All (λ e. AdjustmentsAreValid e.1) m
    → AdjustmentsAreValid (adjustments_of key m)
unfolding adjustments_of
adjustments_of-AdjustmentsAreValid key m v = elim (Option-cases (lookup key m)) [
  | inl missing ↦ rw (missing, adjustments_of) no_adjustments
  | inr (s, found) ↦
      rw (found, adjustments_of) (All-lookup (λ e. AdjustmentsAreValid e.1) key s m v found)
]

-- The three ways in which `ensureAccountLocked` returns.
pub ensure_account_cases :
    (key : Text) (t : Tracker)
    → (ensure_account key t ≡ (t, false))
      ⊎ ((valid_account_key key ≡ true)
          × (lookup key t.accounts ≡ none)
          × (length t.accounts < max_history_accounts)
          × (ensure_account key t ≡ (
            record t {
              accounts = insert key empty_account t.accounts;
              adjustments = insert key [] t.adjustments;
              order = sort_by text_lt (t.order ++ (key ∷ []));
            },
            true,
          )))
unfolding ensure_account
ensure_account_cases key t = elim (Bool-cases (valid_account_key key)) [
  | inr bad ↦ inl (rw bad refl)
  | inl fine ↦ elim (Option-cases (lookup key t.accounts)) [
    | inr (a, found) ↦ inl (rw (fine, found) refl)
    | inl missing ↦ elim (Bool-cases (leb max_history_accounts (length t.accounts))) [
      | inl full ↦ inl (rw (fine, missing, full) refl)
      | inr room ↦ inr (fine, missing, ground arith, rw (fine, missing, room) refl)
    ]
  ]
]

pub ensure_account-IsValid :
    (key : Text) (t : Tracker) → IsValid t → IsValid (ensure_account key t).0
ensure_account-IsValid key t v = elim (ensure_account_cases key t) [
  | inl same ↦ rw same v
  | inr (fine, missing, room, added) ↦ rw added (record {
    parts = record {
      accounts =
          All-insert _ key empty_account t.accounts (fine, empty_account-AccountIsValid)
            v.parts.accounts;
      adjustments = All-insert _ key [] t.adjustments no_adjustments v.parts.adjustments;
      candidates = v.parts.candidates;
      unique = insert-Unique key empty_account t.accounts v.parts.unique;
    };
    order = record {
      keyed =
          All-sort_by text_lt _ (t.order ++ (key ∷ []))
            (All-append _ t.order (key ∷ []) v.order.keyed (fine, tt));
      sorted = sort_by-IsSorted text_lt text_lt-StrictWeak (t.order ++ (key ∷ []));
      counted = omega (
        arith,
        length-sort_by text_lt (t.order ++ (key ∷ [])),
        length-append t.order (key ∷ []),
        length-insert_new key empty_account t.accounts missing,
        v.order.counted,
      );
      bounded = omega (
        arith,
        length-sort_by text_lt (t.order ++ (key ∷ [])),
        length-append t.order (key ∷ []),
        v.order.counted,
        room,
      );
      listing =
          sort-keys-insert_new key empty_account t.accounts t.order v.parts.unique missing
            v.order.listing;
    };
    counting = v.counting;
    since = v.since;
    adjustments_since = v.adjustments_since;
  })
]
