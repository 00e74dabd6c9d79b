-- ===== src/History/Observe/Parts.antt =====
-- Observing or rebaselining a window keeps the tracker valid.
use unibe_clan.Base.{◌≡◌, ◌≢◌, refl, sym, ap, ◌∙◌, true, none, some, List, arith, All}
use unibe_clan.Base.Keys.{Text, text_eq, text_lt}
use unibe_clan.Base.Sort.{sort_by}
use unibe_clan.History.Tracker.Keys.{keys-insert_old}
use unibe_clan.Base.Map.{
  lookup, insert, delete, insert-Unique, All-insert, All-delete, length-insert_old,
}
use unibe_clan.Base.Time.{Time}
use unibe_clan.History.Windows.{ResetWindow, valid_window, valid_span, valid_account_key}
use unibe_clan.History.Adjustments.{Reason, StoredAdjustment}
use unibe_clan.History.Adjustments.Append.{
  AdjustmentsAreValid, append_adjustment-AdjustmentsAreValid,
}
use unibe_clan.History.Events.{DiskAccount, valid_active}
use unibe_clan.History.Events.Append.{AccountIsValid}
use unibe_clan.History.Tracker.{Candidate, Tracker}
use unibe_clan.History.Tracker.Valid.{IsValid, CandidateIsValid, adjustments_of-AdjustmentsAreValid}
use unibe_clan.History.Observe.{set_used, put_account, drop_candidate, record_adjustment}

-- What is true of a tracker while the key's account is at work: the key has an account.
pub record IsAt (key : Text) (t : Tracker) : Type 0 where
  pub valid : IsValid t
  pub named : valid_account_key key ≡ true
  pub known : (old : DiskAccount) × (lookup key t.accounts ≡ some old)

pub put_account-IsValid :
    (key : Text) (a : DiskAccount) (t : Tracker)
    → IsAt key t
    → AccountIsValid a
    → IsValid (put_account key a t)
put_account-IsValid key a t at fine = record {
  parts = record {
    accounts = All-insert _ key a t.accounts (at.named, fine) at.valid.parts.accounts;
    adjustments = at.valid.parts.adjustments;
    candidates = at.valid.parts.candidates;
    unique = insert-Unique key a t.accounts at.valid.parts.unique;
  };
  order = record {
    keyed = at.valid.order.keyed;
    sorted = at.valid.order.sorted;
    counted =
        omega
          (arith, at.valid.order.counted, length-insert_old key a at.known.0 t.accounts at.known.1);
    bounded = at.valid.order.bounded;
    listing =
        at.valid.order.listing
        ∙ ap (sort_by text_lt) (sym (keys-insert_old key a at.known.0 t.accounts at.known.1));
  };
  counting = at.valid.counting;
  since = at.valid.since;
  adjustments_since = at.valid.adjustments_since;
}

-- Other candidates or other adjustments, when they are valid.
with_parts-IsAt :
    (key : Text) (candidates : List (Text × Candidate))
    (adjustments : List (Text × List StoredAdjustment)) (t : Tracker)
    → All (λ e. CandidateIsValid e.1) candidates
    → All (λ e. AdjustmentsAreValid e.1) adjustments
    → IsAt key t
    → IsAt key (record t { candidates = candidates; adjustments = adjustments })
with_parts-IsAt key candidates adjustments t c a at = record {
  valid = record {
    parts = record {
      accounts = at.valid.parts.accounts;
      adjustments = a;
      candidates = c;
      unique = at.valid.parts.unique;
    };
    order = record {
      keyed = at.valid.order.keyed;
      sorted = at.valid.order.sorted;
      counted = at.valid.order.counted;
      bounded = at.valid.order.bounded;
      listing = at.valid.order.listing;
    };
    counting = at.valid.counting;
    since = at.valid.since;
    adjustments_since = at.valid.adjustments_since;
  };
  named = at.named;
  known = at.known;
}

pub drop_candidate-IsAt : (key : Text) (t : Tracker) → IsAt key t → IsAt key (drop_candidate key t)
drop_candidate-IsAt key t at =
    with_parts-IsAt key (delete key t.candidates) t.adjustments t
      (All-delete _ key t.candidates at.valid.parts.candidates) at.valid.parts.adjustments at

pub put_candidate-IsAt :
    (key : Text) (c : Candidate) (t : Tracker)
    → CandidateIsValid c
    → IsAt key t
    → IsAt key (record t { candidates = insert key c t.candidates })
put_candidate-IsAt key c t fine at =
    with_parts-IsAt key (insert key c t.candidates) t.adjustments t
      (All-insert _ key c t.candidates fine at.valid.parts.candidates) at.valid.parts.adjustments at

pub record_adjustment-IsAt :
    (key : Text) (now : Time) (reasons : List Reason) (before after : ResetWindow) (t : Tracker)
    → IsAt key t
    → IsAt key (record_adjustment key now reasons before after t).0
unfolding record_adjustment
record_adjustment-IsAt key now reasons before after t at =
    with_parts-IsAt key t.candidates _ t at.valid.parts.candidates
      (All-insert _ key _ t.adjustments
        (append_adjustment-AdjustmentsAreValid _ _
          (adjustments_of-AdjustmentsAreValid key t.adjustments at.valid.parts.adjustments))
        at.valid.parts.adjustments)
      at

pub with_active :
    (a : DiskAccount) (w : ResetWindow)
    → AccountIsValid a
    → valid_window w ≡ true
    → AccountIsValid (record { active = some w; events = a.events })
unfolding valid_active
with_active a w v fine = record { events = v.events; active = fine }

pub without_active :
    (a : DiskAccount)
    → AccountIsValid a
    → AccountIsValid (record { active = none; events = a.events })
unfolding valid_active
without_active a v = record { events = v.events; active = refl }

pub set_used-valid :
    (active proposed : ResetWindow)
    → valid_window active ≡ true
    → valid_window proposed ≡ true
    → valid_window (set_used active proposed.used_percent) ≡ true
unfolding valid_window valid_span
set_used-valid active proposed h k = ground arith

pub first_seen_valid :
    (w : ResetWindow) (seen : Time)
    → seen ≢ 0
    → valid_window w ≡ true
    → valid_window (record w { first_observed_at = seen }) ≡ true
unfolding valid_window valid_span
first_seen_valid w seen h k = ground arith
