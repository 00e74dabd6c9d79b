-- ===== src/History/Tracker/Prune.antt =====
-- Retention keeps the invariant.
use unibe_clan.Base.{
  ◌≡◌, ◌≢◌, refl, sym, ap, ◌∙◌, inl, inr, Bool, true, not, none, List, [], ◌∷◌, arith, All,
  All-keep, keep, length, length-keep-le, ltb, Bool-cases, Option-cases,
}
use unibe_clan.Base.Keys.{Text, text_eq, text_lt}
use unibe_clan.Base.Map.{lookup, Unique, keep-Unique, All-delete}
use unibe_clan.Base.Int.{ltb_ℤ}
use unibe_clan.Base.Sort.{sort_by, length-sort_by, All-sort_by, sort_by-IsSorted}
use unibe_clan.Base.Sublists.{keep-IsSorted, keep-Distinct}
use unibe_clan.Base.Time.{Time, unix}
use unibe_clan.History.Windows.{valid_account_key, reset_timestamp_settled}
use unibe_clan.History.Adjustments.{StoredAdjustment, detected_before}
use unibe_clan.History.Adjustments.Append.{AdjustmentsAreValid}
use unibe_clan.History.Events.{DiskAccount, ResetEvent, earlier_event, event_of, valid_active}
use unibe_clan.History.Events.Append.{AccountIsValid, append_event-EventsAreValid, event_of_valid}
use unibe_clan.History.Tracker.{
  Tracker, cutoff_of, settle, expire_events, prune_account, prune_accounts, recent_adjustments,
  prune_adjustments, keeps_candidate, keeps_account, drop_adjustments, keys, prune_empty_accounts,
  prune_entries, prune,
}
use unibe_clan.History.Tracker.Valid.{IsValid, text_lt-StrictWeak}

settle-AccountIsValid :
    (now : Time) (a : DiskAccount) → now ≢ 0 → AccountIsValid a → AccountIsValid (settle now a).0
unfolding settle valid_active
settle-AccountIsValid now a nonzero v = elim (Option-cases (a.active)) [
  | inl idle ↦ rw (idle, settle) v
  | inr (w, running) ↦ elim (Bool-cases (reset_timestamp_settled w.resets_at (unix now))) [
    | inr early ↦ rw (running, early, settle) v
    | inl done ↦
        rw (running, done, settle)
          (record {
            events =
                append_event-EventsAreValid a.events (event_of now w)
                  (event_of_valid now w nonzero (ground (arith, v.active))) v.events;
            active = refl;
          })
  ]
]

expire_events-AccountIsValid :
    (cutoff_time : Time) (a : DiskAccount)
    → AccountIsValid a
    → AccountIsValid (expire_events cutoff_time a).0
unfolding expire_events
expire_events-AccountIsValid cutoff_time a v =
    let stays : ResetEvent → Bool = λ e. not (ltb_ℤ e.resets_at (unix cutoff_time)) in
    record {
      events = record {
        each = All-keep _ stays a.events v.events.each;
        bounded = omega (arith, v.events.bounded, length-keep-le stays a.events);
        sorted = keep-IsSorted earlier_event stays a.events v.events.sorted;
        distinct = keep-Distinct earlier_event stays a.events v.events.distinct;
      };
      active = v.active;
    }

prune_account-AccountIsValid :
    (now cutoff_time : Time) (a : DiskAccount)
    → now ≢ 0
    → AccountIsValid a
    → AccountIsValid (prune_account now cutoff_time a).0
unfolding prune_account
prune_account-AccountIsValid now cutoff_time a nonzero v =
    expire_events-AccountIsValid cutoff_time _ (settle-AccountIsValid now a nonzero v)

prune_accounts-All :
    (now cutoff_time : Time) (m : List (Text × DiskAccount))
    → now ≢ 0
    → All (λ e. (valid_account_key e.0 ≡ true) × AccountIsValid e.1) m
    → All
        (λ e. (valid_account_key e.0 ≡ true) × AccountIsValid e.1)
        (prune_accounts now cutoff_time m).0
unfolding prune_accounts
prune_accounts-All now cutoff_time [] nonzero h = tt
prune_accounts-All now cutoff_time ((k, a) ∷ m) nonzero h = (
  (h.0.0, prune_account-AccountIsValid now cutoff_time a nonzero h.0.1),
  prune_accounts-All now cutoff_time m nonzero h.1,
)

lookup-prune_accounts :
    (now cutoff_time : Time) (k : Text) (m : List (Text × DiskAccount))
    → lookup k m ≡ none
    → lookup k (prune_accounts now cutoff_time m).0 ≡ none
unfolding prune_accounts lookup
lookup-prune_accounts now cutoff_time k [] h = refl
lookup-prune_accounts now cutoff_time k ((j, a) ∷ m) h =
    ground (arith, lookup-prune_accounts now cutoff_time k m)

pub prune_accounts-Unique :
    (now cutoff_time : Time) (m : List (Text × DiskAccount))
    → Unique m
    → Unique (prune_accounts now cutoff_time m).0
unfolding prune_accounts
prune_accounts-Unique now cutoff_time [] u = tt
prune_accounts-Unique now cutoff_time ((k, a) ∷ m) u =
    (lookup-prune_accounts now cutoff_time k m u.0, prune_accounts-Unique now cutoff_time m u.1)

length-prune_accounts :
    (now cutoff_time : Time) (m : List (Text × DiskAccount))
    → length (prune_accounts now cutoff_time m).0 ≡ length m
unfolding prune_accounts
length-prune_accounts now cutoff_time [] = refl
length-prune_accounts now cutoff_time ((k, a) ∷ m) =
    ground (arith, length-prune_accounts now cutoff_time m)

keys-prune_accounts :
    (now cutoff_time : Time) (m : List (Text × DiskAccount))
    → keys (prune_accounts now cutoff_time m).0 ≡ keys m
unfolding prune_accounts keys
keys-prune_accounts now cutoff_time [] = refl
keys-prune_accounts now cutoff_time ((k, a) ∷ m) =
    ap (λ ks. k ∷ ks) (keys-prune_accounts now cutoff_time m)

prune_adjustments-All :
    (cutoff_time : Time) (m : List (Text × List StoredAdjustment))
    → All (λ e. AdjustmentsAreValid e.1) m
    → All (λ e. AdjustmentsAreValid e.1) (prune_adjustments cutoff_time m).0
unfolding prune_adjustments recent_adjustments
prune_adjustments-All cutoff_time [] h = tt
prune_adjustments-All cutoff_time ((k, s) ∷ m) h =
    let stays : StoredAdjustment → Bool = λ a. not (ltb a.adjustment.detected_at cutoff_time) in
    (
      record {
        each = All-keep _ stays s h.0.each;
        bounded = omega (arith, h.0.bounded, length-keep-le stays s);
        sorted = keep-IsSorted detected_before stays s h.0.sorted;
      },
      prune_adjustments-All cutoff_time m h.1,
    )

prune_entries-IsValid :
    (now : Time) (t : Tracker) → now ≢ 0 → IsValid t → IsValid (prune_entries now t)
unfolding prune_entries
prune_entries-IsValid now t nonzero v = record {
  parts = record {
    accounts = prune_accounts-All now (cutoff_of now t) t.accounts nonzero v.parts.accounts;
    adjustments = prune_adjustments-All (cutoff_of now t) t.adjustments v.parts.adjustments;
    candidates =
        All-keep _ (λ e. keeps_candidate now (cutoff_of now t) e.1) t.candidates v.parts.candidates;
    unique = prune_accounts-Unique now (cutoff_of now t) t.accounts v.parts.unique;
  };
  order = record {
    keyed = v.order.keyed;
    sorted = v.order.sorted;
    counted =
        omega (arith, v.order.counted, length-prune_accounts now (cutoff_of now t) t.accounts);
    bounded = v.order.bounded;
    listing =
        v.order.listing
        ∙ ap (sort_by text_lt) (sym (keys-prune_accounts now (cutoff_of now t) t.accounts));
  };
  counting = v.counting;
  since = v.since;
  adjustments_since = v.adjustments_since;
}

drop_adjustments-All :
    (t : Tracker) (m : List (Text × DiskAccount))
    → All (λ e. AdjustmentsAreValid e.1) t.adjustments
    → All (λ e. AdjustmentsAreValid e.1) (drop_adjustments t m)
unfolding drop_adjustments
drop_adjustments-All t [] h = h
drop_adjustments-All t ((k, a) ∷ m) h = elim (Bool-cases (keeps_account t (k, a))) [
  | inl stays ↦ rw (stays, drop_adjustments) (drop_adjustments-All t m h)
  | inr goes ↦
      rw (goes, drop_adjustments)
        (All-delete (λ e. AdjustmentsAreValid e.1) k (drop_adjustments t m)
          (drop_adjustments-All t m h))
]

keys-keyed :
    (m : List (Text × DiskAccount))
    → All (λ e. (valid_account_key e.0 ≡ true) × AccountIsValid e.1) m
    → All (λ k. valid_account_key k ≡ true) (keys m)
unfolding keys
keys-keyed [] h = tt
keys-keyed (e ∷ m) h = (h.0.0, keys-keyed m h.1)

length-keys : (m : List (Text × DiskAccount)) → length (keys m) ≡ length m
unfolding keys
length-keys [] = refl
length-keys (e ∷ m) = ground (arith, length-keys m)

prune_empty_accounts-IsValid : (t : Tracker) → IsValid t → IsValid (prune_empty_accounts t).0
unfolding prune_empty_accounts
prune_empty_accounts-IsValid t v =
    let kept = keep (keeps_account t) t.accounts in
    let valid = All-keep _ (keeps_account t) t.accounts v.parts.accounts in
    elim (Bool-cases (ltb (length kept) (length t.accounts))) [
      | inr all_stay ↦ rw all_stay v
      | inl fewer ↦ rw fewer (record {
        parts = record {
          accounts = valid;
          adjustments = drop_adjustments-All t t.accounts v.parts.adjustments;
          candidates = v.parts.candidates;
          unique = keep-Unique (keeps_account t) t.accounts v.parts.unique;
        };
        order = record {
          keyed = All-sort_by text_lt _ (keys kept) (keys-keyed kept valid);
          sorted = sort_by-IsSorted text_lt text_lt-StrictWeak (keys kept);
          counted = omega (arith, length-sort_by text_lt (keys kept), length-keys kept);
          bounded = omega (
            arith,
            length-sort_by text_lt (keys kept),
            length-keys kept,
            v.order.bounded,
            v.order.counted,
            length-keep-le (keeps_account t) t.accounts,
          );
          listing = refl;
        };
        counting = v.counting;
        since = v.since;
        adjustments_since = v.adjustments_since;
      })
    ]

pub prune-IsValid : (now : Time) (t : Tracker) → now ≢ 0 → IsValid t → IsValid (prune now t).0
unfolding prune
prune-IsValid now t nonzero v =
    prune_empty_accounts-IsValid (prune_entries now t) (prune_entries-IsValid now t nonzero v)
