-- ===== src/History/Events/Append.antt =====
-- What recording the end of a window keeps.
use unibe_clan.Base.{
  ◌≤◌, ◌≡◌, ◌≢◌, ◌⊎◌, inl, inr, true, false, List, [], ◌∷◌, ◌++◌, arith, All, All-append, length,
  Bool-cases, all_of_All,
}
use unibe_clan.Base.Sort.{IsSorted, Distinct, StrictWeak, All-sort_by, sort_by, sort_by-IsSorted}
use unibe_clan.Base.Sublists.{sort_by-Distinct}
use unibe_clan.Base.Time.{Time}
use unibe_clan.History.Windows.{ResetWindow, valid_window, valid_span}
use unibe_clan.History.Adjustments.Append.{
  length-keep_last-le, keep_last-All, keep_last-IsSorted, keep_last-Distinct,
}
use unibe_clan.History.Events.{
  ResetEvent, DiskAccount, valid_event, event_exists, append_event, earlier_event, event_of,
  valid_account, valid_active, max_events_per_account,
}

-- An account's events: valid, at most 1024, in the order of their windows, and no window twice.
pub record EventsAreValid (es : List ResetEvent) : Type 0 where
  pub each : All (λ e. valid_event e ≡ true) es
  pub bounded : length es ≤ max_events_per_account
  pub sorted : IsSorted earlier_event es
  pub distinct : Distinct earlier_event es

earlier_event-StrictWeak : StrictWeak earlier_event
earlier_event-StrictWeak = record {
  asym = λ a b h. ground arith;
  neg_trans = λ a b c h k. ground arith;
}

event_exists-Ordered :
    (es : List ResetEvent) (e : ResetEvent)
    → event_exists es e.resets_at ≡ false
    → All (λ x. (earlier_event x e ≡ true) ⊎ (earlier_event e x ≡ true)) es
unfolding event_exists
event_exists-Ordered [] e h = tt
event_exists-Ordered (x ∷ es) e h = (ground arith, event_exists-Ordered es e (ground arith))

-- Recording a valid event leaves an account's events valid, sorted by their windows, at most 1024,
-- and with no window twice.
pub append_event-EventsAreValid :
    (es : List ResetEvent) (e : ResetEvent)
    → valid_event e ≡ true
    → EventsAreValid es
    → EventsAreValid (append_event es e)
unfolding append_event
append_event-EventsAreValid es e fine v = elim (Bool-cases (event_exists es e.resets_at)) [
  | inl old ↦ rw old v
  | inr fresh ↦
      let sorted_in = sort_by earlier_event (es ++ (e ∷ [])) in
      let limit = max_events_per_account in
      rw fresh (record {
        each =
            keep_last-All limit sorted_in _
              (All-sort_by earlier_event _ (es ++ (e ∷ [])) (All-append _ es _ v.each (fine, tt)));
        bounded = length-keep_last-le limit sorted_in;
        sorted =
            keep_last-IsSorted limit sorted_in earlier_event
              (sort_by-IsSorted earlier_event earlier_event-StrictWeak (es ++ (e ∷ [])));
        distinct =
            keep_last-Distinct limit sorted_in earlier_event
              (sort_by-Distinct earlier_event es e v.distinct (event_exists-Ordered es e fresh));
      })
]

-- A window that was valid ends in a valid event.
pub event_of_valid :
    (now : Time) (w : ResetWindow)
    → now ≢ 0
    → valid_window w ≡ true
    → valid_event (event_of now w) ≡ true
unfolding valid_window valid_event valid_span
event_of_valid now w nonzero fine = ground arith

-- An account between two calls.
pub record AccountIsValid (a : DiskAccount) : Type 0 where
  pub events : EventsAreValid a.events
  pub active : valid_active a.active ≡ true

pub AccountIsValid→valid_account : (a : DiskAccount) → AccountIsValid a → valid_account a ≡ true
unfolding valid_account
AccountIsValid→valid_account a v =
    ground (arith, v.active, v.events.bounded, all_of_All valid_event a.events v.events.each)
