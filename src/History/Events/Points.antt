-- ===== src/History/Events/Points.antt =====
-- The public timeline of reset points.
use mathlib.Core.List.{Memᴰ}
use unibe_clan.Base.{
  ◌≤◌, ◌≡◌, ◌⊎◌, refl, true, false, inl, inr, none, some, List, [], ◌∷◌, ◌++◌, arith, length, All,
  All-append, Bool-cases, Option-cases, All-map,
}
use unibe_clan.Base.Sort.{IsSorted, StrictWeak, sort_by, sort_by-IsSorted, All-sort_by}
use unibe_clan.Base.Int.{leb_ℤ}
use unibe_clan.History.Adjustments.{
  StoredAdjustment, has_reason, reset_timestamp_changed, used_percent_decreased,
}
use unibe_clan.History.Adjustments.Append.{length-keep_last-le, keep_last-All, keep_last-IsSorted}
use unibe_clan.History.Events.{
  ResetEvent, ResetPoint, scheduled, inferred_early, inferred_reset_point, scheduled_points,
  has_point_near, add_inferred, point_before, public_reset_points, max_reset_points_per_account,
}

point_before-StrictWeak : StrictWeak point_before
unfolding point_before
point_before-StrictWeak = record {
  asym = λ a b h. ground arith;
  neg_trans = λ a b c h k. ground arith;
}

-- A point for the end of a completed window.
pub record IsScheduled (e : ResetEvent) (p : ResetPoint) : Type 0 where
  pub kind : p.kind ≡ scheduled
  pub at : p.at ≡ e.resets_at
  pub detected : p.detected_at ≡ e.detected_at
  pub used : p.used_percent_before ≡ e.used_percent_before
  pub times : (p.previous_scheduled_at ≡ none) × (p.next_scheduled_at ≡ none)

-- A point inferred from an adjustment: the reset moved and usage fell. It stands at the start of the
-- window after, and carries the usage before and the scheduled times of both windows.
pub record IsInferred (s : StoredAdjustment) (p : ResetPoint) : Type 0 where
  pub kind : p.kind ≡ inferred_early
  pub moved : has_reason reset_timestamp_changed s.adjustment.reasons ≡ true
  pub fell : has_reason used_percent_decreased s.adjustment.reasons ≡ true
  pub decreased : leb_ℤ s.adjustment.before.used_percent s.adjustment.after.used_percent ≡ false
  pub at : p.at ≡ s.adjustment.after.window_started_at
  pub detected : p.detected_at ≡ s.adjustment.detected_at
  pub used : p.used_percent_before ≡ s.adjustment.before.used_percent
  pub previous : p.previous_scheduled_at ≡ some s.adjustment.before.resets_at
  pub next : p.next_scheduled_at ≡ some s.adjustment.after.resets_at

-- A point comes from one of the events or from one of the adjustments.
abbrev pub IsPoint : List ResetEvent → List StoredAdjustment → ResetPoint → Type 0
IsPoint es ss p =
    ((e : ResetEvent) × Memᴰ e es × IsScheduled e p)
    ⊎ ((s : StoredAdjustment) × Memᴰ s ss × IsInferred s p)

inferred_reset_point-IsInferred :
    (s : StoredAdjustment) (p : ResetPoint) → inferred_reset_point s ≡ some p → IsInferred s p
unfolding inferred_reset_point
inferred_reset_point-IsInferred s p h = record {
  kind = ground arith;
  moved = ground arith;
  fell = ground arith;
  decreased = ground arith;
  at = ground arith;
  detected = ground arith;
  used = ground arith;
  previous = ground arith;
  next = ground arith;
}

event-IsPoint :
    (e : ResetEvent) (es : List ResetEvent) (ss : List StoredAdjustment) (p : ResetPoint)
    → IsPoint es ss p
    → IsPoint (e ∷ es) ss p
event-IsPoint e es ss p (inl (f, stands, made)) = inl (f, Memᴰ.tail stands, made)
event-IsPoint e es ss p (inr known) = inr known

scheduled_points-All :
    (es : List ResetEvent) (ss : List StoredAdjustment) → All (IsPoint es ss) (scheduled_points es)
unfolding scheduled_points
scheduled_points-All [] ss = tt
scheduled_points-All (e ∷ es) ss = (
  inl (
    e,
    Memᴰ.head refl,
    record { kind = refl; at = refl; detected = refl; used = refl; times = (refl, refl) },
  ),
  All-map _ _ (event-IsPoint e es ss) (scheduled_points es) (scheduled_points-All es ss),
)

add_inferred-All :
    {P : ResetPoint → Type 0} (points : List ResetPoint) (ss : List StoredAdjustment)
    → ((s : StoredAdjustment) (p : ResetPoint) → Memᴰ s ss → IsInferred s p → P p)
    → All P points
    → All P (add_inferred points ss)
unfolding add_inferred
add_inferred-All points [] from h = h
add_inferred-All {P} points (s ∷ ss) from h =
    let later : (r : StoredAdjustment) (q : ResetPoint) → Memᴰ r ss → IsInferred r q → P q =
      λ r q stands made. from r q (Memᴰ.tail stands) made in
    elim (Option-cases (inferred_reset_point s)) [
      | inl no_point ↦ rw (no_point, add_inferred) (add_inferred-All points ss later h)
      | inr (p, found) ↦ elim (Bool-cases (has_point_near p.at points)) [
        | inl near ↦ rw (found, near, add_inferred) (add_inferred-All points ss later h)
        | inr far ↦
            rw (found, far, add_inferred)
              (add_inferred-All (points ++ (p ∷ [])) ss later (
                All-append P points (p ∷ []) h
                  (from s p (Memᴰ.head refl) (inferred_reset_point-IsInferred s p found), tt)))
      ]
    ]

-- The public timeline is in the order of the comparison and holds at most 1024 points. Each point
-- in it comes from one of the events, at the end of its window, or from one of the adjustments in
-- which the reset moved and usage fell: such a point stands at the start of the window after, and
-- carries the usage before and the scheduled times of the windows before and after.
pub public_reset_points_ordered :
    (es : List ResetEvent) (ss : List StoredAdjustment)
    → IsSorted point_before (public_reset_points es ss)
      × (length (public_reset_points es ss) ≤ max_reset_points_per_account)
      × All (IsPoint es ss) (public_reset_points es ss)
unfolding public_reset_points
public_reset_points_ordered es ss =
    let points = add_inferred (scheduled_points es) ss in
    let sorted_points = sort_by point_before points in
    let limit = max_reset_points_per_account in
    (
      keep_last-IsSorted limit sorted_points point_before
          (sort_by-IsSorted point_before point_before-StrictWeak points),
      length-keep_last-le limit sorted_points,
      keep_last-All limit sorted_points _ (
          All-sort_by point_before _ points (
            add_inferred-All (scheduled_points es) ss (λ s p stands made. inr (s, stands, made))
              (scheduled_points-All es ss))),
    )
