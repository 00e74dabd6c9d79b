-- ===== src/History/Adjustments/Append.antt =====
-- What recording an adjustment keeps.
use unibe_clan.Base.{
  ℕ, ◌-◌, ◌≤◌, ◌≡◌, inl, inr, Bool, true, List, [], ◌∷◌, ◌++◌, arith, All, All-append, All-drop,
  length, length-drop, Bool-cases,
}
use unibe_clan.Base.Sort.{IsSorted, StrictWeak, All-sort_by, sort_by, sort_by-IsSorted}
use unibe_clan.Base.Sublists.{drop-IsSorted, drop-Distinct}
use unibe_clan.Base.Sort.{Distinct}
use unibe_clan.History.Adjustments.{
  StoredAdjustment, valid_adjustment, already_recorded, append_adjustment, keep_last,
  detected_before, max_adjustments,
}

module _ {ℓ} {A : Type ℓ} (limit : ℕ) (xs : List A) where
  pub length-keep_last-le : length (keep_last limit xs) ≤ limit
  unfolding keep_last
  length-keep_last-le = ground (arith, length-drop (length xs - limit) xs)

  pub keep_last-All {κ} : (P : A → Type κ) → All P xs → All P (keep_last limit xs)
  unfolding keep_last
  keep_last-All P h = ground (arith, h, All-drop P (length xs - limit) xs h)

  pub keep_last-IsSorted :
      (less : A → A → Bool) → IsSorted less xs → IsSorted less (keep_last limit xs)
  unfolding keep_last
  keep_last-IsSorted less s = ground (arith, drop-IsSorted less (length xs - limit) xs s)

  pub keep_last-Distinct :
      (less : A → A → Bool) → Distinct less xs → Distinct less (keep_last limit xs)
  unfolding keep_last
  keep_last-Distinct less s = ground (arith, drop-Distinct less (length xs - limit) xs s)

-- An account's adjustments: valid, in the order of their detection, and at most 1024.
pub record AdjustmentsAreValid (s : List StoredAdjustment) : Type 0 where
  pub each : All (λ a. valid_adjustment a ≡ true) s
  pub bounded : length s ≤ max_adjustments
  pub sorted : IsSorted detected_before s

detected_before-StrictWeak : StrictWeak detected_before
detected_before-StrictWeak = record {
  asym = λ a b h. ground arith;
  neg_trans = λ a b c h k. ground arith;
}

-- Recording an adjustment, whether it is refused, known already or new, leaves an account's valid
-- adjustments valid, in the order of their detection and at most 1024.
pub append_adjustment-AdjustmentsAreValid :
    (m : List StoredAdjustment) (s : StoredAdjustment)
    → AdjustmentsAreValid m
    → AdjustmentsAreValid (append_adjustment m s).0
unfolding append_adjustment
append_adjustment-AdjustmentsAreValid m s v = elim (Bool-cases (valid_adjustment s)) [
  | inr bad ↦ rw bad v
  | inl fine ↦ elim (Bool-cases (already_recorded s m)) [
    | inl old ↦ rw (fine, old) v
    | inr fresh ↦
        let sorted_in = sort_by detected_before (m ++ (s ∷ [])) in
        rw (fine, fresh)
          (record {
            each = keep_last-All max_adjustments sorted_in _ (
                All-sort_by detected_before _ (m ++ (s ∷ [])) (All-append _ m _ v.each (fine, tt)));
            bounded = length-keep_last-le max_adjustments sorted_in;
            sorted =
                keep_last-IsSorted max_adjustments sorted_in detected_before
                  (sort_by-IsSorted detected_before detected_before-StrictWeak (m ++ (s ∷ [])));
          })
  ]
]
