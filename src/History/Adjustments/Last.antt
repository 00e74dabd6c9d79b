-- ===== src/History/Adjustments/Last.antt =====
-- An adjustment that was detected last is recorded as the last one.
use unibe_clan.Base.{
  ℕ, zero, suc, ◌-◌, ◌≤◌, ltb, refl, length, length-append, drop, All-drop, ◌≡◌, inl, inr, true,
  false, List, [], ◌∷◌, ◌++◌, arith, All, Bool-cases, ◌==◌ as nat_beq,
}
use unibe_clan.Base.Sort.{sort_by, insert_sorted, All-sort_by}
use unibe_clan.Base.Time.{Time}
use unibe_clan.History.Adjustments.{
  StoredAdjustment, append_adjustment, valid_adjustment, already_recorded, detected_before,
  keep_last, max_adjustments,
}

-- The adjustments were recorded at other revisions of the history.
abbrev pub AreSeen : ℕ → List StoredAdjustment → Type 0
AreSeen core_revision ss = All (λ s. nat_beq s.core_revision_before core_revision ≡ false) ss

-- The adjustments were not detected after a time.
abbrev pub AreEarlier : Time → List StoredAdjustment → Type 0
AreEarlier now ss = All (λ s. ltb now s.adjustment.detected_at ≡ false) ss

abbrev pub EndsWith : StoredAdjustment → List StoredAdjustment → Type 0
EndsWith s ss = (xs : List StoredAdjustment) × (ss ≡ xs ++ (s ∷ []))

seen-already_recorded :
    (s : StoredAdjustment) (ss : List StoredAdjustment)
    → AreSeen s.core_revision_before ss
    → already_recorded s ss ≡ false
unfolding already_recorded
seen-already_recorded s [] seen = refl
seen-already_recorded s (x ∷ ss) seen = ground (arith, seen.0, seen-already_recorded s ss seen.1)

insert_sorted-last :
    (x s : StoredAdjustment) (ss : List StoredAdjustment)
    → detected_before s x ≡ false
    → insert_sorted detected_before x (ss ++ (s ∷ []))
      ≡ insert_sorted detected_before x ss ++ (s ∷ [])
unfolding insert_sorted
insert_sorted-last x s [] h = ground (arith, h)
insert_sorted-last x s (y ∷ ss) h = ground (arith, insert_sorted-last x s ss h)

sort_by-last :
    (s : StoredAdjustment) (ss : List StoredAdjustment)
    → AreEarlier s.adjustment.detected_at ss
    → sort_by detected_before (ss ++ (s ∷ [])) ≡ sort_by detected_before ss ++ (s ∷ [])
unfolding sort_by insert_sorted
sort_by-last s [] h = refl
sort_by-last s (x ∷ ss) h =
    rw (sort_by-last s ss h.1) (insert_sorted-last x s (sort_by detected_before ss) h.0)

drop-last :
    (n : ℕ) (s : StoredAdjustment) (ss : List StoredAdjustment)
    → n ≤ length ss
    → drop n (ss ++ (s ∷ [])) ≡ drop n ss ++ (s ∷ [])
drop-last zero s ss h = refl
drop-last (suc n) s [] h = absurd (omega arith)
drop-last (suc n) s (x ∷ ss) h = drop-last n s ss (omega arith)

keep_last-last :
    (s : StoredAdjustment) (ss : List StoredAdjustment)
    → (xs : List StoredAdjustment) × (keep_last max_adjustments (ss ++ (s ∷ [])) ≡ xs ++ (s ∷ []))
      × ((P : StoredAdjustment → Type 0) → All P ss → All P xs)
unfolding keep_last
keep_last-last s ss =
    let all_of = ss ++ (s ∷ []) in
    let n = length all_of - max_adjustments in
    elim (Bool-cases (ltb max_adjustments (length all_of))) [
      | inr fits ↦ (ss, rw (fits, keep_last), λ P h. h)
      | inl full ↦ (
        drop n ss,
        rw (full, keep_last) (drop-last n s ss (omega (arith, length-append ss (s ∷ [])))),
        λ P h. All-drop P n ss h,
      )
    ]

-- A valid adjustment that was detected last, at a new revision, is recorded as the last one.
pub append_adjustment-last :
    (core_revision : ℕ) (ss : List StoredAdjustment) (s : StoredAdjustment)
    → valid_adjustment s ≡ true
    → AreSeen core_revision ss
    → s.core_revision_before ≡ core_revision
    → AreEarlier s.adjustment.detected_at ss
    → (xs : List StoredAdjustment) × (append_adjustment ss s ≡ (xs ++ (s ∷ []), true))
      × AreSeen core_revision xs
unfolding append_adjustment
append_adjustment-last core_revision ss s fine seen at earlier =
    let fresh = seen-already_recorded s ss (rw at seen) in
    let (xs, kept, each) = keep_last-last s (sort_by detected_before ss) in
    (
      xs,
      rw (fine, fresh, sort_by-last s ss earlier, kept),
      each _ (All-sort_by detected_before _ ss seen),
    )
