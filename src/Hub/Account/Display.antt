-- ===== src/Hub/Account/Display.antt =====
-- Which source an account displays.
use unibe_clan.Base.{◌≤◌, ◌≡◌, ◌⊎◌, refl, subst, true, false, List, ◌∷◌, arith, All, All-map}
use unibe_clan.Base.Keys.{Text, text_lt_asym, text_lt_neg_trans}
use unibe_clan.Base.Sort.{StrictWeak, IsSorted, sort_by-IsSorted}
use unibe_clan.Base.Time.{Time}
use unibe_clan.Model.{Hashing}
use unibe_clan.Hub.Conflict.{bool_beq}
use unibe_clan.Hub.Entry.{ActivityRef}
use unibe_clan.Hub.Sources.{SourceCandidate, preferred, sorted_candidates}
use unibe_clan.Hub.Account.{View, sourced_status, account_status}

preferred_asym : (a b : SourceCandidate) → preferred a b ≡ true → preferred b a ≡ false
unfolding preferred bool_beq
preferred_asym a b h = ground (arith, text_lt_asym a.username b.username)

preferred_neg_trans :
    (a b c : SourceCandidate)
    → preferred a b ≡ false
    → preferred b c ≡ false
    → preferred a c ≡ false
unfolding preferred bool_beq
preferred_neg_trans a b c h k = ground (arith, text_lt_neg_trans a.username b.username c.username)

preferred-StrictWeak : StrictWeak preferred
preferred-StrictWeak = record { asym = preferred_asym; neg_trans = preferred_neg_trans }

-- An anchor before a consumer; among these a fresh one before a stale one; then the newer one.
abbrev pub IsAtLeast : SourceCandidate → SourceCandidate → Type 0
IsAtLeast c d =
    ((c.anchor ≡ true) × (d.anchor ≡ false))
    ⊎ ((c.anchor ≡ d.anchor)
        × (((c.stale ≡ false) × (d.stale ≡ true))
            ⊎ ((c.stale ≡ d.stale) × (d.snapshot.observed_at ≤ c.snapshot.observed_at))))

not_preferred : (c d : SourceCandidate) → preferred d c ≡ false → IsAtLeast c d
unfolding preferred bool_beq
not_preferred c d h = ground (arith, h)

sorted_candidates-IsSorted :
    (hashing : Hashing) (key : Text) (now : Time) (h : View)
    → IsSorted preferred (sorted_candidates hashing key now h.stale_after h.entries h.order)
unfolding sorted_candidates
sorted_candidates-IsSorted hashing key now h = sort_by-IsSorted preferred preferred-StrictWeak _

-- Where an account has a source, the status shows the time and the main usage of the snapshot of
-- the first one, and is stale as that one is; and none of the others comes before it: an anchor
-- comes before a consumer, among these a fresh source before a stale one, then the newer
-- observation.
pub displayed_best :
    (hashing : Hashing) (key : Text) (now : Time) (activities : List ActivityRef) (h : View)
    (c : SourceCandidate) (cs : List SourceCandidate)
    → sorted_candidates hashing key now h.stale_after h.entries h.order ≡ c ∷ cs
    → ((account_status hashing key now activities h).0.observed_at ≡ c.snapshot.observed_at)
      × ((account_status hashing key now activities h).0.main_usage ≡ c.snapshot.main_usage)
      × ((account_status hashing key now activities h).0.stale ≡ c.stale)
      × All (IsAtLeast c) cs
unfolding account_status sourced_status
displayed_best hashing key now activities h c cs sorted = (
  rw sorted refl,
  rw sorted refl,
  rw sorted refl,
  All-map _ _ (λ d worse. not_preferred c d worse) cs
      (subst (IsSorted preferred) sorted (sorted_candidates-IsSorted hashing key now h)).0,
)
