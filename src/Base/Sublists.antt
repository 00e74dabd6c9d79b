-- ===== src/Base/Sublists.antt =====
-- What is sorted, or ordered in any two elements, stays so when elements are left out, and when a
-- new one is sorted in.
use unibe_clan.Base.Tests.{Bool-cases}
use Prim.Native.Nat.{ℕ, zero, suc}
use mathlib.Core.Path.{◌≡◌, sym}
use mathlib.Core.Logic.{◌⊎◌, inl, inr}
use mathlib.Core.Bool.{Bool, true}
use mathlib.Core.List.{List, [], ◌∷◌, ◌++◌}
use mathlib.Core.List.{Permᴰ}
use unibe_clan.Base.Lists.{All, All-append, All-keep, drop, keep}
use unibe_clan.Base.Sort.{IsSorted, Distinct, Distinct-perm, sort_by, sort_by-perm}

module _ {ℓ} {A : Type ℓ} (less : A → A → Bool) where
  pub drop-IsSorted : (n : ℕ) (xs : List A) → IsSorted less xs → IsSorted less (drop n xs)
  drop-IsSorted zero xs s = s
  drop-IsSorted (suc n) [] s = tt
  drop-IsSorted (suc n) (x ∷ xs) s = drop-IsSorted n xs s.1

  pub drop-Distinct : (n : ℕ) (xs : List A) → Distinct less xs → Distinct less (drop n xs)
  drop-Distinct zero xs s = s
  drop-Distinct (suc n) [] s = tt
  drop-Distinct (suc n) (x ∷ xs) s = drop-Distinct n xs s.1

  pub keep-IsSorted : (p : A → Bool) (xs : List A) → IsSorted less xs → IsSorted less (keep p xs)
  unfolding keep
  keep-IsSorted p [] s = tt
  keep-IsSorted p (x ∷ xs) s = elim (Bool-cases (p x)) [
    | inl yes_p ↦ rw yes_p (All-keep _ p xs s.0, keep-IsSorted p xs s.1)
    | inr no_p ↦ rw no_p (keep-IsSorted p xs s.1)
  ]

  pub keep-Distinct : (p : A → Bool) (xs : List A) → Distinct less xs → Distinct less (keep p xs)
  unfolding keep
  keep-Distinct p [] s = tt
  keep-Distinct p (x ∷ xs) s = elim (Bool-cases (p x)) [
    | inl yes_p ↦ rw yes_p (All-keep _ p xs s.0, keep-Distinct p xs s.1)
    | inr no_p ↦ rw no_p (keep-Distinct p xs s.1)
  ]

  perm_sym : {xs ys : List A} → Permᴰ xs ys → Permᴰ ys xs
  perm_sym Permᴰ.nil = Permᴰ.nil
  perm_sym (Permᴰ.cons e p) = Permᴰ.cons (sym e) (perm_sym p)
  perm_sym (Permᴰ.swap e f) = Permᴰ.swap (sym f) (sym e)
  perm_sym (Permᴰ.trans p q) = Permᴰ.trans (perm_sym q) (perm_sym p)

  append-Distinct :
      (xs : List A) (y : A)
      → Distinct less xs
      → All (λ x. (less x y ≡ true) ⊎ (less y x ≡ true)) xs
      → Distinct less (xs ++ (y ∷ []))
  append-Distinct [] y d h = (tt, tt)
  append-Distinct (x ∷ xs) y d h =
      (All-append _ xs (y ∷ []) d.0 (h.0, tt), append-Distinct xs y d.1 h.1)

  -- Sorting in an element that is ordered against all the others.
  pub sort_by-Distinct :
      (xs : List A) (y : A)
      → Distinct less xs
      → All (λ x. (less x y ≡ true) ⊎ (less y x ≡ true)) xs
      → Distinct less (sort_by less (xs ++ (y ∷ [])))
  sort_by-Distinct xs y d h =
      Distinct-perm less (perm_sym (sort_by-perm less (xs ++ (y ∷ [])))) (append-Distinct xs y d h)
