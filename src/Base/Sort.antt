-- ===== src/Base/Sort.antt =====
-- `sort.Slice`, as a stable insertion sort by a Boolean test. Where the test orders any two of the
-- elements, the result does not depend on the algorithm: it is the only sorted permutation.
use mathlib.Core.List.{Permᴰ}
use mathlib.Core.List.Permᴰ
use unibe_clan.Base.{
  ◌≡◌, refl, ap, ◌∙◌, inl, inr, Bool, true, false, List, [], ◌∷◌, arith, length, All, All-map,
  subst, ap₂, if◌then◌else◌, Bool-cases, ◌⊎◌, suc,
}

module _ {ℓ κ} {A : Type ℓ} (P : A → Type κ) where
  pub All-perm : {xs ys : List A} → Permᴰ xs ys → All P xs → All P ys
  All-perm Permᴰ.nil h = tt
  All-perm (Permᴰ.cons e p) h = (subst P e h.0, All-perm p h.1)
  All-perm (Permᴰ.swap e f) h = (subst P f h.1.0, (subst P e h.0, h.1.1))
  All-perm (Permᴰ.trans p q) h = All-perm q (All-perm p h)

-- What a test must satisfy to sort by it.
pub record StrictWeak {ℓ} {A : Type ℓ} (less : A → A → Bool) : Type ℓ where
  pub asym : (a b : A) → less a b ≡ true → less b a ≡ false
  pub neg_trans : (a b c : A) → less a b ≡ false → less b c ≡ false → less a c ≡ false

module _ {ℓ} {A : Type ℓ} (less : A → A → Bool) where
  unfoldable pub insert_sorted : A → List A → List A
  insert_sorted x [] = x ∷ []
  insert_sorted x (y ∷ ys) =
      let rest = insert_sorted x ys in if less y x then y ∷ rest else x ∷ y ∷ ys

  unfoldable pub sort_by : List A → List A
  unfolding insert_sorted
  sort_by [] = []
  sort_by (x ∷ xs) = insert_sorted x (sort_by xs)

  -- No element comes before a smaller one.
  abbrev pub IsSorted : List A → Type 0
  IsSorted [] = Unit
  IsSorted (x ∷ xs) = All (λ y. less y x ≡ false) xs × IsSorted xs

  pub length-insert_sorted : (x : A) (ys : List A) → length (insert_sorted x ys) ≡ suc (length ys)
  unfolding insert_sorted
  length-insert_sorted x [] = refl
  length-insert_sorted x (y ∷ ys) = ground (arith, length-insert_sorted x ys)

  pub length-sort_by : (xs : List A) → length (sort_by xs) ≡ length xs
  unfolding sort_by
  length-sort_by [] = refl
  length-sort_by (x ∷ xs) = length-insert_sorted x (sort_by xs) ∙ ap suc (length-sort_by xs)

  module _ {κ} (P : A → Type κ) where
    pub All-insert_sorted : (x : A) (ys : List A) → P x → All P ys → All P (insert_sorted x ys)
    unfolding insert_sorted
    All-insert_sorted x [] p h = (p, tt)
    All-insert_sorted x (y ∷ ys) p h = elim (Bool-cases (less y x)) [
      | inl lt_y ↦ rw lt_y (h.0, All-insert_sorted x ys p h.1)
      | inr ge_y ↦ rw ge_y (p, h)
    ]

    pub All-sort_by : (xs : List A) → All P xs → All P (sort_by xs)
    unfolding sort_by
    All-sort_by [] h = tt
    All-sort_by (x ∷ xs) h = All-insert_sorted x (sort_by xs) h.0 (All-sort_by xs h.1)

  pub insert_sorted-perm : (x : A) (ys : List A) → Permᴰ (insert_sorted x ys) (x ∷ ys)
  unfolding insert_sorted
  insert_sorted-perm x [] = Permᴰ.refl (x ∷ [])
  insert_sorted-perm x (y ∷ ys) = elim (Bool-cases (less y x)) [
    | inl lt_y ↦
        rw lt_y (Permᴰ.trans (Permᴰ.cons refl (insert_sorted-perm x ys)) (Permᴰ.swap refl refl))
    | inr ge_y ↦ rw ge_y (Permᴰ.refl (x ∷ y ∷ ys))
  ]

  pub sort_by-perm : (xs : List A) → Permᴰ (sort_by xs) xs
  unfolding sort_by
  sort_by-perm [] = Permᴰ.nil
  sort_by-perm (x ∷ xs) =
      Permᴰ.trans (insert_sorted-perm x (sort_by xs)) (Permᴰ.cons refl (sort_by-perm xs))

  -- Any two of the elements are ordered.
  abbrev pub Distinct : List A → Type 0
  Distinct [] = Unit
  Distinct (x ∷ xs) = All (λ y. (less x y ≡ true) ⊎ (less y x ≡ true)) xs × Distinct xs

  Ordered_sym :
      (x y : A) → (less x y ≡ true) ⊎ (less y x ≡ true) → (less y x ≡ true) ⊎ (less x y ≡ true)
  Ordered_sym x y h = ground arith

  pub Distinct-perm : {xs ys : List A} → Permᴰ xs ys → Distinct xs → Distinct ys
  Distinct-perm Permᴰ.nil d = tt
  Distinct-perm (Permᴰ.cons {a = a} {b = b} {l₁ = l} e p) d = (
    All-perm _ p (subst (λ x. All (λ y. (less x y ≡ true) ⊎ (less y x ≡ true)) l) e d.0),
    Distinct-perm p d.1,
  )
  Distinct-perm (Permᴰ.swap {l = l} e f) d = (
    (
      rw (← e, ← f) (Ordered_sym _ _ d.0.0),
      subst (λ x. All (λ y. (less x y ≡ true) ⊎ (less y x ≡ true)) l) f d.1.0,
    ),
    (subst (λ x. All (λ y. (less x y ≡ true) ⊎ (less y x ≡ true)) l) e d.0.1, d.1.1),
  )
  Distinct-perm (Permᴰ.trans p q) d = Distinct-perm q (Distinct-perm p d)

  module _ (weak : StrictWeak less) where
    insert_sorted-IsSorted : (x : A) (ys : List A) → IsSorted ys → IsSorted (insert_sorted x ys)
    unfolding insert_sorted
    insert_sorted-IsSorted x [] s = (tt, tt)
    insert_sorted-IsSorted x (y ∷ ys) s = elim (Bool-cases (less y x)) [
      | inl lt_y ↦ rw lt_y (
        All-insert_sorted (λ z. less z y ≡ false) x ys (weak.asym y x lt_y) s.0,
        insert_sorted-IsSorted x ys s.1,
      )
      | inr ge_y ↦
          rw ge_y (
            (ge_y, All-map _ (λ z. less z x ≡ false) (λ z h. weak.neg_trans z y x h ge_y) ys s.0),
            s,
          )
    ]

    pub sort_by-IsSorted : (xs : List A) → IsSorted (sort_by xs)
    unfolding sort_by
    sort_by-IsSorted [] = tt
    sort_by-IsSorted (x ∷ xs) = insert_sorted-IsSorted x (sort_by xs) (sort_by-IsSorted xs)

    insert_sorted_comm :
        (x y : A) (l : List A)
        → (less x y ≡ true) ⊎ (less y x ≡ true)
        → insert_sorted x (insert_sorted y l) ≡ insert_sorted y (insert_sorted x l)
    unfolding insert_sorted
    insert_sorted_comm x y [] h = ground (arith, weak.asym x y, weak.asym y x)
    insert_sorted_comm x y (z ∷ l) h = ground (
      arith,
      weak.asym x y,
      weak.asym y x,
      weak.asym z x,
      weak.asym z y,
      weak.neg_trans z x y,
      weak.neg_trans z y x,
      insert_sorted_comm x y l h,
    )

    -- The order of the input does not show, where any two of its elements are ordered.
    pub sort_by_of_perm : {xs ys : List A} → Permᴰ xs ys → Distinct xs → sort_by xs ≡ sort_by ys
    unfolding sort_by
    sort_by_of_perm Permᴰ.nil d = refl
    sort_by_of_perm (Permᴰ.cons e p) d = ap₂ insert_sorted e (sort_by_of_perm p d.1)
    sort_by_of_perm (Permᴰ.swap {a = a} {b = b} {l = l} e f) d =
        rw (← e, ← f) (insert_sorted_comm a b (sort_by l) d.0.0)
    sort_by_of_perm (Permᴰ.trans p q) d =
        sort_by_of_perm p d ∙ sort_by_of_perm q (Distinct-perm p d)
