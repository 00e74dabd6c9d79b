-- ===== src/Base/Map.antt =====
-- A Go map, as an association list. A key stands in it once (`Unique`).
use mathlib.Core.List.{Permᴰ}
use unibe_clan.Base.{
  ◌+◌, ◌≤◌, ◌<◌, ◌≡◌, ◌↔◌, refl, sym, ◌∙◌, subst, subst₂, inl, inr, Option, none, some, List, [],
  ◌∷◌, arith, length, All, keep, Bool, true, false, All-map, if◌then◌else◌, Bool-cases,
}
use unibe_clan.Base.Keys.{Keyed, ◌==◌, Text, text_beq_iff, text_eq}

module _ {ℓ κ} {K : Type ℓ} {V : Type κ} ⦃keyed : Keyed K⦄ where
  -- `v, ok := m[k]`
  unfoldable pub lookup : K → List (K × V) → Option V
  lookup asked [] = none
  lookup asked ((key, value) ∷ rest) =
      let later = lookup asked rest in if key == asked then some value else later

  -- `delete(m, k)`
  unfoldable pub delete : K → List (K × V) → List (K × V)
  delete k [] = []
  delete k ((j, w) ∷ m) = let rest = delete k m in if j == k then rest else (j, w) ∷ rest

  -- `m[k] = v`
  unfoldable pub insert : K → V → List (K × V) → List (K × V)
  insert k v [] = (k, v) ∷ []
  insert k v ((j, w) ∷ m) = let rest = insert k v m in if j == k then (k, v) ∷ m else (j, w) ∷ rest

  -- `p := m[k]; *p = v`, where the map holds pointers: a key that is gone stays gone.
  unfoldable pub replace : K → V → List (K × V) → List (K × V)
  replace k v [] = []
  replace k v ((j, w) ∷ m) =
      let rest = replace k v m in if j == k then (k, v) ∷ m else (j, w) ∷ rest

  abbrev pub Unique : List (K × V) → Type κ
  Unique [] = Unit
  Unique ((j, v) ∷ m) = (lookup j m ≡ none) × Unique m

  pub lookup-insert :
      (key asked : K) (value : V) (entries : List (K × V))
      → lookup asked (insert key value entries)
        ≡ (if key == asked then some value else lookup asked entries)
  unfolding lookup insert
  lookup-insert key asked value [] = refl
  lookup-insert key asked value ((i, w) ∷ rest) = ground (
    arith,
    keyed.same_iff i asked,
    keyed.same_iff i key,
    keyed.same_iff key asked,
    lookup-insert key asked value rest,
  )

  pub lookup-replace :
      (key asked : K) (value : V) (entries : List (K × V))
      → lookup asked (replace key value entries) ≡ elim (lookup asked entries) [
        | none ↦ none
        | some old ↦ if key == asked then some value else some old
      ]
  unfolding lookup replace
  lookup-replace key asked value [] = refl
  lookup-replace key asked value ((i, w) ∷ rest) = ground (
    arith,
    keyed.same_iff i asked,
    keyed.same_iff i key,
    keyed.same_iff key asked,
    lookup-replace key asked value rest,
  )

  pub replace-insert :
      (k : K) (v w : V) (m : List (K × V)) → lookup k m ≡ some w → replace k v m ≡ insert k v m
  unfolding lookup replace insert
  replace-insert k v w [] h = cc
  replace-insert k v w ((j, x) ∷ m) h = ground (arith, replace-insert k v w m)

  pub lookup-delete :
      (k j : K) (m : List (K × V)) → lookup j (delete k m) ≡ (if k == j then none else lookup j m)
  unfolding lookup delete
  lookup-delete k j [] = ground arith
  lookup-delete k j ((i, w) ∷ m) =
      ground
        (arith, keyed.same_iff k j, keyed.same_iff i k, keyed.same_iff i j, lookup-delete k j m)

  pub insert-Unique : (k : K) (v : V) (m : List (K × V)) → Unique m → Unique (insert k v m)
  unfolding insert lookup
  insert-Unique k v [] u = ground arith
  insert-Unique k v ((j, w) ∷ m) u = elim (Bool-cases (j == k)) [
    | inl same ↦ rw same (ground (arith, keyed.same_iff j k))
    | inr other ↦ rw other (
      ground (arith, lookup-insert k j v m, keyed.same_iff k j, keyed.same_iff j k),
      insert-Unique k v m u.1,
    )
  ]

  pub delete-Unique : (k : K) (m : List (K × V)) → Unique m → Unique (delete k m)
  unfolding delete
  delete-Unique k [] u = tt
  delete-Unique k ((j, w) ∷ m) u = elim (Bool-cases (j == k)) [
    | inl same ↦ rw same (delete-Unique k m u.1)
    | inr other ↦ rw other (ground (arith, lookup-delete k j m), delete-Unique k m u.1)
  ]

  pub length-insert_new :
      (k : K) (v : V) (m : List (K × V)) → lookup k m ≡ none → length (insert k v m) ≡ length m + 1
  unfolding insert lookup
  length-insert_new k v [] h = omega arith
  length-insert_new k v ((j, w) ∷ m) h = ground (arith, length-insert_new k v m)

  pub length-insert_old :
      (k : K) (v w : V) (m : List (K × V)) → lookup k m ≡ some w → length (insert k v m) ≡ length m
  unfolding insert lookup
  length-insert_old k v w [] h = cc
  length-insert_old k v w ((j, x) ∷ m) h = ground (arith, length-insert_old k v w m)

  pub length-insert-le : (k : K) (v : V) (m : List (K × V)) → length (insert k v m) ≤ length m + 1
  unfolding insert
  length-insert-le k v [] = omega arith
  length-insert-le k v ((j, w) ∷ m) = ground (arith, length-insert-le k v m)

  pub length-delete-le : (k : K) (m : List (K × V)) → length (delete k m) ≤ length m
  unfolding delete
  length-delete-le k [] = omega arith
  length-delete-le k ((j, x) ∷ m) = ground (arith, length-delete-le k m)

  pub delete_absent : (k : K) (m : List (K × V)) → lookup k m ≡ none → delete k m ≡ m
  unfolding delete lookup
  delete_absent k [] h = refl
  delete_absent k ((j, x) ∷ m) h = ground (arith, delete_absent k m)

  pub length-delete :
      (k : K) (v : V) (m : List (K × V)) → lookup k m ≡ some v → length (delete k m) < length m
  unfolding delete lookup
  length-delete k v [] h = cc
  length-delete k v ((j, x) ∷ m) h = ground (arith, length-delete-le k m, length-delete k v m)

  module _ {μ} (P : K × V → Type μ) where
    pub All-delete : (k : K) (m : List (K × V)) → All P m → All P (delete k m)
    unfolding delete
    All-delete k [] h = tt
    All-delete k ((j, w) ∷ m) h = elim (Bool-cases (j == k)) [
      | inl same ↦ rw same (All-delete k m h.1)
      | inr other ↦ rw other (h.0, All-delete k m h.1)
    ]

    pub All-insert : (k : K) (v : V) (m : List (K × V)) → P (k, v) → All P m → All P (insert k v m)
    unfolding insert
    All-insert k v [] p h = (p, tt)
    All-insert k v ((j, w) ∷ m) p h = elim (Bool-cases (j == k)) [
      | inl same ↦ rw same (p, h.1)
      | inr other ↦ rw other (h.0, All-insert k v m p h.1)
    ]

    -- What holds of every entry holds of what a lookup finds.
    pub All-lookup : (k : K) (v : V) (m : List (K × V)) → All P m → lookup k m ≡ some v → P (k, v)
    unfolding lookup
    All-lookup k v [] h f = cc
    All-lookup k v ((j, w) ∷ m) h f = elim (Bool-cases (j == k)) [
      | inl same ↦
          let hit : w ≡ v = ground arith in
          subst (λ (x : K × V). P x) (ground (arith, keyed.same_iff j k)) h.0
      | inr other ↦ All-lookup k v m h.1 (ground arith)
    ]

  lookup-swap :
      (a b : K × V) (l : List (K × V))
      → Unique (a ∷ b ∷ l)
      → Unique (b ∷ a ∷ l) × ((k : K) → lookup k (a ∷ b ∷ l) ≡ lookup k (b ∷ a ∷ l))
  unfolding lookup
  lookup-swap (i, v) (j, w) l u = (
    (
      ground (arith, keyed.same_iff i j, keyed.same_iff j i),
      (ground (arith, keyed.same_iff j i), u.1.1),
    ),
    λ k.
        ground
          (arith, keyed.same_iff i j, keyed.same_iff j i, keyed.same_iff i k, keyed.same_iff j k),
  )

  -- The order of a map's entries does not show in a lookup.
  pub lookup-perm :
      {m n : List (K × V)} → Permᴰ m n → Unique m → Unique n × ((k : K) → lookup k m ≡ lookup k n)
  unfolding lookup
  lookup-perm Permᴰ.nil u = (tt, λ k. refl)
  lookup-perm (Permᴰ.cons {a = a} {b = b} {l₁ = l} {l₂ = r} h p) u =
      let (v, same) = lookup-perm p u.1 in
      ((rw (← h) (sym (same a.0) ∙ u.0), v), λ k. rw (← h) (ground (arith, same k)))
  lookup-perm (Permᴰ.swap {a = x} {b = y} {l = l} h g) u =
      subst₂ (λ a b. Unique (b ∷ a ∷ l) × ((k : K) → lookup k (x ∷ y ∷ l) ≡ lookup k (b ∷ a ∷ l))) h
        g (lookup-swap x y l u)
  lookup-perm (Permᴰ.trans p q) u =
      let (v, same) = lookup-perm p u in
      let (w, same') = lookup-perm q v in (w, λ k. same k ∙ same' k)

  pub lookup-keep_absent :
      (p : K × V → Bool) (k : K) (m : List (K × V)) → lookup k m ≡ none → lookup k (keep p m) ≡ none
  unfolding lookup keep
  lookup-keep_absent p k [] h = refl
  lookup-keep_absent p k (x ∷ m) h = ground (arith, lookup-keep_absent p k m)

  pub lookup-keep :
      (p : K × V → Bool) (k : K) (v : V) (m : List (K × V))
      → Unique m
      → (lookup k (keep p m) ≡ some v) ↔ ((lookup k m ≡ some v) × (p (k, v) ≡ true))
  unfolding lookup keep
  lookup-keep p k v [] u = ground arith
  lookup-keep p k v ((j, w) ∷ m) u =
      ground (arith, lookup-keep p k v m u.1, lookup-keep_absent p j m u.0, keyed.same_iff j k)

  pub keep-Unique : (p : K × V → Bool) (m : List (K × V)) → Unique m → Unique (keep p m)
  unfolding keep
  keep-Unique p [] u = tt
  keep-Unique p (x ∷ m) u = elim (Bool-cases (p x)) [
    | inl kept ↦ rw kept (lookup-keep_absent p x.0 m u.0, keep-Unique p m u.1)
    | inr gone ↦ rw gone (keep-Unique p m u.1)
  ]

  -- A map that holds nothing but entries of another one has what all those have.
  pub All-of_inside {μ} :
      (P : K × V → Type μ) (m n : List (K × V))
      → Unique n
      → ((k : K) (v : V) → lookup k n ≡ some v → lookup k m ≡ some v)
      → All P m
      → All P n
  unfolding lookup
  All-of_inside P m [] u inside h = tt
  All-of_inside P m ((j, v) ∷ n) u inside h = (
    All-lookup P j v m h (inside j v (ground (arith, keyed.same_iff j j))),
    All-of_inside P m n u.1 (λ k w found. inside k w (ground (arith, keyed.same_iff j k, u.0))) h,
  )

  pub length-insert-pos : (k : K) (v : V) (m : List (K × V)) → 0 < length (insert k v m)
  unfolding insert
  length-insert-pos k v [] = omega arith
  length-insert-pos k v ((j, w) ∷ m) = ground arith

abbrev pub is_present {ℓ} : {A : Type ℓ} → Option A → Bool
is_present none = false
is_present (some a) = true

-- `_, ok := m[id]`
abbrev pub has {ℓ} : {A : Type ℓ} → Text → List (Text × A) → Bool
has id m = is_present (lookup id m)

-- Each key of a map stands in it.
pub each-has {ℓ} : {A : Type ℓ} (m : List (Text × A)) → All (λ p. has p.0 m ≡ true) m
unfolding lookup
each-has [] = tt
each-has ((k, v) ∷ m) = (
  ground (arith, text_beq_iff k k),
  All-map _ _ (λ p known. ground (arith, known)) m (each-has m),
)
