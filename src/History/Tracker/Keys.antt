-- ===== src/History/Tracker/Keys.antt =====
-- The list of keys that a tracker keeps beside its accounts.
use unibe_clan.Base.{
  ◌≡◌, ◌⊎◌, refl, sym, subst, inl, inr, true, none, some, List, [], ◌∷◌, ◌++◌, arith, All,
  Bool-cases,
}
use mathlib.Core.List.{Permᴰ}
use mathlib.Core.List.Permᴰ
use unibe_clan.Base.Keys.{
  Text, text_beq, text_beq_iff, text_eq, text_lt, text_lt_total, text_lt_asym, text_lt_neg_trans,
}
use unibe_clan.Base.Map.{lookup, insert, Unique, insert-Unique}
use unibe_clan.Base.Sort.{
  StrictWeak, Distinct, Distinct-perm, sort_by, sort_by-perm, sort_by_of_perm,
}
use unibe_clan.History.Tracker.{keys}

pub text_lt-StrictWeak : StrictWeak text_lt
text_lt-StrictWeak = record { asym = text_lt_asym; neg_trans = text_lt_neg_trans }

absent-ordered :
    {A : Type 0} (k : Text) (m : List (Text × A))
    → lookup k m ≡ none
    → All (λ j. (text_lt k j ≡ true) ⊎ (text_lt j k ≡ true)) (keys m)
unfolding keys lookup
absent-ordered k [] absent = tt
absent-ordered k ((j, a) ∷ m) absent = (
  ground (arith, absent, text_beq_iff j k, text_lt_total j k, text_lt_total k j),
  absent-ordered k m (ground (arith, absent)),
)

-- The keys of a map can be sorted in one way only.
pub keys-Distinct : {A : Type 0} (m : List (Text × A)) → Unique m → Distinct text_lt (keys m)
unfolding keys
keys-Distinct [] u = tt
keys-Distinct ((k, a) ∷ m) u = (absent-ordered k m u.0, keys-Distinct m u.1)

pub keys-insert_new :
    {A : Type 0} (k : Text) (a : A) (m : List (Text × A))
    → lookup k m ≡ none
    → Permᴰ (keys (insert k a m)) (k ∷ keys m)
unfolding keys insert lookup
keys-insert_new k a [] absent = Permᴰ.refl _
keys-insert_new k a ((j, b) ∷ m) absent = elim (Bool-cases (text_beq j k)) [
  | inl same ↦ ground (arith, same, absent)
  | inr other ↦ rw other (
      Permᴰ.trans (Permᴰ.cons refl (keys-insert_new k a m (ground (arith, absent, other))))
        (Permᴰ.swap refl refl))
]

pub keys-insert_old :
    {A : Type 0} (k : Text) (a b : A) (m : List (Text × A))
    → lookup k m ≡ some b
    → keys (insert k a m) ≡ keys m
unfolding keys insert lookup
keys-insert_old k a b [] found = ground (arith, found)
keys-insert_old k a b ((j, c) ∷ m) found =
    ground (arith, found, text_beq_iff j k, keys-insert_old k a b m)

-- A new key at the end of the sorted keys, sorted in.
pub sort-keys-insert_new :
    {A : Type 0} (k : Text) (a : A) (m : List (Text × A)) (order : List Text)
    → Unique m
    → lookup k m ≡ none
    → order ≡ sort_by text_lt (keys m)
    → sort_by text_lt (order ++ (k ∷ [])) ≡ sort_by text_lt (keys (insert k a m))
sort-keys-insert_new k a m order u absent listing =
    let same : Permᴰ order (keys m) =
      subst (λ o. Permᴰ o (keys m)) (sym listing) (sort_by-perm text_lt (keys m)) in
    let p : Permᴰ (order ++ (k ∷ [])) (keys (insert k a m)) =
      Permᴰ.trans (Permᴰ.append_comm order (k ∷ []))
        (Permᴰ.trans (Permᴰ.cons refl same) (Permᴰ.symm (keys-insert_new k a m absent))) in
    sort_by_of_perm text_lt text_lt-StrictWeak p
      (Distinct-perm text_lt (Permᴰ.symm p) (keys-Distinct (insert k a m) (insert-Unique k a m u)))
