-- ===== src/History/Open/Written.antt =====
-- The states that a tracker writes, by key.
use unibe_clan.Base.{
  ◌≡◌, refl, ◌∙◌, Bool, true, false, ◌||◌, none, some, List, [], ◌∷◌, arith, All, if◌then◌else◌,
  ◌⊎◌,
}
use mathlib.Core.List.{Permᴰ}
use unibe_clan.Base.Keys.{Text, text_beq, text_beq_iff, text_eq, text_lt, text_lt_irrefl}
use unibe_clan.Base.Map.{has, lookup, lookup-insert}
use unibe_clan.Base.Sort.{Distinct}
use unibe_clan.History.Adjustments.{StoredAdjustment}
use unibe_clan.History.Events.{DiskAccount}
use unibe_clan.History.Tracker.Keys.{keys-insert_new}
use unibe_clan.History.Tracker.{
  account_of, adjustments_of, keys, ordered_accounts, ordered_adjustments,
}

-- Whether a key stands in a list.
unfoldable pub listed : Text → List Text → Bool
listed key [] = false
listed key (k ∷ ks) = text_beq k key || listed key ks

pub lookup-ordered_accounts :
    (key : Text) (ks : List Text) (m : List (Text × DiskAccount))
    → lookup key (ordered_accounts ks m) ≡ (if listed key ks then some (account_of key m) else none)
unfolding ordered_accounts listed lookup
lookup-ordered_accounts key [] m = refl
lookup-ordered_accounts key (k ∷ ks) m = ground (
  arith,
  text_beq_iff k key,
  lookup-ordered_accounts key ks m,
  lookup-insert k key (account_of k m) (ordered_accounts ks m),
)

pub lookup-ordered_adjustments :
    (key : Text) (ks : List Text) (m : List (Text × List StoredAdjustment))
    → lookup key (ordered_adjustments ks m)
      ≡ (if listed key ks then some (adjustments_of key m) else none)
unfolding ordered_adjustments listed lookup
lookup-ordered_adjustments key [] m = refl
lookup-ordered_adjustments key (k ∷ ks) m = ground (
  arith,
  text_beq_iff k key,
  lookup-ordered_adjustments key ks m,
  lookup-insert k key (adjustments_of k m) (ordered_adjustments ks m),
)

pub listed-perm : {xs ys : List Text} (p : Permᴰ xs ys) (key : Text) → listed key xs ≡ listed key ys
unfolding listed
listed-perm Permᴰ.nil key = refl
listed-perm (Permᴰ.cons e p) key = rw e (ground (arith, listed-perm p key))
listed-perm (Permᴰ.swap e f) key = rw (e, f) (ground arith)
listed-perm (Permᴰ.trans p q) key = listed-perm p key ∙ listed-perm q key

pub listed-keys : {A : Type 0} (key : Text) (m : List (Text × A)) → listed key (keys m) ≡ has key m
unfolding listed keys lookup
listed-keys key [] = refl
listed-keys key ((k, a) ∷ m) = ground (arith, listed-keys key m)

distinct-unlisted :
    (k : Text) (ks : List Text)
    → All (λ j. (text_lt k j ≡ true) ⊎ (text_lt j k ≡ true)) ks
    → listed k ks ≡ false
unfolding listed
distinct-unlisted k [] d = refl
distinct-unlisted k (j ∷ ks) d =
    ground (arith, text_beq_iff j k, text_lt_irrefl k, distinct-unlisted k ks d.1, d.0)

pub keys-ordered_accounts :
    (ks : List Text) (m : List (Text × DiskAccount))
    → Distinct text_lt ks
    → Permᴰ (keys (ordered_accounts ks m)) ks
unfolding ordered_accounts keys
keys-ordered_accounts [] m d = Permᴰ.nil
keys-ordered_accounts (k ∷ ks) m d =
    Permᴰ.trans
      (keys-insert_new k (account_of k m) (ordered_accounts ks m)
        (ground (arith, lookup-ordered_accounts k ks m, distinct-unlisted k ks d.0)))
      (Permᴰ.cons refl (keys-ordered_accounts ks m d.1))
