-- ===== src/Base/Keys.antt =====
-- Decidable equality of keys, as a Boolean test with its meaning.
use Prim.Native.Nat.{ℕ}
use mathlib.Core.Path.{◌≡◌, refl}
use mathlib.Core.Logic.{◌↔◌}
use mathlib.Core.Bool.{Bool, true, false, ◌&&◌}
use mathlib.Core.List.{List, [], ◌∷◌}
use native.Mathlib.Omega.{arith}
use unibe_clan.Base.Tests.{ltb, ◌==◌ as nat_beq, ==_iff, if◌then◌else◌}

-- The keys of a Go map: what `==` answers on them, and that it means equality.
pub record Keyed {ℓ} (K : Type ℓ) : Type ℓ where
  pub same : K → K → Bool
  pub same_iff : (j k : K) → (same j k ≡ true) ↔ (j ≡ k)

infix 50 ◌==◌
abbrev pub ◌==◌ {ℓ} : {K : Type ℓ} ⦃keyed : Keyed K⦄ → K → K → Bool
◌==◌ ⦃keyed⦄ j k = keyed.same j k

instance abbrev pub nat_eq : Keyed ℕ
nat_eq = record { same = λ m n. nat_beq m n; same_iff = λ m n. ==_iff m n }

-- A Go string, as the list of its code points.
abbrev pub Text : Type 0
Text = List ℕ

unfoldable pub text_beq : Text → Text → Bool
text_beq [] [] = true
text_beq [] (b ∷ bs) = false
text_beq (a ∷ as_) [] = false
text_beq (a ∷ as_) (b ∷ bs) = nat_beq a b && text_beq as_ bs

pub text_beq_iff : (s t : Text) → (text_beq s t ≡ true) ↔ (s ≡ t)
unfolding text_beq
text_beq_iff [] [] = (λ _. refl, λ _. refl)
text_beq_iff [] (b ∷ bs) = ground arith
text_beq_iff (a ∷ as_) [] = ground arith
text_beq_iff (a ∷ as_) (b ∷ bs) = ground (arith, text_beq_iff as_ bs)

instance abbrev pub text_eq : Keyed Text
text_eq = record { same = text_beq; same_iff = text_beq_iff }

-- `s < t` on Go strings: the order of code points is that of the UTF-8 bytes.
unfoldable pub text_lt : Text → Text → Bool
text_lt s [] = false
text_lt [] (b ∷ bs) = true
text_lt (a ∷ as_) (b ∷ bs) =
    let rest = text_lt as_ bs in if ltb a b then true else if nat_beq a b then rest else false

pub text_lt_irrefl : (s : Text) → text_lt s s ≡ false
unfolding text_lt
text_lt_irrefl [] = refl
text_lt_irrefl (a ∷ as_) = ground (arith, text_lt_irrefl as_)

pub text_lt_trans : (s t u : Text) → text_lt s t ≡ true → text_lt t u ≡ true → text_lt s u ≡ true
unfolding text_lt
text_lt_trans s t [] p q = cc
text_lt_trans s [] (c ∷ cs) p q = ground arith
text_lt_trans [] (b ∷ bs) (c ∷ cs) p q = refl
text_lt_trans (a ∷ as_) (b ∷ bs) (c ∷ cs) p q = ground (arith, text_lt_trans as_ bs cs)

-- Two strings that are not ordered either way are one string.
pub text_lt_total : (s t : Text) → text_lt s t ≡ false → text_lt t s ≡ false → s ≡ t
unfolding text_lt
text_lt_total [] [] p q = refl
text_lt_total [] (b ∷ bs) p q = ground arith
text_lt_total (a ∷ as_) [] p q = ground arith
text_lt_total (a ∷ as_) (b ∷ bs) p q = ground (arith, text_lt_total as_ bs)

pub text_lt_asym : (s t : Text) → text_lt s t ≡ true → text_lt t s ≡ false
unfolding text_lt
text_lt_asym s [] p = cc
text_lt_asym [] (b ∷ bs) p = refl
text_lt_asym (a ∷ as_) (b ∷ bs) p = ground (arith, text_lt_asym as_ bs)

pub text_lt_neg_trans :
    (s t u : Text) → text_lt s t ≡ false → text_lt t u ≡ false → text_lt s u ≡ false
unfolding text_lt
text_lt_neg_trans s t [] p q = refl
text_lt_neg_trans s [] (c ∷ cs) p q = ground arith
text_lt_neg_trans [] (b ∷ bs) (c ∷ cs) p q = ground arith
text_lt_neg_trans (a ∷ as_) (b ∷ bs) (c ∷ cs) p q = ground (arith, text_lt_neg_trans as_ bs cs)
