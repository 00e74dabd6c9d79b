-- ===== src/Activity/Leases/Expiry.antt =====
-- What `pruneLocked` keeps of a map, key by key.
use unibe_clan.Base.{
  ℕ, ◌≤◌, ◌≡◌, refl, ◌⊎◌, inl, inr, true, false, Option, none, some, [], ◌∷◌, arith, All, length,
  if◌then◌else◌,
}
use unibe_clan.Base.Keys.{Text, text_eq}
use unibe_clan.Base.Map.{lookup, Unique}
use unibe_clan.Base.Time.{Time}
use unibe_clan.Activity.Chats.{ChatKey, key_eq, key_beq_iff, TrackedChat, Chats, count_user}
use unibe_clan.Activity.Leases.{prune_chat, is_expired, prune}

-- What is left of a chat.
abbrev pub survivor : ℕ → Time → TrackedChat → Option TrackedChat
survivor expires now t =
    let t' = prune_chat expires now t in if is_expired expires now t' then none else some t'

abbrev pub Option_bind {ℓ κ} : {A : Type ℓ} {B : Type κ} → Option A → (A → Option B) → Option B
Option_bind none f = none
Option_bind (some a) f = f a

module _ (expires : ℕ) (now : Time) where
  prune-cons :
      (k : ChatKey) (t : TrackedChat) (m : Chats)
      → ((is_expired expires now (prune_chat expires now t) ≡ true)
          × ((prune expires now ((k, t) ∷ m)).0 ≡ (prune expires now m).0))
        ⊎ ((is_expired expires now (prune_chat expires now t) ≡ false)
            × ((prune expires now ((k, t) ∷ m)).0
                ≡ (k, prune_chat expires now t) ∷ (prune expires now m).0))
  unfolding prune
  prune-cons k t m = ground arith

  pub length-prune-le : (m : Chats) → length (prune expires now m).0 ≤ length m
  unfolding prune
  length-prune-le [] = omega arith
  length-prune-le ((k, t) ∷ m) = ground (arith, length-prune-le m)

  pub count_user-prune-le :
      (u : Text) (m : Chats) → count_user u (prune expires now m).0 ≤ count_user u m
  unfolding count_user prune
  count_user-prune-le u [] = omega arith
  count_user-prune-le u ((k, t) ∷ m) = elim (prune-cons k t m) [
    | inl (e, step) ↦ rw step (ground (arith, count_user-prune-le u m))
    | inr (e, step) ↦ rw step (ground (arith, count_user-prune-le u m))
  ]

  lookup-prune_absent :
      (k : ChatKey) (m : Chats) → lookup k m ≡ none → lookup k (prune expires now m).0 ≡ none
  unfolding lookup prune
  lookup-prune_absent k [] h = refl
  lookup-prune_absent k ((j, t) ∷ m) h = ground (arith, lookup-prune_absent k m)

  -- Each chat is pruned by itself: what is then under a key depends on what was under it.
  pub lookup-prune :
      (k : ChatKey) (m : Chats)
      → Unique m
      → lookup k (prune expires now m).0 ≡ Option_bind (lookup k m) (survivor expires now)
  unfolding lookup prune
  lookup-prune k [] v = refl
  lookup-prune k ((j, t) ∷ m) v =
      ground (arith, lookup-prune k m v.1, lookup-prune_absent j m v.0, key_beq_iff j k)

  pub prune-Unique : (m : Chats) → Unique m → Unique (prune expires now m).0
  unfolding prune
  prune-Unique [] v = tt
  prune-Unique ((k, t) ∷ m) v = elim (prune-cons k t m) [
    | inl (e, step) ↦ rw step (prune-Unique m v.1)
    | inr (e, step) ↦ rw step (lookup-prune_absent k m v.0, prune-Unique m v.1)
  ]

  pub prune-All {κ} :
      (P : ChatKey × TrackedChat → Type κ)
      → ((k : ChatKey) (t : TrackedChat) → P (k, t) → P (k, prune_chat expires now t))
      → (m : Chats) → All P m
      → All P (prune expires now m).0
  unfolding prune
  prune-All P f [] h = tt
  prune-All P f ((k, t) ∷ m) h = elim (prune-cons k t m) [
    | inl (e, step) ↦ rw step (prune-All P f m h.1)
    | inr (e, step) ↦ rw step (f k t h.0, prune-All P f m h.1)
  ]
