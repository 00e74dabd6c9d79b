-- ===== src/Activity/Leases/Delay.antt =====
-- `nextExpiryDelay` against `pruneLocked`: the deadline is the first moment at which pruning changes
-- something.
use unibe_clan.Base.{
  ℕ, ◌+◌, ◌<◌, ◌≡◌, refl, ◌⊎◌, inl, Bool, true, false, not, ◌&&◌, ◌||◌, List, [], ◌∷◌, arith, All,
  all, keep, length, length-keep-le, ◌==◌ as nat_beq, if◌then◌else◌, ltb,
}
use unibe_clan.Base.Keys.{Text}
use unibe_clan.Base.Time.{Time, is_zero}
use unibe_clan.Activity.Chats.{Chats, TrackedChat}
use unibe_clan.Activity.Leases.{
  has_lease, prune_turns, prune_chat, prune_changes, is_expired, prune, earlier, next_turn,
  next_chat, next_expiry,
}

-- Whether a deadline is still to come; the zero time stands for none.
abbrev pub pending : Time → Time → Bool
pending now deadline = is_zero deadline || ltb now deadline

keep-all_or_fewer {ℓ} :
    {A : Type ℓ} (p : A → Bool) (xs : List A)
    → ((all p xs ≡ true) × (keep p xs ≡ xs))
      ⊎ ((all p xs ≡ false) × (length (keep p xs) < length xs))
unfolding all keep
keep-all_or_fewer p [] = inl (refl, refl)
keep-all_or_fewer p (x ∷ xs) = ground (arith, keep-all_or_fewer p xs, length-keep-le p xs)

module _ (expires : ℕ) (positive : 0 < expires) (now : Time) where
  pending-earlier :
      (next e : Time) → 0 < e → pending now (earlier next e) ≡ (pending now next && ltb now e)
  pending-earlier next e h = ground arith

  turn_live : Text × Time → Bool
  turn_live turn = ltb now (turn.1 + expires)

  pending-next_turn :
      (turns : List (Text × Time)) (next : Time)
      → pending now (next_turn expires turns next) ≡ (pending now next && all turn_live turns)
  unfolding next_turn all turn_live
  pending-next_turn [] next = ground arith
  pending-next_turn (turn ∷ turns) next = ground (
    arith,
    pending-next_turn turns (earlier next (turn.1 + expires)),
    pending-earlier next (turn.1 + expires),
  )

  -- Pruning leaves this chat as it is.
  chat_live : TrackedChat → Bool
  chat_live chat =
      if nat_beq (length chat.running_turns) 0 && is_zero chat.overflow_updated_at
      then ltb now (chat.view.updated_at + expires)
      else all turn_live chat.running_turns
        && (is_zero chat.overflow_updated_at || ltb now (chat.overflow_updated_at + expires))

  pending-next_chat :
      (t : TrackedChat) (next : Time)
      → pending now (next_chat expires t next) ≡ (pending now next && chat_live t)
  unfolding next_chat chat_live
  pending-next_chat t next = ground (
    arith,
    pending-next_turn t.running_turns next,
    pending-earlier next (t.view.updated_at + expires),
    pending-earlier (next_turn expires t.running_turns next) (t.overflow_updated_at + expires),
  )

  pending-next_expiry :
      (m : Chats) (next : Time)
      → pending now (next_expiry expires m next) ≡ (pending now next && all (λ e. chat_live e.1) m)
  unfolding next_expiry all
  pending-next_expiry [] next = ground arith
  pending-next_expiry ((k, t) ∷ m) next =
      ground (arith, pending-next_expiry m (next_chat expires t next), pending-next_chat t next)

  chat_live_iff :
      (t : TrackedChat)
      → (prune_changes expires now t || is_expired expires now (prune_chat expires now t))
        ≡ not (chat_live t)
  unfolding prune_changes is_expired prune_chat chat_live prune_turns turn_live
  chat_live_iff t = ground (arith, keep-all_or_fewer turn_live t.running_turns)

  prune_changed : (m : Chats) → (prune expires now m).1 ≡ not (all (λ e. chat_live e.1) m)
  unfolding prune all
  prune_changed [] = refl
  prune_changed ((k, t) ∷ m) = ground (arith, prune_changed m, chat_live_iff t)

  -- Pruning changes something exactly when the deadline has come.
  pub prune-next_expiry :
      (m : Chats) → (prune expires now m).1 ≡ not (pending now (next_expiry expires m 0))
  prune-next_expiry m = ground (arith, prune_changed m, pending-next_expiry m 0)

-- The flag of every chat says whether it holds a lease.
abbrev pub Coherent : Chats → Type 0
Coherent = All (λ e. e.1.view.running ≡ has_lease e.1)

prune_chat_same :
    (expires : ℕ) (now : Time) (t : TrackedChat)
    → t.view.running ≡ has_lease t
    → prune_changes expires now t ≡ false
    → prune_chat expires now t ≡ t
unfolding prune_chat prune_changes prune_turns
prune_chat_same expires now t c h =
    ground (arith, keep-all_or_fewer (λ turn. ltb now (turn.1 + expires)) t.running_turns)

-- Pruning that reports no change has left the map as it was.
pub prune_unchanged :
    (expires : ℕ) (now : Time) (m : Chats)
    → Coherent m
    → (prune expires now m).1 ≡ false
    → (prune expires now m).0 ≡ m
unfolding prune
prune_unchanged expires now [] c h = refl
prune_unchanged expires now ((k, t) ∷ m) c h =
    ground (arith, prune_unchanged expires now m c.1, prune_chat_same expires now t c.0)
