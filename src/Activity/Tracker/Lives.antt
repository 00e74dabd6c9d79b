-- ===== src/Activity/Tracker/Lives.antt =====
-- What pruning leaves of each chat, told by the leases and times themselves.
use unibe_clan.Base.{
  ℕ, ◌+◌, ◌<◌, ◌≡◌, ◌≢◌, ◌↔◌, refl, ◌⊎◌, inl, inr, true, Option, none, some, List, [], ◌∷◌, arith,
  length, ltb, Bool-cases, Option-cases,
}
use unibe_clan.Base.Keys.{Text, text_eq, nat_eq, text_beq_iff}
use unibe_clan.Base.Map.{lookup, Unique, All-lookup, lookup-keep}
use unibe_clan.Base.Time.{Time}
use unibe_clan.Activity.Chats.{ChatKey, key_eq, TrackedChat, Chats}
use unibe_clan.Activity.Leases.{prune_turns, prune_chat, is_expired, has_lease, prune}
use unibe_clan.Activity.Leases.Expiry.{survivor, lookup-prune}
use unibe_clan.Activity.Tracker.Valid.{Valid, ChatsAreValid}

-- A time whose lease is not over: it runs for the expiry.
abbrev pub IsLive : ℕ → Time → Time → Type 0
IsLive expires now at = now < at + expires

-- A running turn, or the turns beyond the bound, hold a lease that is not over.
abbrev pub HoldsLease : ℕ → Time → TrackedChat → Type 0
HoldsLease expires now t =
    ((id : Text) × (at : Time) × (lookup id t.running_turns ≡ some at) × IsLive expires now at)
    ⊎ ((t.overflow_updated_at ≢ 0) × IsLive expires now t.overflow_updated_at)

-- `r` is what is left of the chat `t`: the turns and the lease beyond the bound that are not over,
-- and nothing else of it changed; it runs exactly while it holds one.
pub record IsLeftOf (expires : ℕ) (now : Time) (t r : TrackedChat) : Type 0 where
  pub named : (r.view.username ≡ t.view.username) × (r.view.session_id ≡ t.view.session_id)
  pub times : (r.view.started_at ≡ t.view.started_at) × (r.view.updated_at ≡ t.view.updated_at)
  pub turns :
      (id : Text) (at : Time)
      → (lookup id r.running_turns ≡ some at)
        ↔ ((lookup id t.running_turns ≡ some at) × IsLive expires now at)
  pub overflow :
      (at : Time)
      → ((at ≢ 0) × (r.overflow_updated_at ≡ at))
        ↔ ((at ≢ 0) × (t.overflow_updated_at ≡ at) × IsLive expires now at)
  pub running : (r.view.running ≡ true) ↔ HoldsLease expires now t

-- What stands under a key before and after.
abbrev pub IsPruned : ℕ → Time → Option TrackedChat → Option TrackedChat → Type 0
IsPruned expires now none none = Unit
IsPruned expires now none (some r) = ⊥
IsPruned expires now (some t) none =
    (¬ HoldsLease expires now t) × (¬ IsLive expires now t.view.updated_at)
IsPruned expires now (some t) (some r) =
    (HoldsLease expires now t ⊎ IsLive expires now t.view.updated_at) × IsLeftOf expires now t r

first_entry {κ} :
    {V : Type κ} (m : List (Text × V))
    → (length m ≡ 0) ⊎ ((id : Text) × (v : V) × (lookup id m ≡ some v))
unfolding lookup
first_entry [] = inl refl
first_entry ((id, v) ∷ m) = inr (id, v, ground (arith, text_beq_iff id id))

lookup-length {κ} :
    {V : Type κ} (id : Text) (v : V) (m : List (Text × V)) → lookup id m ≡ some v → length m ≢ 0
unfolding lookup
lookup-length id v [] h = ground arith
lookup-length id v (e ∷ m) h = omega arith

module _ (expires : ℕ) (now : Time) (t : TrackedChat) (u : Unique t.running_turns) where
  turns_left :
      (id : Text) (at : Time)
      → (lookup id (prune_chat expires now t).running_turns ≡ some at)
        ↔ ((lookup id t.running_turns ≡ some at) × IsLive expires now at)
  unfolding prune_chat prune_turns
  turns_left id at =
      ground (arith, lookup-keep (λ turn. ltb now (turn.1 + expires)) id at t.running_turns u)

  overflow_left :
      (at : Time)
      → ((at ≢ 0) × ((prune_chat expires now t).overflow_updated_at ≡ at))
        ↔ ((at ≢ 0) × (t.overflow_updated_at ≡ at) × IsLive expires now at)
  unfolding prune_chat
  overflow_left at = ground arith

  leased : has_lease (prune_chat expires now t) ≡ true → HoldsLease expires now t
  leased h = elim (first_entry (prune_chat expires now t).running_turns) [
    | inr (id, at, found) ↦
        let (stood, live) = (turns_left id at).0 found in inl (id, at, stood, live)
    | inl no_turn ↦
        let kept = (prune_chat expires now t).overflow_updated_at in
        let (nonzero, stood, live) = (overflow_left kept).0 (ground arith, refl) in
        inr (ground arith, rw stood live)
  ]

  leases : HoldsLease expires now t → has_lease (prune_chat expires now t) ≡ true
  leases (inl (id, at, stood, live)) =
      ground (arith, lookup-length id at _ ((turns_left id at).1 (stood, live)))
  leases (inr (nonzero, live)) =
      ground (arith, (overflow_left t.overflow_updated_at).1 (nonzero, refl, live))

  coherent : (prune_chat expires now t).view.running ≡ has_lease (prune_chat expires now t)
  unfolding prune_chat
  coherent = refl

  left : IsLeftOf expires now t (prune_chat expires now t)
  unfolding prune_chat
  left = record {
    named = (refl, refl);
    times = (refl, refl);
    turns = turns_left;
    overflow = overflow_left;
    running = (λ h. leased (ground (arith, coherent)), λ h. ground (arith, coherent, leases h));
  }

  updated : (prune_chat expires now t).view.updated_at ≡ t.view.updated_at
  unfolding prune_chat
  updated = refl

  survivor-IsPruned : IsPruned expires now (some t) (survivor expires now t)
  unfolding is_expired
  survivor-IsPruned =
      let r = prune_chat expires now t in
      elim (Bool-cases (is_expired expires now r)) [
        | inl over ↦
            rw over (λ h. ground (arith, coherent, leases h), λ live. ground (arith, updated))
        | inr stays ↦ rw stays (elim (Bool-cases (has_lease r)) [
          | inl has ↦ (inl (leased has), left)
          | inr idle ↦ (inr (ground (arith, coherent, updated)), left)
        ])
      ]

-- Pruning the chats of a tracker, valid as they are, at a time leaves a chat exactly if one of its
-- running turns, or the turns beyond the bound, hold a lease that is not over, or its last update
-- is less than the expiry ago. What is left of it has just the turns and the lease beyond the bound
-- that are not over, is marked running exactly while it holds one, and keeps its names and its
-- times; no chat appears under another key.
pub prune-lives :
    (expires : ℕ) (now : Time) (m : Chats)
    → ChatsAreValid m
    → (k : ChatKey) → IsPruned expires now (lookup k m) (lookup k (prune expires now m).0)
prune-lives expires now m v k =
    rw (lookup-prune expires now k m v.unique) (elim (Option-cases (lookup k m)) [
      | inl absent ↦ rw absent tt
      | inr (t, found) ↦
          rw found
            (survivor-IsPruned expires now t (All-lookup Valid k t m v.each found).turns_unique)
    ])
