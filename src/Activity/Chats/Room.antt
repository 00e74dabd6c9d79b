-- ===== src/Activity/Chats/Room.antt =====
-- `makeRoomLocked`: its loops end, and make room by deleting chats, one user's before another's.
use unibe_clan.Base.{
  ℕ, zero, suc, ◌≤◌, ◌<◌, ◌≡◌, ◌≢◌, refl, inl, inr, false, [], ◌∷◌, arith, Option-cases, length,
  All, ◌⊎◌,
}
use unibe_clan.Base.Keys.{Text, text_beq_iff}
use unibe_clan.Base.Map.{lookup, Unique, length-delete}
use unibe_clan.Activity.Chats.{
  ChatKey, key_eq, Chats, concerns, oldest_key, count_user, drop_oldest, evict_user, evict_any,
  make_room, max_active_chats_per_user, max_active_chats,
}
use unibe_clan.Activity.Chats.Oldest.{oldest_key-IsOldest, oldest_key-none-All}
use unibe_clan.Activity.Chats.Kept.{
  Kept, Kept-refl, Kept-trans, drop_oldest-Kept, count_user-le-length,
}

count_user_none : (u : Text) (m : Chats) → All (λ e. concerns u e.0 ≡ false) m → count_user u m ≡ 0
unfolding count_user
count_user_none u [] h = refl
count_user_none u ((k, t) ∷ m) h = ground (arith, count_user_none u m h.1, h.0)

-- A round of the first loop deletes a chat of the user.
drop_oldest_fewer :
    (u : Text) (m : Chats) → Unique m → 0 < count_user u m → length (drop_oldest u m) < length m
unfolding drop_oldest
drop_oldest_fewer u m v h = elim (Option-cases (oldest_key u m)) [
  | inl nothing ↦ absurd (omega (arith, count_user_none u m (oldest_key-none-All u m nothing)))
  | inr (k, found) ↦
      let o = oldest_key-IsOldest u m k v found in
      rw (found, drop_oldest) (length-delete k (o.chat) m (o.found))
]

-- A round of the second loop deletes a chat.
drop_oldest_any : (m : Chats) → Unique m → 0 < length m → length (drop_oldest [] m) < length m
unfolding drop_oldest
drop_oldest_any [] v h = absurd (omega arith)
drop_oldest_any ((j, t) ∷ m) v h = elim (Option-cases (oldest_key [] ((j, t) ∷ m))) [
  | inl nothing ↦
      absurd (ground (arith, oldest_key-none-All [] ((j, t) ∷ m) nothing, text_beq_iff [] []))
  | inr (k, found) ↦
      let o = oldest_key-IsOldest [] ((j, t) ∷ m) k v found in
      rw (found, drop_oldest) (length-delete k (o.chat) ((j, t) ∷ m) (o.found))
]

evict_user_cases :
    (fuel : ℕ) (u : Text) (m : Chats)
    → ((max_active_chats_per_user ≤ count_user u m)
        × (evict_user (suc fuel) u m ≡ evict_user fuel u (drop_oldest u m)))
      ⊎ ((count_user u m < max_active_chats_per_user) × (evict_user (suc fuel) u m ≡ m))
unfolding evict_user
evict_user_cases fuel u m = ground arith

evict_any_cases :
    (fuel : ℕ) (m : Chats)
    → ((max_active_chats ≤ length m) × (evict_any (suc fuel) m ≡ evict_any fuel (drop_oldest [] m)))
      ⊎ ((length m < max_active_chats) × (evict_any (suc fuel) m ≡ m))
unfolding evict_any
evict_any_cases fuel m = ground arith

evict_user-Kept : (fuel : ℕ) (u : Text) (m : Chats) → Unique m → Kept u m (evict_user fuel u m)
unfolding evict_user
evict_user-Kept zero u m v = Kept-refl u m v
evict_user-Kept (suc fuel) u m v = elim (evict_user_cases fuel u m) [
  | inl (full, step) ↦
      let once = drop_oldest-Kept u m v in
      rw step (Kept-trans u _ _ _ once (evict_user-Kept fuel u (drop_oldest u m) (once.unique)))
  | inr (space, stop) ↦ rw stop (Kept-refl u m v)
]

evict_any-Kept : (fuel : ℕ) (m : Chats) → Unique m → Kept [] m (evict_any fuel m)
unfolding evict_any
evict_any-Kept zero m v = Kept-refl [] m v
evict_any-Kept (suc fuel) m v = elim (evict_any_cases fuel m) [
  | inl (full, step) ↦
      let once = drop_oldest-Kept [] m v in
      rw step (Kept-trans [] _ _ _ once (evict_any-Kept fuel (drop_oldest [] m) (once.unique)))
  | inr (space, stop) ↦ rw stop (Kept-refl [] m v)
]

-- With a round for each chat the loops end by their tests.
evict_user_done :
    (fuel : ℕ) (u : Text) (m : Chats)
    → Unique m
    → length m ≤ fuel
    → count_user u (evict_user fuel u m) < max_active_chats_per_user
unfolding evict_user
evict_user_done zero u m v h = omega (arith, count_user-le-length u m)
evict_user_done (suc fuel) u m v h = elim (evict_user_cases fuel u m) [
  | inl (full, step) ↦ rw step (
      evict_user_done fuel u (drop_oldest u m) (drop_oldest-Kept u m v).unique
        (omega (arith, drop_oldest_fewer u m v (omega arith))))
  | inr (space, stop) ↦ rw stop space
]

evict_any_done :
    (fuel : ℕ) (m : Chats)
    → Unique m
    → length m ≤ fuel
    → length (evict_any fuel m) < max_active_chats
unfolding evict_any
evict_any_done zero m v h = omega arith
evict_any_done (suc fuel) m v h = elim (evict_any_cases fuel m) [
  | inl (full, step) ↦ rw step (
      evict_any_done fuel (drop_oldest [] m) (drop_oldest-Kept [] m v).unique
        (omega (arith, drop_oldest_any m v (omega arith))))
  | inr (space, stop) ↦ rw stop space
]

evict_user_idle :
    (fuel : ℕ) (u : Text) (m : Chats)
    → count_user u m < max_active_chats_per_user
    → evict_user fuel u m ≡ m
unfolding evict_user
evict_user_idle zero u m h = refl
evict_user_idle (suc fuel) u m h = ground arith

evict_any_idle : (fuel : ℕ) (m : Chats) → length m < max_active_chats → evict_any fuel m ≡ m
unfolding evict_any
evict_any_idle zero m h = refl
evict_any_idle (suc fuel) m h = ground arith

-- What `makeRoomLocked` promises its caller.
pub record MadeRoom (u : Text) (before after : Chats) : Type 0 where
  pub kept : Kept [] before after
  pub user_room : count_user u after < max_active_chats_per_user
  pub total_room : length after < max_active_chats
  pub other_users :
      length before < max_active_chats
      → (k : ChatKey) → k.username ≢ u
      → lookup k after ≡ lookup k before
  pub idle :
      count_user u before < max_active_chats_per_user
      → length before < max_active_chats
      → after ≡ before

Kept-any : (u : Text) (m n : Chats) → Kept u m n → Kept [] m n
Kept-any u m n k = record {
  unique = k.unique;
  smaller = k.smaller;
  fewer = k.fewer;
  inside = k.inside;
  others = λ j h. absurd (ground (arith, text_beq_iff [] []));
}

-- `makeRoomLocked` ends with room for one more chat of the user and in all. It adds and changes no
-- chat; below the global bound it deletes none of another user, and where there is room already
-- it deletes none at all.
pub make_room-MadeRoom : (u : Text) (m : Chats) → Unique m → u ≢ [] → MadeRoom u m (make_room u m)
unfolding make_room
make_room-MadeRoom u m v named = record {
  kept = both;
  user_room = ground (arith, second.fewer u, evict_user_done (length m) u m v);
  total_room = evict_any_done (length mid) mid (first.unique) (omega arith);
  other_users = λ h k other.
      rw (evict_any_idle (length mid) mid (omega (arith, first.smaller)))
        (first.others k (ground (arith, text_beq_iff u [], text_beq_iff k.username u)));
  idle = λ h g. rw (evict_user_idle (length m) u m h) (evict_any_idle (length m) m g);
}
  where
    mid : Chats
    mid = evict_user (length m) u m

    first : Kept u m mid
    first = evict_user-Kept (length m) u m v

    second : Kept [] mid (evict_any (length mid) mid)
    second = evict_any-Kept (length mid) mid (first.unique)

    both : Kept [] m (evict_any (length mid) mid)
    both = Kept-trans [] m mid _ (Kept-any u m mid first) second
