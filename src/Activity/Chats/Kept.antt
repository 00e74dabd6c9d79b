-- ===== src/Activity/Chats/Kept.antt =====
-- What an eviction leaves of a map of chats.
use unibe_clan.Base.{
  ◌≤◌, ◌<◌, ◌≡◌, refl, ◌∙◌, inl, inr, true, false, some, [], ◌∷◌, arith, Option-cases, length,
}
use unibe_clan.Base.Keys.{Text, text_beq_iff}
use unibe_clan.Base.Map.{lookup, delete, Unique, delete-Unique, lookup-delete, length-delete-le}
use unibe_clan.Activity.Chats.{
  ChatKey, key_eq, key_beq_iff, TrackedChat, Chats, concerns, oldest_key, count_user, drop_oldest,
}
use unibe_clan.Activity.Chats.Oldest.{oldest_key-IsOldest}

pub count_user-le-length : (u : Text) (m : Chats) → count_user u m ≤ length m
unfolding count_user
count_user-le-length u [] = omega arith
count_user-le-length u ((k, t) ∷ m) = ground (arith, count_user-le-length u m)

pub count_user-delete-le :
    (u : Text) (k : ChatKey) (m : Chats) → count_user u (delete k m) ≤ count_user u m
unfolding count_user delete
count_user-delete-le u k [] = omega arith
count_user-delete-le u k ((j, t) ∷ m) = ground (arith, count_user-delete-le u k m)

pub count_user-delete :
    (u : Text) (k : ChatKey) (t : TrackedChat) (m : Chats)
    → k.username ≡ u
    → lookup k m ≡ some t
    → count_user u (delete k m) < count_user u m
unfolding count_user delete lookup
count_user-delete u k t [] e h = cc
count_user-delete u k t ((j, s) ∷ m) e h = ground (
  arith,
  key_beq_iff j k,
  text_beq_iff j.username u,
  count_user-delete-le u k m,
  count_user-delete u k t m e,
)

-- The part of a map that an eviction for user `u` leaves.
pub record Kept (u : Text) (before after : Chats) : Type 0 where
  pub unique : Unique after
  pub smaller : length after ≤ length before
  pub fewer : (v : Text) → count_user v after ≤ count_user v before
  pub inside : (k : ChatKey) (t : TrackedChat) → lookup k after ≡ some t → lookup k before ≡ some t
  pub others : (k : ChatKey) → concerns u k ≡ false → lookup k after ≡ lookup k before

pub Kept-refl : (u : Text) (m : Chats) → Unique m → Kept u m m
Kept-refl u m v = record {
  unique = v;
  smaller = omega arith;
  fewer = λ w. omega arith;
  inside = λ k t h. h;
  others = λ k h. refl;
}

pub Kept-trans : (u : Text) (l m n : Chats) → Kept u l m → Kept u m n → Kept u l n
Kept-trans u l m n p q = record {
  unique = q.unique;
  smaller = omega (arith, p.smaller, q.smaller);
  fewer = λ w. omega (arith, p.fewer w, q.fewer w);
  inside = λ k t h. p.inside k t (q.inside k t h);
  others = λ k h. q.others k h ∙ p.others k h;
}

delete-Kept :
    (u : Text) (j : ChatKey) (m : Chats) → Unique m → concerns u j ≡ true → Kept u m (delete j m)
delete-Kept u j m v c = record {
  unique = delete-Unique j m v;
  smaller = length-delete-le j m;
  fewer = λ w. count_user-delete-le w j m;
  inside = λ k t h. ground (arith, lookup-delete j k m);
  others = λ k h. ground (arith, lookup-delete j k m, key_beq_iff j k);
}

pub drop_oldest-Kept : (u : Text) (m : Chats) → Unique m → Kept u m (drop_oldest u m)
unfolding drop_oldest
drop_oldest-Kept u m v = elim (Option-cases (oldest_key u m)) [
  | inl nothing ↦ rw (nothing, drop_oldest) (Kept-refl u m v)
  | inr (k, found) ↦
      rw (found, drop_oldest) (delete-Kept u k m v (oldest_key-IsOldest u m k v found).mine)
]
