-- ===== src/Activity/Tracker/Views.antt =====
-- What a snapshot lists.
use mathlib.Core.List.{Permᴰ}
use mathlib.Core.List.Permᴰ
use unibe_clan.Base.{
  ◌≡◌, ◌≢◌, refl, ◌⊎◌, inl, inr, Bool, true, false, ◌||◌, none, List, [], ◌∷◌, arith, All, All-keep,
  Bool-cases, keep, map, subst₂,
}
use unibe_clan.Base.Keys.{
  Text, ◌==◌, text_eq, text_beq_iff, text_lt_asym, text_lt_total, text_lt_neg_trans, text_lt_irrefl,
}
use unibe_clan.Base.Map.{lookup, Unique}
use unibe_clan.Base.Sort.{
  StrictWeak, IsSorted, Distinct, sort_by-perm, sort_by-IsSorted, sort_by_of_perm,
}
use unibe_clan.Activity.Chats.{Chat, ChatKey, key_eq, key_beq_iff, TrackedChat, Chats}
use unibe_clan.Activity.Tracker.{before, snapshot_chats}
use unibe_clan.Activity.Tracker.Valid.{ChatIsValid, ChatsAreValid, Valid}

before_asym : (a b : Chat) → before a b ≡ true → before b a ≡ false
unfolding before
before_asym a b h = ground (
  arith,
  text_beq_iff a.username b.username,
  text_beq_iff b.username a.username,
  text_lt_asym a.username b.username,
  text_lt_asym a.session_id b.session_id,
)

before_neg_trans : (a b c : Chat) → before a b ≡ false → before b c ≡ false → before a c ≡ false
unfolding before
before_neg_trans a b c h g = ground (
  arith,
  text_beq_iff a.username b.username,
  text_beq_iff b.username c.username,
  text_beq_iff a.username c.username,
  text_lt_irrefl a.username,
  text_lt_total a.username b.username,
  text_lt_total b.username c.username,
  text_lt_asym a.username b.username,
  text_lt_asym b.username c.username,
  text_lt_neg_trans a.username b.username c.username,
  text_lt_neg_trans a.session_id b.session_id c.session_id,
)

before-StrictWeak : StrictWeak before
before-StrictWeak = record { asym = before_asym; neg_trans = before_neg_trans }

keep-swap {ℓ} :
    {A : Type ℓ} (p : A → Bool) (a b : A) (l : List A)
    → Permᴰ (keep p (a ∷ b ∷ l)) (keep p (b ∷ a ∷ l))
unfolding keep
keep-swap p a b l = elim (Bool-cases (p a)) [
  | inl yes_a ↦ elim (Bool-cases (p b)) [
    | inl yes_b ↦ rw (yes_a, yes_b) (Permᴰ.swap refl refl)
    | inr no_b ↦ rw (yes_a, no_b) (Permᴰ.refl _)
  ]
  | inr no_a ↦ rw no_a (Permᴰ.refl _)
]

keep-perm {ℓ} :
    {A : Type ℓ} (p : A → Bool) {xs ys : List A} → Permᴰ xs ys → Permᴰ (keep p xs) (keep p ys)
unfolding keep
keep-perm p Permᴰ.nil = Permᴰ.nil
keep-perm p (Permᴰ.cons {a = a} {b = b} e q) = elim (Bool-cases (p a)) [
  | inl kept ↦ rw (kept, ← e, kept) (Permᴰ.cons refl (keep-perm p q))
  | inr gone ↦ rw (gone, ← e, gone) (keep-perm p q)
]
keep-perm p (Permᴰ.swap {a = a} {b = b} {l = l} e f) =
    subst₂ (λ x y. Permᴰ (keep p (a ∷ b ∷ l)) (keep p (x ∷ y ∷ l))) f e (keep-swap p a b l)
keep-perm p (Permᴰ.trans q r) = Permᴰ.trans (keep-perm p q) (keep-perm p r)

map-perm : {m n : Chats} → Permᴰ m n → Permᴰ (map (λ e. e.1.view) m) (map (λ e. e.1.view) n)
map-perm p = Permᴰ.map _ p

before_ordered :
    (k j : ChatKey) (t s : TrackedChat)
    → ChatIsValid k t
    → ChatIsValid j s
    → k ≢ j
    → (before t.view s.view ≡ true) ⊎ (before s.view t.view ≡ true)
unfolding before
before_ordered k j t s v w ne = ground (
  arith,
  v.named,
  w.named,
  ne,
  text_beq_iff t.view.username s.view.username,
  text_beq_iff s.view.username t.view.username,
  text_lt_total t.view.username s.view.username,
  text_lt_total t.view.session_id s.view.session_id,
)

others_ordered :
    (k : ChatKey) (t : TrackedChat) (m : Chats)
    → ChatIsValid k t
    → lookup k m ≡ none
    → All Valid m
    → All (λ y. (before t.view y ≡ true) ⊎ (before y t.view ≡ true)) (map (λ e. e.1.view) m)
unfolding lookup
others_ordered k t [] v absent h = tt
others_ordered k t ((j, s) ∷ m) v absent h = (
  before_ordered k j t s v h.0 (ground (arith, key_beq_iff j k)),
  others_ordered k t m v (ground arith) h.1,
)

views-Distinct : (m : Chats) → Unique m → All Valid m → Distinct before (map (λ e. e.1.view) m)
views-Distinct [] u h = tt
views-Distinct ((k, t) ∷ m) u h = (others_ordered k t m h.0 u.0 h.1, views-Distinct m u.1 h.1)

abbrev pub wanted : Text → Chat → Bool
wanted u chat = u == [] || chat.username == u

keep-Distinct :
    (u : Text) (xs : List Chat) → Distinct before xs → Distinct before (keep (wanted u) xs)
unfolding keep
keep-Distinct u [] d = tt
keep-Distinct u (x ∷ xs) d = elim (Bool-cases (wanted u x)) [
  | inl kept ↦ rw kept (All-keep _ (wanted u) xs d.0, keep-Distinct u xs d.1)
  | inr gone ↦ rw gone (keep-Distinct u xs d.1)
]

-- A snapshot lists the chats of the user that it is asked for (of all users, for the empty name),
-- each once, sorted by user and session; and the order of the map does not show in it.
pub snapshot_chats_lem :
    (u : Text) {m n : Chats}
    → ChatsAreValid m
    → Permᴰ m n
    → IsSorted before (snapshot_chats u m)
      × Permᴰ (snapshot_chats u m) (keep (wanted u) (map (λ e. e.1.view) m))
      × (snapshot_chats u m ≡ snapshot_chats u n)
unfolding snapshot_chats
snapshot_chats_lem u {m} {n} v p = (
  sort_by-IsSorted before before-StrictWeak _,
  sort_by-perm before _,
  sort_by_of_perm before before-StrictWeak (keep-perm (wanted u) (map-perm p))
      (keep-Distinct u _ (views-Distinct m v.unique v.each)),
)
