-- ===== src/Activity/Tracker/Valid.antt =====
-- The bounds and the coherence of a map of chats, and that pruning and writing back keep them.
use unibe_clan.Base.{
  ℕ, ◌+◌, ◌≤◌, ◌≡◌, refl, none, some, [], ◌∷◌, arith, All, length, length-keep-le, if◌then◌else◌,
  ltb,
}
use unibe_clan.Base.Keys.{Text, nat_eq, text_eq, text_beq}
use unibe_clan.Base.Map.{
  lookup, insert, replace, replace-insert, Unique, insert-Unique, All-insert, keep-Unique,
  length-insert_old,
}
use unibe_clan.Base.Time.{Time}
use unibe_clan.Activity.Chats.{
  ChatKey, key_eq, key_beq_iff, TrackedChat, Chats, count_user, max_active_chats,
  max_active_chats_per_user,
}
use unibe_clan.Activity.Leases.{
  has_lease, prune_turns, prune_chat, prune, max_running_turns_per_chat,
}
use unibe_clan.Activity.Leases.Expiry.{
  prune-Unique, prune-All, count_user-prune-le, length-prune-le,
}

-- A chat stands under its own key, has a bounded number of distinct running turns, and is marked
-- running exactly while it holds a lease.
pub record ChatIsValid (k : ChatKey) (t : TrackedChat) : Type 0 where
  pub named : (t.view.username ≡ k.username) × (t.view.session_id ≡ k.session_id)
  pub turns_unique : Unique t.running_turns
  pub turns_bounded : length t.running_turns ≤ max_running_turns_per_chat
  pub coherent : t.view.running ≡ has_lease t

abbrev pub Valid : ChatKey × TrackedChat → Type 0
Valid e = ChatIsValid e.0 e.1

pub record ChatsAreValid (m : Chats) : Type 0 where
  pub unique : Unique m
  pub each : All Valid m
  pub total : length m ≤ max_active_chats
  pub per_user : (u : Text) → count_user u m ≤ max_active_chats_per_user

count_user-insert_old :
    (u : Text) (k : ChatKey) (t s : TrackedChat) (m : Chats)
    → lookup k m ≡ some s
    → count_user u (insert k t m) ≡ count_user u m
unfolding count_user insert lookup
count_user-insert_old u k t s [] h = cc
count_user-insert_old u k t s ((j, r) ∷ m) h =
    ground (arith, key_beq_iff j k, count_user-insert_old u k t s m)

pub count_user-insert_new :
    (u : Text) (k : ChatKey) (t : TrackedChat) (m : Chats)
    → lookup k m ≡ none
    → count_user u (insert k t m)
      ≡ (if text_beq k.username u then count_user u m + 1 else count_user u m)
unfolding count_user insert lookup
count_user-insert_new u k t [] h = ground arith
count_user-insert_new u k t ((j, r) ∷ m) h =
    ground (arith, key_beq_iff j k, count_user-insert_new u k t m)

prune_chat-ChatIsValid :
    (expires : ℕ) (now : Time) (k : ChatKey) (t : TrackedChat)
    → ChatIsValid k t
    → ChatIsValid k (prune_chat expires now t)
unfolding prune_chat prune_turns
prune_chat-ChatIsValid expires now k t v = record {
  named = v.named;
  turns_unique = keep-Unique (λ turn. ltb now (turn.1 + expires)) t.running_turns v.turns_unique;
  turns_bounded =
      omega (
        arith,
        v.turns_bounded,
        length-keep-le (λ turn. ltb now (turn.1 + expires)) t.running_turns,
      );
  coherent = refl;
}

pub prune-ChatsAreValid :
    (expires : ℕ) (now : Time) (m : Chats) → ChatsAreValid m → ChatsAreValid (prune expires now m).0
prune-ChatsAreValid expires now m v = record {
  unique = prune-Unique expires now m v.unique;
  each = prune-All expires now Valid (prune_chat-ChatIsValid expires now) m v.each;
  total = omega (arith, v.total, length-prune-le expires now m);
  per_user = λ u. omega (arith, v.per_user u, count_user-prune-le expires now u m);
}

-- Writing a valid chat back under its key keeps the map valid.
pub replace-ChatsAreValid :
    (k : ChatKey) (t s : TrackedChat) (m : Chats)
    → lookup k m ≡ some s
    → ChatIsValid k t
    → ChatsAreValid m
    → ChatsAreValid (replace k t m)
replace-ChatsAreValid k t s m h c v = rw (replace-insert k t s m h) (record {
  unique = insert-Unique k t m v.unique;
  each = All-insert Valid k t m c v.each;
  total = omega (arith, v.total, length-insert_old k t s m h);
  per_user = λ u. omega (arith, v.per_user u, count_user-insert_old u k t s m h);
})
