-- ===== src/Activity/Chats/Oldest.antt =====
-- What `oldestLocked` returns: the least of the chats that it looks at, whatever the order of the
-- map.
use mathlib.Core.List.{Permᴰ}
use unibe_clan.Base.{
  ◌≡◌, refl, ap, sym, ◌∙◌, ◌⊎◌, inl, inr, true, false, none, some, [], ◌∷◌, arith, All, Bool-cases,
  Option-cases, subst,
}
use unibe_clan.Base.Keys.{Text}
use unibe_clan.Base.Map.{lookup, Unique, lookup-perm, All-lookup}
use unibe_clan.Activity.Chats.{
  Chat, ChatKey, key_eq, key_beq_iff, TrackedChat, Chats, concerns, chat_older, oldest_from,
  oldest_key,
}
use unibe_clan.Activity.Chats.Order.{chat_older_asym, chat_older_total, chat_older_neg_trans}

-- A chat stands in the map.
abbrev pub Holds : ChatKey → Chat → Chats → Type 0
Holds k c [] = ⊥
Holds k c ((j, t) ∷ m) = ((j ≡ k) × (t.view ≡ c)) ⊎ Holds k c m

-- No chat that `oldestLocked` looks at is older.
abbrev pub Least : Text → ChatKey → Chat → Chats → Type 0
Least u k c = All (λ e. concerns u e.0 ≡ true → chat_older e.1.view e.0 c k ≡ false)

-- What the loop ends with, from an accumulator.
record Best (u : Text) (m : Chats) (j : ChatKey) (a : Chat) : Type 0 where
  key : ChatKey
  chat : Chat
  result : oldest_from u m (some (j, a)) ≡ some (key, chat)
  not_before : chat_older a j chat key ≡ false
  least : Least u key chat m
  source : ((key ≡ j) × (chat ≡ a)) ⊎ (Holds key chat m × (concerns u key ≡ true))

chat_older_self : (c : Chat) (k : ChatKey) → chat_older c k c k ≡ false
chat_older_self c k = elim (Bool-cases (chat_older c k c k)) [
  | inl yes_older ↦ chat_older_asym c k c k yes_older
  | inr not_older ↦ not_older
]

best : (u : Text) (m : Chats) (j : ChatKey) (a : Chat) → Best u m j a
unfolding oldest_from
best u [] j a = record {
  key = j;
  chat = a;
  result = refl;
  not_before = chat_older_self a j;
  least = tt;
  source = inl (refl, refl);
}
best u ((k, t) ∷ m) j a = elim (Bool-cases (concerns u k)) [
  | inr other ↦
      let b = best u m j a in
      record {
        key = b.key;
        chat = b.chat;
        result = rw other b.result;
        not_before = b.not_before;
        least = (λ h. cc, b.least);
        source = elim (b.source) [ inl e ↦ inl e | inr (h, c) ↦ inr (inr h, c) ];
      }
  | inl mine ↦ elim (Bool-cases (chat_older t.view k a j)) [
    | inl older ↦
        let b = best u m k (t.view) in
        record {
          key = b.key;
          chat = b.chat;
          result = rw (mine, older) b.result;
          not_before =
              chat_older_neg_trans a j t.view k b.chat b.key (chat_older_asym t.view k a j older)
                b.not_before;
          least = (λ h. b.not_before, b.least);
          source = elim (b.source) [
            | inl (e, f) ↦ inr (inl (sym e, sym f), rw e mine)
            | inr (h, c) ↦ inr (inr h, c)
          ];
        }
    | inr newer ↦
        let b = best u m j a in
        record {
          key = b.key;
          chat = b.chat;
          result = rw (mine, newer) b.result;
          not_before = b.not_before;
          least = (λ h. chat_older_neg_trans t.view k a j b.chat b.key newer b.not_before, b.least);
          source = elim (b.source) [ inl e ↦ inl e | inr (h, c) ↦ inr (inr h, c) ];
        }
  ]
]

-- What the loop finds: nothing where it looks at no chat, and the least one otherwise.
abbrev Finds : Text → Chats → Type 0
Finds u m =
    ((oldest_from u m none ≡ none) × All (λ e. concerns u e.0 ≡ false) m)
    ⊎ ((k : ChatKey) × (c : Chat) × (oldest_from u m none ≡ some (k, c))
        × Holds k c m
        × (concerns u k ≡ true)
        × Least u k c m)

oldest_from-Finds : (u : Text) (m : Chats) → Finds u m
unfolding oldest_from
oldest_from-Finds u [] = inl (refl, tt)
oldest_from-Finds u ((k, t) ∷ m) = elim (Bool-cases (concerns u k)) [
  | inr other ↦ elim (oldest_from-Finds u m) [
    | inl (e, h) ↦ inl (rw other e, (other, h))
    | inr (j, c, e, h, mine, l) ↦ inr (j, c, rw other e, inr h, mine, ((λ p. cc), l))
  ]
  | inl mine ↦
      let b = best u m k (t.view) in
      inr (
        b.key,
        b.chat,
        rw mine (b.result),
        elim (b.source) [ inl (e, f) ↦ inl (sym e, sym f) | inr (h, c) ↦ inr h ],
        elim (b.source) [ inl (e, f) ↦ rw e mine | inr (h, c) ↦ c ],
        ((λ h. b.not_before), b.least),
      )
]

Holds-lookup :
    (k : ChatKey) (c : Chat) (m : Chats)
    → Unique m
    → Holds k c m
    → (t : TrackedChat) × (lookup k m ≡ some t) × (t.view ≡ c)
unfolding lookup
Holds-lookup k c [] u h = absurd h
Holds-lookup k c ((j, t) ∷ m) u (inl (e, f)) = (t, ground (arith, key_beq_iff j k), f)
Holds-lookup k c ((j, t) ∷ m) u (inr h) =
    let (s, found, same) = Holds-lookup k c m u.1 h in (s, ground (arith, key_beq_iff j k), same)

-- The chat that `oldestLocked` returns stands in the map, belongs to the user that was asked for
-- (to anyone, for the empty name), and no other such chat is older.
pub record IsOldest (u : Text) (m : Chats) (k : ChatKey) : Type 0 where
  pub chat : TrackedChat
  pub found : lookup k m ≡ some chat
  pub mine : concerns u k ≡ true
  pub least :
      (j : ChatKey) (s : TrackedChat)
      → lookup j m ≡ some s
      → concerns u j ≡ true
      → chat_older s.view j chat.view k ≡ false

pub oldest_key-IsOldest :
    (u : Text) (m : Chats) (k : ChatKey) → Unique m → oldest_key u m ≡ some k → IsOldest u m k
unfolding oldest_key
oldest_key-IsOldest u m k v h = elim (oldest_from-Finds u m) [
  | inl (e, _) ↦ ground arith
  | inr (j, c, e, held, mine, least) ↦
      let (t, found, same) = Holds-lookup j c m v held in
      let named : j ≡ k = ground arith in
      subst (IsOldest u m) named (record {
        chat = t;
        found = found;
        mine = mine;
        least = λ i s hit asked. rw same (All-lookup _ i s m least hit asked);
      })
]

pub oldest_key-none-All :
    (u : Text) (m : Chats) → oldest_key u m ≡ none → All (λ e. concerns u e.0 ≡ false) m
unfolding oldest_key
oldest_key-none-All u m h = elim (oldest_from-Finds u m) [
  | inl (_, all_other) ↦ all_other
  | inr (j, c, e, held, mine, least) ↦ absurd (ground arith)
]

-- Nothing is found only where no chat is of the user.
pub oldest_key-none :
    (u : Text) (m : Chats)
    → oldest_key u m ≡ none
    → (k : ChatKey) (t : TrackedChat) → lookup k m ≡ some t
    → concerns u k ≡ false
oldest_key-none u m h k t hit = All-lookup _ k t m (oldest_key-none-All u m h) hit

-- The choice does not depend on the order in which Go iterates over the map.
pub oldest_key-perm :
    (u : Text) {m n : Chats} → Permᴰ m n → Unique m → oldest_key u m ≡ oldest_key u n
oldest_key-perm u {m} {n} p v =
    let (w, same) = lookup-perm p v in
    elim (Option-cases (oldest_key u m)) [
      | inl none_m ↦ elim (Option-cases (oldest_key u n)) [
        | inl none_n ↦ none_m ∙ sym none_n
        | inr (k, some_n) ↦
            let o = oldest_key-IsOldest u n k w some_n in
            let other = oldest_key-none u m none_m k (o.chat) (same k ∙ o.found) in
            let mine = o.mine in cc
      ]
      | inr (j, some_m) ↦
          let o = oldest_key-IsOldest u m j v some_m in
          elim (Option-cases (oldest_key u n)) [
            | inl none_n ↦
                let other = oldest_key-none u n none_n j (o.chat) (sym (same j) ∙ o.found) in
                let mine = o.mine in cc
            | inr (k, some_n) ↦
                let q = oldest_key-IsOldest u n k w some_n in
                some_m
                ∙ (ap some (
                      chat_older_total o.chat.view j q.chat.view k
                        (q.least j (o.chat) (sym (same j) ∙ o.found) (o.mine))
                        (o.least k (q.chat) (same k ∙ q.found) (q.mine)))
                    ∙ sym some_n)
          ]
    ]
