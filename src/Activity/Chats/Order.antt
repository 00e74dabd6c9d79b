-- ===== src/Activity/Chats/Order.antt =====
-- `chatOlder` is a strict total order of keyed chats, so the eviction is deterministic.
use unibe_clan.Base.{◌≡◌, true, false, arith}
use unibe_clan.Base.Keys.{
  text_beq_iff, text_lt_asym, text_lt_irrefl, text_lt_total, text_lt_neg_trans,
}
use unibe_clan.Activity.Chats.{Chat, ChatKey, chat_older}

module _ (a : Chat) (j : ChatKey) (b : Chat) (k : ChatKey) where
  pub chat_older_asym : chat_older a j b k ≡ true → chat_older b k a j ≡ false
  unfolding chat_older
  chat_older_asym h = ground (
    arith,
    text_beq_iff j.username k.username,
    text_beq_iff k.username j.username,
    text_beq_iff j.session_id k.session_id,
    text_beq_iff k.session_id j.session_id,
    text_lt_asym j.username k.username,
    text_lt_asym j.session_id k.session_id,
  )

  -- Chats that are not ordered either way have one key.
  pub chat_older_total : chat_older a j b k ≡ false → chat_older b k a j ≡ false → j ≡ k
  unfolding chat_older
  chat_older_total h g = ground (
    arith,
    text_beq_iff j.username k.username,
    text_beq_iff k.username j.username,
    text_beq_iff j.session_id k.session_id,
    text_beq_iff k.session_id j.session_id,
    text_lt_total j.username k.username,
    text_lt_total j.session_id k.session_id,
  )

pub chat_older_neg_trans :
    (a : Chat) (i : ChatKey) (b : Chat) (j : ChatKey) (c : Chat) (k : ChatKey)
    → chat_older a i b j ≡ false
    → chat_older b j c k ≡ false
    → chat_older a i c k ≡ false
unfolding chat_older
chat_older_neg_trans a i b j c k h g = ground (
  arith,
  text_beq_iff i.username j.username,
  text_beq_iff j.username k.username,
  text_beq_iff i.username k.username,
  text_beq_iff i.session_id j.session_id,
  text_beq_iff j.session_id k.session_id,
  text_beq_iff i.session_id k.session_id,
  text_lt_irrefl i.username,
  text_lt_irrefl i.session_id,
  text_lt_total i.username j.username,
  text_lt_total j.username k.username,
  text_lt_total i.session_id j.session_id,
  text_lt_total j.session_id k.session_id,
  text_lt_asym i.username j.username,
  text_lt_asym i.session_id j.session_id,
  text_lt_asym j.username k.username,
  text_lt_asym j.session_id k.session_id,
  text_lt_neg_trans i.username j.username k.username,
  text_lt_neg_trans i.session_id j.session_id k.session_id,
)
