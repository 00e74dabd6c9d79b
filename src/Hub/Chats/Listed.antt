-- ===== src/Hub/Chats/Listed.antt =====
-- The list of running chats: what it shows, and its order.
use unibe_clan.Base.{
  ℕ, ◌≡◌, inl, inr, Bool, true, false, not, some, List, [], ◌∷◌, map, keep, arith, All,
  if◌then◌else◌, Bool-cases,
}
use unibe_clan.Base.Keys.{
  Text, text_beq, text_beq_iff, text_eq, text_lt, text_lt_asym, text_lt_neg_trans, text_lt_total,
  text_lt_irrefl,
}
use unibe_clan.Base.Map.{lookup}
use unibe_clan.Base.Sort.{StrictWeak, IsSorted, sort_by-IsSorted, All-sort_by}
use unibe_clan.Base.Time.{Time}
use unibe_clan.Model.Status.{ActiveChat}
use unibe_clan.Hub.Entry.{ActivityRef, Entry, is_consumer}
use unibe_clan.Hub.Intake.Hidden.{RuntimeIsHidden}
use unibe_clan.Hub.Chats.{chat_before, projected_chats, active_chats}
use unibe_clan.Hub.Chats.Shown.{IsShown, project_users-IsShown, merge_activities-IsShown}

chat_before_asym : (a b : ActiveChat) → chat_before a b ≡ true → chat_before b a ≡ false
unfolding chat_before
chat_before_asym a b h = ground (
  arith,
  text_beq_iff a.username b.username,
  text_beq_iff b.username a.username,
  text_lt_asym a.username b.username,
  text_lt_asym a.task_name b.task_name,
)

-- The comparison of two chats of one time.
names_neg_trans :
    (a b c : ActiveChat)
    → (if not (text_beq a.username b.username)
        then text_lt a.username b.username
        else text_lt a.task_name b.task_name)
      ≡ false
    → (if not (text_beq b.username c.username)
        then text_lt b.username c.username
        else text_lt b.task_name c.task_name)
      ≡ false
    → (if not (text_beq a.username c.username)
        then text_lt a.username c.username
        else text_lt a.task_name c.task_name)
      ≡ false
names_neg_trans a b c h g = ground (
  arith,
  text_beq_iff a.username b.username,
  text_beq_iff b.username c.username,
  text_beq_iff a.username c.username,
  text_lt_irrefl a.username,
  text_lt_total a.username b.username,
  text_lt_total b.username c.username,
  text_lt_asym a.username b.username,
  text_lt_asym b.username c.username,
  text_lt_neg_trans a.username b.username c.username,
  text_lt_neg_trans a.task_name b.task_name c.task_name,
)

chat_before_neg_trans :
    (a b c : ActiveChat)
    → chat_before a b ≡ false
    → chat_before b c ≡ false
    → chat_before a c ≡ false
unfolding chat_before
chat_before_neg_trans a b c h g = ground (arith, names_neg_trans a b c)

pub chat_before-StrictWeak : StrictWeak chat_before
chat_before-StrictWeak = record { asym = chat_before_asym; neg_trans = chat_before_neg_trans }

-- A chat of a user of the account.
abbrev pub IsMemberChat : Text → List (Text × Entry) → ActiveChat → Type 0
IsMemberChat account_key entries chat =
    (e : Entry) × (lookup chat.username entries ≡ some e)
    × (is_consumer e.identity ≡ true)
    × (e.membership ≡ account_key)

keep-All {ℓ κ} :
    {A : Type ℓ} (P : A → Type κ) (p : A → Bool) (xs : List A)
    → All P xs
    → All (λ x. (p x ≡ true) × P x) (keep p xs)
unfolding keep
keep-All P p [] a = tt
keep-All P p (x ∷ xs) a = elim (Bool-cases (p x)) [
  | inl yes_p ↦ rw yes_p ((yes_p, a.0), keep-All P p xs a.1)
  | inr no_p ↦ rw no_p (keep-All P p xs a.1)
]

All-of_map {ℓ κ μ} :
    {A : Type ℓ} {B : Type κ} (f : A → B) (P : A → Type μ) (Q : B → Type μ)
    → ((x : A) → P x → Q (f x))
    → (xs : List A) → All P xs
    → All Q (map f xs)
All-of_map f P Q h [] a = tt
All-of_map f P Q h (x ∷ xs) a = (h x a.0, All-of_map f P Q h xs a.1)

module _ (account_key : Text) (activities : List ActivityRef) (now : Time) (stale_after : ℕ)
    (entries : List (Text × Entry)) (order : List Text) where
  -- Where the entries keep no quarantined thread, each session that is projected under an account,
  -- from the runtime inventories or from the hooks, is of a consumer of the account and is not
  -- quarantined by its user, and its chat names that user.
  pub projected_chats-IsShown :
      All (λ p. RuntimeIsHidden p.1) entries
      → All
          (IsShown account_key entries)
          (projected_chats account_key activities now stale_after entries order)
  projected_chats-IsShown hide =
      merge_activities-IsShown account_key entries now activities _
        (project_users-IsShown account_key entries now stale_after order [] hide tt)

  -- Where the entries keep no quarantined thread, the list of an account's running chats is in the
  -- order of the comparison, and each of them runs and is of a consumer of the account.
  pub active_chats_listed :
      All (λ p. RuntimeIsHidden p.1) entries
      → IsSorted chat_before (active_chats account_key activities now stale_after entries order)
        × All
            (λ chat. (chat.running ≡ true) × IsMemberChat account_key entries chat)
            (active_chats account_key activities now stale_after entries order)
  unfolding active_chats
  active_chats_listed hide = (
    sort_by-IsSorted chat_before chat_before-StrictWeak _,
    All-sort_by chat_before _ _ (
        keep-All (IsMemberChat account_key entries) _ _ (
          All-of_map (λ p. p.1) (IsShown account_key entries) _
            (λ p shown.
              (shown.entry, ground (arith, shown.user, shown.found), shown.consumes, shown.member))
            _ (projected_chats-IsShown hide))),
  )
