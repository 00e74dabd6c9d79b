-- ===== src/Hub/Chats/Shown.antt =====
-- Which sessions are shown under an account.
use unibe_clan.Base.{
  ℕ, ◌≡◌, refl, inl, inr, true, false, some, List, [], ◌∷◌, arith, All, All-map, if-All, Bool-cases,
  Option-cases,
}
use unibe_clan.Base.Keys.{Text, text_beq_iff, text_eq}
use unibe_clan.Base.Map.{each-has, lookup, All-insert, All-lookup}
use unibe_clan.Base.Time.{Time}
use unibe_clan.Model.{RuntimeThread}
use unibe_clan.Model.Status.{ActiveChat}
use unibe_clan.Activity.Chats.{ChatKey, key_eq}
use unibe_clan.Hub.Entry.{ActivityRef, has, Entry, is_consumer}
use unibe_clan.Hub.Intake.Hidden.{RuntimeIsHidden}
use unibe_clan.Hub.Chats.{
  Projected, chat_key, runtime_chat, project_threads, shows_runtime, project_user, project_users,
  may_show, merge_activity, merge_activities,
}

module _ (account_key : Text) (entries : List (Text × Entry)) where
  -- The chat is of its user, a consumer of the account, and its session is not quarantined.
  pub record IsShown (p : ChatKey × ActiveChat) : Type 0 where
    pub entry : Entry
    pub user : p.1.username ≡ p.0.username
    pub found : lookup p.0.username entries ≡ some entry
    pub consumes : is_consumer entry.identity ≡ true
    pub member : entry.membership ≡ account_key
    pub free : has p.0.session_id entry.runtime_quarantine ≡ false

  project_threads-IsShown :
      (username : Text) (fallback now : Time) (e : Entry) (ts : List (Text × RuntimeThread))
      (m : Projected)
      → lookup username entries ≡ some e
      → is_consumer e.identity ≡ true
      → e.membership ≡ account_key
      → All (λ t. has t.0 e.runtime_quarantine ≡ false) ts
      → All IsShown m
      → All IsShown (project_threads username fallback now ts m)
  unfolding project_threads
  project_threads-IsShown username fallback now e [] m found consumes member free shown = shown
  project_threads-IsShown username fallback now e ((id, t) ∷ ts) m found consumes member free
        shown =
      let rest =
        project_threads-IsShown username fallback now e ts m found consumes member free.1 shown in
      if-All _ _ _ _ rest (
        All-insert _ (chat_key username id) (runtime_chat username fallback now t) _
          (record {
            entry = e;
            user = refl;
            found = found;
            consumes = consumes;
            member = member;
            free = free.0;
          })
          rest)

  project_user-IsShown :
      (now : Time) (stale_after : ℕ) (username : Text) (e : Entry) (m : Projected)
      → lookup username entries ≡ some e
      → RuntimeIsHidden e
      → All IsShown m
      → All IsShown (project_user account_key now stale_after username e m)
  unfolding project_user shows_runtime
  project_user-IsShown now stale_after username e m found hides shown =
      elim (Bool-cases (shows_runtime account_key now stale_after e)) [
        | inr hidden ↦ rw (hidden, project_user) shown
        | inl shows ↦
            rw (shows, project_user)
              (project_threads-IsShown username _ now e e.runtime_threads m found
                (ground (arith, shows))
                (ground (arith, shows, text_beq_iff e.membership account_key))
                (All-map _ _ (λ p known. hides.hidden p.0 known) e.runtime_threads
                  (each-has e.runtime_threads))
                shown)
      ]

  pub project_users-IsShown :
      (now : Time) (stale_after : ℕ) (order : List Text) (m : Projected)
      → All (λ p. RuntimeIsHidden p.1) entries
      → All IsShown m
      → All IsShown (project_users account_key now stale_after entries order m)
  unfolding project_users
  project_users-IsShown now stale_after [] m hide shown = shown
  project_users-IsShown now stale_after (username ∷ order) m hide shown =
      elim (Option-cases (lookup username entries)) [
        | inl missing ↦
            rw (missing, project_users) (project_users-IsShown now stale_after order m hide shown)
        | inr (e, found) ↦
            rw (found, project_users)
              (project_users-IsShown now stale_after order _ hide (
                project_user-IsShown now stale_after username e m found
                  (All-lookup _ username e entries hide found) shown))
      ]

  -- The name on the chat of a map that is found stays.
  merge_activity-IsShown :
      (now : Time) (a : ActivityRef) (e : Entry) (m : Projected)
      → lookup a.username entries ≡ some e
      → may_show account_key a e ≡ true
      → All IsShown m
      → All IsShown (merge_activity now a e m)
  unfolding merge_activity may_show
  merge_activity-IsShown now a e m found may shown =
      elim (Option-cases (lookup (chat_key a.username a.session_id) m)) [
        | inl fresh ↦
            rw (fresh, merge_activity)
              (All-insert _ (chat_key a.username a.session_id) _ m
                (record {
                  entry = e;
                  user = refl;
                  found = found;
                  consumes = ground (arith, may);
                  member = ground (arith, may, text_beq_iff e.membership account_key);
                  free = ground (arith, may);
                })
                shown)
        | inr (chat, present) ↦
            rw (present, merge_activity)
              (All-insert _ (chat_key a.username a.session_id) _ m
                (record {
                  entry = e;
                  user =
                      (All-lookup _ (chat_key a.username a.session_id) chat m shown present).user;
                  found = found;
                  consumes = ground (arith, may);
                  member = ground (arith, may, text_beq_iff e.membership account_key);
                  free = ground (arith, may);
                })
                shown)
      ]

  pub merge_activities-IsShown :
      (now : Time) (activities : List ActivityRef) (m : Projected)
      → All IsShown m
      → All IsShown (merge_activities account_key now entries activities m)
  unfolding merge_activities
  merge_activities-IsShown now [] m shown = shown
  merge_activities-IsShown now (a ∷ as_) m shown = elim (Option-cases (lookup a.username entries)) [
    | inl missing ↦ rw (missing, merge_activities) (merge_activities-IsShown now as_ m shown)
    | inr (e, found) ↦ elim (Bool-cases (may_show account_key a e)) [
      | inl may ↦
          rw (found, may, merge_activities)
            (merge_activities-IsShown now as_ _ (merge_activity-IsShown now a e m found may shown))
      | inr refused ↦
          rw (found, refused, merge_activities) (merge_activities-IsShown now as_ m shown)
    ]
  ]
