-- ===== src/Activity/Tracker/Deadline.antt =====
-- The delay that `runExpiry` sleeps for.
use unibe_clan.Base.{ℕ, ◌+◌, ◌≤◌, ◌<◌, ◌≡◌, ◌↔◌, true, none, some, arith}
use unibe_clan.Base.Time.{Time}
use unibe_clan.Activity.Leases.{prune}
use unibe_clan.Activity.Leases.Delay.{Coherent, prune-next_expiry, prune_unchanged}
use unibe_clan.Activity.Tracker.{Tracker, next_expiry_delay}

module _ (t : Tracker) (positive : 0 < t.expires_after) (now : Time) where
  -- With a positive expiry: where `nextExpiryDelay` answers a delay, pruning at any moment from now on
  -- reports a change exactly if the delay has passed. So the timer is never late and never early.
  pub next_expiry_delay_exact :
      (d : ℕ)
      → next_expiry_delay now t ≡ some d
      → (later : Time) → now ≤ later
      → ((prune t.expires_after later t.chats).1 ≡ true) ↔ (now + d ≤ later)
  unfolding next_expiry_delay
  next_expiry_delay_exact d h later le =
      ground (arith, prune-next_expiry t.expires_after positive later t.chats)

  -- With a positive expiry and each chat's running flag in agreement with its leases: where
  -- `nextExpiryDelay` answers none, pruning never changes a chat.
  pub next_expiry_delay-none :
      Coherent t.chats
      → next_expiry_delay now t ≡ none
      → (later : Time) → (prune t.expires_after later t.chats).0 ≡ t.chats
  unfolding next_expiry_delay
  next_expiry_delay-none c h later =
      prune_unchanged t.expires_after later t.chats c
        (ground (arith, prune-next_expiry t.expires_after positive later t.chats))
