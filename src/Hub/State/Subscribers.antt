-- ===== src/Hub/State/Subscribers.antt =====
-- What the subscribers' channels hold.
use unibe_clan.Base.{
  ℕ, ◌≡◌, ◌⊎◌, refl, inl, inr, Bool, true, Option, none, some, List, [], ◌∷◌, arith, All,
  Bool-cases, Option-cases,
}
use unibe_clan.Base.Keys.{Text, nat_eq, text_eq}
use unibe_clan.Base.Int.{ℤ, pos_part}
use unibe_clan.Base.Map.{insert, All-insert, All-delete}
use unibe_clan.Base.Result.{Result, ok, err}
use unibe_clan.Model.{Snapshot, Hashing}
use unibe_clan.Model.Status.{StatusResponse}
use unibe_clan.Hub.Conflict.{bool_beq}
use unibe_clan.Hub.Entry.{Identity, Entry}
use unibe_clan.Hub.Table.{Hub, NewError, empty_hub}
use unibe_clan.Hub.State.{
  World, new_history_updates, update_history, status, offer, broadcast, publish, accept,
  set_history, refresh, set_demo, subscribe, cancel,
}
use unibe_clan.Hub.Start.{add_identities, add_identity, sort_order, new}
use unibe_clan.Hub.State.Errors.{apply_cases}
use unibe_clan.Hub.State.Reach.{
  Step, applied, history_set, refreshed, demo_set, subscribed, cancelled, received, Reachable,
  started, stepped,
}

-- A channel is empty, or holds a status of the revision.
abbrev pub HoldsRevision : ℕ → ℕ × Option StatusResponse → Type 0
HoldsRevision revision sub =
    (sub.1 ≡ none) ⊎ ((r : StatusResponse) × (sub.1 ≡ some r) × (r.revision ≡ revision))

offer-HoldsRevision :
    (r : StatusResponse) (subs : List (ℕ × Option StatusResponse))
    → All (HoldsRevision r.revision) (offer r subs)
unfolding offer
offer-HoldsRevision r [] = tt
offer-HoldsRevision r ((id, held) ∷ subs) = (inr (r, refl, refl), offer-HoldsRevision r subs)

module _ (hashing : Hashing) where
  publish-HoldsRevision :
      (w : World) (h : Hub) → All (HoldsRevision h.revision) (publish hashing w h).subs
  unfolding broadcast status
  publish-HoldsRevision w h = offer-HoldsRevision (status hashing w.now w.activities h) h.subs

  -- The history's part of a call does not reach the channels.
  update_history-HoldsRevision :
      (w : World) (h : Hub)
      → All (HoldsRevision h.revision) h.subs
      → All (HoldsRevision (update_history hashing w h).revision) (update_history hashing w h).subs
  unfolding update_history new_history_updates
  update_history-HoldsRevision w h v = elim (Option-cases (h.history)) [
    | inl silent ↦ rw (silent, update_history) v
    | inr (t, given) ↦ rw (given, update_history) v
  ]

  accept-HoldsRevision :
      (w : World) (username : Text) (e : Entry) (s : Snapshot) (h : Hub)
      → All
          (HoldsRevision (accept hashing w username e s h).revision)
          (accept hashing w username e s h).subs
  unfolding accept broadcast
  accept-HoldsRevision w username e s h =
      update_history-HoldsRevision w _ (publish-HoldsRevision w _)

  Step-HoldsRevision :
      (h g : Hub)
      → All (HoldsRevision h.revision) h.subs
      → Step hashing h g
      → All (HoldsRevision g.revision) g.subs
  unfolding set_history refresh set_demo subscribe cancel status broadcast
  Step-HoldsRevision h g v (applied w uid s) = elim (apply_cases hashing w uid s h) [
    | inl same ↦ rw same v
    | inr a ↦ rw a.accepted (accept-HoldsRevision w a.username a.entry s h)
  ]
  Step-HoldsRevision h g v (history_set w t) = update_history-HoldsRevision w _ v
  Step-HoldsRevision h g v (refreshed w) = publish-HoldsRevision w _
  Step-HoldsRevision h g v (demo_set w enabled) = elim (Bool-cases (bool_beq h.demo enabled)) [
    | inl same ↦ rw same v
    | inr changed ↦ rw changed (publish-HoldsRevision w _)
  ]
  Step-HoldsRevision h g v (subscribed w) =
      All-insert _ h.next_sub_id _ h.subs (inr (_, refl, refl)) v
  Step-HoldsRevision h g v (cancelled id) = All-delete _ id h.subs v
  Step-HoldsRevision h g v (received id) = All-insert _ id none h.subs (inl refl) v

  add_identities-subs :
      (is : List Identity) (seen : List (Text × Bool)) (h g : Hub)
      → add_identities hashing is seen h ≡ ok g
      → g.subs ≡ h.subs
  unfolding add_identities add_identity
  add_identities-subs [] seen h g made = ground (arith, made)
  add_identities-subs (given ∷ is) seen h g made =
      add_identities-subs is (insert given.username true seen) (add_identity hashing given h) g
        (ground (arith, made))

  sort_order-subs :
      (made : Result NewError Hub) (g : Hub)
      → ((h : Hub) → made ≡ ok h → h.subs ≡ [])
      → sort_order made ≡ ok g
      → g.subs ≡ []
  sort_order-subs (ok h) g none_yet sorted = ground (arith, sorted, none_yet h refl)
  sort_order-subs (err e) g none_yet sorted = ground (arith, sorted)

  new-subs :
      (identities : List Identity) (stale_after : ℤ) (h : Hub)
      → new hashing identities stale_after ≡ ok h
      → h.subs ≡ []
  unfolding new
  new-subs identities stale_after h made =
      sort_order-subs (add_identities hashing identities [] (empty_hub (pos_part stale_after))) h
        (λ g made'. add_identities-subs identities [] (empty_hub (pos_part stale_after)) g made')
        (ground (arith, made))

  -- Whatever calls were made, what a subscriber finds in its channel is a status of the hub's
  -- current revision.
  pub Reachable-HoldsRevision :
      (h : Hub) → Reachable hashing h → All (HoldsRevision h.revision) h.subs
  Reachable-HoldsRevision h (started identities stale_after _ made) =
      rw (new-subs identities stale_after h made) tt
  Reachable-HoldsRevision h (stepped g _ r s) =
      Step-HoldsRevision g h (Reachable-HoldsRevision g r) s
