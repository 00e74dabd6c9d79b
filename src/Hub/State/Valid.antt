-- ===== src/Hub/State/Valid.antt =====
-- What holds of a hub between two calls, and that `New` makes such a hub.
use unibe_clan.Base.{
  ℕ, ◌≡◌, refl, subst, inl, Bool, true, some, List, [], ◌∷◌, arith, All, All-append, All-map,
  if-All,
}
use unibe_clan.Base.Int.{ℤ, pos_part}
use unibe_clan.Base.Keys.{Text, nat_eq, text_beq_iff, text_eq, text_lt}
use unibe_clan.Base.Map.{lookup, insert, lookup-insert, All-insert}
use unibe_clan.Base.Result.{Result, ok, err}
use unibe_clan.Base.Sort.{sort_by, All-sort_by}
use unibe_clan.Model.{Hashing}
use unibe_clan.Hub.Entry.{Identity, has, Entry, is_consumer}
use unibe_clan.Hub.Intake.Hidden.{EntryIsValid, LatestIsKept, cleared-RuntimeIsHidden}
use unibe_clan.Hub.Table.{Hub, NewError, new_entry, empty_hub}
use unibe_clan.Hub.Start.{add_identity, add_identities, sort_order, new}

-- Each entry is well-formed and stands under its user's name; each trusted uid, each listed name
-- and each expected anchor has an entry.
pub record HubIsValid (hashing : Hashing) (h : Hub) : Type 0 where
  pub entries :
      All
        (λ p. (p.1.identity.username ≡ p.0) × EntryIsValid hashing p.1 × LatestIsKept p.1)
        h.entries
  pub trusted :
      (uid : ℕ) (username : Text)
      → lookup uid h.by_uid ≡ some username
      → has username h.entries ≡ true
  pub listed : All (λ username. has username h.entries ≡ true) h.order
  pub anchored : All (λ p. has p.1 h.entries ≡ true) h.expected_anchors

has-insert :
    (k asked : Text) (e : Entry) (m : List (Text × Entry))
    → has asked m ≡ true
    → has asked (insert k e m) ≡ true
has-insert k asked e m h = ground (arith, lookup-insert k asked e m, h)

has-insert_same : (k : Text) (e : Entry) (m : List (Text × Entry)) → has k (insert k e m) ≡ true
has-insert_same k e m = ground (arith, lookup-insert k k e m, text_beq_iff k k)

-- A uid that is added is one of a name with an entry.
add_trusted :
    (uid asked : ℕ) (k u : Text) (by_uid : List (ℕ × Text)) (m : List (Text × Entry))
    → (lookup asked by_uid ≡ some u → has u m ≡ true)
    → has k m ≡ true
    → lookup asked (insert uid k by_uid) ≡ some u
    → has u m ≡ true
add_trusted uid asked k u by_uid m before here found =
    ground (arith, lookup-insert uid asked k by_uid, before, here, found)

module _ (hashing : Hashing) where
  new_entry-EntryIsValid : (i : Identity) → EntryIsValid hashing (new_entry i)
  new_entry-EntryIsValid i = record {
    runtime = cleared-RuntimeIsHidden (new_entry i) refl refl;
    account = record {
      stripped = refl;
      good = λ s absurd. ground (arith, absurd);
      member = inl refl;
    };
  }

  -- More entries keep what is known of the names.
  pub more_entries :
      (k : Text) (e : Entry) (h : Hub)
      → (e.identity.username ≡ k) × EntryIsValid hashing e × LatestIsKept e
      → HubIsValid hashing h
      → HubIsValid hashing (record h { entries = insert k e h.entries })
  more_entries k e h p v = record {
    entries = All-insert _ k e h.entries p v.entries;
    trusted = λ uid u found. has-insert k u e h.entries (v.trusted uid u found);
    listed = All-map _ _ (λ u known. has-insert k u e h.entries known) h.order v.listed;
    anchored =
        All-map _ _ (λ q known. has-insert k q.1 e h.entries known) h.expected_anchors v.anchored;
  }

  add_identity-HubIsValid :
      (given : Identity) (h : Hub)
      → HubIsValid hashing h
      → HubIsValid hashing (add_identity hashing given h)
  unfolding add_identity
  add_identity-HubIsValid given h v =
      let w =
        more_entries given.username (new_entry _) h
          (refl, new_entry-EntryIsValid _, λ absurd. ground (arith, absurd)) v in
      let here = has-insert_same given.username (new_entry _) h.entries in
      record {
        entries = w.entries;
        trusted = λ uid u found.
            add_trusted given.uid uid given.username u h.by_uid _ (w.trusted uid u) here found;
        listed = All-append _ h.order (given.username ∷ []) w.listed (here, tt);
        anchored =
            if-All _ (is_consumer given) h.expected_anchors _ w.anchored
              (All-insert _ _ given.username h.expected_anchors here w.anchored);
      }

  add_identities-HubIsValid :
      (is : List Identity) (seen : List (Text × Bool)) (h g : Hub)
      → HubIsValid hashing h
      → add_identities hashing is seen h ≡ ok g
      → HubIsValid hashing g
  unfolding add_identities
  add_identities-HubIsValid [] seen h g v made =
      subst (HubIsValid hashing) {x = h} {y = g} (ground (arith, made)) v
  add_identities-HubIsValid (given ∷ is) seen h g v made =
      add_identities-HubIsValid is (insert given.username true seen) (add_identity hashing given h)
        g (add_identity-HubIsValid given h v) (ground (arith, made))

  empty_hub-HubIsValid : (stale_after : ℕ) → HubIsValid hashing (empty_hub stale_after)
  unfolding lookup
  empty_hub-HubIsValid stale_after = record {
    entries = tt;
    trusted = λ uid u found. ground (arith, found);
    listed = tt;
    anchored = tt;
  }

  sort_order-HubIsValid :
      (made : Result NewError Hub) (g : Hub)
      → ((h : Hub) → made ≡ ok h → HubIsValid hashing h)
      → sort_order made ≡ ok g
      → HubIsValid hashing g
  sort_order-HubIsValid (ok h) g v sorted =
      subst (HubIsValid hashing) {x = record h { order = sort_by text_lt h.order }} {y = g}
        (ground (arith, sorted))
        (let w = v h refl in
          record {
            entries = w.entries;
            trusted = w.trusted;
            listed = All-sort_by text_lt _ h.order w.listed;
            anchored = w.anchored;
          })
  sort_order-HubIsValid (err e) g v sorted = ground (arith, sorted)

  pub new-HubIsValid :
      (identities : List Identity) (stale_after : ℤ) (h : Hub)
      → new hashing identities stale_after ≡ ok h
      → HubIsValid hashing h
  unfolding new
  new-HubIsValid identities stale_after h made =
      sort_order-HubIsValid
        (add_identities hashing identities [] (empty_hub (pos_part stale_after))) h
        (λ g made'. add_identities-HubIsValid identities [] _ g (empty_hub-HubIsValid _) made')
        (ground (arith, made))
