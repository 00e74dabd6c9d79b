-- ===== src/Model/Validate/Accepted.antt =====
-- No identifier stands twice in a snapshot that was accepted.
use unibe_clan.Base.{
  ◌≡◌, ◌≢◌, refl, Bool, true, false, not, Option, none, some, List, [], ◌∷◌, arith, All, All-map,
}
use unibe_clan.Base.Keys.{Text, text_eq, text_beq_iff}
use unibe_clan.Base.Map.{lookup, insert, lookup-insert}
use unibe_clan.Base.Time.{Time}
use unibe_clan.Model.{RateLimit, RecentThread, RuntimeThread, Snapshot}
use unibe_clan.Model.Validate.{
  is_absent, validate_limits, validate_recent, validate_runtime, validate_snapshot,
}

-- The elements have different names.
abbrev pub DifferBy : {A : Type 0} → (A → Text) → List A → Type 0
DifferBy name [] = Unit
DifferBy name (x ∷ xs) = All (λ y. name y ≢ name x) xs × DifferBy name xs

-- Names that are not in a map.
abbrev pub AreNew : {A : Type 0} → (A → Text) → List (Text × Bool) → List A → Type 0
AreNew name seen xs = All (λ x. lookup (name x) seen ≡ none) xs

absent_none : {A : Type 0} (o : Option A) → not (is_absent o) ≡ false → o ≡ none
absent_none none h = refl
absent_none (some a) h = ground arith

module _ {A : Type 0} (name : A → Text) (id : Text) (seen : List (Text × Bool)) where
  new_after : (x : A) → lookup (name x) (insert id true seen) ≡ none → name x ≢ id
  new_after x h same = ground (arith, lookup-insert id (name x) true seen, text_beq_iff id (name x))

  new_before : (x : A) → lookup (name x) (insert id true seen) ≡ none → lookup (name x) seen ≡ none
  new_before x h = ground (arith, lookup-insert id (name x) true seen)

validate_limits-DifferBy :
    (seen : List (Text × Bool)) (ls : List RateLimit)
    → validate_limits seen ls ≡ true
    → AreNew (λ l. l.id) seen ls × DifferBy (λ (l : RateLimit). l.id) ls
unfolding validate_limits
validate_limits-DifferBy seen [] h = (tt, tt)
validate_limits-DifferBy seen (l ∷ ls) h =
    let rest = validate_limits-DifferBy (insert l.id true seen) ls (ground arith) in
    let id : RateLimit → Text = λ m. m.id in
    (
      (
        absent_none (lookup l.id seen) (ground arith),
        All-map _ _ (new_before id l.id seen) ls rest.0,
      ),
      (All-map _ _ (new_after id l.id seen) ls rest.0, rest.1),
    )

validate_recent-DifferBy :
    (seen : List (Text × Bool)) (ts : List RecentThread)
    → validate_recent seen ts ≡ true
    → AreNew (λ t. t.thread_id) seen ts × DifferBy (λ (t : RecentThread). t.thread_id) ts
unfolding validate_recent
validate_recent-DifferBy seen [] h = (tt, tt)
validate_recent-DifferBy seen (t ∷ ts) h =
    let rest = validate_recent-DifferBy (insert t.thread_id true seen) ts (ground arith) in
    let id : RecentThread → Text = λ u. u.thread_id in
    (
      (
        absent_none (lookup t.thread_id seen) (ground arith),
        All-map _ _ (new_before id t.thread_id seen) ts rest.0,
      ),
      (All-map _ _ (new_after id t.thread_id seen) ts rest.0, rest.1),
    )

validate_runtime-DifferBy :
    (seen : List (Text × Bool)) (ts : List RuntimeThread)
    → validate_runtime seen ts ≡ true
    → AreNew (λ t. t.thread_id) seen ts × DifferBy (λ (t : RuntimeThread). t.thread_id) ts
unfolding validate_runtime
validate_runtime-DifferBy seen [] h = (tt, tt)
validate_runtime-DifferBy seen (t ∷ ts) h =
    let rest = validate_runtime-DifferBy (insert t.thread_id true seen) ts (ground arith) in
    let id : RuntimeThread → Text = λ u. u.thread_id in
    (
      (
        absent_none (lookup t.thread_id seen) (ground arith),
        All-map _ _ (new_before id t.thread_id seen) ts rest.0,
      ),
      (All-map _ _ (new_after id t.thread_id seen) ts rest.0, rest.1),
    )

snapshot_lists :
    (now : Time) (s : Snapshot)
    → validate_snapshot now s ≡ true
    → (validate_limits [] s.limits ≡ true)
      × (validate_recent [] s.recent_threads ≡ true)
      × (validate_runtime [] s.runtime_threads ≡ true)
unfolding validate_snapshot
snapshot_lists now s h = (ground arith, ground arith, ground arith)

-- In a snapshot that was accepted no two limits, no two recent threads and no two runtime threads have
-- the same identifier.
pub accepted_ids_differ :
    (now : Time) (s : Snapshot)
    → validate_snapshot now s ≡ true
    → DifferBy (λ (l : RateLimit). l.id) s.limits
      × DifferBy (λ (t : RecentThread). t.thread_id) s.recent_threads
      × DifferBy (λ (t : RuntimeThread). t.thread_id) s.runtime_threads
accepted_ids_differ now s h =
    let (limits, recent, runtime) = snapshot_lists now s h in
    (
      (validate_limits-DifferBy [] s.limits limits).1,
      (validate_recent-DifferBy [] s.recent_threads recent).1,
      (validate_runtime-DifferBy [] s.runtime_threads runtime).1,
    )
