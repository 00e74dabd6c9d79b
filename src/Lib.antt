-- ===== src/Lib.antt =====
-- codex-usage-dashboard: a service that collects the usage that Codex reports for the users of a
-- shared host, and shows it by account. Paths below are from the repository's root; the Go code
-- stands under packages/codex-usage-dashboard.
--
-- The parts and how they interact. A collector of each user reads the account, its rate limits and
-- its threads from Codex and submits a Snapshot (internal/model) to the hub. The hub hands the
-- snapshots of the canonical source of an account to the history (internal/history), as
-- observations, or as a new baseline when the source changes. Hooks that run beside Codex report
-- the starts and ends of turns; the hub's host passes them to the activity tracker
-- (internal/activity), which counts on leases that expire. The web page shows what the hub's status
-- joins of these.
--
-- Activity.*  internal/activity/tracker.go. Activity.Event is Event.Validate and the identifiers,
--             Activity.Chats the map of chats and the eviction (makeRoomLocked), Activity.Leases the
--             running turns and pruneLocked, Activity.Tracker the methods of Tracker.
-- Model.*     internal/model/model.go: the types of a snapshot and AccountKey; Model.Names is the texts
--             that may be shown and their sanitizing, Model.Validate what a snapshot must satisfy,
--             Model.Normalize the normalizing of windows, Model.Status
--             the types of the published status.
-- History.*   internal/history/history.go. History.Windows is the windows and the comparisons of
--             timestamps, History.Adjustments and History.Events the records of an account and the
--             public timeline, History.Tracker the tracker, its retention and its persistence,
--             History.Observe what a snapshot does to it (Observe, Rebaseline),
--             History.Reconcile the taking over of a sidecar that was written alone, History.Open
--             the loading of the two files (Open).
-- Hub.*       internal/hub/hub.go. Hub.Entry is what is kept of a user and told of one at a time,
--             Hub.Intake what Apply makes of a user's entry, Hub.Conflict whether sources disagree,
--             Hub.Chats the running chats of an account, Hub.Sources the sources of an account and
--             the one that the history follows, Hub.Account the status of an account, Hub.Table what
--             a hub keeps, Hub.Start New, Hub.Observed what the history is told, Hub.State the methods
--             of a hub, and the relation of the states that they lead to.
-- Base.*      numbers, lists, maps, sorting, time and text, for all of them.
--
-- How the code corresponds. A definition has the name of its function in the library's spelling;
-- `Locked` at the end of a name is left out. A method takes the tracker and the clock's reading and
-- returns the new tracker with its results, and the mutex makes it one step; what a method changes
-- through a pointer is replaced under its key, where the key still stands. A Go map is an
-- association list in any order; a string is the list of its code points, of which the UTF-8 length
-- is computed; a time is the number of nanoseconds since the year 1, which is Go's zero time; int64
-- subtraction wraps around, uint64 counting too; sort.Slice, which may leave equal elements in any
-- order, is a stable sort by the same comparison. The loops are structural recursion, but for the
-- eviction, which runs on the size of the map as its fuel: each round deletes a chat. What a file
-- write answers is an argument of the methods that write; SHA-256 and strings.ToLower are fields of
-- a record that AccountKey takes. A validation answers whether its error is nil.
--
-- A call of a hub's method is one step too: applyMu orders the calls that reach the history, and
-- the activity source and the clock answer by arguments. A subscriber's channel holds one status at
-- most and is an Option. What the hub clones is a value here.
--
-- A time and a duration have no upper bound here: Go's Sub saturates a difference of more than 292
-- years, which is where nextExpiryDelay and the times of the hub would differ.
--
-- Not modelled: the reading and writing of files and of JSON (what they answer is an argument), the
-- loop of runExpiry over channels and timers, the made-up users of SeedDemo, the transport of the
-- hub, the collector, the Codex client and the web page.
pub mod Base
pub mod Model
pub mod Activity
pub mod History
pub mod Hub
