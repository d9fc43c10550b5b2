-- ===== src/Lib.antt =====
-- A contest server: who may do what in a contest, how solutions are judged, its standings, and the
-- stores, events, locks and caches below them.
--
-- Parts, and the files of the repository that they model:
--
-- - Perms: internal/perms. Perms/Set.antt is permissions.go, where a set of names is a list that
--   is only asked for membership; Perms/Roles.antt is roles.go.
-- - Accounts: internal/managers/account.go. Accounts/Context.antt is `MakeContext`, which finds the
--   roles of a visitor, and Accounts.antt the closure of these roles over their edges.
--   The outer loop of the closure runs on fuel, one round for each edge and one more,
--   since each round but the first follows an edge to a role that was not seen before.
-- - Contest: internal/managers/contest.go, with the rows of internal/models/contest.go and
--   contest_participant.go in Contest/Types.antt and the texts of their kinds in
--   Contest/Kinds.antt. Contest/Time.antt is the time of a contest as a participant sees it,
--   Contest/Permissions.antt what a participant may do, Contest/Context.antt `BuildContext` and
--   the methods of `ContestContext`. One loop of the source is one function, and the local
--   variables that the loops change are the record `Roster`.
-- - Standings: internal/managers/contest_standings.go, with the rows of internal/models in
--   Standings/Types.antt and the texts of verdicts (solution.go) in Standings/Verdicts.antt.
--   Standings/Cells.antt is one cell, Standings/Order.antt the order and the places,
--   Standings/Build.antt the two builders, Standings/Process.antt what a visitor is shown. The two
--   builders of the source repeat each other but for the judging of a cell and the end of a row;
--   here these two are arguments (`icpc_judge` and `icpc_finish`, `ioi_judge` and `ioi_finish`) of
--   functions that the two share.
-- - Judging: internal/invoker/judge_solution.go and testlib.go. How each process of a test ends is
--   given; Judging.antt has the verdicts of tests, the loops over test sets and tests, and the
--   points of groups. The reports that it makes are those that the standings read.
-- - Cache: internal/pkg/cache/cache.go, resources that are counted by those who hold them.
--   Cache.antt has the manager and its operations, Cache/Steps.antt the steps of clients and of the
--   goroutines that load.
-- - Locks: internal/models/lock.go. Locks.antt has the operations, on a table that is a function
--   of the primary key; Locks/Steps.antt the steps of clients that share one table.
-- - Events: internal/db/event_consumer.go, the ranges of event IDs that are still pending, and the
--   conditions of event_store.go on them.
-- - Stores: internal/models/cached_store.go and btree_index.go. Stores.antt is a store with its
--   index, which `initObjects` fills with rows and `Sync` brings up to date: its consumer (Events)
--   hands each event to `consume_event`.
--
-- A context asks the permission sets, the standings ask the context for its permissions, its
-- config, its clock and its effective participant. `MakeContext` is asked for the context of whoever
-- sends a request, on which the context of a contest is built. A store is synced by its consumer.
--
-- Conventions. An int64 is an integer with the wrap-around of sums and differences written out
-- (`add64`, `sub64` of Prelude/Int.antt). A panic is the error `panicked`. IDs are natural
-- numbers. Every loop but the one over the levels of roles is structural recursion, so
-- that no other needs fuel. What the source takes from elsewhere is a parameter: encoding/json
-- (`unmarshal`, `Decoders`), the settings, the rows of the stores, and float64 (`Float`), of which
-- the order theorems ask what IEEE 754 says of values that are no NaN (`IsOrdered`). `sort_func`
-- stands for `sort.Sort`: elements that neither precede the other keep their order here, where Go
-- leaves it open.
--
-- Not modelled: the cache of standings, which waits on other goroutines and the clock; the SQL
-- stores, the HTTP handlers, the tasks and sandboxes of the invoker, files and configuration, which
-- are input and output.
pub mod Prelude
pub mod Perms
pub mod Contest
pub mod Standings
pub mod Events
pub mod Judging
pub mod Cache
pub mod Stores
pub mod Accounts
pub mod Locks
pub mod Tests
