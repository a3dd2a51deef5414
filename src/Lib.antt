-- ===== src/Lib.antt =====
-- Fabriq: the core of a data fabric over one source of truth. Commands write aggregates and one
-- event each in a transaction; a relay streams the events; consumers project them into a graph and a
-- search engine; live queries keep result windows up to date from the same changes; a catalog routes
-- tenants to their databases.
--
-- The parts, and the files of the repository that they model:
--   Prelude      shared lists, byte strings, association lists, results and Boolean tests.
--   Query        core/query/filter.go: `Op`, `Cond`, `Where`, `ValidateConds`.
--   Match        core/livequery/match: `Compile`, `Eval`, `compare`, `equal`, `likeAnchored`. Guard
--                treats the two filter guards, LikeSteps and LikeCorrect the loop of LIKE, Sql the
--                WHERE clause in three-valued logic with comparisons of its own, Values the two
--                sides of a comparison and Parity those of a filter.
--   Live         core/livequery/types.go, order.go, fielddelta.go, window.go, index.go and the view
--                of dispatcher.go. A window is the record `Window`; `apply` is `Window.Apply` and
--                returns the new window and the deltas. The refill port is the function `Refiller`,
--                whose `none` is an error. Window.Keyset is the order of its rows.
--   Event        core/event: `Envelope`, `UpcasterChain.Register` and `Apply`.
--   Catalog      core/catalog: `Entry`, `ValidateEntry` and `Failover`. A catalog is the record of its
--                answers; `get` returns the answer and the failover with its counters moved. Listing
--                is the query of `CatalogStore.List` in adapters/postgres/catalog.go and the loop of
--                core/provision/provision.go over its pages; the collation is a parameter.
--   Command      core/command and core/tenant: `prepare`, `checkVersion`, `stampedValues`, `apply` and
--                `ExecBatch`, with the transaction of adapters/postgres/adapter.go. The store is any
--                type of states with the calls of `Tx`; IsStore states what the port documents.
--   Tenant       core/pathctx: the schema of a tenant.
--   Provision    core/provision over adapters/postgres/catalog.go. The world is the record `World`; a run
--                takes it and returns the answer with the new one, in the monad `M`. `Env` says how each
--                request fares: answered, refused, or done with its answer lost. Writes, Keeps, Healthy and
--                Converges treat `Provision`, Fleet the roll over all tenants, a function of any order
--                of its events.
--   Sweep        core/sweep/sweep.go: Table is the idle accounting, Engine a pass and the wakes as a
--                function of any order of their steps.
--   Shard        adapters/shard/catalogdir.go: `Shard` and `resolve`, with the cache between them; the
--                lookups and the stores of concurrent calls come in any order. Autoscaler is
--                autoscaler.go: `decide`, and the ticks of provider.go in a row.
--   Subscribe    core/subscribe: Conflator, Hub and Channel for conflate.go, hub.go and channel.go. Go
--                channels are records with a buffer; the hub's calls hold its lock and are functions on
--                the record `Hub`, and Hub.Run takes them in any order with the reads of clients.
--   Projection   core/projection: the appliers, `ApplyChain`, `Engine.handle`, `Rebuilder.Rebuild` and
--                `Finalize`, `Reconciler.Reconcile`. Calls of sinks are listed in order or answered by
--                the record that stands for them.
--
-- How they meet: Match evaluates the filters of Query for the windows of Live; Command makes the
-- envelopes of Event, which Projection turns into mutations; Projection stamps the tenant with the
-- check of Command.Model. Provision writes the entries that Catalog reads and that Sweep and Shard act
-- on, and Subscribe carries the envelopes of Event to the subscribers of the tenant on the context of
-- Command.Model.
--
-- Strings are lists of bytes. Go maps are association lists, whose order stands for the unspecified
-- order of a range. Versions are natural numbers: they count writes, start at 0 and are not
-- near the bound of int64. A value of Go's `any` is the data type Value; doubles are a type parameter
-- with the comparisons of Runtime or the operations of Doubles. Times are natural numbers of ticks.
--
-- Fuel: the loop of `likeAnchored` has (|s| + 2) (|s| + |p| + 2) rounds, bounded by the restarts
-- of a star; the upcaster loop has one round more than the highest version with a step; the binary
-- search has one round more than the length; the loop over the pages of the catalog has one round
-- more than the catalog has rows.
--
-- Not modelled: partitions and the engine of live queries, shard pools, the registry's coercion,
-- caches, documents, agents and analytics; adapters, transports and wiring, which only move data;
-- metrics and spans.
pub mod Prelude
pub mod Query
pub mod Match
pub mod Live
pub mod Event
pub mod Tenant
pub mod Catalog
pub mod Command
pub mod Projection
pub mod Provision
pub mod Subscribe
pub mod Sweep
pub mod Shard
