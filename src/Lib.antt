-- ===== src/Lib.antt =====
-- A verification library for the bookmark service of this repository.
--
-- The program is an HTTP service that stores each user's bookmarks and serves statistics of them.
-- A request passes the rate limiter (app/api/rate_limit.py). A mutation commits together with a
-- durable marker of the week whose statistics it changes (app/bookmarks/stats/dirty.py), and after
-- the commit the request invalidates the user's snapshot and leaves a wake-up hint in a bounded
-- queue (app/bookmarks/stats/publisher.py). One worker observes the markers, computes statistics
-- and publishes them as snapshots (app/bookmarks/stats/snapshots.py), which a request for statistics
-- prefers to the live query while they are recent (app/bookmarks/stats/service.py). A second
-- consumer of the markers projects the weeks: it recomputes a week's payload and hash, keeps the
-- running week as a row of its own, and appends a corrected revision to an append-only history when
-- a week that has ended turns out different (app/bookmarks/stats/projection_service.py over
-- app/bookmarks/stats/projection_repository.py). A baseline walks every week that has a bookmark, a
-- page at a time, before the projections count as active.
--
-- Which file models which part:
--   Prelude.antt, Dict.antt: shared names, tests, results with Python's exceptions as errors, and
--     dictionaries in insertion order.
--   RateLimit.antt: `TokenBucket` and `RateLimiter` of app/api/rate_limit.py. `consume` takes the
--     clock's reading as an argument and returns the bucket beside its result. Floats are whole numbers
--     of grains, and every sum, difference, product and quotient is rounded where the code rounds it;
--     the rounding is a parameter, and Rounding names what is relied on of it. Below it stand the
--     invariant (Entries), what a key may spend (Credit), the decision (Decisions), the same in exact
--     arithmetic (Ideal), the rate (Rate) and the limiter of the two policies (Limiter). Doubles runs
--     the bucket in binary floats. The HMAC that makes keys opaque and `str` are parameters, of which
--     nothing is assumed.
--   Sorting.antt, Sorting/: ORDER BY, keyset pages (Keyset) and slices (Slices).
--   Clock.antt: `normalize_utc` of app/core/clock.py. An instant is a number of microseconds since
--     the first moment of Python's calendar.
--   Weekly.antt: the windows of app/bookmarks/stats/weekly.py and `utc_monday` of
--     app/bookmarks/stats/dirty.py.
--   Events.antt: app/bookmarks/events.py.
--   Stats/Schemas.antt: the values of app/bookmarks/stats/schemas.py.
--   Stats/Snapshots.antt: `StatsSnapshotStore`. Its methods hold one lock, so each is one step;
--     Coherence lets requests and the worker take these steps in any order.
--   Stats/Publisher.antt: `StatsInvalidationPublisher`, with the store's own `invalidate`.
--   Stats/Dirty.antt: `BookmarkStatsDirtyRepository`; the table is a dictionary under its primary
--     key and each SQL statement a function on it.
--   Stats/Current.antt: `CurrentStatsService`; the live reader, the clock and the health check are
--     arguments that may raise.
--   Stats/Refresher.antt: `_refresh_user` of app/bookmarks/stats/refresher.py, in two parts: what it
--     reads, and what it does to the table and the store when it finalizes. The outcome of the
--     database's commit is an argument.
--   Stats/Queries.antt: the SQL statements of app/bookmarks/stats/raw_sql.py and the reader of a week
--     in app/bookmarks/stats/weekly.py. Stats/Calculation.antt: the canonical payload and its hash, with
--     JSON and SHA-256 as parameters.
--   Stats/Projection.antt: the records and validators of projection_repository.py. Below it stand the
--     table of the running weeks (Working), the history (Points), the row of the lifecycle (Lifecycle;
--     Transitions is its diagram as a relation), the pages of the baseline (Candidates) and the
--     snapshot of readiness (Readiness).
--   Stats/Processor.antt: `_persist_developed` and `_ensure_current_working` of
--     projection_service.py; Process has `process_dirty` and `process_overdue`, whose session is rolled
--     back on an error.
--   Stats/Baseline.antt: `BaselineRunner`, one `run_step` a cycle. `run_steps` repeats it at the times
--     of a list.
--   Stats/Cycle.antt: `_run_projection_phase` of app/bookmarks/stats/refresher.py, which runs a baseline
--     step and then works on markers and overdue rows, each in a transaction.
--   Stats/Examples.antt: the runs of these parts at concrete inputs.
--   Bookmarks/Models.antt, Policy.antt, Patterns.antt: the tables of app/bookmarks/models.py and
--     app/bookmarks/policy.py. Unicode's `strip` and `lower` and SQLite's LIKE are parameters of the
--     queries; Patterns/Literal says what LIKE reads of a pattern.
--   Bookmarks/Repository.antt, Writes.antt: app/bookmarks/repository.py, queries and writes as
--     functions on the tables.
--   Bookmarks/Listing.antt: `BookmarkService.list` and `list_cursor` of app/bookmarks/service.py, over
--     an interface to the codec of app/bookmarks/pagination.py, whose law stands in Codec; Walk is a
--     client that follows the cursors, and Complete puts the codec itself behind the interface.
--   Bookmarks/Cursor.antt: the codec itself, `BookmarkCursorCodec`. HMAC, base64, JSON and the text of
--     times are parameters; what is relied on of them stands in Cursor/Issued.
--   Bookmarks/Service.antt: `create`, `patch` and `delete`. A transaction computes what it commits, or
--     an error; `finish` commits and publishes, or rolls back. What the commit of the session does, to
--     return or to raise, is an argument.
--
-- Bounds and fuel: every loop of the modelled code walks a finite list, so that no definition takes
-- fuel. The baseline is restarted by its caller as often as it takes: `run_steps` recurses on the
-- times of those cycles, and as many as have room in their pages for all candidates, and at least one,
-- are proved enough. Identifiers, generations and counters are natural numbers, as Python's integers
-- are unbounded; guards against negative numbers and other types have no counterpart. The
-- calendar's end is kept: a time past the year 9999 raises an error. The rate limiter's floats
-- do not overflow, and a capacity is at most 2 ^ 53.
--
-- Not modelled: the worker's loop around `_refresh_user` and the projection phase, the readiness endpoint,
-- authentication, HTTP routing and the validation of schemas, configuration and logging, the
-- SQL engine below the statements named above, migrations and the seed command. Within the
-- modelled parts: CHECK constraints on text, the savepoint that resolves a race for a new tag,
-- the text that times and payloads are stored as, and log lines.
pub mod Prelude
pub mod Dict
pub mod Sorting
pub mod RateLimit
pub mod Clock
pub mod Weekly
pub mod Events
pub mod Stats
pub mod Bookmarks
