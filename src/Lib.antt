-- ===== src/Lib.antt =====
-- The Lethe server: crates/lethe-server, with the shared types of crates/lethe-types and the
-- operator's crates/lethe-cli.
--
-- Lethe is a message board without accounts, with private rooms beside its public threads. A request
-- comes to a route, which calls a handler of crates/lethe-server/src/logic; a handler decodes and
-- checks the request, verifies signatures (crypto.rs) and runs SQL statements of
-- crates/lethe-server/src/db. One worker prunes old rows (db/retention.rs), another pulls the signed
-- events of other servers (federation/pull.rs), which every server serves (federation/route.rs).
--
-- The files and the code they model:
--   Prelude, Prelude/*    names, Boolean tests, lists, byte strings
--   Table, Table/*        a table as a list of rows, SQL statements as functions on it, their laws
--   Action, Action/*      a handler: a state transition that answers with a value or an AppError;
--                         what it keeps and what its success ensures
--   Error                 error.rs, CryptoError of crypto.rs
--   Config                config.rs
--   Cli, Cli/*            crates/lethe-cli/src/main.rs
--   Env                   the crates base64, ed25519-dalek, sha2 and curve25519-dalek as parameters
--   Db                    the tables of crates/lethe-server/migrations
--   Payload, Crypto, Crypto/*   the canonical byte strings of crates/lethe-types, crypto.rs; the signer
--                         of a vouch, client/src/lib/ringsig.ts and vouch.ts
--   Nonces, Nonces/*      db/nonces.rs and the window test of the handlers
--   Checks, Checks/*      the steps that handlers share: decode, window, signature, nonce
--   Threads, Posts, Posts/*   db/threads.rs, db/posts.rs, logic/posts.rs
--   Pow, Moderation, Moderation/*   pow.rs, moderation/*.rs, db/moderation.rs
--   PostRemovals, Reports, Reports/*, Pages   db/post_removals.rs; logic/reports.rs, db/reports.rs;
--                         routes/pages.rs, routes/boards.rs
--   Paging, Paging/*      ORDER BY … LIMIT after a cursor, and the walk through its pages
--   Feed, Feed/*          db/feed.rs, routes/feed.rs
--   AdminTokens           db/admin_tokens.rs
--   Federation/Wire, Federation/Events, and their children   federation/events.rs
--   Federation/Peers, Federation/Stream   db/federation.rs, and `events` of federation/route.rs
--   Federation/Cursor, Federation/Admin, Federation/Info   federation/route.rs, federation/info.rs
--   Federation/Pull/*     federation/pull.rs
--   Federation/Identity   federation/identity.rs
--   Rooms, Rooms/*        db/rooms.rs, logic/rooms.rs, routes/rooms.rs
--   Retention, Retention/*   db/retention.rs
--   Server, Server/*      `router` and the workers of lib.rs: the whole server as one machine, whose moves are
--                         the endpoints that write, those that read and answer as a handler, the workers and a
--                         new start; repeated requests; the routing table and csp.rs; start-up and main.rs
--   Tests, Tests/*        runs at concrete inputs
--
-- A handler has its source's name and its steps in the source's order; `guard` is an early return,
-- `or_fail` is `ok_or` with `?`, `gets` a SELECT, `modify` and `statement` a write. A handler is one
-- transition, so that requests come one after the other; statements of different requests are not
-- interleaved. An error keeps the writes that came before it, as the code does outside of a
-- transaction; a function of db/ that is a transaction gives the old state back with its error.
--
-- The handlers of the feed, the events, the boards, the instance information and the pages run SELECTs only: they
-- are functions of the database and no moves. The lengths that the tables ask of ids and keys are not tested again.
--
-- Numbers are natural numbers. A timestamp is the bit pattern of an i64 and the window test wraps
-- as the release build does. A DATE is its Julian day number. Epochs, sequence numbers and days are
-- not bounded: their columns overflow only after 2 ^ 31 rows or epochs, or past the year 9999. Fresh
-- ids and readings of the clock are arguments. The code's loops are structural recursion on lists.
-- Two functions run on fuel: the decimal digits of a number, with one more than the number, and a
-- reader who follows the pages of a listing (Paging/Walk), with more requests than rows; both are
-- proved to be enough. In a cycle of the pull worker a peer's answer, its JSON and the fresh ids are
-- parameters, so that a peer may send anything.
--
-- Not modelled: outages of the database, concurrent statements, HTTP framing, logging, how the random delay between
-- the cycles of the pull worker is drawn, templates and the parsing of arguments. They are input and output, or
-- randomness that no property depends on. axum's matching of paths, the sockets and the pool are not of this
-- repository: the routing table and the layers are data, and a start takes the outcome of connecting, binding and
-- serving as given.
pub mod Prelude
pub mod Table
pub mod Error
pub mod Action
pub mod Env
pub mod Payload
pub mod Crypto
pub mod Db
pub mod Nonces
pub mod Checks
pub mod Threads
pub mod Moderation
pub mod Posts
pub mod Pow
pub mod Rooms
pub mod Server
pub mod Retention
pub mod Federation
pub mod Paging
pub mod PostRemovals
pub mod AdminTokens
pub mod Cli
pub mod Config
pub mod Reports
pub mod Pages
pub mod Feed
pub mod Tests
