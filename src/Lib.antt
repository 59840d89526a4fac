-- ===== src/Lib.antt =====
-- Verification of Bellows: the lease scheduler and daemon that share build machines, the content store
-- with its garbage collector, the server in front of it, and the relay between a build and the server.
--
-- The program. `bellows-lease` runs a daemon (crates/bellows-lease/src/server.rs) that hands out
-- machines, one lease at a time, by a scheduler (crates/bellows-lease/src/scheduler.rs). Clients
-- speak the messages of crates/bellows-lease/src/protocol.rs; a lease lives as long as its client's
-- connection. `bellows-core` (crates/bellows-core/src/lib.rs) keeps compiler outputs as blobs under
-- their digests, with records that reference them; crates/bellows-core/src/gc.rs evicts the least
-- recently used records and deletes blobs that no record references. `bellows-server`
-- (crates/bellows-server/src/main.rs) answers for a store over HTTP, leases compilations so that one
-- runner compiles while others wait, and runs declared actions. The command line tool of
-- crates/bellows-cli wraps the compiler; its relay (crates/bellows-cli/src/relay.rs) accepts blobs and
-- records at once and sends them on in the background, records after the blobs that they name.
--
-- The files.
--   Prelude             numbers, tests, lists, texts as bytes, maps in key order, a stable sort,
--                       decimal numbers, splitting.
--   Lease/Protocol      the messages: Hello, Request, AdminAction, ClientEvent, Reply, the views.
--   Lease/State         Config, Waiting, Holder, Grant, Admission, Scheduler, `new`.
--   Lease/Scheduler     the methods of `Scheduler`: Admit (`admit`), Order (`order`, `position`),
--                       Grant (`grant`, `claim`), Release (`release`), Admin (`reorder`,
--                       `set_paused`, `reserve`, `preempt`, `ci_start`, `ci_stop`,
--                       `set_merge_queue`, `overruns`), Status (`status`).
--   Lease/Token         `token`: the generator and the text of a session token.
--   Lease/Calls         one method call with its time, and sequences of calls.
--   Lease/Ids, Valid, Grants, Facts
--                       proofs about the scheduler: where an id is used, the invariant, what a round
--                       of grants gives, and single facts.
--   Lease/Daemon        `connection`, `admin`, `lease`, `wait_for_grant` as moves of a connection: a
--                       move is a stretch between two `await`s. Histories interleave the moves of all
--                       connections in any order.
--   Lease/Duration      `parse_duration_secs` of crates/bellows-lease/src/lib.rs.
--   Store/Records, Error, Keys, Paths, Manifest, Declared
--                       the stored records and the checks of them, with one error for each `bail!`.
--   Store/Contents      `put_blob`, `read_blob`, `put_candidate`, `read_candidates`, `put_declared`,
--                       `read_declared`, `remove_declared`, `put_archive`, `read_archive`.
--   Store/Words         `split_makefile_words`, and `rewrite_words` of `rewrite_dep_info`.
--   Store/Normalizer    `PathNormalizer`, `replace_bytes`.
--   Store/Sound, Accepted, Contained, Published, Front, Indexed, Archived, Declarations,
--   Replaced, Restored
--                       proofs about the store.
--   Gc/State, Index     the data of a collection, and `Snapshot::read` over the files that it finds.
--   Gc/Plan             `Plan::new`, loop by loop.
--   Gc/Report           `buckets`, and the groupings of `report`.
--   Gc/Apply, Journal   `apply`, `evict_from`, `Recent`; `record_use`, `parse_lines`,
--                       `read_journal`, `compact_journal`.
--   Gc/Counts, Unreference, Tracks, Executables, Order, Budget, Empty, Oldest, Recent, Start, Naming,
--   Reading, Outcome, Totals, Journaled, Compacted, Applied
--                       proofs about the collection.
--   Server/Api          `ApiResult` and the guard `authorize`.
--   Server/Leases       `acquire_lease`, `release_lease`, and histories of them.
--   Server/Blobs, Publish
--                       the handlers of blobs, and of candidates, uses, declared records and archives.
--   Server/Collect      `collect_output_files`.
--   Server/Execution    `execute`, `validate_execution_request`, `execute_declared`; it normalizes with Store/Normalizer and publishes with
--                       Store/Contents.
--   Server/Exclusive, Complete, Received, SingleFlight
--                       proofs about the server.
--   Relay/Order         `Order`: work begun and finished, horizons, and the waiting for them.
--   Relay/State, Route, Upload
--                       `Shared` and `Stats`; `handle` up to its arms; `upload` and the sending loop.
--   Relay/Tasks         `put_blob`, `defer` and the last arm of `handle` as moves of tasks, a move being
--                       a stretch between two `await`s; histories interleave them in any order.
--   Relay/Ordered, Valid, Kept, Steps, Runs, Causal, After, Drained, Finish, Guarded
--                       proofs about the relay.
--   Relay/Requests      the whole of `handle`, from its guard to the handlers, and proofs about it.
--   Wrapper/Options, Naming
--                       of crates/bellows-cli/src/main.rs: `option_value` and its like, `Naming`.
--   Wrapper/Native, Invocation, Analyze
--                       `native_inputs`, `expand_response_files`, `Invocation::analyze`, `owns`; the
--                       disk is a record of what is asked of it.
--   Wrapper/Agree, Owned
--                       proofs about them.
--   Tests, Store/Examples
--                       runs of each component on concrete data and instances of the theorems.
--
-- State. A method of the source that changes `self` returns the changed record. Maps are association
-- lists in the order of their keys; a `HashMap` is one too, since the code never shows its order.
-- Text is a list of bytes. A `u32` index or counter keeps its wrap-around (`% u32_mod`), and a `u64`
-- sum its saturation; an id of the scheduler wraps at 2 ^ 64, which the theorems exclude by a bound on
-- the number of calls.
--
-- The relay's `tokio` tasks are a map by a number that counts them; the end of an upload, and the
-- acceptance of a deferred request, are one move each. Its sequence numbers and versions wrap at
-- 2 ^ 64, which the theorems exclude by a bound on the number of moves. What the network does is an
-- argument of a move: the answers that a loop of attempts gets.
--
-- Fuel. The decimal printer takes 20 digits, which any 64-bit number fits in. The loop of a replacement
-- takes one round more than there are bytes, and each round takes a byte at least. All other loops
-- recur on their lists; the loops of attempts recur on the answers that they get.
--
-- Not modelled. Sockets, threads, clocks, the file system's failures and temporary files, JSON, and
-- BLAKE3, whose digests are parameters of the store. Paths are those of a Unix host. Texts are taken
-- as ASCII where the code trims or splits at whitespace. The single numbers of a collection's report,
-- the counts of the server's `stats`, the command that an execution runs (its outcome is an argument),
-- and the command line tools but for the relay and the analysis of a rustc command line are not modelled.
pub mod Prelude
pub mod Gc
pub mod Lease
pub mod Relay
pub mod Server
pub mod Store
pub mod Wrapper
