-- ===== src/Lib.antt =====
-- Verification of tubedepth, a job queue that collects data about YouTube videos, channels and
-- listings: clients submit jobs to a table, workers claim and run them under a rate controller, and
-- what is collected is kept in a payload store until a prune removes it.
--
-- The parts, each file beside the code that it models (paths from the repository's root):
--
--   Errors       src/tubedepth/errors.py: the domain errors as one enumeration with its bases;
--                an exception is a domain error or a foreign one.
--   Models       src/tubedepth/models.py: the rows of the jobs table. A table is a list of rows,
--                and a session's lookups and updates are functions on it.
--   Floats       Python floats, a record of operations (FloatOps) and of laws (FloatLaws).
--   Retrying     src/tubedepth/retrying.py: the backoff.
--   Queue        src/tubedepth/repositories.py, JobRepository: claim, cancel, renew_lease,
--                reap_expired_leases. Each call is one transaction that runs alone; Order, Bounds, Claim,
--                Cancel and Reap prove.
--   Egress       src/tubedepth/egress/control.py: RateController, one state per (egress, lane).
--                Bounds, Routes and Recovery prove.
--   Health       src/tubedepth/health.py: what each source and each lane has been doing; Snapshot is
--                what the dashboard is told.
--   Registry     src/tubedepth/sources/registry.py: the sources, their kinds and their costs.
--   Identifiers  src/tubedepth/identifiers.py: the normalisers of targets; Again proves. Texts has the
--                methods of texts that several parts call.
--   Transcript   src/tubedepth/sources/transcript.py: the policy of caption tracks; Policy proves. Body:
--                the reading of a track and the walk over the ranking; Fetched proves.
--   Renderers    src/tubedepth/innertube/renderers.py: the search of a response by names; Among, Stored
--                and Empty prove.
--   Watchlist    src/tubedepth/watchlist.py: the reading of a watch list; Lines proves.
--   Transfer     src/tubedepth/transfer.py: the copy of all tables to another database; Rows and Copies
--                prove.
--   Worker       src/tubedepth/worker.py. Gates: `_claim`, `_leave`, the reservation. Outcome: the
--                writes of a row, `_settle`, `_fail_or_retry`, `_requeue`, `_queue_follow_up`.
--                Execute: `_execute` from the wait for a permit to the row, with its exceptions.
--                Drain: `run_once` and `drain`, with a pool of threads as a schedule of actions.
--                Serve: `serve`, with one cycle for each drain.
--   Lifecycle    every write of the jobs table as one step relation, the late writes of the reaper and of
--                a failure from values read earlier among them; Sound and Attempts
--                prove.
--   Artifacts    src/tubedepth/repositories.py, ArtifactRepository: record, fresh, count_for.
--   Json         decoded JSON, as the payloads hold it.
--   Keyed        INSERT ... ON CONFLICT, one row at a time.
--   Flatten      src/tubedepth/flatten.py. Rows: the tables' rows and the reading of values.
--                Transforms: a payload to rows. Tables: the statements that write them; Held,
--                Replay and Once prove. Work: an artifact to its statements. Query: the rows that are read next.
--                Service: the pass, batch by batch; Visits, Walk, Replay, Rehearsal and Stop prove.
--   Keyset       rows in the order of a time and an identifier, after a cursor: Order, Next, and Pages,
--                which follow one another. The flattening and the ledgers of the API read by it.
--   Keys         src/tubedepth/services/keys.py: API keys. Rows, Charges, Revoked and Secrets prove.
--   Payloads     src/tubedepth/payload_store.py: the files of payloads.
--   Collection   src/tubedepth/collection.py and fingerprints.py: State: a monad of the state and the
--                errors. Service: `CollectionService`. Again and Bundle prove.
--   Versions     src/tubedepth/schema_versions.py: the backfill. Backfill proves.
--   Api          src/tubedepth/api/application.py, a route as a function of the rows, the files and
--                the request. Status: the answers to domain errors. Access: the key of a request.
--                Listing: the ledgers, with the cursors of Cursors; Reading proves. Results: the
--                routes that hand bytes out; Doors proves. Submit: a job and a batch, in the session
--                of src/tubedepth/database.py; Batches, Queueing and Answered prove. Control: the pause.
--   Webhooks     src/tubedepth/webhooks.py: the sweep of owed callbacks.
--   Retention    src/tubedepth/retention.py and payload_store.py: the prune.
--   Tests        concrete inputs.
--
-- State is passed: an operation takes the tables that it reads and returns those that it writes. An
-- error is a value: `Result` for domain errors, and a flag beside the state where an exception
-- leaves a method after some of its writes.
--
-- Arguments that stand for what is not in the repository: clock readings, the rows that another
-- transaction has locked (`locked`), what other threads and processes do while one waits or collects
-- (`others`, `during`), what the extraction came to (`Collected`), the answer of a webhook's
-- receiver (`send`), the float operations, the parsers of instants and days (`Calendar`), the hash of
-- a secret and the texts that are drawn for it, what reading a payload comes to (`read`), which
-- statements the database refuses by their values (`refuses`), its order of identifiers
-- (`earlier`, with CollationLaws), base64 and the ISO form of instants (`Codec`, with CodecLaws), the
-- JSON reader and the field names of the models (`loads`, `model_fields`), the defaults of a new row
-- (`Draw`), and what a collection calls (`Outside`): the hashes, the models of payloads, the
-- extraction and, as any function, the normalisers of targets. Identifiers takes the
-- parsers of addresses and methods of texts (`Parsers`, with ParsersLaws), Transcript the extraction
-- and the answers of addresses, Watchlist the methods of texts and what its file is read as, and
-- Transfer what a commit leaves in a table (`commit`, with Appends). Instants and lengths of time are natural numbers of
-- microseconds.
--
-- Loops are recursion on lists; the batches of a transfer are at most as many as there are rows,
-- which is enough. The wait for a permit has one round for each turn that its deadline
-- of 30 seconds admits, given as a list of clock readings, so that a list of any length is a
-- possible wait. A drain has one turn for each time round its loop, and it is `unfinished` when the
-- turns run out; Worker/Drain/Limit says how many are enough. A pass of the flattening has one batch
-- for each time round its loop, and Flatten/Service/Walk says how many are enough. A client of a
-- ledger asks for as many pages as it has fuel, and Api/Reading says how many are enough. A collection
-- has a depth, the calls that the stack has room for, and at depth 0 it is the `RecursionError`; a bundle of
-- plain sources takes a depth of 2.
--
-- Not modelled: HTTP, SQL and its engines, logging, the encodings of the standard library, the
-- extraction by yt-dlp, the health pages and the wiring of the API, the command line, writes of files and commits
-- that fail, transactions that interleave (but for the late writes of Lifecycle), the mapping of
-- raw dictionaries to the payloads of the other sources, and the parts of the program that no file
-- above names.
pub mod Base
pub mod Json
pub mod Keyed
pub mod Keyset
pub mod Keys
pub mod Api
pub mod Payloads
pub mod Collection
pub mod Versions
pub mod Errors
pub mod Models
pub mod Floats
pub mod Retrying
pub mod Queue
pub mod Egress
pub mod Health
pub mod Registry
pub mod Worker
pub mod Lifecycle
pub mod Artifacts
pub mod Flatten
pub mod Webhooks
pub mod Retention
pub mod Tests
pub mod Transfer
pub mod Transcript
pub mod Texts
pub mod Identifiers
pub mod Watchlist
pub mod Renderers
