-- ===== src/Lib.antt =====
-- A model of HotMem, the memory store for agents, and the proofs of its policy boundary,
-- of its replication by deltas and by replayed events, and of the promotion of memories.
--
-- The program is a daemon over one SQLite store. A request is resolved to a caller and a scope
-- (src/hotmem/policy.py), which decide what it reads, where it writes and what of a row it may see.
-- Stores are brought in step by deltas (src/hotmem/interchange/delta.py): the differences between the
-- records of a base package and a store's rows, applied elsewhere by compare-and-swap.
--
-- Policy models src/hotmem/policy.py. Policy/Validation has the request fields (`validate_context_field`,
-- `validate_envelope_version`, `validate_request_tags`), Policy/Grants the credentials and share
-- approvals, Policy/Context the methods of `CallerContext`, Policy/Config those of `PolicyConfig`. A
-- Python `raise PolicyError` is the `err` of a `Result`; the messages of errors are left out. Rows and
-- request values are `Json.Value`s, a dictionary is an association list.
-- Policy/Platform has what the code calls of Python's library and does not implement: SHA-256, JSON,
-- `str` of a value that is no text, and `str.lower`.
--
-- Policy/Attribution has the checks of a write's session, harness and source, Policy/Redaction the
-- redaction of texts and JSON values (src/hotmem/handoff/redact.py), with the count and the
-- substitution of each pattern as parameters since Python's re module does the matching, and
-- Policy/Disclosure has `apply_disclosure_to_row`, with the tests of a private row in its child
-- Classified and the redacted copy in its child Secrets; its report is passed in and out.
--
-- Delta models src/hotmem/interchange/delta.py and what it uses of src/hotmem/db.py. Delta/Store has
-- the rows (key, namespace, content hash, and the other columns as one dictionary), `get_memory`,
-- `find_by_namespace_and_hash` and the `INSERT OR REPLACE` of `MemoryDB.insert`, with the key and the
-- unique index on (namespace, content_hash). Delta/Produce has the diff of `produce_delta`, Delta/Apply
-- the body of `apply_delta` after `verify_delta`: the loop, whose local variables are a `Progress`, and
-- the commit or rollback, on a `Connection`, which has what is committed and what the statements of the
-- open transaction have made of it. An operation is an `Op`; a list of them is the file that `verify_delta` has
-- checked. Delta/Codec is the interface to src/hotmem/interchange/record.py, fingerprint.py and
-- compat.py, a parameter of the model. No law is assumed of it: a theorem that needs a row to come back
-- the same when it is written from its record has that as a condition on the row (`IsStable`). The only
-- exception inside the loop that is modelled is that of `normalize_record`; a failing statement, an
-- embedding that cannot be resolved and a stored row that cannot be normalized are left out. Both loops
-- are structural recursion on a list.
--
-- Lifecycle models src/hotmem/lifecycle.py: `transition` and `mark_candidate`, over an interface to
-- `update_memory_record` of src/hotmem/events.py, of which nothing is assumed.
--
-- Events models `apply_event_range` of src/hotmem/events.py. The first pass, which is
-- `_validate_and_plan_event_step` for each event, changes nothing in the store: Events/Header has the
-- checks of every event, Events/Image those of the record that a creation or an update carries,
-- Events/Move the decision on a creation, an update and a deletion, and Events/Plan the changes of the
-- simulated target (`advance`) and the loop (`plan_events`). The dictionaries and sets of the loop are
-- the record `Sim` of Events/State, with functions for dictionaries; Events/Candidates fills them from
-- the target (`_load_target_replay_candidates`). Events/Target has the target's tables, the statements
-- of src/hotmem/db.py that a replay runs and `_event_to_memory_record`; Events/Apply the second pass
-- with its page of waiting records, and Events/Range both passes in one transaction. What the replay
-- uses of src/hotmem/memory.py and src/hotmem/interchange is the record `Rules`, and what Python and
-- SQLite's driver do with a value is the record `Driver`; both are parameters and need no laws here.
-- The loops are structural recursion on the list of events; a page holds 1000 records, and no theorem
-- depends on that number.
--
-- Inspectors/Varint models the integers of src/hotmem/inspectors/_thrift.py and their writer in
-- tests/_parquet_fixtures.py. A buffer behind its position is a list of bytes; the loop is structural
-- recursion on it, and the writer's is recursion on the number of groups, of which 10 hold 64 bits.
--
-- Log models the event log of src/hotmem/db.py and the parts of src/hotmem/events.py that write, trim,
-- read and compact it. Log/Tables has the tables (`Database`) and their statements, Log/Trim the two
-- trims, Log/Ledger the operation ledger, Log/Append `append_event`, Log/Delete `delete_memory_record` in a
-- transaction of its own (`_commit` is true), whose statements change the open side until the commit or
-- the rollback, Log/Compact `compact_tombstones`, Log/Cursor the
-- construction of a `ReplayCursor` from its decoded fields and `validate_replay_cursor` without a
-- target, and Log/Stream `query_events` and the stream `replay`, whose yields are a list. Its loop over
-- pages of 500 events runs on a number of rounds, one more than there are events, which is shown to be
-- enough. Log/History has the calls as steps between databases, and runs of them. The ids that
-- `uuid.uuid4` draws, the clock and the digest of a request are arguments.
--
-- Search models `search_memories` of src/hotmem/search.py for one query: its child Candidates has the
-- vector index, its fallbacks and the row filter, Ranking the scores, their order and the second stage,
-- and Search itself the row transformation and the messages under a budget of characters. The rows that
-- the SQL queries return, the index's hits and any reranker are arguments, as are the floating-point
-- numbers (`Floats`).
-- Search/Rerank models src/hotmem/rerank.py: the identity and the MMR reranker and the check of an
-- output. The rounds of MMR count down from the number of candidates that are still wanted.
-- Search/Scoped composes the search with the policy, as `search` of src/hotmem/runtime.py does: the row
-- filter, the transformation with its errors, and the second run without the index. The report of the
-- disclosures and the counts of the answer are left out.
--
-- Not modelled: the files of a package, manifests and digests, time stamps and traces. The
-- transaction of `apply_event_range` is the target before or after the call.
pub mod Prelude
pub mod Json
pub mod Connection
pub mod Policy
pub mod Delta
pub mod Lifecycle
pub mod Events
pub mod Inspectors
pub mod Log
pub mod Search
