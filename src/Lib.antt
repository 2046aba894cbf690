-- ===== src/Lib.antt =====
-- Project Memory Hub: the memories of coding agents, their compaction, and the receipts of what was
-- imported, as src/project_memory_hub keeps them in SQLite. In all files a path such as
-- storage/memories.py stands for src/project_memory_hub/storage/memories.py.
--
-- The parts. `MemoryRepository` (storage/memories.py) writes and reads the table of behavior memories.
-- `CompactionService` (services/compaction.py) takes the sources of one namespace from it, builds a
-- retrospective from them, and has the repository store it and make the sources cold in the same
-- transaction; it compacts the projects without a change for some days and then marks them inactive.
-- `CheckpointRepository` (storage/checkpoints.py) stores how far an adapter has read, with a receipt for
-- every record. `FactRepository` (storage/facts.py) keeps the observations of a project, and
-- `PromotionRepository` (storage/promotions.py) turns a memory into a fact of the project once somebody
-- approves it. `IssueResolutionRepository` (storage/resolutions.py) archives the open issues that a
-- capture declares resolved. All of them work in a transaction of storage/database.py. `RecallService`
-- (services/recall.py) searches the facts and the memories and writes what it finds into a brief that
-- stays within a number of tokens.
--
-- The files. Common holds the helpers: lists with a length in the native numbers (Lists), exceptions
-- and methods on a state (Exec), strict orders and the sort that `order by` and `sorted` stand for
-- (Order), slices of a fixed size (Batches). Text is Python's `str` as a list of code points; Text/Utf8
-- models utf8.py, Text/Cjk the ranges of services/tokens.py, Text/Terms `_tokens` of
-- storage/memories.py. Domain models domain.py, with the
-- float of a time stamp in Domain/Timestamp, Database the tables, and Database/Iso the order of the
-- timestamps that `_utc_iso` writes.
-- Memories models storage/memories.py: Prepare the validation of an input, Insert `insert`, Search
-- `search`, `list_scoped`, `get_scoped` and `get_by_id`, Lifecycle `set_lifecycle_scoped`, Namespaces
-- `list_compaction_namespaces`, Sources the choice of the rows of a compaction, Compact its writes.
-- Compaction models services/compaction.py: Counts the summaries, Entry `_truncate_utf8`, Plan/Search
-- the binary search of `_build_bounded_plan` over any construction, Plan/Build that construction,
-- Inactive the inactive projects and `_mark_inactive`, Service `compact`, Service/Project
-- `compact_project` and `compact_all_inactive`. Checkpoints models storage/checkpoints.py: Json the
-- canonical text of a cursor, Receipts the import receipts, Commit the checkpoints, Proofs the proofs of
-- earlier receipts.
-- Nesting models security/json_limits.py, the limit on nested JSON. Tokens models services/tokens.py,
-- Facts storage/facts.py (Rows the choice of the rows, Observe the writes, Search the query),
-- Promotions storage/promotions.py (Approval the approvals), and Resolutions storage/resolutions.py
-- (Apply the whole of `apply_on_connection`).
-- Recall models services/recall.py: the candidates in Recall itself, Rank their orders and the
-- removal of repetitions, Terms the terms of a text, Counter `_SafeTokenCounter`, Render the text of a
-- brief, Fit `_fit_mandatory`, Select `_select_candidates` and the removal of rows, Service `recall`.
-- A file named Laws, or by what it shows, holds theorems on its parent. Samples applies the theorems to
-- small inputs.
--
-- How code becomes definitions. A table is a list of typed rows in the order of the row ids, a
-- statement a function on it, and a method a function from a database to a result and a database
-- (`Exec`): an exception leaves what was written, and `transaction` takes it back. A UUID is its number,
-- an instant its microseconds, a confidence the bits of its float; the floats of a token estimate and of a
-- time stamp are rationals with the rounding to 53 bits written out; texts of UUIDs and enumerations
-- are compared by numbers in the same order. Columns hold values of their types, since every writer
-- checks a value before it stores it. Identifiers of `uuid4()` and times are arguments.
--
-- Bounds. `shrink` takes the candidate's length as its number of rounds and drops a character in each;
-- the scan of namespaces is bounded by its limit and the scan of projects by the number of projects,
-- of which each round passes one; the binary search has as many rounds as there are optional rows, and
-- each round makes its interval shorter; `digits` has one round more than the number; the walk over a
-- JSON value has one round for each member and each end of its iterators; `bisect` has as many rounds
-- as its interval has numbers, `enforce_mandatory_budget` one for each candidate and each character of
-- its limit, the loop that cuts a brief down one for each row, and the loop over the issues of a
-- declaration one more than there are memories, of which each round archives one. The token estimate
-- is that of the code for texts of up to 2 ^ 50 characters.
--
-- Parameters. SHA-256, `str.casefold`, `json.loads` and `datetime.fromisoformat` are functions of the
-- standard library that the definitions take as arguments; so are the redactor of
-- security/redaction.py, the failure signature with its regular expression, and the validation of a
-- `ProjectRecord`. The rank that SQLite's full-text index gives a row, the answers of a token counter,
-- numbered by its calls, and the project and the live identity of a directory are parameters of Facts
-- and Recall without any hypothesis. `IsExact` in Recall/Fit/Largest says that a counter always counts
-- with the same function. The only other hypothesis on one is `ReadsBack` in
-- Checkpoints/Commit/Conflict, that the JSON reader gives back the cursor whose text it reads.
--
-- Not modelled: opening and migrating the database, the temporary triggers that count receipt writes
-- (the count is a field of a connection in Checkpoints/Proofs), the table of projects with its paths,
-- capture, retries, proposals, adapters, discovery, the command line and the web interface.
-- The methods on a connection are modelled inside the transaction that they ask for: the test of
-- `in_transaction` at the start of `commit_on_connection` and of the import of a receipt is left out.
pub mod Common
pub mod Text
pub mod Tokens
pub mod Facts
pub mod Recall
pub mod Promotions
pub mod Resolutions
pub mod Domain
pub mod Database
pub mod Memories
pub mod Compaction
pub mod Checkpoints
pub mod Nesting
pub mod Samples
