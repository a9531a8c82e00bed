-- ===== src/Lib.antt =====
-- Verification of the parts of NSFWTrack, a self-hosted media tracker in Python, that decide what may
-- change: the queue of persistent tasks, the registry of provider switches, the lock and the
-- bookkeeping around every change of the media tree, the parsers of playback manifests, the pool of
-- egress proxies, the merge of video metadata, the update of an item from its source, and the signed
-- index of the media tree. Each is a module with its state, its operations and its proofs. Update works
-- on the task tables through the service of Tasks, and Index.Coordinated puts the media index under the
-- coordination of Media; the other modules do not call each other, the web layer and the other services
-- call them.
--
-- Base holds what the modules share: Boolean tests on native numbers, lists, rows of a table, Python's
-- integers (Base.Ints) and its stable sort (Base.Sorted, Base.Sorts), and tests between the members of a
-- list (Base.Pairwise).
--
-- Tasks is app/tasks. Tasks.Contracts is contracts.py, with the transition table. Tasks.Store has the
-- rows `OperationTask` and `TaskEvent` of app/models.py and the tables as a session sees them.
-- Tasks.Service, Tasks.Leases and Tasks.Control are `PersistentTaskService` of service.py: `create`,
-- `get` and `transition`; `acquire_lease`, `heartbeat` and `mark_verification_unknown`;
-- `request_cancel`, `retry`, `recover_interrupted`, `delete_history` and `cleanup_history`. A method
-- takes the tables and gives its result and the tables: `ok`, `err` for a `TaskServiceError`, `fault`
-- for an exception of the database. A method that reads and then writes takes a function on the
-- tables, which stands for all that other sessions commit in between; `recover_interrupted`, which the
-- start-up runs before any other call, takes none. Tasks.Reach is the step relation of such calls. The other modules are named for what they prove.
--
-- Runtime is app/provider_runtime. Runtime.Contracts and Runtime.Store have the code-owned definitions
-- and the views of service.py and the row of app/models.py; Runtime.Registry has the writes of
-- `ProviderRuntimeRegistry`; Runtime.Catalog has `enabled_ready_keys`, and `build_runtime_catalog` and
-- `run_runtime_health_check` of catalog.py. The clock and the cookie that `load_javdb_session_cookie`
-- reads are the environment of a call. What a package factory and its probe do is a parameter.
--
-- Media is app/services/media_operation_lock.py (Media.Identity, Media.Lock) and
-- app/services/media_write_coordination.py (Media.Classify, Media.Coordination). The operating system
-- is a record of the answers it gives in one use of the lock. The media index, which the coordination
-- refreshes or invalidates, is the interface `MediaIndex`, with the laws of Media.Trust.
--
-- Index is app/services/media_index.py. Index.Contracts has the rows and the state of app/models.py and
-- their signatures; Index.Load is `_load_index_snapshot`; Index.Rows the rows that are written;
-- Index.Invalidate `invalidate_media_index`; Index.Status `get_media_index_status` and
-- `load_preferred_media_snapshot`; Index.Failure `_record_scan_failure`; Index.Diff, Index.Refresh and
-- Index.Run are `refresh_media_index`. The two scans of app/services/local_media.py, each of which may raise, the operations on
-- paths and the JSON of skips and changes are records of functions, and hmac is a function of the
-- payload. A `MediaIndexStatus` carries the state whose columns it repeats.
--
-- Playback is app/playback/hls.py: Playback.Text has the text operations, Playback.Urls `_approved_url`
-- and the attribute readers, Playback.Manifest `parse_hls_manifest`, whose loop is a fold over the
-- lines, and Playback.Lines `parse_playback_lines`. What `urlparse`, `urljoin`, `int`, `float`, `lower`
-- and `upper` do is a record of functions, over which the theorems quantify.
--
-- Egress is app/egress/pool.py. Egress.Contracts has its dataclasses; Egress.Probe and
-- Egress.Quality what a probe makes of the answers of the network, which are arguments
-- (`probe_exit_ip`, `resolve_geo`, `check_proxy_quality`); Egress.Pool the methods of `ProxyPool`;
-- Egress.Config `from_dict` and the dictionary that `save` writes, where a JSON value is absent, of
-- a wrong type or given. The methods of str and the parts of `urlparse` are the record `Py`.
-- Messages of errors are shortened.
--
-- VideoMetadata is app/video_metadata/merge.py: VideoMetadata.Values has the values of fields, with
-- `_present` and `_same_identity`, VideoMetadata.Merge `build_video_metadata_merge_plan`. A value is a
-- text, an object with an identity, a tuple, or a scalar up to equality. The test that a text is not
-- blank is an argument.
--
-- Update is app/source_update/service.py. Update.Contracts has the rows of app/models.py and the
-- plan; Update.Plan is `build_manual_update_plan`; Update.Token the signing and verifying of a
-- plan; Update.Verify the three independent readings; Update.Apply and Update.Closing
-- `apply_manual_update`, up to its first commit and from there; Update.Check
-- `execute_source_check`. Hashes, hmac, base64, JSON and ISO times are records of functions. A
-- commit is stored, lost, or raises although it was stored; what other sessions commit before each
-- reading is an argument; a transaction begun by BEGIN IMMEDIATE has no other writer. A source check
-- loads the source for its request, and the task and the item once the answer is there. `value_error`
-- is any exception that is not a `ManualUpdateError`. Update.Tables has the rows that a call which
-- nothing disturbs leaves at each step, Update.Steps the steps themselves. Update.Usable puts the
-- plan after the check, Update.Applied the application after the plan, and Update.Again after
-- itself; Update.Kept, Update.Preserves and Update.Invariant follow the task tables through both
-- calls.
--
-- Numbers and bounds. Times are whole microseconds in Tasks and Update, seconds in Egress, milliseconds
-- in Media, ISO texts in Index and of any unit in Runtime; ids and counters are natural numbers, and
-- numbers that come from files, from answers of the network and from `stat` are Python's integers, which
-- do not overflow. A negative argument of the task service, which the code refuses together with 0, is
-- represented by 0. One call reads the clock once. The only loop without a bound of its own is the wait
-- for a lock, `try_flock`: it has fuel, and Media.Wait shows that one attempt for each sleep of 25 ms in
-- the timeout and one more are enough.
--
-- Not modelled: the web layer, templates and texts, which are glue; the providers, the fetchers and the
-- HTTP transport, which are I/O on sites; sha256 and casefold, which are fields of the task service;
-- the flags of `open`; and the media file operations, acquisition, provider apply,
-- the validation of the metadata classes, and backup.
pub mod Base
pub mod Egress
pub mod Index
pub mod Media
pub mod Playback
pub mod Runtime
pub mod Tasks
pub mod Update
pub mod VideoMetadata
