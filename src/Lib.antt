-- ===== src/Lib.antt =====
-- macevery: a file index for macOS that is searched by name and kept up to date by FSEvents. This
-- library models the core of the watcher (src/watch.rs), of the search (src/search.rs), of the service
-- that answers searches over HTTP (src/server.rs), and parts of the database (src/db.rs) and of the
-- scanner (src/scanner.rs).
--
-- The watcher. FSEvents' callback pushes events into an inbox, and a worker takes batches from it,
-- scans what they ask for, and stores the id of the last event in the database, so that a later start
-- goes on from there.
--   Watch/Event.antt: flags, `FsEvent`, `EventSample`, `action_for_flags`.
--   Watch/Filter.antt: `EventFilter::accepts`, `is_ignored_event_path`; Scanner/Exclude.antt has
--     `ExcludeMatcher` of src/scanner.rs.
--   Watch/Counts.antt: `RawEventCounts` with `record` (here record_flags) and `merge`.
--   Watch/Fold.antt: `fold_refresh_paths`; Paths.antt has what it uses of `std::path::Path`.
--   Watch/PathMap.antt: the `BTreeMap`s keyed by paths, as lists of entries with capacities.
--   Watch/Pending.antt: `PendingWork` and its operations, `subtree_targets`.
--   Watch/Inbox.antt: `EventInbox`. Each call holds the lock, so it is one step on the state.
--   Watch/Process.antt: `process_pending_logged` (here process_pending), `retain_incomplete`.
--   Watch/Checkpoint.antt: `persist_checkpoint_logged` (here persist_checkpoint),
--     `invalidate_wrapped_checkpoint`, `resolve_since_when`.
--   Watch/Worker.antt: `worker_plan_size`, `enforce_worker_plan_bound`, and one turn of the loop in
--     `spawn_processor`.
-- A turn of the worker merges the batch into the work, bounds the plan, invalidates a wrapped
-- checkpoint, scans, bounds what is left and writes the checkpoint.
--
-- The search.
--   Search/PathView.antt: `PathView` and its comparison.
--   Search/Glob.antt: `has_glob_syntax`, `glob_match`; Search/Glob/Matches.antt has the relation that it
--     is held against.
--   Search/Owned.antt: `OwnedRankedHit`, `OwnedTopHits`, with the rows of src/db.rs and the records of
--     src/model.rs; Search/Heap.antt has the bounded heap that it uses.
--   Search/Finder.antt: `ShortFinder` and `Finder`.
--   Search/PreparedGlob.antt, Search/Fuzzy.antt, Search/Query.antt: `PreparedGlob`, `fuzzy_score`,
--     `PreparedPathFilter` and `PreparedQuery`.
--   Model/Kind.antt, Model/Tokens.antt, Model/Filter.antt, Model/Options.antt: the kinds of files, the
--     tokenizer, the inline filters and `SearchOptions` of src/model.rs.
-- A query is parsed as a list of characters and encoded as UTF-8 when it is prepared; all other text is
-- a list of bytes. A heap is the list of its elements in ascending order.
--
-- The service. It keeps an index of the database in memory, refreshes it before a search, and answers
-- requests in threads, within a number of slots.
--   Server/Percent.antt, Server/Json.antt: `percent_decode`, `parse_query`, `search_results_json`.
--   Server/Request.antt, Server/Request/Options.antt, with what carries a token in
--     Server/Request/Token.antt: `read_request`, `request_has_valid_token`,
--     `split_target`, `parse_search_options`.
--   Server/Handle.antt, Server/Status.antt: `handle_stream`, from the text of a request to the response,
--     and `status_json`.
--   Server/Backend.antt: `BackendPreference`, `select_backend` and the estimates.
--   Server/State.antt, Server/State/Load.antt: `ServiceState`, `load_backend`, `full_reload_with_capture`.
--   Server/State/Apply.antt, Server/State/Refresh.antt: `apply_delta_with_method`,
--     `reload_if_changed_with_limits` (here reload_if_changed), `ensure_fresh`.
--   Server/Slots.antt: `try_acquire_request_slot`, `ActiveRequestGuard`, `SearchSlots`, and
--     `TrafficCounters` of src/serve_memory.rs. A list says which thread takes the next atomic operation.
-- The packed index (src/compact_index.rs, not modelled) is an interface: its type, its length, its
-- search, and what it answers when changes are applied; nothing is assumed of them. `Result` has its
-- error as a text.
--
-- The database.
--   Database/Prefix.antt: `path_prefix_bounds`, with the condition of DELETE_PATH_PREFIX_SQL.
--   Database/Like.antt: `escape_like`, `glob_to_like`, `path_filter_like`.
--   Database/Seen.antt: `SeenIds`; a word's bits are taken by its binary digits.
--
-- Loops: `glob_match` has (|text| + 1) * (|pattern| + 1) rounds of fuel, since between two returns to a
-- star the pattern position grows, and each return moves on in the text. The comparison of `PathView`
-- has five rounds, since each round but the last exhausts one of four slices. The loops of the finders
-- have as many rounds as there are offsets or bits. The decimal digits of an integer of 64 bits have 20
-- rounds, since it has at most 20 digits.
--
-- Paths are bytes of UTF-8, as FSEvents gives them, so that `to_string_lossy` leaves a path that is to be
-- scanned again as it is. The names that are held against the patterns of `ExcludeMatcher` are
-- characters, and there `to_string_lossy` is an argument. Differences of times in scores wrap as `i64`
-- does in a release build.
--
-- What the code gets from outside is an argument: the results of the scans, which calls of the
-- database succeed, the clock, the hash, `to_lowercase`. Not modelled are logs and waits, threads
-- but for the slots, the bindings of FSEvents and SQLite, the file-system walk, the choice among
-- the index passes of `search`, `TopHits`, sockets, the sampler of src/serve_memory.rs, the
-- statements of src/db.rs, and src/compact_index.rs and src/cli.rs as a whole.
pub mod Prelude
pub mod Search
pub mod Paths
pub mod Model
pub mod Watch
pub mod Server
pub mod Database
pub mod Scanner
pub mod Samples
