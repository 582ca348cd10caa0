-- ===== src/Lib.antt =====
-- ya-disk-sync: a one-way synchronisation of local directories to Yandex Disk.
--
-- The program scans each configured root, makes a live plan of what is there, compares it with the
-- inventory of the remote side and then, in this order, creates directories, uploads files and
-- deletes what is remote only. The model covers the decisions of this chain; what it calls at its
-- edges (file system, database, HTTP client, crates) is a parameter whose answers are arbitrary.
--
-- Files, with the paths of the repository that they model:
--
--   Base, Base/*          lists, tests, results, 64-bit words and texts; no code of the program
--   Core/PathMapping      crates/yds-core/src/path_mapping.rs: canonical_remote_path,
--                         sanitize_remote_path, local_path_segments and their helpers
--   Core/Exclusions       crates/yds-core/src/exclusions.rs: ExclusionMatcher::new (new_matcher),
--                         decision_for_path
--   Core/Config           crates/yds-core/src/config.rs: the records
--   Core/Validation       crates/yds-core/src/config.rs: validate_config and all its parts
--   Disk                  crates/yds-yandex-disk/src/models.rs and error.rs: resources, error kinds,
--                         classify_http_status
--   Disk/Client           crates/yds-yandex-disk/src/lib.rs and error.rs: answers and their errors,
--                         RetryPolicy, and the surroundings of the client
--   Disk/Send             the same files: send_authorized, send_authorized_json, the renewal of a
--                         token
--   Disk/Requests         the same files: create_directory_inner, upload_inner, send_upload_source,
--                         delete_permanently_inner, poll_operation_inner; the other files there
--                         hold proofs
--   Scanner               crates/yds-scanner/src/lib.rs: the data of a scan report
--   Scanner/Entries       the same file: fingerprint_path, exclusion_decision, directory_entry
--   Scanner/FileEntry     the same file: file_entry, in parts (sized_file, by_previous,
--                         changed_file, fingerprinted)
--   Scanner/Walk          the same file: handle_walk_entry, Scanner::scan_root
--   State                 crates/yds-state/src/models.rs: the records for the database
--   State/RunLock         crates/yds-state/src/lib.rs: try_acquire_run_lock, heartbeat_run_lock,
--                         release_run_lock
--   Sync/LivePlan         crates/yds-sync/src/lib.rs: LiveScanPlan (from_scan_report,
--                         register_missing_local_path, add_deleted_subtree as add_subtree)
--   Sync/Inventory        the same file: the inventory map, relative_remote_path, conversions
--   Sync/Deletes          the same file: collect_coalesced_delete_operations; its loop body is
--                         collect_step, with collect_unknown and collect_at for its last parts
--   Sync/Plan             the same file: build_root_plan, local_remote_collision
--   Sync/Batch            the same file: take_upload_batch
--   Sync/Summary          the same file: add_root_summary, status_from_summary, is_stop_error
--   Sync/Engine           the same file, over the calls of Engine/World: run_once (Run/Once),
--                         execute_run (Run), execute_root (Execution), remote_inventory
--                         (RemoteInventory), apply_create_directories (Directories), apply_uploads
--                         (Uploads), apply_deletes (Deletions), fail_root and the other ends of a
--                         root (Roots), JoinSet (Tasks), and the scanner's cleanup_staging_files
--                         and record_scan_findings (Staging); the other files there hold proofs
--   Service               crates/yds-service/src/lib.rs: DailyUtcSchedule (parse, next_after)
--   Examples              tests, and the theorems at concrete inputs
--
-- How state and data correspond to the code:
--
--   * A text is the list of its code points; the order of texts is that of Rust's strings. A local
--     path is the list of its components, the last first. Numbers are natural; an i64 stands as its
--     bit pattern and its sums wrap modulo 2 ^ 64, as do those of a u64.
--   * A BTreeMap is a list of pairs sorted by key, a set a list of which membership is asked, and
--     sort_by a stable insertion sort. A LiveScanPlan that the code changes in place is returned.
--   * The engine is a monad of actions over the history of calls (Base/Exec, Engine/World). An
--     Environment answers each call from the history before it, so a theorem over all environments
--     covers each behaviour of the database, of the remote side and of whoever cancels the run.
--   * A task of a JoinSet is started where the code spawns it, and its request to the remote side is
--     an event there; the Environment chooses which task is joined next and how each one ended, so
--     every interleaving of a batch is covered. A JoinSet that is left early drops its tasks.
--   * The report that run_once hands down to be changed is returned with the error that ended the
--     loop over the roots, since it is kept; its list of planned operations is left out.
--   * What the crate ignore visits is a tree of visits in any order (Visits); what lies in a directory
--     is passed over where the visitor answers so. The Mutex around a report is its sequence.
--   * The strings of a root's status are a data type, RootStatus.
--   * Lower case over Unicode, decimal printing, the crate ignore, conversions between texts and
--     paths and the file system's answers are fields of records (Platform, Outside, IgnoreCrate,
--     FileSystem) that the definitions take.
--   * A moment of the scheduler is the number of nanoseconds since some midnight of UTC.
--   * The migration to which run_once may leave its work is a parameter of run_once, any action at all
--     on the same history; whether the run does so is must_migrate.
--
-- The client is a monad of actions over its own history of requests (Disk/Client); its loops are
-- recursions on the number of attempts that are left. How often an operation is polled before the
-- clock passes the timeout is an answer of the surroundings (polls_in_time).
--
-- Two loops are bounded by a number, the batches of directories of one depth (create_rounds) and the
-- batches of uploads (upload_rounds): the number is that of the pending items, and each round takes
-- at least one of them. Engine/Rounds is about these bounds. The loop that joins the tasks of a batch
-- counts them. Every other loop is a recursion on the list or path that it walks.
--
-- Not modelled: the migration itself (crates/yds-sync/src/migration.rs);
-- the threads of the walk, the hashing and the SQLite backup (crates/yds-scanner); SQL, apart from
-- the run lock (crates/yds-state); HTTP itself, the parallel listing, downloads, moves, the mock
-- client and the storage of tokens (crates/yds-yandex-disk); the service but for its schedule, the
-- web pages, the command line and the platform calls (crates/yds-service, yds-web, yds-cli,
-- yds-windows, yds-linux), which are input and output; reading, writing and the defaults of the
-- configuration.
pub mod Base
pub mod Core
pub mod Disk
pub mod Scanner
pub mod Service
pub mod State
pub mod Sync
pub mod Examples
