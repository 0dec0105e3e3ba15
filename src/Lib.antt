-- ===== src/Lib.antt =====
-- Models of the core of qontinui-supervisor, the supervisor of the Qontinui runners, and theorems
-- that make it correct.
--
-- The supervisor starts runners as child processes, watches them, builds them on demand and serves
-- all of this over HTTP. The parts modelled here, and how they meet:
--
-- * Submission (src/build_submissions.rs, with the key of src/cache_key.rs and the event of
--   src/cache_telemetry.rs): a submitted build waits for a permit of the build pool, asks the
--   artifact cache, runs cargo and ends in a terminal status, which clients poll by its id. Store is
--   `BuildSubmissionStore` with `new`, `insert` and `get`; Actions is `submit_spawn` and
--   `submit_detached`; Cargo is `run_submission` in the order of the source. World puts the tasks of
--   all submissions side by side: `Step` is what one task does under one lock, in any order of the
--   tasks, and `Reach` are the worlds reached from the empty store. Every submission lies in a cell
--   of its own, as its `Arc` outlives its entry in the map.
-- * Runner.Watchdog (src/process/manager.rs, src/state.rs, src/routes/runners.rs): the exit of a
--   runner is answered by `decide_crash_restart`; `observe_exit` is the part of
--   `maybe_crash_restart` under the watchdog's lock, and `control_runner_watchdog` the operator's
--   command. Window runs sequences of exits and commands.
-- * Runner.FirstHealthy and Runner.Reap (src/process/manager.rs): `watch_first_healthy` polls a new
--   runner until its deadline, and the last part of `stop_runner_by_id` confirms that the port is
--   free before a stop is reported.
-- * Runner.Lifecycle (src/process/manager.rs, src/process/orphan_scan.rs, src/state.rs): what each
--   operation writes to a runner under its lock. Start, Stop and Restart compose these to
--   `start_managed_runner`, `stop_runner_by_id` and `restart_runner_by_id`, with the registry, the
--   legacy state of the primary, the cache of stopped runners and the diagnostics. World puts
--   starts, exit monitors, scheduled restarts, stops, reaps, health checks (src/health_cache.rs) and
--   adoptions of one runner side by side.
-- * Runner.Orphans (src/process/orphan_scan.rs): the scan at startup adopts or kills the processes that
--   an earlier supervisor left.
-- * Runner.Purge (src/routes/runners.rs, src/process/manager.rs): the purge on request, a round of the
--   periodic reaper and the removal of one runner take runners out of the registry and put their
--   snapshots into the cache of stopped runners.
-- * BuildPool (src/state.rs, src/build_monitor.rs, src/routes/runner.rs): builds take a permit, claim a
--   slot, and give both back. Permits puts all builds side by side, with those of
--   src/build_submissions.rs, which hold a permit and no slot, and with `reset_build`, which releases all
--   slots by force. A step is what one task does under the lock of one slot, so a claim and a forced
--   release take one step for each slot. BuildPool.History is `SlotHistory` with the tails of texts that
--   it keeps; a text is its bytes there.
-- * Binaries (src/process/manager.rs, src/build_monitor.rs, src/state.rs, src/config.rs): which exe a
--   start deploys. Binaries itself picks the slot and compares the provenance of the slots, Start is the
--   gate and the part of `start_exe_mode_for_runner` that finds the exe. Lkg is the promotion of an exe
--   to the last known good one, `update_lkg_after_success`, and Lkg.Builds puts all builds side by side,
--   each step with the mark whether it claims a slot that another build has not finished with. An exe
--   carries the tree that it was built from, which no operation reads.
-- * LkgCoverage (src/routes/lkg_coverage.rs): whether the last known good exe contains given files. Params
--   reads the paths from the query, the module itself resolves them and builds the response. A path is
--   its components.
-- * SpawnWorktree (src/spawn_worktree.rs): the sweep that removes the scratch worktrees of spawned
--   runners after their retention; the report that it returns is the whole effect, and a directory is
--   its entry in the listing.
-- * ArtifactCache (src/bazel_remote.rs, src/build_submissions.rs): a clean build puts its artifact and
--   an action result into the cache (`populate_cache`), and a later build with the same key takes
--   them out (`try_materialize_hit`), over the wire format of Reapi.
-- * DevAction (src/dev_action/policy.rs, src/dev_action/expectations.rs): the forecasts for an action
--   decide whether it is routed to the last known good binary. Its States
--   (src/dev_action/states.rs) are the dev-states that an action records: `evaluate_all` over one
--   snapshot of the files.
-- * CacheTelemetry (src/cache_telemetry.rs): the counters that the events of build submissions feed.
-- * StoppedCache (src/process/stopped_cache.rs, the type of src/process/panic_log.rs): the snapshots
--   of stopped runners, which read the log buffers. `insert_and_evict` expires and trims.
-- * Logs (src/log_capture.rs): `LogState` with its two ring buffers, and `PanicBuffer`.
-- * Reapi (src/reapi.rs): the wire format of cached action results. Wire is the varints, tags and
--   the `Decoder`; the module itself is `encode` and `decode` of the three messages.
-- * SymbolWatcher (src/symbol_watcher/): diffs of a file's symbols (diff.rs), and the claims that
--   saves, deletions and idle sweeps acquire and release (mod.rs, the requests of coord_client.rs).
--
-- Prelude holds what they share: Boolean tests, lists measured by native numbers, hash maps as lists
-- of entries, a stable sort, bounded buffers and instants in nanoseconds.
--
-- Bounds and fuel. A varint is written with fuel 10, as a 64-bit number has ten groups of seven bits
-- at most. The decoding loops have the number of bytes left as fuel, as each tag takes a byte; the
-- trim loop has the number of entries, as each round drops one; the search for a repository has the
-- depth of the path; the reap has four attempts, and the first-healthy watch one poll for each three
-- seconds up to its deadline; the loop that moves a cut to a character has the length of the text.
-- Machine integers keep their wrap-around where the source can reach it.
--
-- Parameters: JSON values (`Json`), UTF-8 (`Utf8`), the file system and paths (`FileSystem`), the
-- extraction of symbols by tree-sitter, the cache server (`Remote`, `Keeps`), the hash, floats with
-- their total order
-- (`Float`), the clock, std::path and the repair of invalid UTF-8 in LkgCoverage, and what the cache, the semaphore and the child process answer to one run (`Surroundings`), a start
-- (`Launch`) and a stop (`Stopping`). Each record states the documented laws it relies on.
--
-- Not modelled: the HTTP routes and the server (glue around axum), the child processes and ports
-- (calls of the operating system), the making of worktrees and git, the evaluation and velocity jobs, configuration
-- from the environment, and the frontend. Of a start, the copy of the exe and the environment of the
-- child are not modelled; nor are the build itself, the averages
-- of durations and the hit rates (floating point). A duration stays in whole milliseconds where the
-- source divides by 1000.0.
pub mod Prelude
pub mod Logs
pub mod Runner
pub mod StoppedCache
pub mod Submission
pub mod Reapi
pub mod SymbolWatcher
pub mod BuildPool
pub mod CacheTelemetry
pub mod DevAction
pub mod ArtifactCache
pub mod Binaries
pub mod LkgCoverage
pub mod SpawnWorktree
