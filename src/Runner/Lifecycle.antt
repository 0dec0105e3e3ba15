-- ===== src/Runner/Lifecycle.antt =====
-- Runners as the supervisor keeps them (src/state.rs), and what each operation of
-- src/process/manager.rs and src/process/orphan_scan.rs writes to a runner under its lock. A child
-- process is the number of its handle; instants are nanoseconds.
pub mod Start
pub mod Stop
pub mod Confirmed
pub mod Restart
pub mod Restarted
pub mod SamePlace
pub mod World
pub mod Final
mod Tests
use text.Mathlib.Text.{starts_with}
use qontinui_supervisor.Prelude.{
  ℕ, String, Bool, true, false, not, Option, none, some, List, ◌∷◌, ◌&&◌, is_some, eqb,
  if◌then◌else◌, string_eq,
}
use qontinui_supervisor.Prelude.Assoc.{get, insert}
use qontinui_supervisor.Logs.{LogState}
use qontinui_supervisor.Binaries.{BuildProvenance}
use qontinui_supervisor.StoppedCache.{RecentPanic, Managed, Cache}

pub record RunnerState : Type 0 where
  pub process : Option ℕ
  pub running : Bool
  pub started_at : Option ℕ
  pub restart_requested : Bool
  pub stop_requested : Bool
  pub pid : Option ℕ

abbrev pub same_bool : Bool → Bool → Bool
same_bool true b = b
same_bool false b = not b

unfoldable pub new : RunnerState
new = record {
  process = none;
  running = false;
  started_at = none;
  restart_requested = false;
  stop_requested = false;
  pid = none;
}

-- The last critical section of a start.
unfoldable pub publish_start : Option ℕ → Option ℕ → ℕ → RunnerState → RunnerState
publish_start child pid now r = record r {
  process = child;
  running = true;
  started_at = some now;
  pid = pid;
  stop_requested = false;
}

-- `runner.process.take()` of the exit monitor.
unfoldable pub take_process : RunnerState → RunnerState
take_process r = record r { process = none }

-- The exit monitor after the process is gone; it reads `stop_requested` in the same section.
unfoldable pub observe_gone : RunnerState → RunnerState
observe_gone r = record r { running = false; process = none; pid = none }

unfoldable pub request_stop : RunnerState → RunnerState
request_stop r = record r { stop_requested = true }

-- After the process on the port of a runner without a pid has been killed, or the port of a runner
-- that should be running has been found free.
unfoldable pub forget_orphan : RunnerState → RunnerState
forget_orphan r = record r { pid = none; running = false }

-- The reset of a confirmed stop, which keeps `stop_requested`.
unfoldable pub publish_stop : RunnerState → RunnerState
publish_stop r = record r { process = none; running = false; started_at = none; pid = none }

-- The health check of a runner that the supervisor only observes: `running` follows the answer of the
-- runner's API.
unfoldable pub sync_health : Bool → RunnerState → RunnerState
sync_health runner_responding r =
    if same_bool r.running runner_responding
    then r
    else record r { running = runner_responding; pid = if runner_responding then r.pid else none }

-- The recovery of its pid from the port, for one that responds.
unfoldable pub recover_pid : ℕ → RunnerState → RunnerState
recover_pid pid r = if is_some r.pid then r else record r { pid = some pid }

-- `adopt_pid_into_registry`
unfoldable pub adopt_pid : ℕ → ℕ → RunnerState → Bool × RunnerState
adopt_pid pid now r = if is_some r.pid && r.running then (false, r) else (
  true,
  record r {
    running = true;
    pid = some pid;
    started_at = if is_some r.started_at then r.started_at else some now;
    stop_requested = false;
    restart_requested = false;
  },
)

-- The fields that these operations read or write.
pub record ManagedRunner : Type 0 where
  pub id : String
  pub name : String
  pub port : ℕ
  pub is_primary : Bool
  pub runner : RunnerState
  pub logs : LogState
  pub recent_panic : Option RecentPanic
  pub early_log_path : Option String
  pub panic_log_dir : Option String
  pub build_provenance : Option BuildProvenance  -- of the exe that the last start resolved

-- What a snapshot reads of it.
abbrev pub managed : ManagedRunner → Managed
managed m = record {
  id = m.id;
  name = m.name;
  port = m.port;
  logs = m.logs;
  recent_panic = m.recent_panic;
  early_log_path = m.early_log_path;
  panic_log_dir = m.panic_log_dir;
  started_at = m.runner.started_at;
}

pub data RestartSource : Type 0 where
  manual watchdog : RestartSource

-- The errors that these operations give themselves, and one of those that a build can give.
pub data SupervisorError : Type 0 where
  runner_already_running : SupervisorError
  runner_not_found process validation build_failed : String → SupervisorError

-- The events of a restart, less the times they carry.
pub data DiagnosticEventKind : Type 0 where
  restart_started restart_completed : RestartSource → Bool → DiagnosticEventKind
  restart_failed : RestartSource → SupervisorError → DiagnosticEventKind

-- The part of the supervisor's state that these operations change. A runner lies in a cell of its
-- own (an `Arc`), which tasks hold on to after the registry has dropped its id.
pub record SharedState : Type 0 where
  pub runners : List (String × ℕ)
  pub cells : ℕ → ManagedRunner
  pub runner : RunnerState  -- the legacy state of the primary
  pub stopped_runners : Cache
  pub diagnostics : List DiagnosticEventKind

pub data Result (A : Type 0) : Type 0 where
  ok : A → Result A
  err : SupervisorError → Result A

-- The write of one runner.
abbrev pub write_cell : ℕ → ManagedRunner → SharedState → SharedState
write_cell a m s = record s { cells = λ b. if eqb a b then m else s.cells b }

abbrev pub modify_runner : ℕ → (RunnerState → RunnerState) → SharedState → SharedState
modify_runner a f s = write_cell a (let m = s.cells a in record m { runner = f m.runner }) s

-- The legacy state follows, if the runner is the primary.
abbrev pub modify_legacy : Bool → (RunnerState → RunnerState) → SharedState → SharedState
modify_legacy is_primary f s = if is_primary then record s { runner = f s.runner } else s

-- `entry(k).or_insert(v)`
unfoldable pub or_insert : String → ℕ → List (String × ℕ) → List (String × ℕ)
or_insert k v m = if is_some (get k m) then m else insert k v m

-- The ids that a stop removes from the registry.
unfoldable pub is_test : String → Bool
is_test id = starts_with id "test-"
