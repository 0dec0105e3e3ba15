-- ===== src/Runner/Orphans/Tests.antt =====
-- A run of the model of src/process/orphan_scan.rs on two processes and one runner.
use qontinui_supervisor.Prelude.{
  ◌≡◌, refl, String, Bool, true, false, none, some, [], ◌∷◌, eqb, if◌then◌else◌,
}
use qontinui_supervisor.Logs.{new as new_logs}
use qontinui_supervisor.Runner.Lifecycle.{ManagedRunner, new, adopt_pid}
use qontinui_supervisor.Runner.Orphans.{
  adopted, Process, should_adopt_or_kill, freshest, is_pid, registered_pid, listening_port_for_pid,
  by_port, fate_of, decide_fate, ScanSummary, scan_orphans,
}
use qontinui_supervisor.Runner.Orphans.Adoption.{MayAdopt, ListensOnlyFor, decide_fate-MayAdopt}
use qontinui_supervisor.Runner.Orphans.Registry.{Scanned, scan_orphans-Scanned}

abbrev primary : ManagedRunner
primary = record {
  id = "primary";
  name = "primary";
  port = 9876;
  is_primary = true;
  runner = new;
  logs = new_logs;
  recent_panic = none;
  early_log_path = none;
  panic_log_dir = none;
  build_provenance = none;
}

abbrev no_temps : String → Bool
no_temps id = false

abbrev orphan : Process
orphan = record {
  pid = 4711;
  is_under = true;
  mtime = some 5000000000;
  sources = none ∷ some 6000000000 ∷ [];
  pid_on_port = λ port. if eqb port 9876 then some 4711 else none;
  kill_works = true;
  now = 70000000000;
}

abbrev stray : Process
stray = record orphan { pid = 4712; pid_on_port = λ port. none }

decide_fate-MayAdopt_example :
    (decide_fate no_temps orphan (primary ∷ []) ≡ adopted 0
      → MayAdopt no_temps orphan (primary ∷ []) 0)
    × (MayAdopt no_temps orphan (primary ∷ []) 0
        → ListensOnlyFor orphan (primary ∷ []) 0
        → decide_fate no_temps orphan (primary ∷ []) ≡ adopted 0)
decide_fate-MayAdopt_example = decide_fate-MayAdopt no_temps orphan (primary ∷ []) 0

orphan_is_adopted : decide_fate no_temps orphan (primary ∷ []) ≡ adopted 0
unfolding decide_fate registered_pid is_pid listening_port_for_pid by_port fate_of
    should_adopt_or_kill freshest adopt_pid new
orphan_is_adopted = refl

abbrev nothing : ScanSummary
nothing = record { found = 0; adopted_count = 0; killed = 0 }

scan_orphans-Scanned_example :
    let r = scan_orphans no_temps 1 (stray ∷ orphan ∷ []) (primary ∷ [], nothing) in
    Scanned (primary ∷ []) r.0 nothing r.1
scan_orphans-Scanned_example =
    scan_orphans-Scanned no_temps 1 (stray ∷ orphan ∷ []) (primary ∷ []) nothing
