-- ===== src/CacheTelemetry/Tests.antt =====
-- A run of the model of src/cache_telemetry.rs on the events of its own unit test.
use qontinui_supervisor.Prelude.{
  String, Bool, true, false, none, some, List, [], ◌∷◌, arith, if◌then◌else◌,
}
use qontinui_supervisor.Submission.Cargo.{CacheEvent}
use qontinui_supervisor.CacheTelemetry.{recorded}
use qontinui_supervisor.CacheTelemetry.Tally.{Refines, recorded-Refines}

abbrev event : String → String → String → Bool → Bool → CacheEvent
event worker repo profile is_hit by_time = record {
  worker = worker;
  repo = repo;
  profile = profile;
  ac_hit = is_hit;
  ac_write_ok = if is_hit then none else some true;
  timestamp_would_reuse = by_time;
}

abbrev events : List CacheEvent
events =
    event "a2" "coord" "release:release" true true
    ∷ event "a1" "runner" "build:dev" false false
    ∷ event "a1" "runner" "build:dev" true false
    ∷ []

recorded-Refines_example : Refines (recorded events) events
recorded-Refines_example = recorded-Refines events (omega arith)
