-- ===== src/Logs/Tests.antt =====
-- Runs of the model of src/log_capture.rs on concrete entries.
use qontinui_supervisor.Prelude.{[], ◌∷◌}
use qontinui_supervisor.Logs.{LogEntry, runner, build, info, LogState, new}
use qontinui_supervisor.Logs.History.{pushes}

abbrev first : LogEntry
first = record { timestamp = 1; source = runner; level = info; message = "first" }

abbrev built : LogEntry
built = record { timestamp = 2; source = build; level = info; message = "built" }

abbrev last : LogEntry
last = record { timestamp = 3; source = runner; level = info; message = "last" }

abbrev sample : LogState
sample = pushes 2 2 (last ∷ built ∷ first ∷ []) new
