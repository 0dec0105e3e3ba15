-- ===== src/Runner/Tests.antt =====
-- Runs of the models of src/process/manager.rs on concrete answers.
use qontinui_supervisor.Prelude.{ℕ, ◌+◌, ◌*◌, ◌≡◌, arith, true, false, some, [], ◌∷◌, leb}
use qontinui_supervisor.Runner.Reap.{stopped, tree_kill, kill_by_port, stop_reap, stop_reap_lem}
use qontinui_supervisor.Runner.FirstHealthy.{
  FirstHealthyDecision, Poll, watch_first_healthy, Ended, watch_first_healthy-Ended,
}

stop_reap_lem_example : stop_reap (λ n. leb 2 n) ≡ some (stopped (tree_kill ∷ kill_by_port ∷ []))
stop_reap_lem_example = stop_reap_lem (λ n. leb 2 n)

abbrev silent : ℕ → Poll
silent n = record { still_tracked = true; responds = false; now = 100 + 3 * n }

watch_first_healthy-Ended_example :
    (n : ℕ) × (d : FirstHealthyDecision) × (watch_first_healthy 100 90 silent ≡ some (n, d))
    × Ended (100 + 90) silent 0 n d
watch_first_healthy-Ended_example = watch_first_healthy-Ended 100 90 silent (λ i. omega arith)
