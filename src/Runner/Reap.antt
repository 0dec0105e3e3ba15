-- ===== src/Runner/Reap.antt =====
-- The confirmation of a stop: `decide_stop_reap` and the loop of `stop_runner_by_id` in
-- src/process/manager.rs. The kills are calls of the operating system: the model lists them.
use qontinui_supervisor.Prelude.{
  ℕ, zero, suc, ◌≡◌, arith, Bool, true, false, not, Option, none, some, List, [], ◌∷◌,
  if◌then◌else◌,
}

pub data StopReapOutcome : Type 0 where
  confirmed escalate_tree escalate_port retry_after_backoff still_held : StopReapOutcome

unfoldable pub decide_stop_reap : ℕ → Bool → StopReapOutcome
decide_stop_reap attempt false = confirmed
decide_stop_reap zero true = escalate_tree
decide_stop_reap (suc zero) true = escalate_port
decide_stop_reap (suc (suc zero)) true = retry_after_backoff
decide_stop_reap (suc (suc (suc n))) true = still_held

-- What the loop does between two looks at the port.
pub data Escalation : Type 0 where
  tree_kill kill_by_port backoff : Escalation

-- How the loop ends: with `break`, or with the error that refuses to report success.
pub data Reaped : Type 0 where
  stopped refused : List Escalation → Reaped

abbrev and_first : Escalation → Option Reaped → Option Reaped
and_first e none = none
and_first e (some (stopped es)) = some (stopped (e ∷ es))
and_first e (some (refused es)) = some (refused (e ∷ es))

-- `port_free n` is what `wait_for_port_free` answers at attempt `n`; `none` is out of fuel.
unfoldable pub reap : (ℕ → Bool) → ℕ → ℕ → Option Reaped
unfolding decide_stop_reap
reap port_free zero attempt = none
reap port_free (suc fuel) attempt =
    let rest = reap port_free fuel (suc attempt) in
    elim (decide_stop_reap attempt (not (port_free attempt))) [
      | confirmed ↦ some (stopped [])
      | escalate_tree ↦ and_first tree_kill rest
      | escalate_port ↦ and_first kill_by_port rest
      | retry_after_backoff ↦ and_first backoff rest
      | still_held ↦ some (refused [])
    ]

-- Each attempt but the fourth goes on at most once.
unfoldable pub stop_reap : (ℕ → Bool) → Option Reaped
unfolding reap
stop_reap port_free = reap port_free 4 0

-- A stop is confirmed exactly if one of four looks finds the port free, after the escalations that the
-- looks before it called for: the tree kill, the kill by port, the backoff, in this order and each at
-- most once. Otherwise all three have been tried and success is refused.
pub stop_reap_lem :
    (port_free : ℕ → Bool)
    → stop_reap port_free
      ≡ some (
          if port_free 0
          then stopped []
          else if port_free 1
          then stopped (tree_kill ∷ [])
          else if port_free 2
          then stopped (tree_kill ∷ kill_by_port ∷ [])
          else if port_free 3
          then stopped (tree_kill ∷ kill_by_port ∷ backoff ∷ [])
          else refused (tree_kill ∷ kill_by_port ∷ backoff ∷ []))
unfolding stop_reap
stop_reap_lem port_free = ground arith
