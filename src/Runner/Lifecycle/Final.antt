-- ===== src/Runner/Lifecycle/Final.antt =====
-- A stop against everything else that acts on a runner (src/process/manager.rs).
use qontinui_supervisor.Prelude.{◌≤◌, ◌≡◌, ◌∙◌, refl, Bool, true, false, List, [], ◌∷◌, ◌&&◌, arith}
use qontinui_supervisor.Runner.Lifecycle.{
  RunnerState, take_process, observe_gone, request_stop, forget_orphan, publish_stop, sync_health,
  recover_pid,
}
use qontinui_supervisor.Runner.Lifecycle.World.{
  World, Actor, api, orphan_scan, health_check, StartStep, asks_start, fails_to_spawn, spawns,
  MonitorStep, takes_child, sees_exit, WatchdogStep, decides, rechecks_runner, skips_runner,
  rechecks_watchdog, skips_watchdog, starts_again, finds_running, StopStep, asks_stop, kills_orphan,
  confirms_stop, gives_up, HealthStep, checks_health, recovers_pid, marks_running, Step, starts,
  monitors, watches, stops, probes, controls, finds_dead, adopts, Run, rest, act,
}

-- Neither a new start nor the orphan scan at startup.
abbrev pub is_quiet : Actor → Bool
is_quiet api = false
is_quiet orphan_scan = false
is_quiet _ = true

abbrev pub AllQuiet : List Actor → Type 0
AllQuiet [] = Unit
AllQuiet (who ∷ ws) = (is_quiet who ≡ true) × AllQuiet ws

-- The health check takes no part.
abbrev pub is_blind : Actor → Bool
is_blind health_check = false
is_blind _ = true

abbrev pub all_blind : List Actor → Bool
all_blind [] = true
all_blind (who ∷ ws) = is_blind who && all_blind ws

-- A stop has been requested, and no start is past its check of the runner.
pub record Settled (w : World) : Type 0 where
  pub latched : w.runner.stop_requested ≡ true
  pub none_starting : w.starts ≡ 0
  pub none_rechecked : w.rechecked ≡ 0
  pub none_rearmed : w.rearmed ≡ 0

-- What may change then; `blind` tells that the health check takes no part.
pub record Stays (blind : Bool) (w w' : World) : Type 0 where
  pub settled : Settled w'
  pub not_started : blind ≡ true → w'.runner.running ≡ true → w.runner.running ≡ true
  pub none_spawned : w'.monitors ≤ w.monitors

Stays-of :
    {w w' : World} {blind : Bool}
    → Settled w
    → w'.runner.stop_requested ≡ true
    → (w'.starts ≡ w.starts)
      × (w'.rechecked ≡ w.rechecked)
      × (w'.rearmed ≡ w.rearmed)
      × (w'.monitors ≤ w.monitors)
    → (blind ≡ true → w'.runner.running ≡ true → w.runner.running ≡ true)
    → Stays blind w w'
Stays-of s latched same runs = record {
  settled = record {
    latched = latched;
    none_starting = same.0 ∙ s.none_starting;
    none_rechecked = same.1 ∙ s.none_rechecked;
    none_rearmed = same.2 ∙ s.none_rearmed;
  };
  not_started = runs;
  none_spawned = same.3;
}

-- A write of the runner that keeps the request.
Stays-writes :
    (w : World) (r : RunnerState) {blind : Bool}
    → Settled w
    → r.stop_requested ≡ true
    → (blind ≡ true → r.running ≡ true → w.runner.running ≡ true)
    → Stays blind w (record w { runner = r })
Stays-writes w r s latched runs = Stays-of s latched (refl, refl, refl, omega arith) runs

StartStep-Stays :
    {w w' : World} {who : Actor} {blind : Bool}
    → StartStep w who w'
    → is_quiet who ≡ true
    → Settled w
    → Stays blind w w'
StartStep-Stays (asks_start h) q s = absurd (ground (arith, q))
StartStep-Stays (fails_to_spawn n h) q s = absurd (ground (arith, h, s.none_starting))
StartStep-Stays (spawns n child now pid h) q s = absurd (ground (arith, h, s.none_starting))

MonitorStep-Stays : {w w' : World} {blind : Bool} → MonitorStep w w' → Settled w → Stays blind w w'
unfolding take_process observe_gone
MonitorStep-Stays (takes_child n h) s =
    Stays-of s s.latched (refl, refl, refl, omega (arith, h)) (λ b r. r)
MonitorStep-Stays (sees_exit i child ok armed h) s =
    Stays-of s s.latched (refl, refl, refl, omega arith) (λ b r. absurd (ground (arith, r)))

WatchdogStep-Stays :
    {w w' : World} {blind : Bool} → WatchdogStep w w' → Settled w → Stays blind w w'
WatchdogStep-Stays (decides i now x d wd h e) s =
    Stays-of s s.latched (refl, refl, refl, omega arith) (λ b r. r)
WatchdogStep-Stays (rechecks_runner n h free) s = absurd (ground (arith, free, s.latched))
WatchdogStep-Stays (skips_runner n h off) s =
    Stays-of s s.latched (refl, refl, refl, omega arith) (λ b r. r)
WatchdogStep-Stays (rechecks_watchdog n h on) s = absurd (ground (arith, h, s.none_rechecked))
WatchdogStep-Stays (skips_watchdog n h off) s = absurd (ground (arith, h, s.none_rechecked))
WatchdogStep-Stays (starts_again n h free) s = absurd (ground (arith, h, s.none_rearmed))
WatchdogStep-Stays (finds_running n h on) s = absurd (ground (arith, h, s.none_rearmed))

StopStep-Stays : {w w' : World} {blind : Bool} → StopStep w w' → Settled w → Stays blind w w'
unfolding request_stop forget_orphan publish_stop
StopStep-Stays asks_stop s = Stays-of s refl (refl, refl, refl, omega arith) (λ b r. r)
StopStep-Stays {w} (kills_orphan n h) s =
    Stays-writes w (forget_orphan w.runner) s s.latched (λ b r. absurd (ground (arith, r)))
StopStep-Stays (confirms_stop n h) s =
    Stays-of s s.latched (refl, refl, refl, omega arith) (λ b r. absurd (ground (arith, r)))
StopStep-Stays (gives_up n h) s = Stays-of s s.latched (refl, refl, refl, omega arith) (λ b r. r)

HealthStep-Stays : {w w' : World} → HealthStep w w' → Settled w → Stays false w w'
unfolding sync_health recover_pid
HealthStep-Stays {w} (checks_health responding) s =
    Stays-writes w (sync_health responding w.runner) s (ground (arith, s.latched))
      (λ b r. absurd (ground (arith, b)))
HealthStep-Stays {w} (recovers_pid pid) s =
    Stays-writes w (recover_pid pid w.runner) s (ground (arith, s.latched))
      (λ b r. absurd (ground (arith, b)))
HealthStep-Stays {w} marks_running s =
    Stays-writes w _ s s.latched (λ b r. absurd (ground (arith, b)))

Step-Stays :
    {w w' : World} {who : Actor}
    → Step w who w'
    → is_quiet who ≡ true
    → Settled w
    → Stays (is_blind who) w w'
unfolding forget_orphan
Step-Stays (starts st) q s = StartStep-Stays st q s
Step-Stays (monitors st) q s = MonitorStep-Stays st s
Step-Stays (watches st) q s = WatchdogStep-Stays st s
Step-Stays (stops st) q s = StopStep-Stays st s
Step-Stays (probes st) q s = HealthStep-Stays st s
Step-Stays (controls e r) q s = Stays-of s s.latched (refl, refl, refl, omega arith) (λ b r. r)
Step-Stays {w} finds_dead q s =
    Stays-writes w (forget_orphan w.runner) s s.latched (λ b r. absurd (ground (arith, r)))
Step-Stays (adopts pid now) q s = absurd (ground (arith, q))

-- Once a stop is requested and no start is past its check of the runner, the request stays and no
-- process is spawned, whatever exit monitors, scheduled restarts, the watchdog's switches, the reaper,
-- the health check and further stops do and in whatever order, until somebody asks for a start or the
-- orphan scan adopts a process. In particular no crash restart gets through, also one that was
-- scheduled before the stop. As long as the health check takes no part, which marks a runner that
-- responds as running, a runner that is not running is not marked as running again, either.
pub stop_is_final :
    (w w' : World) (ws : List Actor)
    → Run w ws w'
    → AllQuiet ws
    → Settled w
    → Stays (all_blind ws) w w'
stop_is_final w w' [] rest q s = Stays-of s s.latched (refl, refl, refl, omega arith) (λ b r. r)
stop_is_final w w'' (who ∷ ws) (act {w' = w'} run st) q s =
    let before = stop_is_final w w' ws run q.1 s in
    let last = Step-Stays st q.0 before.settled in
    record {
      settled = last.settled;
      not_started =
          λ b r. before.not_started (ground (arith, b)) (last.not_started (ground (arith, b)) r);
      none_spawned = omega (arith, last.none_spawned, before.none_spawned);
    }
