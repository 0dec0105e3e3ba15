-- ===== src/Runner/Orphans.antt =====
-- The scan for orphans at startup (src/process/orphan_scan.rs): each process that runs from the
-- supervisor's own build outputs is adopted into the registry or killed. What the operating system and
-- the file system answer is part of a process; instants are nanoseconds.
pub mod Adoption
pub mod Registry
mod Tests
use qontinui_supervisor.Prelude.{
  ℕ, zero, suc, ◌+◌, ◌*◌, String, Bool, true, false, not, Option, none, some, List, [], ◌∷◌, ◌||◌,
  eqb, leb, ltb, if◌then◌else◌, any_of, find_first, get_elem?,
}
use qontinui_supervisor.Runner.Lifecycle.{RunnerState, ManagedRunner, adopt_pid}

abbrev pub staleness_gap_secs : ℕ
staleness_gap_secs = 30

pub data AdoptDecision : Type 0 where
  adopt kill_stale : AdoptDecision

unfoldable pub should_adopt_or_kill : Option ℕ → Option ℕ → ℕ → AdoptDecision
should_adopt_or_kill none fresh gap_secs = adopt
should_adopt_or_kill (some orphan) none gap_secs = adopt
should_adopt_or_kill (some orphan) (some fresh) gap_secs =
    if ltb (orphan + gap_secs * 1000000000) fresh then kill_stale else adopt

-- The loop of `freshest_source_mtime`, over the slots' executables and then the last known good.
unfoldable pub freshest : Option ℕ → List (Option ℕ) → Option ℕ
freshest best [] = best
freshest best (none ∷ ms) = freshest best ms
freshest none (some m ∷ ms) = freshest (some m) ms
freshest (some b) (some m ∷ ms) = let larger = if leb m b then b else m in freshest (some larger) ms

-- A process, with the answers that the scan gets while it handles it: whether the executable lies
-- under the build outputs, its time and those of the source binaries, which process listens on a
-- port, whether a kill works, and the clock.
pub record Process : Type 0 where
  pub pid : ℕ
  pub is_under : Bool
  pub mtime : Option ℕ
  pub sources : List (Option ℕ)
  pub pid_on_port : ℕ → Option ℕ
  pub kill_works : Bool
  pub now : ℕ

unfoldable pub is_pid : ℕ → Option ℕ → Bool
is_pid pid none = false
is_pid pid (some p) = eqb p pid

unfoldable pub registered_pid : List ManagedRunner → ℕ → Bool
unfolding is_pid
registered_pid rs pid = any_of (λ r. is_pid pid r.runner.pid) rs

unfoldable pub listening_port_for_pid : Process → List ManagedRunner → Option ℕ
unfolding is_pid
listening_port_for_pid p [] = none
listening_port_for_pid p (r ∷ rs) =
    let rest = listening_port_for_pid p rs in
    if is_pid p.pid (p.pid_on_port r.port) then some r.port else rest

-- The place of the runner that the map from ports holds: the last one with the port.
unfoldable pub by_port : ℕ → List ManagedRunner → Option ℕ
by_port port [] = none
by_port port (r ∷ rs) = elim (by_port port rs) [
  | some i ↦ some (suc i)
  | none ↦ if eqb r.port port then some 0 else none
]

-- What becomes of a process that is found; the number is the runner's place.
pub data Fate : Type 0 where
  is_registered is_temporary is_stale is_unclaimed : Fate
  adopted already_populated : ℕ → Fate

pub record ScanSummary : Type 0 where
  pub found : ℕ
  pub adopted_count : ℕ
  pub killed : ℕ

abbrev pub adopt_at : ℕ → Process → List ManagedRunner → List ManagedRunner
adopt_at i p [] = []
adopt_at zero p (m ∷ rs) = record m { runner = (adopt_pid p.pid p.now m.runner).1 } ∷ rs
adopt_at (suc i) p (m ∷ rs) = m ∷ adopt_at i p rs

-- `kill_by_pid(pid)` and the count.
abbrev pub killed_if : Bool → ScanSummary → ScanSummary
killed_if works s = if works then record s { killed = s.killed + 1 } else s

module _ (is_temp : String → Bool) where
  -- From the runner that listens on.
  unfoldable pub fate_of : Process → ℕ → ManagedRunner → Fate
  unfolding should_adopt_or_kill freshest
  fate_of p i m =
      if is_temp m.id
      then is_temporary
      else elim (should_adopt_or_kill p.mtime (freshest none p.sources) staleness_gap_secs) [
        | kill_stale ↦ is_stale
        | adopt ↦ if (adopt_pid p.pid p.now m.runner).0 then adopted i else already_populated i
      ]

  abbrev pub claimed_by : Process → List ManagedRunner → Option ℕ
  claimed_by p rs = elim (listening_port_for_pid p rs) [ none ↦ none | some port ↦ by_port port rs ]

  unfoldable pub decide_fate : Process → List ManagedRunner → Fate
  unfolding registered_pid listening_port_for_pid by_port fate_of
  decide_fate p rs = if registered_pid rs p.pid then is_registered else elim (claimed_by p rs) [
    | none ↦ is_unclaimed
    | some i ↦ elim (get_elem? rs i) [ none ↦ is_unclaimed | some m ↦ fate_of p i m ]
  ]

  unfoldable pub handle_found :
      Process → List ManagedRunner × ScanSummary → List ManagedRunner × ScanSummary
  unfolding decide_fate
  handle_found p (rs, s) =
      let s1 = record s { found = s.found + 1 } in
      elim (decide_fate p rs) [
        | is_registered ↦ (rs, s1)
        | is_temporary ↦ (rs, killed_if p.kill_works s1)
        | is_stale ↦ (rs, killed_if p.kill_works s1)
        | is_unclaimed ↦ (rs, killed_if p.kill_works s1)
        | adopted i ↦ (adopt_at i p rs, record s1 { adopted_count = s1.adopted_count + 1 })
        | already_populated i ↦ (rs, s1)
      ]

  -- `scan_orphans_at_startup`, from the list of processes on.
  unfoldable pub scan_orphans :
      ℕ → List Process → List ManagedRunner × ScanSummary → List ManagedRunner × ScanSummary
  unfolding handle_found
  scan_orphans our_pid [] st = st
  scan_orphans our_pid (p ∷ ps) st =
      scan_orphans our_pid ps
        (if eqb p.pid our_pid || not p.is_under then st else handle_found p st)
