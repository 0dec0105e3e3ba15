-- ===== src/Runner/Orphans/Registry.antt =====
-- What the scan for orphans keeps true of the registry (src/process/orphan_scan.rs).
use qontinui_supervisor.Prelude.{
  ℕ, zero, suc, ◌+◌, ◌≤◌, ◌≡◌, ◌⊎◌, inr, refl, String, Bool, true, false, not, Option, none, some,
  List, [], ◌∷◌, ◌&&◌, ◌||◌, arith, is_some, eqb, if◌then◌else◌, get_elem?, In, Distinct,
}
use qontinui_supervisor.Runner.Lifecycle.{ManagedRunner, adopt_pid}
use qontinui_supervisor.Runner.Orphans.{
  Process, registered_pid, Fate, is_registered, is_temporary, is_stale, is_unclaimed, adopted,
  already_populated, decide_fate, ScanSummary, adopt_at, killed_if, handle_found, scan_orphans,
}
use qontinui_supervisor.Runner.Orphans.Adoption.{decide_fate-MayAdopt, is_pid_iff}

abbrev pub with_pid : Option ℕ → List ℕ → List ℕ
with_pid none ps = ps
with_pid (some p) ps = p ∷ ps

-- The pids that runners have.
abbrev pub pids : List ManagedRunner → List ℕ
pids [] = []
pids (r ∷ rs) = with_pid r.runner.pid (pids rs)

-- A runner with a process that runs.
abbrev pub is_populated : ManagedRunner → Bool
is_populated m = is_some m.runner.pid && m.runner.running

In-pids : (pid : ℕ) (rs : List ManagedRunner) → In pid (pids rs) → registered_pid rs pid ≡ true
unfolding registered_pid
In-pids pid [] h = absurd h
In-pids pid (r ∷ rs) h = ground (arith, h, In-pids pid rs, is_pid_iff pid r.runner.pid)

-- An adoption leaves a runner's pid, or replaces it by that of the process.
adopted_pid :
    (p : Process) (m : ManagedRunner)
    → ((adopt_pid p.pid p.now m.runner).1.pid ≡ m.runner.pid)
      ⊎ ((adopt_pid p.pid p.now m.runner).1.pid ≡ some p.pid)
unfolding adopt_pid
adopted_pid p m = ground arith

In-adopt_at :
    (q i : ℕ) (p : Process) (rs : List ManagedRunner)
    → In q (pids (adopt_at i p rs))
    → (q ≡ p.pid) ⊎ In q (pids rs)
In-adopt_at q i p [] h = absurd h
In-adopt_at q zero p (m ∷ rs) h = ground (arith, h, adopted_pid p m)
In-adopt_at q (suc i) p (m ∷ rs) h = ground (arith, h, In-adopt_at q i p rs)

with_pid-Distinct :
    (o : Option ℕ) (l l' : List ℕ) (pid : ℕ)
    → (In pid (with_pid o l) → ⊥)
    → Distinct (with_pid o l)
    → ((q : ℕ) → In q l' → (q ≡ pid) ⊎ In q l)
    → ((In pid l → ⊥) → Distinct l → Distinct l')
    → Distinct (with_pid o l')
with_pid-Distinct none l l' pid fresh d within rest = rest fresh d
with_pid-Distinct (some x) l l' pid fresh d within rest =
    (λ h. ground (arith, within x h, fresh, d), rest (λ h. fresh (inr h)) d.1)

adopt_at-Distinct :
    (i : ℕ) (p : Process) (rs : List ManagedRunner)
    → (In p.pid (pids rs) → ⊥)
    → Distinct (pids rs)
    → Distinct (pids (adopt_at i p rs))
adopt_at-Distinct i p [] fresh d = tt
adopt_at-Distinct zero p (m ∷ rs) fresh d = ground (arith, fresh, d, adopted_pid p m)
adopt_at-Distinct (suc i) p (m ∷ rs) fresh d =
    with_pid-Distinct m.runner.pid (pids rs) (pids (adopt_at i p rs)) p.pid fresh d
      (λ q. In-adopt_at q i p rs) (adopt_at-Distinct i p rs)

adopt_at-get_elem? :
    (i j : ℕ) (p : Process) (rs : List ManagedRunner) (m : ManagedRunner)
    → get_elem? rs j ≡ some m
    → is_populated m ≡ true
    → get_elem? (adopt_at i p rs) j ≡ some m
unfolding adopt_pid
adopt_at-get_elem? i j p [] m at h = absurd (ground (arith, at))
adopt_at-get_elem? zero zero p (r ∷ rs) m at h =
    let populated : is_populated r ≡ true = ground (arith, at, h) in rw populated at
adopt_at-get_elem? zero (suc j) p (r ∷ rs) m at h = at
adopt_at-get_elem? (suc i) zero p (r ∷ rs) m at h = at
adopt_at-get_elem? (suc i) (suc j) p (r ∷ rs) m at h = adopt_at-get_elem? i j p rs m at h

-- What one process, or all of them, leave of the registry and the summary.
pub record Scanned (rs rs' : List ManagedRunner) (s s' : ScanSummary) : Type 0 where
  pub no_sharing : Distinct (pids rs) → Distinct (pids rs')
  pub kept :
      (i : ℕ) (m : ManagedRunner)
      → get_elem? rs i ≡ some m
      → is_populated m ≡ true
      → get_elem? rs' i ≡ some m
  pub counts : s.adopted_count + s.killed ≤ s.found → s'.adopted_count + s'.killed ≤ s'.found

Scanned-same : (rs : List ManagedRunner) (s : ScanSummary) → Scanned rs rs s s
Scanned-same rs s = record { no_sharing = λ d. d; kept = λ i m at h. at; counts = λ h. h }

killed-Scanned :
    (rs : List ManagedRunner) (s : ScanSummary) (works : Bool)
    → Scanned rs rs s (killed_if works (record s { found = s.found + 1 }))
killed-Scanned rs s works = record {
  no_sharing = λ d. d;
  kept = λ i m at h. at;
  counts = λ h. ground (arith, h);
}

skipped-Scanned :
    (rs : List ManagedRunner) (s : ScanSummary) → Scanned rs rs s (record s { found = s.found + 1 })
skipped-Scanned rs s = killed-Scanned rs s false

adopted-Scanned :
    (p : Process) (i : ℕ) (rs : List ManagedRunner) (s : ScanSummary)
    → registered_pid rs p.pid ≡ false
    → Scanned rs
        (adopt_at i p rs)
        s
        (record s { found = s.found + 1; adopted_count = s.adopted_count + 1 })
adopted-Scanned p i rs s h = record {
  no_sharing = adopt_at-Distinct i p rs (λ there. ground (arith, h, In-pids p.pid rs there));
  kept = λ j m at running. adopt_at-get_elem? i j p rs m at running;
  counts = λ c. omega (arith, c);
}

handle_found-Scanned :
    (is_temp : String → Bool) (p : Process) (rs : List ManagedRunner) (s : ScanSummary)
    → let r = handle_found is_temp p (rs, s) in Scanned rs r.0 s r.1
handle_found-Scanned is_temp p rs s = go (decide_fate is_temp p rs) refl
  where
    go :
        (f : Fate)
        → decide_fate is_temp p rs ≡ f
        → let r = handle_found is_temp p (rs, s) in Scanned rs r.0 s r.1
    go is_registered e = unfold handle_found in rw (e, handle_found) (skipped-Scanned rs s)
    go is_temporary e =
        unfold handle_found in rw (e, handle_found) (killed-Scanned rs s p.kill_works)
    go is_stale e = unfold handle_found in rw (e, handle_found) (killed-Scanned rs s p.kill_works)
    go is_unclaimed e =
        unfold handle_found in rw (e, handle_found) (killed-Scanned rs s p.kill_works)
    go (adopted i) e =
        unfold handle_found in
        rw (e, handle_found)
          (adopted-Scanned p i rs s ((decide_fate-MayAdopt is_temp p rs i).0 e).unregistered)
    go (already_populated i) e = unfold handle_found in rw (e, handle_found) (skipped-Scanned rs s)

Scanned-then :
    {rs rs' rs'' : List ManagedRunner} {s s' s'' : ScanSummary}
    → Scanned rs rs' s s'
    → Scanned rs' rs'' s' s''
    → Scanned rs rs'' s s''
Scanned-then a b = record {
  no_sharing = λ d. b.no_sharing (a.no_sharing d);
  kept = λ i m at h. b.kept i m (a.kept i m at h) h;
  counts = λ h. b.counts (a.counts h);
}

first-Scanned :
    (is_temp : String → Bool) (p : Process) (rs : List ManagedRunner) (s : ScanSummary)
    (skip : Bool)
    → let r = if skip then (rs, s) else handle_found is_temp p (rs, s) in Scanned rs r.0 s r.1
first-Scanned is_temp p rs s true = Scanned-same rs s
first-Scanned is_temp p rs s false = handle_found-Scanned is_temp p rs s

-- Whatever processes there are and whatever the system answers, a scan keeps this: if no two runners
-- have the same pid before, none do after; a runner that is running with a pid stays as it is; and
-- the adopted and the killed processes are together at most as many as those found, if they were
-- before.
pub scan_orphans-Scanned :
    (is_temp : String → Bool) (our_pid : ℕ) (ps : List Process) (rs : List ManagedRunner)
    (s : ScanSummary)
    → let r = scan_orphans is_temp our_pid ps (rs, s) in Scanned rs r.0 s r.1
unfolding scan_orphans
scan_orphans-Scanned is_temp our_pid [] rs s = Scanned-same rs s
scan_orphans-Scanned is_temp our_pid (p ∷ ps) rs s =
    let skip = eqb p.pid our_pid || not p.is_under in
    let st = if skip then (rs, s) else handle_found is_temp p (rs, s) in
    Scanned-then (first-Scanned is_temp p rs s skip)
      (scan_orphans-Scanned is_temp our_pid ps st.0 st.1)
