-- ===== src/Runner/Orphans/Adoption.antt =====
-- Which orphans are adopted: `scan_orphans_at_startup` of src/process/orphan_scan.rs.
use qontinui_supervisor.Prelude.{
  ℕ, zero, suc, ◌+◌, In, leb, ◌*◌, ◌≤◌, ◌≡◌, ◌↔◌, inl, inr, refl, String, Bool, true, false, Option,
  none, some, List, [], ◌∷◌, ◌&&◌, arith, is_some, eqb_iff, get_elem?, Option-cases, Bool-cases,
}
use qontinui_supervisor.Runner.Lifecycle.{ManagedRunner, adopt_pid}
use qontinui_supervisor.Runner.Orphans.{
  staleness_gap_secs, adopt, should_adopt_or_kill, freshest, Process, is_pid, registered_pid,
  listening_port_for_pid, by_port, adopted, fate_of, decide_fate,
}

-- Not older than a source binary by more than the gap, as far as the times are known.
abbrev pub IsCurrent : Option ℕ → List (Option ℕ) → Type 0
IsCurrent none sources = Unit
IsCurrent (some orphan) sources =
    (s : ℕ) → In (some s) sources → s ≤ orphan + staleness_gap_secs * 1000000000

-- All that has to hold for an adoption by the runner at this place.
pub record MayAdopt (is_temp : String → Bool) (p : Process) (rs : List ManagedRunner) (i : ℕ)
    : Type 0 where
  pub runner : ManagedRunner
  pub place : get_elem? rs i ≡ some runner
  pub unregistered : registered_pid rs p.pid ≡ false
  pub listens : p.pid_on_port runner.port ≡ some p.pid
  pub is_lasting : is_temp runner.id ≡ false
  pub current : IsCurrent p.mtime p.sources
  pub vacant : (is_some runner.runner.pid && runner.runner.running) ≡ false

by_port-place :
    (port : ℕ) (rs : List ManagedRunner) (i : ℕ)
    → by_port port rs ≡ some i
    → (m : ManagedRunner) × (get_elem? rs i ≡ some m) × (m.port ≡ port)
unfolding by_port
by_port-place port [] i h = absurd (ground (arith, h))
by_port-place port (r ∷ rs) i h = elim (Option-cases (by_port port rs)) [
  | inl e ↦ (r, ground (arith, h, e), ground (arith, h, e, eqb_iff r.port port))
  | inr (j, e) ↦
      let (m, at, same) = by_port-place port rs j e in (m, ground (arith, h, e, at), same)
]

pub is_pid_iff : (pid : ℕ) (o : Option ℕ) → (is_pid pid o ≡ true) ↔ (o ≡ some pid)
unfolding is_pid
is_pid_iff pid none = ground arith
is_pid_iff pid (some p) = ground arith

listening_port-listens :
    (p : Process) (rs : List ManagedRunner) (port : ℕ)
    → listening_port_for_pid p rs ≡ some port
    → p.pid_on_port port ≡ some p.pid
unfolding listening_port_for_pid
listening_port-listens p [] port h = absurd (ground (arith, h))
listening_port-listens p (r ∷ rs) port h = elim (Bool-cases (is_pid p.pid (p.pid_on_port r.port))) [
  | inl here ↦
      let same : r.port ≡ port = ground (arith, here, h) in
      rw (← same) ((is_pid_iff p.pid (p.pid_on_port r.port)).0 here)
  | inr later ↦ listening_port-listens p rs port (ground (arith, later, h))
]

abbrev IsBelow : Option ℕ → ℕ → Type 0
IsBelow none t = Unit
IsBelow (some m) t = m ≤ t

-- The freshest time is the least bound of all times.
freshest_iff :
    (best : Option ℕ) (ms : List (Option ℕ)) (t : ℕ)
    → IsBelow (freshest best ms) t ↔ (IsBelow best t × ((s : ℕ) → In (some s) ms → s ≤ t))
unfolding freshest
freshest_iff best [] t = (λ h. (h, λ s n. absurd n), λ h. h.0)
freshest_iff best (none ∷ ms) t =
    let rest = freshest_iff best ms t in
    (
      λ h. (
        (rest.0 h).0,
        λ s i. elim i [ inl e ↦ absurd (ground (arith, e)) | inr k ↦ (rest.0 h).1 s k ],
      ),
      λ h. rest.1 (h.0, λ s i. h.1 s (inr i)),
    )
freshest_iff none (some m ∷ ms) t =
    let rest = freshest_iff (some m) ms t in
    (
      λ h. (
        tt,
        λ s i. elim i [
          | inl e ↦ (let b = (rest.0 h).0 in ground (arith, e, b))
          | inr k ↦ (rest.0 h).1 s k
        ],
      ),
      λ h. rest.1 (h.1 m (inl refl), λ s i. h.1 s (inr i)),
    )
freshest_iff (some b) (some m ∷ ms) t = elim (Bool-cases (leb m b)) [
  | inl y ↦
      let rest = freshest_iff (some b) ms t in
      rw (y, freshest)
        (
          λ h. (
            (rest.0 h).0,
            λ s i. elim i [
              | inl e ↦ (let c = (rest.0 h).0 in ground (arith, e, y, c))
              | inr k ↦ (rest.0 h).1 s k
            ],
          ),
          λ h. rest.1 (h.0, λ s i. h.1 s (inr i)),
        )
  | inr n ↦
      let rest = freshest_iff (some m) ms t in
      rw (n, freshest)
        (
          λ h. (
            (let c = (rest.0 h).0 in ground (arith, n, c)),
            λ s i. elim i [
              | inl e ↦ (let c = (rest.0 h).0 in ground (arith, e, c))
              | inr k ↦ (rest.0 h).1 s k
            ],
          ),
          λ h. rest.1 (h.1 m (inl refl), λ s i. h.1 s (inr i)),
        )
]

IsBelow-gap_iff :
    (o : ℕ) (fresh : Option ℕ)
    → (should_adopt_or_kill (some o) fresh staleness_gap_secs ≡ adopt)
      ↔ IsBelow fresh (o + staleness_gap_secs * 1000000000)
unfolding should_adopt_or_kill
IsBelow-gap_iff o none = (λ h. tt, λ h. refl)
IsBelow-gap_iff o (some f) = ground arith

should_adopt_iff :
    (orphan : Option ℕ) (sources : List (Option ℕ))
    → (should_adopt_or_kill orphan (freshest none sources) staleness_gap_secs ≡ adopt)
      ↔ IsCurrent orphan sources
should_adopt_iff none sources = unfold should_adopt_or_kill in (λ h. tt, λ h. refl)
should_adopt_iff (some o) sources =
    let bound = freshest_iff none sources (o + staleness_gap_secs * 1000000000) in
    let gap = IsBelow-gap_iff o (freshest none sources) in
    (λ h. (bound.0 (gap.0 h)).1, λ c. gap.1 (bound.1 (tt, c)))

-- The same of the runner that listens.
record Adoptable (is_temp : String → Bool) (p : Process) (m : ManagedRunner) : Type 0 where
  is_lasting : is_temp m.id ≡ false
  current : should_adopt_or_kill p.mtime (freshest none p.sources) staleness_gap_secs ≡ adopt
  vacant : (is_some m.runner.pid && m.runner.running) ≡ false

fate_of-Adoptable :
    (is_temp : String → Bool) (p : Process) (i j : ℕ) (m : ManagedRunner)
    → fate_of is_temp p i m ≡ adopted j
    → (j ≡ i) × Adoptable is_temp p m
unfolding fate_of adopt_pid
fate_of-Adoptable is_temp p i j m h = (
  ground (arith, h),
  record {
    is_lasting = ground (arith, h);
    current = ground (arith, h);
    vacant = ground (arith, h);
  },
)

adopted-MayAdopt :
    (is_temp : String → Bool) (p : Process) (rs : List ManagedRunner) (i : ℕ)
    → decide_fate is_temp p rs ≡ adopted i
    → MayAdopt is_temp p rs i
unfolding decide_fate
adopted-MayAdopt is_temp p rs i h = elim (Option-cases (listening_port_for_pid p rs)) [
  | inl e ↦ absurd (ground (arith, h, e))
  | inr (port, e) ↦ elim (Option-cases (by_port port rs)) [
    | inl f ↦ absurd (ground (arith, h, e, f))
    | inr (j, f) ↦
        let (m, at, same) = by_port-place port rs j f in
        let fate : fate_of is_temp p j m ≡ adopted i = ground (arith, h, e, f, at) in
        let (is_j, may) = fate_of-Adoptable is_temp p j i m fate in
        record {
          runner = m;
          place = rw is_j at;
          unregistered = ground (arith, h);
          listens = rw same (listening_port-listens p rs port e);
          is_lasting = may.is_lasting;
          current = (should_adopt_iff p.mtime p.sources).0 may.current;
          vacant = may.vacant;
        }
  ]
]

-- A process that listens on the port of a registered runner is found by a port.
listening_port-is_some :
    (p : Process) (rs : List ManagedRunner) (i : ℕ) (m : ManagedRunner)
    → get_elem? rs i ≡ some m
    → p.pid_on_port m.port ≡ some p.pid
    → (port : ℕ) × (listening_port_for_pid p rs ≡ some port)
unfolding listening_port_for_pid
listening_port-is_some p [] i m at h = absurd (ground (arith, at))
listening_port-is_some p (r ∷ rs) i m at h =
    elim (Bool-cases (is_pid p.pid (p.pid_on_port r.port))) [
      | inl here ↦ (r.port, rw here refl)
      | inr later ↦
          elim i
              as (λ j.
                get_elem? (r ∷ rs) j ≡ some m
                → (port : ℕ) × (listening_port_for_pid p (r ∷ rs) ≡ some port)) [
                  | zero ↦ λ e.
                      let same : r ≡ m = ground (arith, e) in
                      let found = (is_pid_iff p.pid (p.pid_on_port r.port)).1 (rw same h) in
                      absurd (ground (arith, later, found))
                  | suc j ↦
                      λ e. let (port, f) = listening_port-is_some p rs j m e h in (port, rw later f)
                ]
            at
    ]

by_port-is_some :
    (p : Process) (rs : List ManagedRunner) (port : ℕ)
    → listening_port_for_pid p rs ≡ some port
    → (j : ℕ) × (by_port port rs ≡ some j)
unfolding listening_port_for_pid by_port
by_port-is_some p [] port h = absurd (ground (arith, h))
by_port-is_some p (r ∷ rs) port h = elim (Option-cases (by_port port rs)) [
  | inr (j, f) ↦ (suc j, rw f refl)
  | inl n ↦ elim (Bool-cases (is_pid p.pid (p.pid_on_port r.port))) [
    | inl here ↦ (0, ground (arith, n, here, h, eqb_iff r.port port))
    | inr later ↦
        let (j, f) = by_port-is_some p rs port (ground (arith, later, h)) in
        absurd (ground (arith, n, f))
  ]
]

-- No other runner is registered for a port on which the process listens.
abbrev pub ListensOnlyFor : Process → List ManagedRunner → ℕ → Type 0
ListensOnlyFor p rs i =
    (j : ℕ) (m : ManagedRunner)
    → get_elem? rs j ≡ some m
    → p.pid_on_port m.port ≡ some p.pid
    → j ≡ i

-- A process is adopted only by a runner that is registered for the port on which the process listens,
-- that is not temporary and has no running process of its own; only if no registered runner has the
-- process already; and only if its executable is not older than any source binary by more
-- than thirty seconds, as far as their times are known. Conversely, if all this holds, and no other runner
-- is registered for a port on which the process listens, the runner adopts it.
pub decide_fate-MayAdopt :
    (is_temp : String → Bool) (p : Process) (rs : List ManagedRunner) (i : ℕ)
    → (decide_fate is_temp p rs ≡ adopted i → MayAdopt is_temp p rs i)
      × (MayAdopt is_temp p rs i → ListensOnlyFor p rs i → decide_fate is_temp p rs ≡ adopted i)
unfolding decide_fate fate_of adopt_pid
decide_fate-MayAdopt is_temp p rs i = (
  adopted-MayAdopt is_temp p rs i,
  λ may only.
      let (port, e) = listening_port-is_some p rs i may.runner may.place may.listens in
      let (j, f) = by_port-is_some p rs port e in
      let (m, at, same) = by_port-place port rs j f in
      let is_i = only j m at (rw same (listening_port-listens p rs port e)) in
      ground (
        arith,
        e,
        f,
        is_i,
        may.place,
        may.unregistered,
        may.is_lasting,
        may.vacant,
        (should_adopt_iff p.mtime p.sources).1 may.current,
      ),
)
