-- ===== src/Runner/Watchdog/Window.antt =====
-- Runs of the watchdog of src/process/manager.rs: exits and operator commands in the order in which
-- they take the watchdog's lock, with the restarts since the last reset kept beside the state.
use qontinui_supervisor.Prelude.{
  ℕ, ◌≤◌, ◌<◌, ◌≡◌, refl, ap, ◌∙◌, ◌⊎◌, inl, inr, Bool, true, false, none, some, List, [], ◌∷◌,
  ◌++◌, arith, Bool-cases, if◌then◌else◌, length, length-append, keep_if, count_if,
}
use qontinui_supervisor.Runner.Watchdog.{
  WatchdogState, Exit, CrashRestartDecision, restart, new, in_window, observe_exit,
  control_runner_watchdog,
}

pub data WatchdogEvent : Type 0 where
  exited : ℕ → Exit → WatchdogEvent
  controlled : Bool → Bool → WatchdogEvent

pub record Watched : Type 0 where
  pub wd : WatchdogState
  pub restarts : List ℕ

abbrev noted : CrashRestartDecision → ℕ → List ℕ → List ℕ
noted (restart attempt delay_secs) now rs = rs ++ now ∷ []
noted _ now rs = rs

unfoldable pub step : Watched → WatchdogEvent → Watched
unfolding observe_exit control_runner_watchdog
step s (exited now x) = elim (observe_exit now x s.wd) [
  | none ↦ s
  | some (decision, wd') ↦ record { wd = wd'; restarts = noted decision now s.restarts }
]
step s (controlled enabled reset_attempts) = record {
  wd = control_runner_watchdog enabled reset_attempts s.wd;
  restarts = if reset_attempts then [] else s.restarts;
}

unfoldable pub run : Watched → List WatchdogEvent → Watched
unfolding step
run s [] = s
run s (e ∷ es) = run (step s e) es

unfoldable pub start : Bool → Watched
unfolding new
start enabled = record { wd = new enabled; restarts = [] }

-- The clock does not run backwards between the exits, nor past the last instant.
abbrev pub Ordered : ℕ → List WatchdogEvent → ℕ → Type 0
Ordered from [] to = from ≤ to
Ordered from (exited now x ∷ es) to = (from ≤ now) × Ordered now es to
Ordered from (controlled _ _ ∷ es) to = Ordered from es to

in_window_mono :
    (now later t : ℕ) → now ≤ later → in_window now t ≡ false → in_window later t ≡ false
unfolding in_window
in_window_mono now later t h e = ground arith

keep_if-keep_if :
    (now later : ℕ) (l : List ℕ)
    → now ≤ later
    → keep_if (in_window later) (keep_if (in_window now) l) ≡ keep_if (in_window later) l
keep_if-keep_if now later [] h = refl
keep_if-keep_if now later (t ∷ l) h =
    ground (arith, in_window_mono now later t h, keep_if-keep_if now later l h)

keep_if-append {ℓ} :
    {A : Type ℓ} (p : A → Bool) (xs ys : List A)
    → keep_if p (xs ++ ys) ≡ keep_if p xs ++ keep_if p ys
keep_if-append p [] ys = refl
keep_if-append p (x ∷ xs) ys = elim (Bool-cases (p x)) [
  | inl e ↦ rw e (ap (λ l. x ∷ l) (keep_if-append p xs ys))
  | inr e ↦ rw e (keep_if-append p xs ys)
]

count_if-eq-length {ℓ} :
    {A : Type ℓ} (p : A → Bool) (xs : List A) → count_if p xs ≡ length (keep_if p xs)
count_if-eq-length p [] = refl
count_if-eq-length p (x ∷ xs) = ground (arith, count_if-eq-length p xs)

length-keep_if-le {ℓ} :
    {A : Type ℓ} (p : A → Bool) (xs : List A) → length (keep_if p xs) ≤ length xs
length-keep_if-le p [] = omega arith
length-keep_if-le p (x ∷ xs) = ground (arith, length-keep_if-le p xs)

-- The history holds every restart that is still in the window, and never more than three.
record Tracks (at : ℕ) (s : Watched) : Type 0 where
  agree :
      (later : ℕ)
      → at ≤ later
      → keep_if (in_window later) s.wd.crash_history ≡ keep_if (in_window later) s.restarts
  short : length s.wd.crash_history ≤ 3

exit_cases :
    (now : ℕ) (x : Exit) (s : Watched)
    → let hist = keep_if (in_window now) s.wd.crash_history in
      let s' = step s (exited now x) in
      ((s'.wd.crash_history ≡ hist) × (s'.restarts ≡ s.restarts))
      ⊎ ((s'.wd.crash_history ≡ hist ++ now ∷ [])
          × (s'.restarts ≡ s.restarts ++ now ∷ [])
          × (length hist < 3))
      ⊎ (s' ≡ s)
unfolding step
exit_cases now x s = ground arith

exit-Tracks :
    (at now : ℕ) (x : Exit) (s : Watched)
    → at ≤ now
    → Tracks at s
    → Tracks now (step s (exited now x))
exit-Tracks at now x s h t = elim (exit_cases now x s) [
  | inl (hist, rs) ↦ record {
    agree = λ later l. rw (hist, rs) (kept later l);
    short = rw hist (omega (arith, t.short, length-keep_if-le (in_window now) s.wd.crash_history));
  }
  | inr (inl (hist, rs, room)) ↦ record {
    agree = λ later l.
        rw (hist, rs, keep_if-append, kept later l, keep_if-append (in_window later) s.restarts);
    short = rw (hist, length-append) (omega arith);
  }
  | inr (inr same) ↦
      rw same (record { agree = λ later l. t.agree later (omega arith); short = t.short })
]
  where
    kept :
        (later : ℕ)
        → now ≤ later
        → keep_if (in_window later) (keep_if (in_window now) s.wd.crash_history)
          ≡ keep_if (in_window later) s.restarts
    kept later l = keep_if-keep_if now later s.wd.crash_history l ∙ t.agree later (omega arith)

control-Tracks :
    (at : ℕ) (enabled reset : Bool) (s : Watched)
    → Tracks at s
    → Tracks at (step s (controlled enabled reset))
unfolding step
control-Tracks at enabled true s t = record { agree = λ later l. refl; short = omega arith }
control-Tracks at enabled false s t = record { agree = t.agree; short = t.short }

run-Tracks :
    (at to : ℕ) (es : List WatchdogEvent) (s : Watched)
    → Ordered at es to
    → Tracks at s
    → Tracks to (run s es)
unfolding run
run-Tracks at to [] s o t = record {
  agree = λ later l. t.agree later (omega arith);
  short = t.short;
}
run-Tracks at to (exited now x ∷ es) s o t =
    run-Tracks now to es (step s (exited now x)) o.1 (exit-Tracks at now x s o.0 t)
run-Tracks at to (controlled enabled reset ∷ es) s o t =
    run-Tracks at to es (step s (controlled enabled reset)) o (control-Tracks at enabled reset s t)

start-Tracks : (enabled : Bool) → Tracks 0 (start enabled)
unfolding start
start-Tracks enabled = record { agree = λ later l. refl; short = omega arith }

-- Whatever the exits and operator commands, in an order in which the clock does not run backwards,
-- at most three restarts since the last reset are younger than thirty minutes at the end.
pub restarts_rate_limited :
    (enabled : Bool) (es : List WatchdogEvent) (now : ℕ)
    → Ordered 0 es now
    → count_if (in_window now) (run (start enabled) es).restarts ≤ 3
restarts_rate_limited enabled es now o =
    let t = run-Tracks 0 now es (start enabled) o (start-Tracks enabled) in
    rw
      (
        count_if-eq-length (in_window now) (run (start enabled) es).restarts,
        ← t.agree now (omega arith),
      )
      (omega (
        arith,
        t.short,
        length-keep_if-le (in_window now) (run (start enabled) es).wd.crash_history,
      ))
