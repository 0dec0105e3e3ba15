-- ===== src/Runner/FirstHealthy.antt =====
-- The first-healthy watchdog: `decide_first_healthy` and `watch_first_healthy` in
-- src/process/manager.rs. The kill itself is a call of the operating system.
use qontinui_supervisor.Prelude.{
  ℕ, zero, suc, ◌+◌, ◌*◌, ◌/◌, ◌<◌, ◌≤◌, ◌≡◌, ◌≢◌, refl, ◌↔◌, ◌⊎◌, inl, inr, arith, Bool, true,
  false, not, Option, none, some, leb, if◌then◌else◌,
}

abbrev pub first_healthy_poll_interval_secs : ℕ
first_healthy_poll_interval_secs = 3

pub data FirstHealthyDecision : Type 0 where
  abandon healthy kill wait : FirstHealthyDecision

unfoldable pub decide_first_healthy : Bool → Bool → Bool → FirstHealthyDecision
decide_first_healthy still_tracked api_responding deadline_passed =
    if not still_tracked
    then abandon
    else if api_responding
    then healthy
    else if deadline_passed
    then kill
    else wait

-- What the poll number `n` sees: whether the process is still tracked, whether it responds, and the
-- second.
pub record Poll : Type 0 where
  pub still_tracked : Bool
  pub responds : Bool
  pub now : ℕ

-- The decision of one round of the loop.
unfoldable pub poll_decision : ℕ → Poll → FirstHealthyDecision
unfolding decide_first_healthy
poll_decision deadline p =
    decide_first_healthy p.still_tracked (if p.still_tracked then p.responds else false)
      (leb deadline p.now)

-- The loop from poll `n` on: the poll that ends it, and how; `none` is out of fuel.
unfoldable pub watch : ℕ → (ℕ → Poll) → ℕ → ℕ → Option (ℕ × FirstHealthyDecision)
unfolding poll_decision
watch deadline polls zero n = none
watch deadline polls (suc fuel) n =
    let rest = watch deadline polls fuel (suc n) in
    elim (poll_decision deadline (polls n)) [
      | abandon ↦ some (n, abandon)
      | healthy ↦ some (n, healthy)
      | kill ↦ some (n, kill)
      | wait ↦ rest
    ]

unfoldable pub watch_first_healthy : ℕ → ℕ → (ℕ → Poll) → Option (ℕ × FirstHealthyDecision)
unfolding watch
watch_first_healthy started_at timeout_secs polls =
    watch (started_at + timeout_secs) polls (suc (timeout_secs / 3 + 1)) 0

-- The watch ends at poll `n` with a decision that is not to wait, and waited at all polls before.
pub record Ended (deadline : ℕ) (polls : ℕ → Poll) (from n : ℕ) (d : FirstHealthyDecision)
    : Type 0 where
  pub not_wait : d ≢ wait
  pub decided : poll_decision deadline (polls n) ≡ d
  pub waited : (i : ℕ) → from ≤ i → i < n → poll_decision deadline (polls i) ≡ wait

late_decides : (deadline : ℕ) (p : Poll) → deadline ≤ p.now → poll_decision deadline p ≢ wait
unfolding poll_decision
late_decides deadline p h e = ground (arith, h, e)

abbrev Result : ℕ → (ℕ → Poll) → ℕ → Option (ℕ × FirstHealthyDecision) → Type 0
Result deadline polls from o =
    (n : ℕ) × (d : FirstHealthyDecision) × (o ≡ some (n, d)) × Ended deadline polls from n d

-- A decision other than to wait ends the watch at once.
ends_here :
    (deadline from : ℕ) (polls : ℕ → Poll) (d : FirstHealthyDecision)
    → poll_decision deadline (polls from) ≡ d
    → d ≢ wait
    → Result deadline polls from (some (from, d))
ends_here deadline from polls d e w = (
  from,
  d,
  refl,
  record { not_wait = w; decided = e; waited = λ i l h. absurd (omega (arith, l, h)) },
)

goes_on :
    (deadline from : ℕ) (polls : ℕ → Poll) (o : Option (ℕ × FirstHealthyDecision))
    → poll_decision deadline (polls from) ≡ wait
    → Result deadline polls (suc from) o
    → Result deadline polls from o
goes_on deadline from polls o e (n, d, r, ended) = (
  n,
  d,
  r,
  record {
    not_wait = ended.not_wait;
    decided = ended.decided;
    waited = λ i l h. elim (first_or_later from i l) [
      | inl here ↦ rw here e
      | inr later ↦ ended.waited i later h
    ];
  },
)
  where
    first_or_later : (from i : ℕ) → from ≤ i → (i ≡ from) ⊎ (suc from ≤ i)
    first_or_later from i h = ground (arith, h)

watch_once :
    (deadline fuel from : ℕ) (polls : ℕ → Poll)
    → (poll_decision deadline (polls from) ≡ wait
        → Result deadline polls (suc from) (watch deadline polls fuel (suc from)))
    → Result deadline polls from (watch deadline polls (suc fuel) from)
watch_once deadline fuel from polls later = go (poll_decision deadline (polls from)) refl
  where
    go :
        (d : FirstHealthyDecision)
        → poll_decision deadline (polls from) ≡ d
        → Result deadline polls from (watch deadline polls (suc fuel) from)
    go abandon e =
        unfold watch in
        rw (e, watch) (ends_here deadline from polls abandon e (λ w. ground (arith, w)))
    go healthy e =
        unfold watch in
        rw (e, watch) (ends_here deadline from polls healthy e (λ w. ground (arith, w)))
    go kill e =
        unfold watch in
        rw (e, watch) (ends_here deadline from polls kill e (λ w. ground (arith, w)))
    go wait e = unfold watch in rw (e, watch) (goes_on deadline from polls _ e (later e))

watch-Ended :
    (fuel deadline from : ℕ) (polls : ℕ → Poll)
    → ((i : ℕ) → from + fuel ≤ i → deadline ≤ (polls i).now)
    → Result deadline polls from (watch deadline polls (suc fuel) from)
watch-Ended zero deadline from polls late =
    watch_once deadline zero from polls
      (λ e. absurd (late_decides deadline (polls from) (late from (omega arith)) e))
watch-Ended (suc fuel) deadline from polls late =
    watch_once deadline (suc fuel) from polls
      (λ e. watch-Ended fuel deadline (suc from) polls (λ i l. late i (omega (arith, l))))

-- If poll number `i` comes at least three times `i` seconds after the start, the watch ends: at a
-- poll whose decision is not to wait, after polls that all decided to wait.
pub watch_first_healthy-Ended :
    (started_at timeout_secs : ℕ) (polls : ℕ → Poll)
    → ((i : ℕ) → started_at + first_healthy_poll_interval_secs * i ≤ (polls i).now)
    → (n : ℕ) × (d : FirstHealthyDecision) × (watch_first_healthy started_at timeout_secs polls
        ≡ some (n, d))
      × Ended (started_at + timeout_secs) polls 0 n d
unfolding watch_first_healthy
watch_first_healthy-Ended started_at timeout_secs polls spaced =
    watch-Ended (timeout_secs / 3 + 1) (started_at + timeout_secs) 0 polls
      (λ i l. omega (arith, l, spaced i))

-- The priorities: a process that is gone is abandoned, one that responds is healthy even after the
-- deadline, and one is killed exactly if it is tracked, does not respond and the deadline has passed.
pub poll_decision_iff :
    (deadline : ℕ) (p : Poll)
    → ((poll_decision deadline p ≡ abandon) ↔ (p.still_tracked ≡ false))
      × ((poll_decision deadline p ≡ healthy) ↔ ((p.still_tracked ≡ true) × (p.responds ≡ true)))
      × ((poll_decision deadline p ≡ kill)
          ↔ ((p.still_tracked ≡ true) × (p.responds ≡ false) × (deadline ≤ p.now)))
unfolding poll_decision
poll_decision_iff deadline p = (ground arith, ground arith, ground arith)
