-- ===== src/BuildPool/Permits.antt =====
-- The builds that share the pool of src/state.rs: each takes a permit first, a slot next, and gives
-- the slot back before the permit (src/build_monitor.rs, and src/build_submissions.rs, whose builds
-- take no slot). A claim and the forced release of all slots (`reset_build` of src/routes/runner.rs) take
-- the lock of one slot after the other, so all steps are what one task does under one lock, and those of
-- different tasks come in any order. A build whose slot was released by force keeps its permit and its
-- guard, so the guards are kept apart from the slots.
pub mod Held
pub mod Claims
use qontinui_supervisor.Prelude.{
  ℕ, suc, ◌+◌, ◌≡◌, Bool, true, false, Option, none, some, List, [], ◌∷◌, ◌++◌, length, get_elem?,
  ltb, if◌then◌else◌,
}
use qontinui_supervisor.BuildPool.{takes, passes, idle_slots, claim_idle_slot, set_slot, pool_size}

pub data Message : Type 0 where
  cleared_slots : ℕ → Message
  cleared_legacy_flag already_clear : Message

-- The answer names what each slot held.
pub record ResetReport (Info : Type 0) : Type 0 where
  pub slots_cleared : List (Option Info)
  pub legacy_flag_was_set : Bool
  pub message : Message

-- A forced release on its way: the slots that it has emptied, with what they held, and how many of these
-- were busy.
pub record Reset (Info : Type 0) : Type 0 where
  pub slots_cleared : List (Option Info)
  pub cleared_count : ℕ

-- `entering` builds hold a permit, `claiming` is the slot that each claim looks at next, `guards` the
-- slot of each guard, `deferred` that of each clearing that a guard has left to a task, and `leaving`
-- builds hold a permit and need no slot.
pub record Pool (Info : Type 0) : Type 0 where
  pub slots : List (Option Info)
  pub build_in_progress : Bool
  pub permits : ℕ
  pub entering : ℕ
  pub claiming : List ℕ
  pub guards : List ℕ
  pub deferred : List ℕ
  pub leaving : ℕ
  pub resetting : List (Reset Info)

module _ {Info : Type 0} where
  unfoldable pub new : ℕ → Pool Info
  unfolding idle_slots pool_size
  new configured = record {
    slots = idle_slots (pool_size configured);
    build_in_progress = false;
    permits = pool_size configured;
    entering = 0;
    claiming = [];
    guards = [];
    deferred = [];
    leaving = 0;
    resetting = [];
  }

  -- One turn of the loop of `reset_build`.
  unfoldable pub reset_slot : Option Info → Reset Info → Reset Info
  reset_slot none r = record r { slots_cleared = r.slots_cleared ++ none ∷ [] }
  reset_slot (some prior) r = record {
    slots_cleared = r.slots_cleared ++ some prior ∷ [];
    cleared_count = r.cleared_count + 1;
  }

  -- The answer of `reset_build`, which also clears the legacy flag.
  unfoldable pub reset_answer : Bool → Reset Info → ResetReport Info
  reset_answer build_in_progress r = record {
    slots_cleared = r.slots_cleared;
    legacy_flag_was_set = build_in_progress;
    message =
        if ltb 0 r.cleared_count
        then cleared_slots r.cleared_count
        else if build_in_progress
        then cleared_legacy_flag
        else already_clear;
  }

  -- `calm` rules out the two steps that can make a claim miss all slots.
  pub data Step (calm : Bool) (w : Pool Info) : Pool Info → Type 0 where
    acquires :
        (n : ℕ)
        → w.permits ≡ suc n
        → Step calm w (record w { permits = n; entering = w.entering + 1 })
    begins_claim :
        (n : ℕ)
        → w.entering ≡ suc n
        → Step calm w (record w { entering = n; claiming = 0 ∷ w.claiming })
    claims :
        (i : ℕ) (before later : List ℕ) (info : Info) (after : List (Option Info))
        → w.claiming ≡ before ++ i ∷ later
        → claim_idle_slot info i w.slots ≡ takes after
        → Step calm w
            (record w { slots = after; claiming = before ++ later; guards = i ∷ w.guards })
    looks_on :
        (i j : ℕ) (before later : List ℕ) (info : Info)
        → w.claiming ≡ before ++ i ∷ later
        → claim_idle_slot info i w.slots ≡ passes j
        → Step calm w (record w { claiming = j ∷ before ++ later })
    cancels :
        (i : ℕ) (before later : List ℕ)
        → w.claiming ≡ before ++ i ∷ later
        → Step calm w (record w { claiming = before ++ later; leaving = w.leaving + 1 })
    -- The prewarming of one slot, which claims that one.
    prewarms :
        (n i : ℕ) (info : Info)
        → calm ≡ false
        → w.entering ≡ suc n
        → get_elem? w.slots i ≡ some none
        → Step calm w (record w {
          slots = set_slot i (some info) w.slots;
          entering = n;
          guards = i ∷ w.guards;
        })
    -- A build without a slot, and a prewarming that finds nothing to do.
    skips_slot :
        (n : ℕ)
        → w.entering ≡ suc n
        → Step calm w (record w { entering = n; leaving = w.leaving + 1 })
    -- `SlotGuard::drop` empties the field, whoever has filled it.
    drops :
        (i : ℕ) (before later : List ℕ)
        → w.guards ≡ before ++ i ∷ later
        → Step calm w (record w {
          slots = set_slot i none w.slots;
          guards = before ++ later;
          leaving = w.leaving + 1;
        })
    -- The same if it cannot take the lock, and the task that it spawns then.
    defers :
        (i : ℕ) (before later : List ℕ)
        → calm ≡ false
        → w.guards ≡ before ++ i ∷ later
        → Step calm w (record w {
          guards = before ++ later;
          deferred = i ∷ w.deferred;
          leaving = w.leaving + 1;
        })
    clears :
        (i : ℕ) (before later : List ℕ)
        → w.deferred ≡ before ++ i ∷ later
        → Step calm w (record w { slots = set_slot i none w.slots; deferred = before ++ later })
    -- A build sets the flag, and a recomputation after it sets it right.
    flags : (flag : Bool) → Step calm w (record w { build_in_progress = flag })
    begins_reset :
        Step calm w
          (record w { resetting = record { slots_cleared = []; cleared_count = 0 } ∷ w.resetting })
    resets :
        (r : Reset Info) (s : Option Info) (before later : List (Reset Info))
        → w.resetting ≡ before ++ r ∷ later
        → get_elem? w.slots (length r.slots_cleared) ≡ some s
        → Step calm w (record w {
          slots = set_slot (length r.slots_cleared) none w.slots;
          resetting = reset_slot s r ∷ before ++ later;
        })
    ends_reset :
        (r : Reset Info) (before later : List (Reset Info))
        → w.resetting ≡ before ++ r ∷ later
        → length r.slots_cleared ≡ length w.slots
        → Step calm w (record w { build_in_progress = false; resetting = before ++ later })
    releases :
        (n : ℕ)
        → w.leaving ≡ suc n
        → Step calm w (record w { permits = w.permits + 1; leaving = n })

  pub data Reach (calm : Bool) (configured : ℕ) : Pool Info → Type 0 where
    here : Reach calm configured (new configured)
    next : {w w' : Pool Info} → Reach calm configured w → Step calm w w' → Reach calm configured w'
