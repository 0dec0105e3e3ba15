-- ===== src/BuildPool/Tests.antt =====
-- Runs of the model of the build pool (src/state.rs, src/routes/runner.rs) with two slots.
use qontinui_supervisor.Prelude.{
  ◌+◌, ◌≤◌, ◌≡◌, ◌≢◌, refl, inl, String, Bool, true, false, none, some, [], ◌∷◌, length, count_if,
}
use qontinui_supervisor.BuildPool.{idle_slots, pool_size, claim_idle_slot, panics}
use qontinui_supervisor.BuildPool.Permits.{
  Pool, cleared_slots, new, reset_slot, reset_answer, acquires, begins_claim, claims, looks_on,
  prewarms, drops, begins_reset, resets, releases, Reach, here, next,
}
use qontinui_supervisor.BuildPool.Permits.Held.{is_idle, permits_match_slots}
use qontinui_supervisor.BuildPool.Permits.Claims.{IdleFrom, claim_finds_slot}

abbrev first : Pool String
first = record {
  slots = some "first" ∷ none ∷ [];
  build_in_progress = false;
  permits = 1;
  entering = 0;
  claiming = [];
  guards = 0 ∷ [];
  deferred = [];
  leaving = 0;
  resetting = [];
}

Reach-first : (calm : Bool) → Reach calm 2 first
unfolding new idle_slots pool_size claim_idle_slot
Reach-first calm =
    next (next (next here (acquires 1 refl)) (begins_claim 0 refl))
      (claims 0 [] [] "first" (some "first" ∷ none ∷ []) refl refl)

-- A second claim has passed the slot of the first build.
abbrev looking : Pool String
looking = record first { permits = 0; claiming = 1 ∷ [] }

Reach-looking : (calm : Bool) → Reach calm 2 looking
unfolding claim_idle_slot
Reach-looking calm =
    next (next (next (Reach-first calm) (acquires 0 refl)) (begins_claim 0 refl))
      (looks_on 0 1 [] [] "second" refl refl)

claim_finds_slot_example :
    IdleFrom 1 looking.slots × (claim_idle_slot "second" 1 looking.slots ≢ panics)
claim_finds_slot_example = claim_finds_slot 2 "second" 1 (Reach-looking true) (inl refl)

permits_match_slots_example :
    (0 + 0 + length looking.claiming + 0 ≤ count_if is_idle looking.slots + length looking.deferred)
    × (length looking.guards + 0 + length looking.claiming + 0 ≤ pool_size 2)
permits_match_slots_example = permits_match_slots true 2 (Reach-looking true)

-- The first build ends while the claim has passed its slot, and a prewarming takes the other one.
abbrev missed : Pool String
missed = record looking { slots = none ∷ some "prewarm" ∷ []; guards = 1 ∷ [] }

prewarm_takes_last : Reach false 2 missed
prewarm_takes_last =
    next
      (next (next (next (Reach-looking false) (drops 0 [] [] refl)) (releases 0 refl))
        (acquires 0 refl))
      (prewarms 0 1 "prewarm" refl refl refl)

-- The claim finds no slot although the first one is idle.
claim_misses_slot :
    Reach false 2 (record missed { claiming = 2 ∷ [] })
    × (claim_idle_slot "second" 2 missed.slots ≡ panics)
unfolding claim_idle_slot
claim_misses_slot = (next prewarm_takes_last (looks_on 1 2 [] [] "second" refl refl), refl)

-- A forced release empties the slot of a build that still runs, and another build takes it.
slot_is_shared : Reach true 2 (record first {
  slots = some "second" ∷ none ∷ [];
  permits = 0;
  guards = 0 ∷ 0 ∷ [];
  resetting = record { slots_cleared = some "first" ∷ []; cleared_count = 1 } ∷ [];
})
unfolding claim_idle_slot reset_slot
slot_is_shared =
    next
      (next
        (next
          (next (next (Reach-first true) begins_reset) (
            resets (record { slots_cleared = []; cleared_count = 0 }) (some "first") [] [] refl
              refl))
          (acquires 0 refl))
        (begins_claim 0 refl))
      (claims 0 [] [] "second" (some "second" ∷ none ∷ []) refl refl)

-- The end of the first build then empties the slot of the second one.
first_frees_second : Reach true 2 (record first {
  permits = 0;
  slots = none ∷ none ∷ [];
  leaving = 1;
  resetting = record { slots_cleared = some "first" ∷ []; cleared_count = 1 } ∷ [];
})
first_frees_second = next slot_is_shared (drops 0 (0 ∷ []) [] refl)

stuck_slot_is_reported :
    reset_answer {Info = String} true
      (record { slots_cleared = some "first" ∷ none ∷ []; cleared_count = 1 })
    ≡ record {
      slots_cleared = some "first" ∷ none ∷ [];
      legacy_flag_was_set = true;
      message = cleared_slots 1;
    }
unfolding reset_answer
stuck_slot_is_reported = refl
