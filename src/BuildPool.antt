-- ===== src/BuildPool.antt =====
-- The build pool: `BuildPool` of src/state.rs with its permits and slots. Of a slot only the field `busy`
-- plays a part in its claiming; the target directory, the history and the logs do not.
pub mod Permits
pub mod History
mod Tests
use qontinui_supervisor.Prelude.{
  ℕ, zero, suc, Option, none, some, List, [], ◌∷◌, get_elem?, ltb, if◌then◌else◌,
}

-- What a claim finds at the slot whose lock it holds.
pub data Look (Info : Type 0) : Type 0 where
  takes : List (Option Info) → Look Info
  passes : ℕ → Look Info
  panics : Look Info

module _ {Info : Type 0} where
  -- `BuildPool::new`: the slots of a pool.
  unfoldable pub idle_slots : ℕ → List (Option Info)
  idle_slots zero = []
  idle_slots (suc n) = none ∷ idle_slots n

  -- The write of the field of one slot.
  abbrev pub set_slot : ℕ → Option Info → List (Option Info) → List (Option Info)
  set_slot i t [] = []
  set_slot zero t (s ∷ slots) = t ∷ slots
  set_slot (suc i) t (s ∷ slots) = s ∷ set_slot i t slots

  -- One turn of the loop of `claim_idle_slot`, under the lock of one slot; after the last slot the claim
  -- panics.
  unfoldable pub claim_idle_slot : Info → ℕ → List (Option Info) → Look Info
  claim_idle_slot info i slots = elim (get_elem? slots i) [
    | none ↦ panics
    | some none ↦ takes (set_slot i (some info) slots)
    | some (some other) ↦ passes (suc i)
  ]

-- `pool_size.max(1)`
unfoldable pub pool_size : ℕ → ℕ
pool_size configured = if ltb configured 1 then 1 else configured
