-- ===== src/Binaries.antt =====
-- Which runner binary a start deploys: the picking of a build slot, the record of where its exe comes
-- from, the gate on that record, and the drift between slots (src/process/manager.rs). The paths are
-- the ones that src/config.rs forms; the text of a warning or an error is the data that it names.
pub mod Picked
pub mod Start
pub mod Gated
pub mod Drift
pub mod Lkg
mod Tests
use qontinui_supervisor.Prelude.{
  ℕ, ◌≡◌, String, Bool, true, false, not, Option, none, some, List, [], ◌∷◌, ◌++◌, map, ◌&&◌, ltb,
  leb, eqb, if◌then◌else◌, find_first, is_some, ◌==◌, string_eq,
}
use qontinui_supervisor.Prelude.Sort.{sort_by_key}

pub data ExePath : Type 0 where
  slot_exe : ℕ → ExePath
  lkg_exe legacy_exe : ExePath
  other : String → ExePath

pub data BuildSource : Type 0 where
  live_tree origin_main override : BuildSource

unfoldable pub is_vouched : BuildSource → Bool
is_vouched live_tree = true
is_vouched origin_main = true
is_vouched override = false

pub record BuildProvenance : Type 0 where
  pub sha : Option String
  pub source : BuildSource
  pub built_from : String
  pub built_at : String

pub record LkgInfo : Type 0 where
  pub built_at : String
  pub source_slot : ℕ
  pub exe_size : ℕ
  pub sha : Option String
  pub source : BuildSource

-- What is read from the disk: the sidecar of a slot is `none` if it is missing or cannot be parsed.
pub record Disk : Type 0 where
  pub exists : ExePath → Bool
  pub sidecar : ℕ → Option BuildProvenance
  pub mtime : ExePath → Option ℕ

-- `SlotProvenanceKey`
abbrev pub Key : Type 0
Key = Option String × Option BuildSource

unfoldable pub key_of : Option BuildProvenance → Key
key_of none = (none, none)
key_of (some p) = (p.sha, some p.source)

abbrev pub same_source : BuildSource → BuildSource → Bool
same_source live_tree live_tree = true
same_source origin_main origin_main = true
same_source override override = true
same_source _ _ = false

abbrev pub same_option : {A : Type 0} → (A → A → Bool) → Option A → Option A → Bool
same_option same none none = true
same_option same (some a) (some b) = same a b
same_option same _ _ = false

abbrev pub same_key : Key → Key → Bool
same_key a b = same_option (λ s t. s == t) a.0 b.0 && same_option same_source a.1 b.1

-- A missing sha is printed as `(none)`.
abbrev pub Conflict : Type 0
Conflict = ℕ × Key

pub record SlotShaDrift : Type 0 where
  pub picked_slot_id : ℕ
  pub picked_sha : Option String
  pub picked_source : BuildSource
  pub conflicting : List Conflict

-- The `filter_map` over all slots.
unfoldable pub conflicts : ℕ → Key → List (ℕ × Key) → List Conflict
conflicts picked_slot_id picked [] = []
conflicts picked_slot_id picked ((id, key) ∷ slots) =
    let rest = conflicts picked_slot_id picked slots in
    if eqb id picked_slot_id
    then rest
    else if not (is_some key.1)
    then rest
    else if same_key key picked
    then rest
    else (id, key) ∷ rest

unfoldable pub drift_of : ℕ → Option String → BuildSource → List Conflict → Option SlotShaDrift
drift_of picked_slot_id picked_sha picked_source [] = none
drift_of picked_slot_id picked_sha picked_source (c ∷ cs) = some (record {
  picked_slot_id = picked_slot_id;
  picked_sha = picked_sha;
  picked_source = picked_source;
  conflicting = sort_by_key (λ e. e.0) (c ∷ cs);
})

unfoldable pub detect_slot_sha_drift : ℕ → Key → List (ℕ × Key) → Option SlotShaDrift
unfolding drift_of conflicts
detect_slot_sha_drift picked_slot_id (sha, none) all_slots = none
detect_slot_sha_drift picked_slot_id (sha, some source) all_slots =
    drift_of picked_slot_id sha source (conflicts picked_slot_id (sha, some source) all_slots)

unfoldable pub preferred : Option ℕ → List (ℕ × ExePath) → (ExePath → Bool) → Option ℕ
preferred none slots exists = none
preferred (some id) slots exists = elim (find_first (λ s. eqb s.0 id) slots) [
  | none ↦ none
  | some s ↦ if exists s.1 then some id else none
]

unfoldable pub first_existing : List (ℕ × ExePath) → (ExePath → Bool) → Option ℕ
first_existing [] exists = none
first_existing ((id, p) ∷ slots) exists =
    let rest = first_existing slots exists in if exists p then some id else rest

unfoldable pub pick_slot_decision : Option ℕ → List (ℕ × ExePath) → (ExePath → Bool) → Option ℕ
unfolding preferred first_existing
pick_slot_decision last_successful_slot slots exists =
    elim (preferred last_successful_slot slots exists) [
      | some id ↦ some id
      | none ↦ first_existing slots exists
    ]

-- The slots of the pool, and the one of the last successful build.
pub record Pool : Type 0 where
  pub slots : List ℕ
  pub last_successful_slot : Option ℕ
  pub last_known_good : Option LkgInfo

pub data Warning : Type 0 where
  drift : SlotShaDrift → Warning
  stale_target_debug : ℕ → ℕ → Warning
  unknown_provenance : ℕ → Warning
  legacy_unknown : ExePath → Warning

pub data Refusal : Type 0 where
  override_missing : ExePath → Refusal
  foreign_exe : ℕ → BuildProvenance → Refusal
  exe_not_found : Refusal

pub data Result (A : Type 0) : Type 0 where
  ok : A → Result A
  err : Refusal → Result A

abbrev pub to_list : {A : Type 0} → Option A → List A
to_list none = []
to_list (some a) = a ∷ []

unfoldable pub oldest : List (Option ℕ) → Option ℕ
oldest [] = none
oldest (none ∷ ms) = oldest ms
oldest (some m ∷ ms) = elim (oldest ms) [ none ↦ some m | some n ↦ some (if leb m n then m else n) ]

-- The two times of the warning.
unfoldable pub compute_target_debug_staleness : Option ℕ → List (Option ℕ) → Option (ℕ × ℕ)
unfolding oldest
compute_target_debug_staleness none slot_mtimes = none
compute_target_debug_staleness (some legacy) slot_mtimes = elim (oldest slot_mtimes) [
  | none ↦ none
  | some oldest_slot ↦ if ltb legacy oldest_slot then some (legacy, oldest_slot) else none
]

abbrev pub stale_warning : Option (ℕ × ℕ) → List Warning
stale_warning none = []
stale_warning (some (legacy, oldest_slot)) = stale_target_debug legacy oldest_slot ∷ []

abbrev pub drift_warning : Option SlotShaDrift → List Warning
drift_warning none = []
drift_warning (some d) = drift d ∷ []

module _ (d : Disk) (pool : Pool) where
  unfoldable pub pick_slot_for_resolution : Option ℕ
  unfolding pick_slot_decision
  pick_slot_for_resolution =
      pick_slot_decision pool.last_successful_slot (map (λ k. (k, slot_exe k)) pool.slots) d.exists

  unfoldable pub slot_provenance : List (ℕ × Key)
  unfolding key_of
  slot_provenance = map (λ k. (k, key_of (d.sidecar k))) pool.slots

  -- The key of the picked slot, of which the pool has one entry.
  unfoldable pub picked_key : ℕ → Key
  unfolding slot_provenance
  picked_key picked_id = elim (find_first (λ s. eqb s.0 picked_id) slot_provenance) [
    | none ↦ (none, none)
    | some s ↦ s.1
  ]

  unfoldable pub slot_drift : ℕ → Option SlotShaDrift
  unfolding detect_slot_sha_drift picked_key
  slot_drift picked_id = detect_slot_sha_drift picked_id (picked_key picked_id) slot_provenance

  unfoldable pub target_debug_staleness : Option (ℕ × ℕ)
  unfolding compute_target_debug_staleness
  target_debug_staleness =
      compute_target_debug_staleness (d.mtime legacy_exe)
        (map (λ k. d.mtime (slot_exe k)) pool.slots)

  unfoldable pub resolve_source_exe_with_slot : List Warning × Result (Option ℕ × ExePath)
  unfolding pick_slot_for_resolution slot_drift target_debug_staleness
  resolve_source_exe_with_slot = elim pick_slot_for_resolution [
    | some picked_id ↦ (
      drift_warning (slot_drift picked_id) ++ stale_warning target_debug_staleness,
      ok (some picked_id, slot_exe picked_id),
    )
    | none ↦ ([], if d.exists legacy_exe then ok (none, legacy_exe) else err exe_not_found)
  ]
