-- ===== src/BuildPool/History.antt =====
-- The build history of a slot: `SlotHistory` of src/state.rs and the tails of texts that it keeps. A
-- text is its bytes; a duration is of a type of its own, as the model does not compute with it.
pub mod Tail
pub mod Refinement
mod Tests
use qontinui_supervisor.Prelude.{
  ℕ, zero, suc, ◌+◌, ◌-◌, ◌*◌, ◌%◌, ◌^◌, Bool, true, false, not, Option, none, some, List, [], ◌∷◌,
  ◌++◌, ◌&&◌, ltb, leb, if◌then◌else◌, length, drop, get_elem?, push_bounded,
}

abbrev pub recent_build_sample_count : ℕ
recent_build_sample_count = 10

abbrev pub last_error_detail_max_bytes : ℕ
last_error_detail_max_bytes = 4 * 1024

abbrev pub last_error_log_max_bytes : ℕ
last_error_log_max_bytes = 1024

-- A byte that continues a character.
unfoldable pub is_continuation : ℕ → Bool
is_continuation b = leb 128 b && ltb b 192

-- `str::is_char_boundary`
unfoldable pub is_char_boundary : List ℕ → ℕ → Bool
unfolding is_continuation
is_char_boundary s zero = true
is_char_boundary s (suc i) = elim (get_elem? s (suc i)) [
  | none ↦ leb (length s) (suc i) && leb (suc i) (length s)
  | some b ↦ not (is_continuation b)
]

-- The loop that moves the cut to a boundary, on fuel.
unfoldable pub next_boundary : ℕ → List ℕ → ℕ → ℕ
unfolding is_char_boundary
next_boundary zero s cut = cut
next_boundary (suc fuel) s cut =
    let rest = next_boundary fuel s (cut + 1) in
    if ltb cut (length s) && not (is_char_boundary s cut) then rest else cut

unfoldable pub tail_bytes_keep_utf8 : List ℕ → ℕ → List ℕ
unfolding next_boundary
tail_bytes_keep_utf8 s max_bytes =
    if leb (length s) max_bytes
    then s
    else drop (next_boundary (length s) s (length s - max_bytes)) s

-- "[...truncated]\n"
abbrev pub marker : List ℕ
marker = 91 ∷ 46 ∷ 46 ∷ 46 ∷ 116 ∷ 114 ∷ 117 ∷ 110 ∷ 99 ∷ 97 ∷ 116 ∷ 101 ∷ 100 ∷ 93 ∷ 10 ∷ []

unfoldable pub truncate_error_detail_keep_tail : List ℕ → List ℕ
unfolding next_boundary
truncate_error_detail_keep_tail s =
    if leb (length s) last_error_detail_max_bytes
    then s
    else marker ++ drop (next_boundary (length s) s (length s - last_error_detail_max_bytes)) s

abbrev pub map_option {ℓ κ} : {A : Type ℓ} {B : Type κ} → (A → B) → Option A → Option B
map_option f none = none
map_option f (some a) = some (f a)

module _ (Duration : Type 0) where
  pub record SlotHistory : Type 0 where
    pub recent_durations_secs : List Duration
    pub total_builds : ℕ
    pub successful_builds : ℕ
    pub last_completed_at : Option ℕ
    pub last_error : Option (List ℕ)
    pub last_error_detail : Option (List ℕ)
    pub last_error_log : Option (List ℕ)

  -- What a finished build hands over, and the clock's reading.
  pub record Finished : Type 0 where
    pub duration_secs : Duration
    pub success : Bool
    pub error : Option (List ℕ)
    pub error_detail : Option (List ℕ)
    pub now : ℕ

  unfoldable pub new : SlotHistory
  new = record {
    recent_durations_secs = [];
    total_builds = 0;
    successful_builds = 0;
    last_completed_at = none;
    last_error = none;
    last_error_detail = none;
    last_error_log = none;
  }

  -- `SlotHistory::record`
  unfoldable pub record_build : Finished → SlotHistory → SlotHistory
  unfolding tail_bytes_keep_utf8 truncate_error_detail_keep_tail
  record_build b h =
      let timed = record h {
        recent_durations_secs =
            push_bounded recent_build_sample_count b.duration_secs h.recent_durations_secs;
        total_builds = (h.total_builds + 1) % 2 ^ 64;
        last_completed_at = some b.now;
      } in
      if b.success
      then record timed {
        successful_builds = (h.successful_builds + 1) % 2 ^ 64;
        last_error_log = none;
      }
      else record timed {
        last_error_log =
            map_option (λ s. tail_bytes_keep_utf8 s last_error_log_max_bytes) b.error_detail;
        last_error = b.error;
        last_error_detail = map_option truncate_error_detail_keep_tail b.error_detail;
      }

  -- The history after these builds, the latest first.
  unfoldable pub recorded : List Finished → SlotHistory
  unfolding new record_build
  recorded [] = new
  recorded (b ∷ bs) = record_build b (recorded bs)
