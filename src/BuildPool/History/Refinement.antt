-- ===== src/BuildPool/History/Refinement.antt =====
-- The build history of a slot (src/state.rs) against the log of all its builds.
use qontinui_supervisor.Prelude.{
  ℕ, ◌^◌, ◌<◌, ◌≤◌, ◌≡◌, refl, not, Option, none, some, List, [], ◌∷◌, ◌++◌, arith, if◌then◌else◌,
  length, count_if, find_first, last_n, push_bounded-last_n,
}
use qontinui_supervisor.BuildPool.History.{
  recent_build_sample_count, last_error_log_max_bytes, tail_bytes_keep_utf8,
  truncate_error_detail_keep_tail, map_option, SlotHistory, Finished, recorded,
}

module _ {Duration : Type 0} where
  -- The durations in the order of the builds, of a log with the latest build first.
  abbrev pub durations : List (Finished Duration) → List Duration
  durations [] = []
  durations (b ∷ bs) = durations bs ++ b.duration_secs ∷ []

  abbrev pub last_failure : List (Finished Duration) → Option (Finished Duration)
  last_failure bs = find_first (λ b. not b.success) bs

  -- The summary of the failure in which the slot is now.
  abbrev pub failure_now : List (Finished Duration) → Option (List ℕ)
  failure_now [] = none
  failure_now (b ∷ bs) =
      if b.success
      then none
      else map_option (λ s. tail_bytes_keep_utf8 s last_error_log_max_bytes) b.error_detail

  abbrev pub failed_detail : Option (Finished Duration) → Option (List ℕ)
  failed_detail none = none
  failed_detail (some b) = map_option truncate_error_detail_keep_tail b.error_detail

  abbrev pub failed_error : Option (Finished Duration) → Option (List ℕ)
  failed_error none = none
  failed_error (some b) = b.error

  abbrev pub completed : List (Finished Duration) → Option ℕ
  completed [] = none
  completed (b ∷ bs) = some b.now

  -- The history `h` is that of the log `bs`.
  pub record Summarises (h : SlotHistory Duration) (bs : List (Finished Duration)) : Type 0 where
    pub recent : h.recent_durations_secs ≡ last_n recent_build_sample_count (durations bs)
    pub total : h.total_builds ≡ length bs
    pub successful : h.successful_builds ≡ count_if (λ b. b.success) bs
    pub last_completed_at : h.last_completed_at ≡ completed bs
    pub last_error : h.last_error ≡ failed_error (last_failure bs)
    pub last_error_detail : h.last_error_detail ≡ failed_detail (last_failure bs)
    pub last_error_log : h.last_error_log ≡ failure_now bs

  count_success : (bs : List (Finished Duration)) → count_if (λ b. b.success) bs ≤ length bs
  count_success [] = omega arith
  count_success (b ∷ bs) = ground (arith, count_success bs)

  -- While a slot has had fewer than 2 ^ 64 builds, its history is what the log of all its builds says:
  -- the last ten durations in order, the numbers of builds and of successes, the end of the last
  -- build, the error of the last failure with the end of its output, and the short summary exactly
  -- while the last build is a failure.
  pub recorded-Summarises :
      (bs : List (Finished Duration)) → length bs < 2 ^ 64 → Summarises (recorded Duration bs) bs
  unfolding recorded
  recorded-Summarises [] h = record {
    recent = refl;
    total = refl;
    successful = refl;
    last_completed_at = refl;
    last_error = refl;
    last_error_detail = refl;
    last_error_log = refl;
  }
  recorded-Summarises (b ∷ bs) h =
      let before = recorded-Summarises bs (omega (arith, h)) in
      record {
        recent = ground (
          arith,
          before.recent,
          push_bounded-last_n recent_build_sample_count b.duration_secs (durations bs)
              (omega arith),
        );
        total = ground (arith, before.total, h);
        successful = ground (arith, before.successful, count_success bs, h);
        last_completed_at = ground arith;
        last_error = ground (arith, before.last_error);
        last_error_detail = ground (arith, before.last_error_detail);
        last_error_log = ground arith;
      }
