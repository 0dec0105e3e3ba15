-- ===== src/DevAction/States/Judged.antt =====
-- The dev-states against the files themselves, without the newest time in between
-- (src/dev_action/states.rs).
use qontinui_supervisor.Prelude.{
  ℕ, ◌+◌, ◌-◌, ◌*◌, ◌/◌, ◌≤◌, ◌≡◌, refl, arith, Bool, true, false, not, Option, none, some, List,
  [], ◌∷◌, ◌&&◌, ◌||◌, map, ltb, any_of, is_some, All, Bool-cases, inl, inr,
}
use qontinui_supervisor.DevAction.States.{
  Eval, is_true, is_false, unknown, DevState, slots_empty, legacy_exe_fallback, lkg_stale,
  dist_stale, dist_missing, primary_down, FilePath, Metadata, FileSystem, SlotResolution, resolved,
  not_evaluated, Observed, eval_bool, legacy_exe_fallback_from_slot, dist_missing_from_metadata,
  dist_stale_from_mtimes, newest, mtime, exists, slots_empty_from_paths, consider_all, sources,
  newest_frontend_src_mtime, slot_exe, dist_index, legacy_fallback, primary_down_from, is_before,
  lkg_stale_from_times, evaluate_all,
}

abbrev pub says_true : Eval → Bool
says_true is_true = true
says_true _ = false

abbrev pub says_false : Eval → Bool
says_false is_false = true
says_false _ = false

abbrev pub says_unknown : Eval → Bool
says_unknown unknown = true
says_unknown _ = false

-- Something was modified, and after `t`.
abbrev pub is_after : ℕ → Option ℕ → Bool
is_after t none = false
is_after t (some m) = ltb t m

newest-is_after : (t : ℕ) (n m : Option ℕ) → is_after t (newest n m) ≡ is_after t n || is_after t m
unfolding newest
newest-is_after t none none = refl
newest-is_after t (some n) none = ground arith
newest-is_after t none (some m) = refl
newest-is_after t (some n) (some m) = ground arith

newest-is_some : (n m : Option ℕ) → is_some (newest n m) ≡ is_some n || is_some m
unfolding newest
newest-is_some none none = refl
newest-is_some (some n) none = refl
newest-is_some none (some m) = refl
newest-is_some (some n) (some m) = refl

module _ (fs : FileSystem) where
  consider_all-is_after :
      (t : ℕ) (n : Option ℕ) (ps : List FilePath)
      → is_after t (consider_all fs n ps) ≡ is_after t n || any_of (λ p. is_after t (mtime fs p)) ps
  unfolding consider_all
  consider_all-is_after t n [] = ground arith
  consider_all-is_after t n (p ∷ ps) =
      ground (
        arith,
        consider_all-is_after t (newest n (mtime fs p)) ps,
        newest-is_after t n (mtime fs p),
      )

  consider_all-is_some :
      (n : Option ℕ) (ps : List FilePath)
      → is_some (consider_all fs n ps) ≡ is_some n || any_of (λ p. is_some (mtime fs p)) ps
  unfolding consider_all
  consider_all-is_some n [] = ground arith
  consider_all-is_some n (p ∷ ps) =
      ground (arith, consider_all-is_some (newest n (mtime fs p)) ps, newest-is_some n (mtime fs p))

  module _ (npm_dir : FilePath) where
    -- A source has been modified after `t`; the time of a source can be read.
    abbrev pub edited_after : ℕ → Bool
    edited_after t = any_of (λ p. is_after t (mtime fs p)) (sources fs npm_dir)

    abbrev pub dated : Bool
    dated = any_of (λ p. is_some (mtime fs p)) (sources fs npm_dir)

    newest_frontend_src_mtime-is_after :
        (t : ℕ) → is_after t (newest_frontend_src_mtime fs npm_dir) ≡ edited_after t
    unfolding newest_frontend_src_mtime
    newest_frontend_src_mtime-is_after t = consider_all-is_after t none (sources fs npm_dir)

    newest_frontend_src_mtime-is_some : is_some (newest_frontend_src_mtime fs npm_dir) ≡ dated
    unfolding newest_frontend_src_mtime
    newest_frontend_src_mtime-is_some = consider_all-is_some none (sources fs npm_dir)

abbrev pub StaleDist : Bool → (ℕ → Bool) → Option ℕ → Eval → Type 0
StaleDist is_dated is_edited none e = e ≡ unknown
StaleDist is_dated is_edited (some t) e =
    (says_true e ≡ is_edited t) × (says_unknown e ≡ not is_dated)

-- The whole seconds of the comparison lose up to 999,999,999 nanoseconds. The source is judged if its
-- newest time is after the epoch and in the range of chrono, which ends `max_secs` after the epoch.
abbrev pub StaleLkg : ℕ → ℕ → (ℕ → Bool) → Option ℕ → Eval → Type 0
StaleLkg unix_epoch max_secs is_edited none e = e ≡ unknown
StaleLkg unix_epoch max_secs is_edited (some t) e =
    (says_true e && not (is_edited t) ≡ false)
    × (says_false e && is_edited (t + 999999999) ≡ false)
    × (says_unknown e
          && (is_edited unix_epoch && not (is_edited (unix_epoch + max_secs * 1000000000)))
        ≡ false)

dist_stale_from_mtimes_lem :
    (d n : Option ℕ) → StaleDist (is_some n) (λ t. is_after t n) d (dist_stale_from_mtimes d n)
unfolding dist_stale_from_mtimes eval_bool
dist_stale_from_mtimes_lem none n = refl
dist_stale_from_mtimes_lem (some d) none = (refl, refl)
dist_stale_from_mtimes_lem (some d) (some m) = (ground arith, ground arith)

-- The index of `dist` is a file with something in it.
abbrev pub has_dist : Option Metadata → Bool
has_dist none = false
has_dist (some meta) = meta.is_file && ltb 0 meta.len

abbrev pub NoSlot : SlotResolution → Eval → Type 0
NoSlot not_evaluated e = e ≡ unknown
NoSlot (resolved none) e = e ≡ is_true
NoSlot (resolved (some _)) e = e ≡ is_false

abbrev pub Down : Option Bool → Eval → Type 0
Down none e = e ≡ unknown
Down (some responding) e = (says_true e ≡ not responding) × (says_unknown e ≡ false)

legacy_fallback-NoSlot : (id : SlotResolution) → NoSlot id (legacy_fallback id)
unfolding legacy_fallback legacy_exe_fallback_from_slot eval_bool
legacy_fallback-NoSlot not_evaluated = refl
legacy_fallback-NoSlot (resolved none) = refl
legacy_fallback-NoSlot (resolved (some _)) = refl

dist_missing_from_metadata_lem :
    (meta : Option Metadata)
    → (says_false (dist_missing_from_metadata meta) ≡ has_dist meta)
      × (says_unknown (dist_missing_from_metadata meta) ≡ false)
unfolding dist_missing_from_metadata
dist_missing_from_metadata_lem none = (refl, refl)
dist_missing_from_metadata_lem (some meta) = (ground arith, ground arith)

primary_down_from-Down : (p : Option Bool) → Down p (primary_down_from p)
unfolding primary_down_from eval_bool
primary_down_from-Down none = refl
primary_down_from-Down (some true) = (refl, refl)
primary_down_from-Down (some false) = (refl, refl)

module _ (unix_epoch max_secs : ℕ) (fs : FileSystem) (o : Observed) (slot_id : SlotResolution) where
  -- What the files and the supervisor say about each state.
  abbrev pub IsJudged : DevState → Eval → Type 0
  IsJudged slots_empty e =
      (says_false e ≡ any_of (λ d. exists fs (slot_exe d)) o.target_dirs) × (says_unknown e ≡ false)
  IsJudged legacy_exe_fallback e = NoSlot slot_id e
  IsJudged lkg_stale e = StaleLkg unix_epoch max_secs (edited_after fs o.npm_dir) o.lkg_built_at e
  IsJudged dist_stale e =
      StaleDist (dated fs o.npm_dir) (edited_after fs o.npm_dir) (mtime fs (dist_index o.npm_dir)) e
  IsJudged dist_missing e =
      (says_false e ≡ has_dist (fs.metadata (dist_index o.npm_dir))) × (says_unknown e ≡ false)
  IsJudged primary_down e = Down o.primary_responding e

  slots_lem :
      (ds : List FilePath)
      → any_of (exists fs) (map slot_exe ds) ≡ any_of (λ d. exists fs (slot_exe d)) ds
  slots_lem [] = refl
  slots_lem (d ∷ ds) = rw (slots_lem ds) refl

  slots_empty-IsJudged :
      IsJudged slots_empty (slots_empty_from_paths fs (map slot_exe o.target_dirs))
  unfolding slots_empty_from_paths eval_bool
  slots_empty-IsJudged =
      (ground (arith, slots_lem o.target_dirs), ground (arith, slots_lem o.target_dirs))

  StaleLkg-IsJudged :
      (b : Option ℕ) (e : Eval)
      → StaleLkg unix_epoch max_secs (λ t. is_after t (newest_frontend_src_mtime fs o.npm_dir)) b e
      → StaleLkg unix_epoch max_secs (edited_after fs o.npm_dir) b e
  StaleLkg-IsJudged none e h = h
  StaleLkg-IsJudged (some t) e h = (
    rw (← newest_frontend_src_mtime-is_after fs o.npm_dir t) h.0,
    rw (← newest_frontend_src_mtime-is_after fs o.npm_dir (t + 999999999)) h.1,
    ground (
      arith,
      h.2,
      newest_frontend_src_mtime-is_after fs o.npm_dir unix_epoch,
      newest_frontend_src_mtime-is_after fs o.npm_dir (unix_epoch + max_secs * 1000000000),
    ),
  )

  StaleDist-IsJudged :
      (d : Option ℕ) (e : Eval)
      → StaleDist
          (is_some (newest_frontend_src_mtime fs o.npm_dir))
          (λ t. is_after t (newest_frontend_src_mtime fs o.npm_dir))
          d
          e
      → StaleDist (dated fs o.npm_dir) (edited_after fs o.npm_dir) d e
  StaleDist-IsJudged none e h = h
  StaleDist-IsJudged (some t) e h = (
    rw (← newest_frontend_src_mtime-is_after fs o.npm_dir t) h.0,
    rw (← newest_frontend_src_mtime-is_some fs o.npm_dir) h.1,
  )

-- The catalog of the states.
abbrev pub all_states : List DevState
all_states =
    slots_empty ∷ legacy_exe_fallback ∷ lkg_stale ∷ dist_stale ∷ dist_missing ∷ primary_down ∷ []

module _ (unix_epoch max_secs : ℕ) (from_timestamp : ℕ → Option ℕ)
    (timestamp : (s t : ℕ) → from_timestamp s ≡ some t → t ≡ unix_epoch + s * 1000000000)
    (in_range : (s : ℕ) → s ≤ max_secs → is_some (from_timestamp s) ≡ true) where
  is_before_lem :
      (b m : ℕ)
      → ltb m unix_epoch ≡ false
      → (t : Option ℕ) → from_timestamp ((m - unix_epoch) / 1000000000) ≡ t
      → StaleLkg unix_epoch max_secs
          (λ u. is_after u (some m))
          (some b)
          (is_before unix_epoch from_timestamp b t)
  unfolding is_before eval_bool
  is_before_lem b m h none e =
      let bad = in_range ((m - unix_epoch) / 1000000000) in (refl, refl, ground (arith, h, e, bad))
  is_before_lem b m h (some t) e =
      let at = timestamp ((m - unix_epoch) / 1000000000) t e in
      (ground (arith, h, at), ground (arith, h, at), ground (arith, h, at))

  lkg_stale_from_times_lem :
      (b n : Option ℕ)
      → StaleLkg unix_epoch max_secs
          (λ u. is_after u n)
          b
          (lkg_stale_from_times unix_epoch from_timestamp b n)
  unfolding lkg_stale_from_times
  lkg_stale_from_times_lem none n = refl
  lkg_stale_from_times_lem (some b) none = (refl, refl, refl)
  lkg_stale_from_times_lem (some b) (some m) = elim (Bool-cases (ltb m unix_epoch)) [
    | inl h ↦ rw (h) (refl, refl, ground (arith, h))
    | inr h ↦ rw (h) (is_before_lem b m h (from_timestamp ((m - unix_epoch) / 1000000000)) refl)
  ]

  -- Each of the six states is reported exactly once, in the order of the catalog, and agrees with the
  -- files and the supervisor. The built interface is stale
  -- exactly if one of its sources was modified after it, and unknown exactly if its own time or that of
  -- each source cannot be read. If the last known good executable is stale then a source was
  -- modified after its build; if it is not then no source was modified a second or more after it;
  -- it is one of the two if the newest source is after the epoch and in the range of chrono; without
  -- one the answer is unknown. The slots are empty exactly if no slot has an executable, the
  -- built interface is missing exactly if its index is not a file with something in it, an unresolved
  -- slot is never a legacy fallback, and the primary is down exactly if it is there and does not
  -- respond. `timestamp` and `in_range` say what chrono makes of a number of
  -- seconds.
  pub evaluate_all-IsJudged :
      (fs : FileSystem) (o : Observed) (slot_id : SlotResolution)
      → (map (λ s. s.state) (evaluate_all unix_epoch from_timestamp fs o slot_id) ≡ all_states)
        × All
            (λ s. IsJudged unix_epoch max_secs fs o slot_id s.state s.eval)
            (evaluate_all unix_epoch from_timestamp fs o slot_id)
  unfolding evaluate_all
  evaluate_all-IsJudged fs o slot_id =
      let n = newest_frontend_src_mtime fs o.npm_dir in
      (
        refl,
        (
          slots_empty-IsJudged unix_epoch max_secs fs o slot_id,
          (
            legacy_fallback-NoSlot slot_id,
            (
              StaleLkg-IsJudged unix_epoch max_secs fs o slot_id o.lkg_built_at _
                  (lkg_stale_from_times_lem o.lkg_built_at n),
              (
                StaleDist-IsJudged unix_epoch max_secs fs o slot_id
                    (mtime fs (dist_index o.npm_dir)) _
                    (dist_stale_from_mtimes_lem (mtime fs (dist_index o.npm_dir)) n),
                (
                  dist_missing_from_metadata_lem (fs.metadata (dist_index o.npm_dir)),
                  (primary_down_from-Down o.primary_responding, tt),
                ),
              ),
            ),
          ),
        ),
      )
