-- ===== src/Binaries/Gated.antt =====
-- What a start deploys, on every branch (src/process/manager.rs, `start_exe_mode_for_runner` and what
-- it calls).
use qontinui_supervisor.Prelude.{
  ℕ, ◌≡◌, refl, sym, ◌∙◌, arith, Bool, true, false, not, Option, none, some, List, [], ◌∷◌, ◌++◌,
  ◌&&◌, ◌||◌, if◌then◌else◌, any_of, is_some, Bool-cases, Option-cases, inl, inr,
}
use qontinui_supervisor.Binaries.{
  ExePath, slot_exe, legacy_exe, BuildSource, live_tree, origin_main, override, same_source,
  BuildProvenance, Disk, Pool, Warning, unknown_provenance, legacy_unknown, Refusal,
  override_missing, foreign_exe, exe_not_found, Result, ok, err, drift_warning, stale_warning,
  slot_drift, target_debug_staleness, pick_slot_for_resolution, resolve_source_exe_with_slot,
}
use qontinui_supervisor.Binaries.Start.{
  start_provenance_gate, Resolved, is_lkg, lkg_provenance, pinned, picked_provenance, gated,
  after_pick, find_source_exe,
}
use qontinui_supervisor.Binaries.Picked.{
  has_exe, IsPick, Picks, pick_slot_for_resolution-Picks, find_slot,
}

-- The provenance says that a tree was built for which the supervisor does not vouch.
abbrev pub is_foreign : Option BuildProvenance → Bool
is_foreign none = false
is_foreign (some p) = same_source p.source override

abbrev pub warns_unknown : Warning → Bool
warns_unknown (unknown_provenance _) = true
warns_unknown (legacy_unknown _) = true
warns_unknown _ = false

abbrev pub warned : List Warning → Bool
warned ws = any_of warns_unknown ws

warned-append : (a b : List Warning) → warned (a ++ b) ≡ warned a || warned b
warned-append [] b = refl
warned-append (w ∷ a) b = ground (arith, warned-append a b)

warned-resolve :
    (d : Option _) (s : Option (ℕ × ℕ)) → warned (drift_warning d ++ stale_warning s) ≡ false
warned-resolve none none = refl
warned-resolve none (some (a, b)) = refl
warned-resolve (some x) none = refl
warned-resolve (some x) (some (a, b)) = refl

module _ (d : Disk) (pool : Pool) (is_temp : Bool) where
  -- Without a pin: a slot's exe goes with the sidecar of that slot, and never to a managed runner if
  -- that sidecar names a foreign tree; the legacy exe is for a pool without any. An exe of unknown
  -- provenance goes to a managed runner with a warning.
  abbrev pub FromSlot : List Warning → Option BuildProvenance → ExePath → Type 0
  FromSlot ws prov (slot_exe k) =
      IsPick d pool k
      × (prov ≡ d.sidecar k)
      × (not is_temp && is_foreign prov ≡ false)
      × (warned ws ≡ not is_temp && not (is_some prov))
  FromSlot ws prov legacy_exe =
      (d.exists legacy_exe ≡ true)
      × (any_of (has_exe d.exists) pool.slots ≡ false)
      × (prov ≡ none)
      × (warned ws ≡ not is_temp)
  FromSlot ws prov _ = ⊥

  abbrev pub RefusedSlot : Refusal → Type 0
  RefusedSlot (foreign_exe k p) =
      IsPick d pool k × (is_temp ≡ false) × (d.sidecar k ≡ some p) × (p.source ≡ override)
  RefusedSlot exe_not_found =
      (d.exists legacy_exe ≡ false) × (any_of (has_exe d.exists) pool.slots ≡ false)
  RefusedSlot (override_missing p) = ⊥

  -- With a pin: that exe and no other, with the record of the last known good build if it is its exe.
  abbrev pub FromPin : ExePath → Resolved → Type 0
  FromPin p x =
      (x.source_exe ≡ p)
      × (d.exists p ≡ true)
      × (is_some x.build_provenance ≡ is_lkg p && is_some pool.last_known_good)

  abbrev pub RefusedPin : ExePath → Refusal → Type 0
  RefusedPin p e = (e ≡ override_missing p) × (d.exists p ≡ false)

  abbrev pub Explained : Option ExePath → List Warning → Result Resolved → Type 0
  Explained none ws (ok x) = FromSlot ws x.build_provenance x.source_exe
  Explained none ws (err e) = RefusedSlot e
  Explained (some p) ws (ok x) = FromPin p x
  Explained (some p) ws (err e) = RefusedPin p e

  same_override : (s : BuildSource) → same_source s override ≡ true → s ≡ override
  same_override live_tree h = absurd (ground (arith, h))
  same_override origin_main h = absurd (ground (arith, h))
  same_override override h = refl

  gate :
      (k : ℕ) (before : List Warning) (temp : Bool) (prov : Option BuildProvenance)
      → is_temp ≡ temp
      → d.sidecar k ≡ prov
      → picked_provenance d pool k ≡ prov
      → IsPick d pool k
      → warned before ≡ false
      → (let last = gated d pool is_temp k (slot_exe k) (start_provenance_gate temp k prov) in
          Explained none (before ++ last.0) last.1)
  unfolding gated start_provenance_gate
  gate k before true prov t e f pick quiet =
      (pick, f ∙ sym e, ground (arith, t), warned-append before [] ∙ ground (arith, quiet, t))
  gate k before false none t e f pick quiet = (
    pick,
    f ∙ sym e,
    ground (arith, f),
    warned-append before (unknown_provenance k ∷ []) ∙ ground (arith, quiet, t, f),
  )
  gate k before false (some p) t e f pick quiet =
      elim (Bool-cases (same_source p.source override)) [
        | inl y ↦ rw y (pick, t, e, same_override p.source y)
        | inr n ↦ rw n (
          pick,
          f ∙ sym e,
          rw f (ground (arith, n)),
          warned-append before [] ∙ rw f (ground (arith, quiet)),
        )
      ]

  abbrev pub Explains : List Warning × Result (Option ℕ × ExePath) → Type 0
  Explains found =
      (let last = after_pick d pool is_temp found.1 in Explained none (found.0 ++ last.0) last.1)

  resolved :
      (r : Option ℕ)
      → pick_slot_for_resolution d pool ≡ r
      → Picks d pool r
      → Explains (resolve_source_exe_with_slot d pool)
  unfolding resolve_source_exe_with_slot after_pick
  resolved none e none_there =
      rw (e, Explains, resolve_source_exe_with_slot) (legacy (d.exists legacy_exe) refl)
    where
      legacy :
          (b : Bool)
          → d.exists legacy_exe ≡ b
          → Explains ([], if b then ok (none, legacy_exe) else err exe_not_found)
      legacy true h = (h, none_there, refl, ground arith)
      legacy false h = (h, none_there)
  resolved (some k) e pick =
      rw (e, Explains, resolve_source_exe_with_slot)
        (gate k
          (drift_warning (slot_drift d pool k) ++ stale_warning (target_debug_staleness d pool))
          is_temp (picked_provenance d pool k) refl (sym found) refl pick
          (warned-resolve (slot_drift d pool k) (target_debug_staleness d pool)))
    where
      found : picked_provenance d pool k ≡ d.sidecar k
      found =
          unfold picked_provenance in
          rw (find_slot k pool.slots pick.in_pool, picked_provenance) refl

  -- A start explains what it deploys. Without a pin it takes a slot's exe that is there, from the slot
  -- of the last successful build if that one will do, and records the sidecar of the very slot; a
  -- managed runner does not get an exe whose sidecar names a foreign tree, and gets one of unknown
  -- provenance only with a warning. It takes the legacy exe only if no slot has one. With a pin it takes
  -- that exe. It is refused only for one of these reasons: the sidecar of the picked slot names a
  -- foreign tree and the runner is managed, no exe is there at all, or the pinned exe is missing.
  pub find_source_exe-Explained :
      (pin : Option ExePath)
      → Explained pin (find_source_exe d pool is_temp pin).0 (find_source_exe d pool is_temp pin).1
  unfolding find_source_exe
  find_source_exe-Explained none =
      resolved (pick_slot_for_resolution d pool) refl (pick_slot_for_resolution-Picks d pool)
  find_source_exe-Explained (some p) = pin_case p (d.exists p) refl
    where
      recorded :
          (p : ExePath)
          → is_some (lkg_provenance d pool p pool.last_known_good)
            ≡ is_lkg p && is_some pool.last_known_good
      recorded p =
          unfold lkg_provenance in
          elim (Option-cases pool.last_known_good) [
            | inl e ↦ rw (e, lkg_provenance) (ground arith)
            | inr (info, e) ↦ rw (e, lkg_provenance) (ground arith)
          ]

      pin_case :
          (p : ExePath) (b : Bool)
          → d.exists p ≡ b
          → Explained (some p) (pinned d pool p).0 (pinned d pool p).1
      pin_case p true e = unfold pinned in rw (e, Explained, pinned) (refl, e, recorded p)
      pin_case p false e = unfold pinned in rw (e, Explained, pinned) (refl, e)
