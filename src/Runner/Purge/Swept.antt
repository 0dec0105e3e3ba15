-- ===== src/Runner/Purge/Swept.antt =====
-- Which runners a sweep takes out of the registry, and what stays (src/routes/runners.rs,
-- src/process/manager.rs).
use qontinui_supervisor.Prelude.{
  some, is_some, ℕ, String, ◌≡◌, ◌≢◌, refl, sym, ap, ◌∙◌, arith, Bool, true, false, Option, none,
  List, [], ◌∷◌, not, ◌&&◌, ◌||◌, ltb, eqb_iff, if◌then◌else◌, any_of, keep_if, In, Distinct,
  Bool-cases, inl, inr, string_eq, ◌==◌,
}
use qontinui_supervisor.Prelude.Assoc.{get, get-remove}
use qontinui_supervisor.StoppedCache.{StopReason, crashed, reaped}
use qontinui_supervisor.Runner.Lifecycle.{RunnerState, SharedState, forget_orphan, modify_runner}
use qontinui_supervisor.Runner.Purge.{
  Sweep, drop_runner, owned_by, set_right, alive, in_grace, purge_skips, reap_skips, sweep, values,
  min_age_secs, purge_stale_test_runners_core, reap_stale_test_runners,
}

-- The value, if there is one.
abbrev pub values_of : Option String → List String
values_of none = []
values_of (some s) = s ∷ []

module _ (x : Sweep) where
  set_right_other : (a b : ℕ) (s : SharedState) → b ≢ a → (set_right x a s).cells b ≡ s.cells b
  unfolding set_right
  set_right_other a b s d = elim (Bool-cases (s.cells a).runner.running) [
    | inl y ↦ rw y (other (λ e. d (sym e)))
    | inr n ↦ rw n refl
  ]
    where
      other : (a ≢ b) → (modify_runner a forget_orphan s).cells b ≡ s.cells b
      other d = ground (arith, eqb_iff a b)

  set_right-runners : (a : ℕ) (s : SharedState) → (set_right x a s).runners ≡ s.runners
  unfolding set_right
  set_right-runners a s = elim (Bool-cases (s.cells a).runner.running) [
    | inl y ↦ rw y refl
    | inr n ↦ rw n refl
  ]

  -- A test of a runner that looks at its own cell only.
  abbrev pub IsLocal : (ℕ → SharedState → Bool) → Type 0
  IsLocal skips = (a : ℕ) (s s' : SharedState) → s'.cells a ≡ s.cells a → skips a s' ≡ skips a s

  -- The registry without the ids of the runners that are not skipped.
  abbrev pub names_gone : (ℕ → SharedState → Bool) → SharedState → String → ℕ → Bool
  names_gone skips s j a = not (skips a s) && ((s.cells a).id == j)

  pub record Swept (skips : ℕ → SharedState → Bool) (as_ : List ℕ) (s : SharedState) (j : String)
      (r : List ℕ × SharedState) : Type 0 where
    pub purged : r.0 ≡ keep_if (λ a. not (skips a s)) as_
    pub registry :
        get j r.1.runners ≡ (if any_of (names_gone skips s j) as_ then none else get j s.runners)

  module _ (skips : ℕ → SharedState → Bool) (is_local : IsLocal skips) (reason : StopReason) where
    -- One runner is taken out: the others look as before.
    same_others :
        (a : ℕ) (s s1 : SharedState) (as_ : List ℕ)
        → ((b : ℕ) → b ≢ a → s1.cells b ≡ s.cells b)
        → (In a as_ → ⊥)
        → (j : String)
        → (keep_if (λ b. not (skips b s1)) as_ ≡ keep_if (λ b. not (skips b s)) as_)
          × (any_of (names_gone skips s1 j) as_ ≡ any_of (names_gone skips s j) as_)
    same_others a s s1 [] same d j = (refl, refl)
    same_others a s s1 (b ∷ as_) same d j =
        let cell = same b (λ e. d (inl (sym e))) in
        let later = same_others a s s1 as_ same (λ h. d (inr h)) j in
        (rw (is_local b s s1 cell, later.0) refl, rw (is_local b s s1 cell, cell, later.1) refl)

    taken_out : (a : ℕ) (s : SharedState) → SharedState
    taken_out a s = drop_runner x reason (s.cells a).id a (set_right x a s)

    taken_out-runners :
        (a : ℕ) (s : SharedState) (j : String)
        → get j (taken_out a s).runners ≡ (if (s.cells a).id == j then none else get j s.runners)
    unfolding taken_out drop_runner
    taken_out-runners a s j =
        get-remove (s.cells a).id j (set_right x a s).runners ∙ rw (set_right-runners a s) refl

    taken_out_other : (a b : ℕ) (s : SharedState) → b ≢ a → (taken_out a s).cells b ≡ s.cells b
    unfolding taken_out drop_runner
    taken_out_other a b s d = set_right_other a b s d

    join_tests :
        (here later : Bool) (g : Option ℕ)
        → (if later then none else if here then none else g)
          ≡ (if (if here then true else later) then none else g)
    join_tests true true g = refl
    join_tests true false g = refl
    join_tests false later g = refl

    sweep-Swept :
        (as_ : List ℕ) (s : SharedState) (j : String)
        → Distinct as_
        → Swept skips as_ s j (sweep x skips reason as_ s)
    unfolding sweep taken_out
    sweep-Swept [] s j d = record { purged = refl; registry = refl }
    sweep-Swept (a ∷ as_) s j d = elim (Bool-cases (skips a s)) [
      | inl y ↦ rw (y, sweep) (skipped y (sweep-Swept as_ s j d.1))
      | inr n ↦ rw (n, sweep) (taken n (sweep-Swept as_ (taken_out a s) j d.1))
    ]
      where
        skipped :
            skips a s ≡ true
            → Swept skips as_ s j (sweep x skips reason as_ s)
            → Swept skips (a ∷ as_) s j (sweep x skips reason as_ s)
        skipped y ih = record { purged = rw y ih.purged; registry = rw y ih.registry }

        taken :
            skips a s ≡ false
            → Swept skips as_ (taken_out a s) j (sweep x skips reason as_ (taken_out a s))
            → Swept skips
                (a ∷ as_)
                s
                j
                (let rest = sweep x skips reason as_ (taken_out a s) in (a ∷ rest.0, rest.1))
        taken n ih =
            let so = same_others a s (taken_out a s) as_ (λ b. taken_out_other a b s) d.0 j in
            record {
              purged = rw n (ap (λ l. a ∷ l) (ih.purged ∙ so.0));
              registry = rw n (
                  ih.registry
                  ∙ (rw (so.1, taken_out-runners a s j) refl
                      ∙ join_tests ((s.cells a).id == j) (any_of (names_gone skips s j) as_)
                          (get j s.runners)));
            }

  keep_if_ext :
      (p q : ℕ → Bool) → ((a : ℕ) → p a ≡ q a) → (as_ : List ℕ) → keep_if p as_ ≡ keep_if q as_
  keep_if_ext p q e [] = refl
  keep_if_ext p q e (a ∷ as_) = rw (e a, keep_if_ext p q e as_) refl

  any_of_ext :
      (p q r : ℕ → Bool)
      → ((a : ℕ) → p a ≡ q a)
      → (as_ : List ℕ) → any_of (λ a. p a && r a) as_ ≡ any_of (λ a. q a && r a) as_
  any_of_ext p q r e [] = refl
  any_of_ext p q r e (a ∷ as_) = rw (e a, any_of_ext p q r e as_) refl

  -- A runner whose process is gone: the registry has it as running and nothing listens on its port, or
  -- it has it as not running, and that is not for the sake of a build.
  abbrev pub dead : Bool → RunnerState → ℕ → Bool
  dead building r port = if r.running then not (x.port_alive port) else not building

  abbrev pub has_owner : String → Option String → Bool
  has_owner req owner = is_some owner && not (any_of (λ o. not (o == req)) (values_of owner))

  -- Each runner without a requester, and else only a runner of the requester.
  abbrev pub is_owner : Option String → Option String → Bool
  is_owner only owner = not (any_of (λ req. not (has_owner req owner)) (values_of only))

  owned_by-is_owner : (only owner : Option String) → owned_by x only owner ≡ is_owner only owner
  unfolding owned_by
  owned_by-is_owner none owner = refl
  owned_by-is_owner (some req) none = refl
  owned_by-is_owner (some req) (some owner) = ground arith

  abbrev pub may_purge : Bool → Option String → SharedState → ℕ → Bool
  may_purge respect_active_builds only_requester s a =
      let m = s.cells a in
      x.is_temp_runner m.id
      && (is_owner only_requester (x.requester_id a)
          && dead (respect_active_builds && x.any_slot_busy) m.runner m.port)

  abbrev pub may_reap : SharedState → ℕ → Bool
  may_reap s a =
      let m = s.cells a in
      x.is_temp_runner m.id
      && (not (ltb (x.elapsed_secs a) min_age_secs) && dead x.any_slot_busy m.runner m.port)

  -- The runners that may go are reported, and their ids are not found any more; all other ids are found
  -- as before.
  abbrev pub Gone : (ℕ → Bool) → SharedState → String → List ℕ × SharedState → Type 0
  Gone may_go s j r =
      (r.0 ≡ keep_if may_go (values x s.runners))
      × (get j r.1.runners ≡ (
          if any_of (λ a. may_go a && ((s.cells a).id == j)) (values x s.runners)
          then none
          else get j s.runners))

  tests_agree :
      (temp fine running port building : Bool)
      → not (not temp || (not fine || ((not running && building) || (running && port))))
        ≡ temp && (fine && (if running then not port else not building))
  tests_agree false fine running port building = refl
  tests_agree true false running port building = refl
  tests_agree true true true true building = refl
  tests_agree true true true false building = refl
  tests_agree true true false port building = ground arith

  not-not : (b : Bool) → b ≡ not (not b)
  not-not true = refl
  not-not false = refl

  purge_skips-may_purge :
      (respect : Bool) (only : Option String) (s : SharedState) (a : ℕ)
      → not (purge_skips x respect only a s) ≡ may_purge respect only s a
  unfolding purge_skips alive in_grace
  purge_skips-may_purge respect only s a =
      let m = s.cells a in
      tests_agree (x.is_temp_runner m.id) (owned_by x only (x.requester_id a)) m.runner.running
        (x.port_alive m.port) (respect && x.any_slot_busy)
      ∙ ap (λ b. x.is_temp_runner m.id && (b && dead (respect && x.any_slot_busy) m.runner m.port))
          (owned_by-is_owner only (x.requester_id a))

  reap_skips-may_reap : (s : SharedState) (a : ℕ) → not (reap_skips x a s) ≡ may_reap s a
  unfolding reap_skips alive in_grace
  reap_skips-may_reap s a =
      let m = s.cells a in
      let young = ltb (x.elapsed_secs a) min_age_secs in
      ap
        (λ b. not (
          not (x.is_temp_runner m.id)
          || (b
              || ((not m.runner.running && x.any_slot_busy)
                  || (m.runner.running && x.port_alive m.port)))))
        (not-not young)
      ∙ tests_agree (x.is_temp_runner m.id) (not young) m.runner.running (x.port_alive m.port)
          x.any_slot_busy

  purge_skips-IsLocal :
      (respect : Bool) (only : Option String) → IsLocal (purge_skips x respect only)
  unfolding purge_skips alive in_grace
  purge_skips-IsLocal respect only a s s' e = rw e refl

  reap_skips-IsLocal : IsLocal (reap_skips x)
  unfolding reap_skips alive in_grace
  reap_skips-IsLocal a s s' e = rw e refl

  Swept-Gone :
      (skips : ℕ → SharedState → Bool) (may_go : ℕ → Bool) (s : SharedState) (j : String)
      (r : List ℕ × SharedState)
      → ((a : ℕ) → not (skips a s) ≡ may_go a)
      → Swept skips (values x s.runners) s j r
      → Gone may_go s j r
  Swept-Gone skips may_go s j r e w = (
    w.purged ∙ keep_if_ext _ may_go e (values x s.runners),
    w.registry
        ∙ ap (λ (b : Bool). if b then none else get j s.runners)
            (any_of_ext _ may_go (λ a. (s.cells a).id == j) e (values x s.runners)),
  )

  -- A purge, and a round of the reaper, take exactly the dead test runners out of the registry: those
  -- that are test runners, whose process is gone and, for a scoped purge, which that requester owns, or,
  -- for the reaper, which are two minutes old. While builds are active the reaper, and a purge that
  -- respects them, leave the runners that are not running yet. All other runners are found as before,
  -- managed ones and living ones among them: if no two ids stand for one runner.
  pub sweeps-Gone :
      (respect_active_builds : Bool) (only_requester : Option String) (s : SharedState) (j : String)
      → Distinct (values x s.runners)
      → Gone
          (may_purge respect_active_builds only_requester s)
          s
          j
          (purge_stale_test_runners_core x respect_active_builds only_requester s)
        × Gone (may_reap s) s j (reap_stale_test_runners x s)
  unfolding purge_stale_test_runners_core reap_stale_test_runners
  sweeps-Gone respect only s j d = (
    Swept-Gone (purge_skips x respect only) _ s j _ (purge_skips-may_purge respect only s) (
        sweep-Swept (purge_skips x respect only) (purge_skips-IsLocal respect only) crashed
          (values x s.runners) s j d),
    Swept-Gone (reap_skips x) _ s j _ (reap_skips-may_reap s)
        (sweep-Swept (reap_skips x) reap_skips-IsLocal reaped (values x s.runners) s j d),
  )
