-- ===== src/DevAction/Risk.antt =====
-- Which forecast decides: `assess_action_risk` of src/dev_action/policy.rs.
use qontinui_supervisor.Prelude.{
  ◌≡◌, ◌≤◌, ◌⊎◌, ◌↔◌, ap, inl, inr, refl, String, Bool, true, false, none, some, List, [], ◌∷◌,
  arith, keep_if, string_eq, In, Bool-cases,
}
use qontinui_supervisor.DevAction.{
  Float, PredictedSignature, is_boot_failure_signature, is_high_risk, is_greater, max_from,
  strongest, ActionRisk, is_actionable, no_risk, assess_action_risk,
}

module _ (Fl : Float) where
  open Fl use {F, le, reaches_threshold, le_total, le_trans}

  is_greater_trans :
      (a b c : PredictedSignature Fl)
      → is_greater Fl a b ≡ false
      → is_greater Fl b c ≡ false
      → is_greater Fl a c ≡ false
  unfolding is_greater
  is_greater_trans a b c h k = ground (
    arith,
    h,
    k,
    le_trans a.posterior_mean b.posterior_mean c.posterior_mean,
    le_trans c.posterior_mean a.posterior_mean b.posterior_mean,
    le_trans b.posterior_mean c.posterior_mean a.posterior_mean,
  )

  is_greater_asym :
      (a b : PredictedSignature Fl) → is_greater Fl a b ≡ true → is_greater Fl b a ≡ false
  unfolding is_greater
  is_greater_asym a b h = ground (arith, h, le_total a.posterior_mean b.posterior_mean)

  is_greater_self : (a : PredictedSignature Fl) → is_greater Fl a a ≡ false
  unfolding is_greater
  is_greater_self a = ground (arith, le_total a.posterior_mean a.posterior_mean)

  -- One of the list, and none of the list is greater.
  pub record IsStrongest (top : PredictedSignature Fl) (ps : List (PredictedSignature Fl))
      : Type 0 where
    pub there : In top ps
    pub greatest : (p : PredictedSignature Fl) → In p ps → is_greater Fl p top ≡ false

  max_from-IsStrongest :
      (ps : List (PredictedSignature Fl)) (best : PredictedSignature Fl)
      → IsStrongest (max_from Fl best ps) (best ∷ ps)
  unfolding max_from
  max_from-IsStrongest [] best = record {
    there = inl refl;
    greatest = λ p h. elim h [
      | inl same ↦ rw same (is_greater_self best)
      | inr none_left ↦ absurd none_left
    ];
  }
  max_from-IsStrongest (p ∷ ps) best = elim (Bool-cases (is_greater Fl best p)) [
    | inl e ↦
        let r = max_from-IsStrongest ps best in
        rw e (record {
          there = ground (arith, r.there);
          greatest = λ q h. elim h [
            | inl is_best ↦ rw is_best (r.greatest best (inl refl))
            | inr rest ↦ elim rest [
              | inl is_p ↦ rw is_p (
                  is_greater_trans p best (max_from Fl best ps) (is_greater_asym best p e)
                    (r.greatest best (inl refl)))
              | inr later ↦ r.greatest q (inr later)
            ]
          ];
        })
    | inr e ↦
        let r = max_from-IsStrongest ps p in
        rw e (record {
          there = inr r.there;
          greatest = λ q h. elim h [
            | inl is_best ↦
                rw is_best (is_greater_trans best p (max_from Fl p ps) e (r.greatest p (inl refl)))
            | inr rest ↦ r.greatest q rest
          ];
        })
  ]

  strongest_cases :
      (ps : List (PredictedSignature Fl))
      → ((strongest Fl ps ≡ none) × ((p : PredictedSignature Fl) → In p ps → ⊥))
        ⊎ ((top : PredictedSignature Fl) × (strongest Fl ps ≡ some top) × IsStrongest top ps)
  unfolding strongest
  strongest_cases [] = inl (refl, λ p h. h)
  strongest_cases (p ∷ ps) = inr (max_from Fl p ps, refl, max_from-IsStrongest ps p)

  In-keep_if :
      (f : PredictedSignature Fl → Bool) (p : PredictedSignature Fl)
      (ps : List (PredictedSignature Fl))
      → In p (keep_if f ps) ↔ (In p ps × (f p ≡ true))
  In-keep_if f p [] = ground arith
  In-keep_if f p (q ∷ ps) =
      let same : p ≡ q → f p ≡ f q = λ h. ap f h in ground (arith, same, In-keep_if f p ps)

  -- A signature of a boot failure, likely enough, after three trials or more.
  pub record IsDangerous (p : PredictedSignature Fl) : Type 0 where
    pub boot_failure :
        (p.signature ≡ "DEV-TAURI-ASSET-MISSING")
        ⊎ ((p.signature ≡ "DEV-WEBVIEW-CONN-REFUSED") ⊎ (p.signature ≡ "DEV-PANIC-STARTUP"))
    pub likely : reaches_threshold p.posterior_mean ≡ true
    pub tried : 3 ≤ p.trials

  -- At most as high by posterior; if these are equal, by trials; if these are, too, by occurrences.
  abbrev pub IsAtMost : PredictedSignature Fl → PredictedSignature Fl → Type 0
  IsAtMost p q =
      (le p.posterior_mean q.posterior_mean ≡ true)
      × (le q.posterior_mean p.posterior_mean ≡ true
          → (p.trials ≤ q.trials) × (q.trials ≤ p.trials → p.occurrences ≤ q.occurrences))

  is_boot_failure_signature_iff :
      (s : String)
      → is_boot_failure_signature s ≡ true ↔ (
          (s ≡ "DEV-TAURI-ASSET-MISSING")
          ⊎ ((s ≡ "DEV-WEBVIEW-CONN-REFUSED") ⊎ (s ≡ "DEV-PANIC-STARTUP")))
  unfolding is_boot_failure_signature
  is_boot_failure_signature_iff s = ground (
    arith,
    string_eq.same_iff "DEV-TAURI-ASSET-MISSING" s,
    string_eq.same_iff "DEV-WEBVIEW-CONN-REFUSED" s,
    string_eq.same_iff "DEV-PANIC-STARTUP" s,
  )

  is_high_risk_iff : (p : PredictedSignature Fl) → is_high_risk Fl p ≡ true ↔ IsDangerous p
  unfolding is_high_risk
  is_high_risk_iff p = (
    λ h. record {
      boot_failure = (is_boot_failure_signature_iff p.signature).0 (ground (arith, h));
      likely = ground (arith, h);
      tried = ground (arith, h);
    },
    λ d.
        ground
          (arith, (is_boot_failure_signature_iff p.signature).1 d.boot_failure, d.likely, d.tried),
  )

  is_greater-IsAtMost : (p q : PredictedSignature Fl) → is_greater Fl p q ≡ false → IsAtMost p q
  unfolding is_greater
  is_greater-IsAtMost p q h =
      (ground (arith, h), λ e. (ground (arith, h, e), λ t. ground (arith, h, e, t)))

  -- What an assessment says of the forecasts.
  pub record Assessed (warning : PredictedSignature Fl → List String → String)
      (predicted : List (PredictedSignature Fl)) (states_active : List String) (r : ActionRisk Fl)
      : Type 0 where
    pub calm : ((p : PredictedSignature Fl) → In p predicted → IsDangerous p → ⊥) → r ≡ no_risk Fl
    pub alarmed :
        (p : PredictedSignature Fl)
        → In p predicted
        → IsDangerous p
        → (top : PredictedSignature Fl) × In top predicted
          × IsDangerous top
          × IsAtMost p top
          × (r ≡ record {
            route_lkg = true;
            warn = some (warning top states_active);
            top_signature = some top;
          })
    pub actionable : is_actionable Fl r ≡ r.route_lkg

  -- A forecast is dangerous if its signature is one of the three boot failures, its posterior reaches the
  -- threshold and it rests on three trials or more. If no forecast is, the assessment advises nothing. If
  -- one is, the assessment routes to the last known good binary and warns of a dangerous forecast, which
  -- no other dangerous one exceeds by posterior, then by trials, then by occurrences. The assessment is
  -- actionable exactly if it routes to the last known good binary.
  pub assess_action_risk-Assessed :
      (warning : PredictedSignature Fl → List String → String)
      (predicted : List (PredictedSignature Fl)) (states_active : List String)
      → Assessed warning predicted states_active
          (assess_action_risk Fl warning predicted states_active)
  unfolding assess_action_risk is_actionable no_risk
  assess_action_risk-Assessed warning predicted states_active =
      elim (strongest_cases (keep_if (is_high_risk Fl) predicted)) [
        | inl (e, empty) ↦
            rw (e, assess_action_risk)
              (record {
                calm = λ h. refl;
                alarmed = λ p at risk. absurd (
                    empty p (
                      (In-keep_if (is_high_risk Fl) p predicted).1
                        (at, (is_high_risk_iff p).1 risk)));
                actionable = refl;
              })
        | inr (top, e, best) ↦
            let (at, high) = (In-keep_if (is_high_risk Fl) top predicted).0 best.there in
            rw (e, assess_action_risk)
              (record {
                calm = λ h. absurd (h top at ((is_high_risk_iff top).0 high));
                alarmed = λ p there risk. (
                  top,
                  at,
                  (is_high_risk_iff top).0 high,
                  is_greater-IsAtMost p top (
                      best.greatest p (
                        (In-keep_if (is_high_risk Fl) p predicted).1
                          (there, (is_high_risk_iff p).1 risk))),
                  refl,
                );
                actionable = refl;
              })
      ]
