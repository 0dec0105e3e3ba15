-- ===== src/DevAction.antt =====
-- The decision that a forecast of a dev action leads to (src/dev_action/policy.rs). Posterior means are
-- 64-bit floats, which are a parameter with the total order of the standard library; the text of the
-- warning is one, too.
pub mod Risk
pub mod States
mod Tests
use qontinui_supervisor.Prelude.{
  ℕ, ◌≡◌, ◌⊎◌, String, Bool, true, false, not, Option, none, some, List, [], ◌∷◌, ◌&&◌, ◌||◌, eqb,
  leb, ltb, if◌then◌else◌, any_of, keep_if, is_some, string_eq, ◌==◌,
}

-- `f64` with `total_cmp` as a Boolean order, and the comparison with the threshold.
pub record Float : Type 1 where
  pub F : Type 0
  pub le : F → F → Bool
  pub reaches_threshold : F → Bool
  pub le_total : (a b : F) → (le a b ≡ true) ⊎ (le b a ≡ true)
  pub le_trans : (a b c : F) → le a b ≡ true → le b c ≡ true → le a c ≡ true

abbrev pub risk_min_trials : ℕ
risk_min_trials = 3

abbrev pub boot_failure_signatures : List String
boot_failure_signatures =
    "DEV-TAURI-ASSET-MISSING" ∷ "DEV-WEBVIEW-CONN-REFUSED" ∷ "DEV-PANIC-STARTUP" ∷ []

unfoldable pub is_boot_failure_signature : String → Bool
is_boot_failure_signature signature = any_of (λ s. s == signature) boot_failure_signatures

module _ (Fl : Float) where
  open Fl use {F, le, reaches_threshold}

  -- `PredictedSignature` of src/dev_action/expectations.rs
  pub record PredictedSignature : Type 0 where
    pub signature : String
    pub posterior_mean : F
    pub occurrences : ℕ
    pub trials : ℕ
    pub evidence_basis : String

  unfoldable pub is_high_risk : PredictedSignature → Bool
  unfolding is_boot_failure_signature
  is_high_risk p =
      is_boot_failure_signature p.signature
      && (reaches_threshold p.posterior_mean && leb risk_min_trials p.trials)

  -- The comparison answers `Greater`: by posterior, then by trials, then by occurrences.
  unfoldable pub is_greater : PredictedSignature → PredictedSignature → Bool
  is_greater a b =
      if not (le a.posterior_mean b.posterior_mean)
      then true
      else if not (le b.posterior_mean a.posterior_mean)
      then false
      else if ltb b.trials a.trials
      then true
      else if ltb a.trials b.trials
      then false
      else ltb b.occurrences a.occurrences

  -- `max_by`, which keeps the later one of two that are equal.
  unfoldable pub max_from : PredictedSignature → List PredictedSignature → PredictedSignature
  unfolding is_greater
  max_from best [] = best
  max_from best (p ∷ ps) = max_from (if is_greater best p then best else p) ps

  unfoldable pub strongest : List PredictedSignature → Option PredictedSignature
  unfolding max_from
  strongest [] = none
  strongest (p ∷ ps) = some (max_from p ps)

  pub record ActionRisk : Type 0 where
    pub route_lkg : Bool
    pub warn : Option String
    pub top_signature : Option PredictedSignature

  -- `ActionRisk::none`
  unfoldable pub no_risk : ActionRisk
  no_risk = record { route_lkg = false; warn = none; top_signature = none }

  unfoldable pub is_actionable : ActionRisk → Bool
  is_actionable r = r.route_lkg || is_some r.warn

  unfoldable pub assess_action_risk :
      (PredictedSignature → List String → String)
      → List PredictedSignature
      → List String
      → ActionRisk
  unfolding strongest is_high_risk no_risk
  assess_action_risk warning predicted states_active =
      elim (strongest (keep_if is_high_risk predicted)) [
        | none ↦ no_risk
        | some top ↦ record {
          route_lkg = true;
          warn = some (warning top states_active);
          top_signature = some top;
        }
      ]
