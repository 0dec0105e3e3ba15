-- ===== src/DevAction/Tests.antt =====
-- Runs of the model of src/dev_action/policy.rs on concrete forecasts.
use qontinui_supervisor.Prelude.{
  ℕ, ◌≡◌, ◌⊎◌, refl, String, true, some, List, [], ◌∷◌, arith, leb, string_eq,
}
use qontinui_supervisor.DevAction.{
  Float, PredictedSignature, is_boot_failure_signature, is_high_risk, strongest, assess_action_risk,
}
use qontinui_supervisor.DevAction.Risk.{Assessed, assess_action_risk-Assessed}

leb_total : (a b : ℕ) → (leb a b ≡ true) ⊎ (leb b a ≡ true)
leb_total a b = ground arith

leb_trans : (a b c : ℕ) → leb a b ≡ true → leb b c ≡ true → leb a c ≡ true
leb_trans a b c h k = ground (arith, h, k)

-- Percentages.
abbrev percent : Float
percent = record {
  F = ℕ;
  le = leb;
  reaches_threshold = leb 50;
  le_total = leb_total;
  le_trans = leb_trans;
}

abbrev forecast : String → ℕ → ℕ → ℕ → PredictedSignature percent
forecast signature posterior occurrences trials = record {
  signature = signature;
  posterior_mean = posterior;
  occurrences = occurrences;
  trials = trials;
  evidence_basis = "exact";
}

abbrev forecasts : List (PredictedSignature percent)
forecasts =
    forecast "DEV-PANIC-STARTUP" 100 1 1
    ∷ forecast "DEV-TAURI-ASSET-MISSING" 60 3 5
    ∷ forecast "DEV-COMPILE-FLAKE" 90 9 10
    ∷ []

abbrev warning : PredictedSignature percent → List String → String
warning p states_active = p.signature

-- One unlucky sample and a signature of another class do not count.
routes_on_evidence :
    (assess_action_risk percent warning forecasts []).warn ≡ some "DEV-TAURI-ASSET-MISSING"
unfolding assess_action_risk strongest is_high_risk is_boot_failure_signature
routes_on_evidence = refl

assess_action_risk-Assessed_example :
    Assessed percent warning forecasts [] (assess_action_risk percent warning forecasts [])
assess_action_risk-Assessed_example = assess_action_risk-Assessed percent warning forecasts []
