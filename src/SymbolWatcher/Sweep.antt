-- ===== src/SymbolWatcher/Sweep.antt =====
-- What the idle sweep of src/symbol_watcher/mod.rs releases.
use qontinui_supervisor.Prelude.{
  ℕ, ◌-◌, ◌≡◌, refl, ◌∙◌, arith, String, Bool, true, false, Option, none, some, List, [], ◌∷◌, leb,
  if◌then◌else◌, string_eq, ◌==◌, keep_if, In,
}
use qontinui_supervisor.Prelude.Assoc
use qontinui_supervisor.SymbolWatcher.Events.{
  FileSystem, ActiveClaim, resource_key, SymbolWatcher, values, stale_claims, release_claims,
  sweep_idle,
}

-- One of the claims has that key.
abbrev any_key : String → List ActiveClaim → Bool
any_key k [] = false
any_key k (c ∷ claims) = let rest = any_key k claims in if resource_key c == k then true else rest

-- The map is a map, and each claim stands under its own key.
abbrev pub WellKeyed : List (String × ActiveClaim) → Type 0
WellKeyed [] = Unit
WellKeyed ((k, c) ∷ active) =
    (In k (Assoc.keys active) → ⊥) × (resource_key c ≡ k) × WellKeyed active

abbrev found : Option ActiveClaim → (ActiveClaim → Bool) → Bool
found none p = false
found (some c) p = p c

-- What is left under a key when the claims that pass a test are released.
abbrev pub unless : (ActiveClaim → Bool) → Option ActiveClaim → Option ActiveClaim
unless p none = none
unless p (some c) = if p c then none else some c

unless-found :
    (p : ActiveClaim → Bool) (o : Option ActiveClaim) → (if found o p then none else o) ≡ unless p o
unless-found p none = refl
unless-found p (some c) = refl

module _ (F : FileSystem) where
  any_key-keep_if :
      (k : String) (p : ActiveClaim → Bool) (active : List (String × ActiveClaim))
      → WellKeyed active
      → any_key k (keep_if p (values F active)) ≡ found (Assoc.get k active) p
  unfolding Assoc.get
  any_key-keep_if k p [] h = refl
  any_key-keep_if k p ((j, c) ∷ active) h =
      ground
        (arith, h, string_eq.same_iff j k, any_key-keep_if k p active, Assoc.get_absent k active)

  release_claims-get :
      (k : String) (claims : List ActiveClaim) (w : SymbolWatcher F)
      → Assoc.get k (release_claims F claims w).active
        ≡ (if any_key k claims then none else Assoc.get k w.active)
  unfolding release_claims
  release_claims-get k [] w = refl
  release_claims-get k (c ∷ claims) w =
      release_claims-get k claims _
      ∙ rw (Assoc.get-remove (resource_key c) k w.active) (ground arith)

  -- A sweep drops a claim exactly if it was entered `idle_ttl` or longer ago, and keeps the others as
  -- they are; each claim must stand under its own key.
  pub sweep_idle-get :
      (now : ℕ) (k : String) (w : SymbolWatcher F)
      → WellKeyed w.active
      → Assoc.get k (sweep_idle F now w).active
        ≡ unless (λ c. leb w.idle_ttl (now - c.last_acquired_at)) (Assoc.get k w.active)
  unfolding sweep_idle stale_claims
  sweep_idle-get now k w h =
      release_claims-get k (stale_claims F now w) w
      ∙ rw (any_key-keep_if k (λ c. leb w.idle_ttl (now - c.last_acquired_at)) w.active h)
          (unless-found _ (Assoc.get k w.active))
