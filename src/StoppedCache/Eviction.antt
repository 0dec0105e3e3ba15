-- ===== src/StoppedCache/Eviction.antt =====
-- What the cache of src/process/stopped_cache.rs holds after an insertion.
use qontinui_supervisor.Prelude.{
  ◌≤◌, String, ◌≡◌, refl, ap, inl, inr, Bool, none, some, [], ◌∷◌, arith, Bool-cases, Option-cases,
  if◌then◌else◌, In, Distinct, string_eq,
}
use qontinui_supervisor.Prelude.Assoc.{keys, get, get_absent}
use qontinui_supervisor.StoppedCache.{StoppedRunnerSnapshot, Cache, retain, oldest}

pub oldest-In :
    (m : Cache) (k : String) (v : StoppedRunnerSnapshot) → oldest m ≡ some (k, v) → In k (keys m)
unfolding oldest
oldest-In [] k v h = cc
oldest-In (e ∷ m) k v h = ground (arith, oldest-In m k v)

pub oldest-eq-none : (m : Cache) → oldest m ≡ none → m ≡ []
unfolding oldest
oldest-eq-none [] h = refl
oldest-eq-none (e ∷ m) h = ground arith

retain-In :
    (p : StoppedRunnerSnapshot → Bool) (k : String) (m : Cache)
    → In k (keys (retain p m))
    → In k (keys m)
unfolding retain
retain-In p k [] h = h
retain-In p k ((j, v) ∷ m) h = ground (arith, retain-In p k m)

pub retain-Distinct :
    (p : StoppedRunnerSnapshot → Bool) (m : Cache)
    → Distinct (keys m)
    → Distinct (keys (retain p m))
unfolding retain
retain-Distinct p [] d = d
retain-Distinct p ((j, v) ∷ m) d = elim (Bool-cases (p v)) [
  | inl e ↦ rw e ((λ h. d.0 (retain-In p j m h)), retain-Distinct p m d.1)
  | inr e ↦ rw e (retain-Distinct p m d.1)
]

pub oldest-le :
    (m : Cache) (k j : String) (v w : StoppedRunnerSnapshot)
    → oldest m ≡ some (k, v)
    → get j m ≡ some w
    → v.stopped_at ≤ w.stopped_at
unfolding oldest get
oldest-le [] k j v w h g = cc
oldest-le ((i, x) ∷ m) k j v w h g = elim (Option-cases (oldest m)) [
  | inl e ↦ ground (arith, ap (get j) (oldest-eq-none m e))
  | inr ((k', v'), e) ↦ ground (arith, oldest-le m k' j v' w e)
]

pub oldest-get :
    (m : Cache) (k : String) (v : StoppedRunnerSnapshot)
    → Distinct (keys m)
    → oldest m ≡ some (k, v)
    → get k m ≡ some v
unfolding oldest get
oldest-get [] k v d h = cc
oldest-get ((i, x) ∷ m) k v d h =
    ground (arith, oldest-get m k v d.1, oldest-In m k v, (string_eq).same_iff i k)

pub get-retain :
    (p : StoppedRunnerSnapshot → Bool) (j : String) (m : Cache)
    → Distinct (keys m)
    → get j (retain p m) ≡ elim (get j m) [ none ↦ none | some v ↦ if p v then some v else none ]
unfolding get retain
get-retain p j [] d = refl
get-retain p j ((i, v) ∷ m) d = ground (
  arith,
  get-retain p j m d.1,
  (string_eq).same_iff i j,
  get_absent i (retain p m),
  get_absent i m,
  retain-In p i m,
)
