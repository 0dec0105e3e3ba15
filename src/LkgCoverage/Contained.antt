-- ===== src/LkgCoverage/Contained.antt =====
-- A relative path stays in the project (src/routes/lkg_coverage.rs, `resolve_path`).
use qontinui_supervisor.Prelude.{
  ◌≡◌, refl, sym, ap, ◌∙◌, arith, Bool, true, false, Option, none, some, [], ◌∷◌, ◌++◌,
  if◌then◌else◌, All, string_eq,
}
use mathlib.Core.List.{append_assoc, append-nil}
use qontinui_supervisor.LkgCoverage.{
  Component, prefix, root_dir, cur_dir, parent_dir, normal, FilePath, pop, push, normalize_onto,
  rev_onto, lexical_normalize, same_component, starts_with, join, resolve_path,
}

-- Neither `.` nor `..`.
abbrev pub is_dots : Component → Bool
is_dots cur_dir = true
is_dots parent_dir = true
is_dots _ = false

abbrev pub NoDots : FilePath → Type 0
NoDots p = All (λ c. is_dots c ≡ false) p

abbrev pub is_normal : Component → Bool
is_normal (normal _) = true
is_normal _ = false

pop-NoDots : (p : FilePath) → NoDots p → NoDots (pop p)
unfolding pop
pop-NoDots [] h = tt
pop-NoDots (normal s ∷ p) h = h.1
pop-NoDots (prefix s ∷ p) h = h
pop-NoDots (root_dir ∷ p) h = h
pop-NoDots (cur_dir ∷ p) h = h
pop-NoDots (parent_dir ∷ p) h = h

push-NoDots : (c : Component) (p : FilePath) → NoDots p → NoDots (push c p)
unfolding push
push-NoDots cur_dir p h = h
push-NoDots parent_dir p h = pop-NoDots p h
push-NoDots (prefix s) p h = (refl, h)
push-NoDots root_dir p h = (refl, h)
push-NoDots (normal s) p h = (refl, h)

normalize-NoDots : (out cs : FilePath) → NoDots out → NoDots (normalize_onto out cs)
unfolding normalize_onto
normalize-NoDots out [] h = h
normalize-NoDots out (c ∷ cs) h = normalize-NoDots (push c out) cs (push-NoDots c out h)

rev-NoDots : (acc p : FilePath) → NoDots acc → NoDots p → NoDots (rev_onto acc p)
rev-NoDots acc [] a h = a
rev-NoDots acc (c ∷ p) a h = rev-NoDots (c ∷ acc) p (h.0, a) h.1

lexical_normalize-NoDots : (p : FilePath) → NoDots (lexical_normalize p)
unfolding lexical_normalize
lexical_normalize-NoDots p = rev-NoDots [] (normalize_onto [] p) tt (normalize-NoDots [] p tt)

NoDots-append : (p q : FilePath) → NoDots (p ++ q) → NoDots q
NoDots-append [] q h = h
NoDots-append (c ∷ p) q h = NoDots-append p q h.1

same_component_sound : (a b : Component) → same_component a b ≡ true → a ≡ b
same_component_sound (prefix s) (prefix t) h = ap prefix (((string_eq).same_iff s t).0 h)
same_component_sound (normal s) (normal t) h = ap normal (((string_eq).same_iff s t).0 h)
same_component_sound root_dir root_dir h = refl
same_component_sound cur_dir cur_dir h = refl
same_component_sound parent_dir parent_dir h = refl
same_component_sound _ _ h = absurd (ground (arith, h))

same_component_refl : (c : Component) → same_component c c ≡ true
same_component_refl (prefix s) = ((string_eq).same_iff s s).1 refl
same_component_refl (normal s) = ((string_eq).same_iff s s).1 refl
same_component_refl root_dir = refl
same_component_refl cur_dir = refl
same_component_refl parent_dir = refl

starts_with-append : (p q : FilePath) → starts_with (p ++ q) p ≡ true
starts_with-append [] q = refl
starts_with-append (c ∷ p) q = rw (same_component_refl c) (starts_with-append p q)

append_of_starts_with :
    (p base : FilePath) → starts_with p base ≡ true → (q : FilePath) × (p ≡ base ++ q)
append_of_starts_with p [] h = (p, refl)
append_of_starts_with [] (c ∷ base) h = absurd (ground (arith, h))
append_of_starts_with (a ∷ p) (c ∷ base) h =
    let found = append_of_starts_with p base (ground (arith, h)) in
    let same : a ≡ c = same_component_sound a c (ground (arith, h)) in
    (found.0, rw same (ap (λ r. c ∷ r) found.1))

rev-append : (acc p : FilePath) → rev_onto acc p ≡ rev_onto [] p ++ acc
rev-append acc [] = refl
rev-append acc (c ∷ p) =
    rev-append (c ∷ acc) p
    ∙ (sym (append_assoc (rev_onto [] p) (c ∷ []) acc)
        ∙ ap (λ l. l ++ acc) (sym (rev-append (c ∷ []) p)))

normalize-append :
    (out a b : FilePath) → normalize_onto out (a ++ b) ≡ normalize_onto (normalize_onto out a) b
unfolding normalize_onto
normalize-append out [] b = refl
normalize-append out (c ∷ a) b = normalize-append (push c out) a b

-- Pushing plain names only appends them.
normalize-normal :
    (out names : FilePath)
    → All (λ c. is_normal c ≡ true) names
    → normalize_onto out names ≡ rev_onto out names
unfolding normalize_onto push
normalize-normal out [] h = refl
normalize-normal out (normal s ∷ names) h = normalize-normal (normal s ∷ out) names h.1
normalize-normal out (prefix s ∷ names) h = absurd (ground (arith, h.0))
normalize-normal out (root_dir ∷ names) h = absurd (ground (arith, h.0))
normalize-normal out (cur_dir ∷ names) h = absurd (ground (arith, h.0))
normalize-normal out (parent_dir ∷ names) h = absurd (ground (arith, h.0))

rev_twice :
    (acc out names : FilePath) → rev_onto acc (rev_onto out names) ≡ rev_onto (names ++ acc) out
rev_twice acc out [] = refl
rev_twice acc out (c ∷ names) = rev_twice acc (c ∷ out) names

lexical_normalize-append :
    (p names : FilePath)
    → All (λ c. is_normal c ≡ true) names
    → lexical_normalize (p ++ names) ≡ lexical_normalize p ++ names
unfolding lexical_normalize
lexical_normalize-append p names h =
    ap (rev_onto []) (normalize-append [] p names ∙ normalize-normal (normalize_onto [] p) names h)
    ∙ (rev_twice [] (normalize_onto [] p) names
        ∙ (ap (λ l. rev_onto l (normalize_onto [] p)) (append-nil names)
            ∙ rev-append names (normalize_onto [] p)))

join-normal :
    (base names : FilePath) → All (λ c. is_normal c ≡ true) names → join base names ≡ base ++ names
unfolding join
join-normal base [] h = refl
join-normal base (normal s ∷ names) h = refl
join-normal base (prefix s ∷ names) h = absurd (ground (arith, h.0))
join-normal base (root_dir ∷ names) h = absurd (ground (arith, h.0))
join-normal base (cur_dir ∷ names) h = absurd (ground (arith, h.0))
join-normal base (parent_dir ∷ names) h = absurd (ground (arith, h.0))

-- The path lies under the project: some steps down from it, none of them `.` or `..`.
abbrev pub Under : FilePath → Option FilePath → Type 0
Under project_dir none = Unit
Under project_dir (some p) = (q : FilePath) × (p ≡ lexical_normalize project_dir ++ q) × NoDots q

resolved-Under :
    (project_dir p : FilePath) (b : Bool)
    → NoDots p
    → starts_with p (lexical_normalize project_dir) ≡ b
    → Under project_dir (if b then some p else none)
resolved-Under project_dir p false d h = tt
resolved-Under project_dir p true d h =
    let found = append_of_starts_with p (lexical_normalize project_dir) h in
    let dots : NoDots (lexical_normalize project_dir ++ found.0) = rw (← found.1) d in
    (found.0, found.1, NoDots-append (lexical_normalize project_dir) found.0 dots)

-- A relative path resolves to a path under the project or to nothing, wherever its `..` lead; and one
-- without `.` and `..` resolves to just that path under the project.
pub resolve_path-Under :
    (submitted names project_dir : FilePath)
    → All (λ c. is_normal c ≡ true) names
    → Under project_dir (resolve_path false submitted project_dir)
      × (resolve_path false names project_dir ≡ some (lexical_normalize project_dir ++ names))
unfolding resolve_path
resolve_path-Under submitted names project_dir h = (
  resolved-Under project_dir (lexical_normalize (join project_dir submitted)) _
      (lexical_normalize-NoDots (join project_dir submitted)) refl,
  rw (join-normal project_dir names h, lexical_normalize-append project_dir names h)
      (rw (starts_with-append (lexical_normalize project_dir) names) refl),
)
