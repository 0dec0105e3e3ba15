-- ===== src/Binaries/Lkg/Tasks.antt =====
-- What the builds that run side by side rely on, and that one build's step leaves the others alone
-- (src/build_monitor.rs).
use qontinui_supervisor.Prelude.{
  ℕ, zero, suc, ◌≡◌, ◌≢◌, refl, sym, ap, ◌∙◌, arith, true, false, Option, none, some, List, [], ◌∷◌,
  eqb_iff, get_elem?, All,
}
use qontinui_supervisor.Binaries.{BuildSource, is_vouched, LkgInfo}
use qontinui_supervisor.Binaries.Lkg.{Content, whole, torn, Files, put}
use qontinui_supervisor.Binaries.Lkg.Builds.{
  Task, compiling, built, stamped, copied, renamed, recorded, slot_of, World, replace_at, remove_at,
  in_use,
}

-- The whole exe of the tree that the provenance names; one that is vouched for.
abbrev pub Matches : BuildSource → Option Content → Type 0
Matches source (some (whole e)) = e.source ≡ source
Matches source _ = ⊥

abbrev pub VouchedExe : Option Content → Type 0
VouchedExe (some (whole e)) = is_vouched e.source ≡ true
VouchedExe (some (torn n)) = ⊥
VouchedExe none = Unit

abbrev pub VouchedInfo : Option LkgInfo → Type 0
VouchedInfo none = Unit
VouchedInfo (some info) = is_vouched info.source ≡ true

-- What a task may rely on.
abbrev pub Relies : Files → Task → Type 0
Relies fs (compiling k source) = Unit
Relies fs (built k p) = Matches p.source (fs.slot k)
Relies fs (stamped k p) = Matches p.source (fs.slot k)
Relies fs (copied k p n) = Matches p.source (fs.tmp_exe k) × (is_vouched p.source ≡ true)
Relies fs (renamed k p n) = is_vouched p.source ≡ true
Relies fs (recorded k info) = is_vouched info.source ≡ true

abbrev pub Apart : ℕ → List Task → Type 0
Apart k ts = All (λ t. slot_of t ≢ k) ts

abbrev pub AllRely : Files → List Task → Type 0
AllRely fs [] = Unit
AllRely fs (t ∷ ts) = Relies fs t × Apart (slot_of t) ts × AllRely fs ts

pub record Sound (w : World) : Type 0 where
  pub exe : VouchedExe w.files.exe
  pub meta : VouchedInfo w.files.meta
  pub memory : VouchedInfo w.last_known_good
  pub tasks : AllRely w.files w.tasks

-- The files of the other slots are as before.
pub record Agree (k : ℕ) (fs fs' : Files) : Type 0 where
  pub slot : (j : ℕ) → j ≢ k → fs'.slot j ≡ fs.slot j
  pub tmp_exe : (j : ℕ) → j ≢ k → fs'.tmp_exe j ≡ fs.tmp_exe j

pub put_other : {A : Type 0} (k j : ℕ) (a : A) (f : ℕ → A) → j ≢ k → put k a f j ≡ f j
put_other k j a f d = ground (arith, eqb_iff j k)

pub put_self : {A : Type 0} (k : ℕ) (a : A) (f : ℕ → A) → put k a f k ≡ a
put_self k a f = rw ((eqb_iff k k).1 refl) refl

Relies-Agree :
    (k : ℕ) (fs fs' : Files) (t : Task)
    → Agree k fs fs'
    → slot_of t ≢ k
    → Relies fs t
    → Relies fs' t
unfolding slot_of
Relies-Agree k fs fs' (compiling j s) a d r = tt
Relies-Agree k fs fs' (built j p) a d r = rw (a.slot j d) r
Relies-Agree k fs fs' (stamped j p) a d r = rw (a.slot j d) r
Relies-Agree k fs fs' (copied j p n) a d r = (rw (a.tmp_exe j d) r.0, r.1)
Relies-Agree k fs fs' (renamed j p n) a d r = r
Relies-Agree k fs fs' (recorded j info) a d r = r

AllRely-Agree :
    (k : ℕ) (fs fs' : Files) (ts : List Task)
    → Agree k fs fs'
    → Apart k ts
    → AllRely fs ts
    → AllRely fs' ts
AllRely-Agree k fs fs' [] a d r = tt
AllRely-Agree k fs fs' (t ∷ ts) a d r =
    (Relies-Agree k fs fs' t a d.0 r.0, r.1, AllRely-Agree k fs fs' ts a d.1 r.2)

Apart-get :
    (k i : ℕ) (ts : List Task) {t : Task} → get_elem? ts i ≡ some t → Apart k ts → slot_of t ≢ k
Apart-get k i [] h d = absurd (ground (arith, h))
Apart-get k zero (t ∷ ts) h d = ground (arith, h, d.0)
Apart-get k (suc i) (t ∷ ts) h d = Apart-get k i ts h d.1

Apart-replace :
    (k i : ℕ) (ts : List Task) (t' : Task)
    → slot_of t' ≢ k
    → Apart k ts
    → Apart k (replace_at ts i t')
Apart-replace k i [] t' d a = tt
Apart-replace k zero (t ∷ ts) t' d a = (d, a.1)
Apart-replace k (suc i) (t ∷ ts) t' d a = (a.0, Apart-replace k i ts t' d a.1)

Apart-remove : (k i : ℕ) (ts : List Task) → Apart k ts → Apart k (remove_at ts i)
Apart-remove k i [] a = tt
Apart-remove k zero (t ∷ ts) a = a.1
Apart-remove k (suc i) (t ∷ ts) a = (a.0, Apart-remove k i ts a.1)

module _ (k : ℕ) (fs fs' : Files) (agree : Agree k fs fs') where
  -- The files of a task's slot change, and the task with them.
  pub AllRely-replace :
      (i : ℕ) (ts : List Task) (t t' : Task)
      → get_elem? ts i ≡ some t
      → slot_of t ≡ k
      → slot_of t' ≡ k
      → Relies fs' t'
      → AllRely fs ts
      → AllRely fs' (replace_at ts i t')
  AllRely-replace i [] t t' h e e' r a = tt
  AllRely-replace zero (x ∷ ts) t t' h e e' r a =
      let same : slot_of x ≡ k = ground (arith, h, e) in
      let apart : Apart k ts = rw (← same) a.1 in
      (r, rw e' apart, AllRely-Agree k fs fs' ts agree apart a.2)
  AllRely-replace (suc i) (x ∷ ts) t t' h e e' r a =
      let other : slot_of x ≢ k = λ same. Apart-get (slot_of x) i ts h a.1 (e ∙ sym same) in
      (
        Relies-Agree k fs fs' x agree other a.0,
        Apart-replace (slot_of x) i ts t' (λ same. other (sym same ∙ e')) a.1,
        AllRely-replace i ts t t' h e e' r a.2,
      )

  pub AllRely-remove :
      (i : ℕ) (ts : List Task) (t : Task)
      → get_elem? ts i ≡ some t
      → slot_of t ≡ k
      → AllRely fs ts
      → AllRely fs' (remove_at ts i)
  AllRely-remove i [] t h e a = tt
  AllRely-remove zero (x ∷ ts) t h e a =
      let same : slot_of x ≡ k = ground (arith, h, e) in
      AllRely-Agree k fs fs' ts agree (rw (← same) a.1) a.2
  AllRely-remove (suc i) (x ∷ ts) t h e a =
      let other : slot_of x ≢ k = λ same. Apart-get (slot_of x) i ts h a.1 (e ∙ sym same) in
      (
        Relies-Agree k fs fs' x agree other a.0,
        Apart-remove (slot_of x) i ts a.1,
        AllRely-remove i ts t h e a.2,
      )

pub replace_same :
    (i : ℕ) (ts : List Task) (t : Task) → get_elem? ts i ≡ some t → replace_at ts i t ≡ ts
replace_same i [] t h = refl
replace_same zero (x ∷ ts) t h = ground (arith, h)
replace_same (suc i) (x ∷ ts) t h = ap (λ us. x ∷ us) (replace_same i ts t h)

pub AllRely-get :
    (fs : Files) (i : ℕ) (ts : List Task) (t : Task)
    → get_elem? ts i ≡ some t
    → AllRely fs ts
    → Relies fs t
AllRely-get fs i [] t h a = absurd (ground (arith, h))
AllRely-get fs zero (x ∷ ts) t h a = let e : x ≡ t = ground (arith, h) in rw (← e) a.0
AllRely-get fs (suc i) (x ∷ ts) t h a = AllRely-get fs i ts t h a.2

pub Agree-refl : (k : ℕ) (fs : Files) → Agree k fs fs
Agree-refl k fs = record { slot = λ j d. refl; tmp_exe = λ j d. refl }

pub Apart-free : (k : ℕ) (ts : List Task) → in_use k ts ≡ false → Apart k ts
unfolding in_use
Apart-free k [] h = tt
Apart-free k (t ∷ ts) h = (
  λ e. absurd (ground (arith, h, (eqb_iff (slot_of t) k).1 e)),
  Apart-free k ts (ground (arith, h)),
)
