-- ===== src/Binaries/Lkg/Vouched.antt =====
-- Why the last known good exe is always a whole exe of a tree that is vouched for, as long as no build
-- claims a slot that another one still promotes from (src/build_monitor.rs).
use qontinui_supervisor.Prelude.{
  ℕ, ◌≡◌, refl, sym, subst, String, Bool, true, false, Option, none, some, List, [], ◌∷◌, get_elem?,
  All,
}
use qontinui_supervisor.Binaries.{BuildSource, is_vouched, BuildProvenance}
use qontinui_supervisor.Binaries.Lkg.{
  Content, whole, torn, len, Files, info_of, copy_exe, publish_exe, load_lkg_from_disk,
}
use qontinui_supervisor.Binaries.Lkg.Builds.{
  Task, compiling, built, stamped, copied, renamed, recorded, slot_of, World, replace_at, link,
  Step, claims, links, links_some, ends, succeeds, stamps, fails_to_stamp, copies, fails_to_copy,
  publishes, records, remembers, forgets, restarts, Run, rest, act,
}
use qontinui_supervisor.Binaries.Lkg.Tasks.{
  Matches, VouchedExe, VouchedInfo, Relies, AllRely, Sound, Agree, put_other, put_self,
  AllRely-replace, AllRely-remove, replace_same, AllRely-get, Agree-refl, Apart-free,
}

Agree-link : (k : ℕ) (c : Content) (fs : Files) → Agree k fs (link k c fs)
unfolding link
Agree-link k c fs = record { slot = λ j d. put_other k j (some c) fs.slot d; tmp_exe = λ j d. refl }

Agree-copy_exe : (k : ℕ) (c : Content) (fs : Files) → Agree k fs (copy_exe k c fs)
unfolding copy_exe
Agree-copy_exe k c fs = record {
  slot = λ j d. refl;
  tmp_exe = λ j d. put_other k j (some c) fs.tmp_exe d;
}

Agree-publish_exe : (k : ℕ) (fs : Files) → Agree k fs (publish_exe k fs)
unfolding publish_exe
Agree-publish_exe k fs = record {
  slot = λ j d. refl;
  tmp_exe = λ j d. put_other k j none fs.tmp_exe d;
}

Matches-VouchedExe :
    (source : BuildSource) (c : Option Content)
    → is_vouched source ≡ true
    → Matches source c
    → VouchedExe c
Matches-VouchedExe source (some (whole e)) v m = rw m v
Matches-VouchedExe source none v m = elim m [ ]
Matches-VouchedExe source (some (torn _)) v m = elim m [ ]

load-VouchedInfo : (fs : Files) → VouchedInfo fs.meta → VouchedInfo (load_lkg_from_disk fs)
unfolding load_lkg_from_disk
load-VouchedInfo fs h = go fs.exe refl
  where
    go : (x : Option Content) → fs.exe ≡ x → VouchedInfo (load_lkg_from_disk fs)
    go none e = rw (e, load_lkg_from_disk) tt
    go (some c) e = rw (e, load_lkg_from_disk) h

-- A step that leaves the last known good exe and its records alone.
Sound-tasks :
    {w w' : World}
    → Sound w
    → w'.files.exe ≡ w.files.exe
    → w'.files.meta ≡ w.files.meta
    → w'.last_known_good ≡ w.last_known_good
    → AllRely w'.files w'.tasks
    → Sound w'
Sound-tasks s e m l tasks = record {
  exe = rw e s.exe;
  meta = rw m s.meta;
  memory = rw l s.memory;
  tasks = tasks;
}

link-AllRely :
    (w : World) (i k : ℕ) (source : BuildSource) (c : Content)
    → get_elem? w.tasks i ≡ some (compiling k source)
    → Sound w
    → AllRely (link k c w.files) w.tasks
unfolding slot_of
link-AllRely w i k source c h s = rw (← replace_same i w.tasks (compiling k source) h) (
    AllRely-replace k w.files _ (Agree-link k c w.files) i w.tasks _ (compiling k source) h refl
      refl tt s.tasks)

-- The files stay, and one task goes on.
next-AllRely :
    (w : World) (i : ℕ) (t t' : Task)
    → get_elem? w.tasks i ≡ some t
    → slot_of t' ≡ slot_of t
    → Relies w.files t'
    → Sound w
    → AllRely w.files (replace_at w.tasks i t')
next-AllRely w i t t' h e r s =
    AllRely-replace (slot_of t) w.files w.files (Agree-refl _ w.files) i w.tasks t t' h refl e r
      s.tasks

module _ (w : World) (s : Sound w) where
  copy-AllRely :
      (i k : ℕ) (p : BuildProvenance) (c : Content)
      → get_elem? w.tasks i ≡ some (stamped k p)
      → is_vouched p.source ≡ true
      → w.files.slot k ≡ some c
      → AllRely (copy_exe k c w.files) (replace_at w.tasks i (copied k p (len c)))
  unfolding slot_of copy_exe
  copy-AllRely i k p c h v there =
      let m : Matches p.source (some c) =
        subst (λ x. Matches p.source x) there
          (AllRely-get w.files i w.tasks (stamped k p) h s.tasks) in
      AllRely-replace k w.files _ (Agree-copy_exe k c w.files) i w.tasks _ (copied k p (len c)) h
        refl refl (rw (put_self k (some c) w.files.tmp_exe) m, v) s.tasks

  publish-Sound :
      (i k n : ℕ) (p : BuildProvenance)
      → get_elem? w.tasks i ≡ some (copied k p n)
      → Sound
          (record w { files = publish_exe k w.files; tasks = replace_at w.tasks i (renamed k p n) })
  unfolding slot_of publish_exe
  publish-Sound i k n p h =
      let r = AllRely-get w.files i w.tasks (copied k p n) h s.tasks in
      record {
        exe = Matches-VouchedExe p.source (w.files.tmp_exe k) r.1 r.0;
        meta = s.meta;
        memory = s.memory;
        tasks =
            AllRely-replace k w.files _ (Agree-publish_exe k w.files) i w.tasks _ (renamed k p n) h
              refl refl r.1 s.tasks;
      }

  record-Sound :
      (i k n : ℕ) (p : BuildProvenance) (now : String)
      → get_elem? w.tasks i ≡ some (renamed k p n)
      → Sound (record w {
        files = (let fs = w.files in record fs { meta = some (info_of now k n p) });
        tasks = replace_at w.tasks i (recorded k (info_of now k n p));
      })
  unfolding slot_of info_of
  record-Sound i k n p now h =
      let v = AllRely-get w.files i w.tasks (renamed k p n) h s.tasks in
      record {
        exe = s.exe;
        meta = v;
        memory = s.memory;
        tasks =
            AllRely-replace k w.files
              (let fs = w.files in record fs { meta = some (info_of now k n p) })
              (record { slot = λ j d. refl; tmp_exe = λ j d. refl }) i w.tasks _
              (recorded k (info_of now k n p)) h refl refl v s.tasks;
      }

Step-Sound :
    {w w' : World} {overlaps : Bool} → Step w overlaps w' → overlaps ≡ false → Sound w → Sound w'
unfolding slot_of link copy_exe
Step-Sound {w} (claims k source) calm s =
    Sound-tasks s refl refl refl (tt, Apart-free k w.tasks calm, s.tasks)
Step-Sound {w} (links i k e h) calm s =
    Sound-tasks s refl refl refl (link-AllRely w i k e.source (whole e) h s)
Step-Sound {w} (links_some i k n source h) calm s =
    Sound-tasks s refl refl refl (link-AllRely w i k source (torn n) h s)
Step-Sound {w} (ends i t h) calm s =
    Sound-tasks s refl refl refl
      (AllRely-remove (slot_of t) w.files w.files (Agree-refl _ w.files) i w.tasks t h refl s.tasks)
Step-Sound {w} (succeeds i k e p h there made) calm s =
    Sound-tasks s refl refl refl (next-AllRely w i _ (built k p) h refl (rw there (sym made)) s)
Step-Sound {w} (stamps i k p h) calm s =
    Sound-tasks s refl refl refl
      (next-AllRely w i _ (stamped k p) h refl (AllRely-get w.files i w.tasks _ h s.tasks) s)
Step-Sound {w} (fails_to_stamp i k p h) calm s =
    Sound-tasks s refl refl refl
      (next-AllRely w i _ (stamped k p) h refl (AllRely-get w.files i w.tasks _ h s.tasks) s)
Step-Sound {w} (copies i k p c h v there) calm s =
    Sound-tasks s refl refl refl (copy-AllRely w s i k p c h v there)
Step-Sound {w} (fails_to_copy i k n p h v) calm s =
    Sound-tasks s refl refl refl
      (AllRely-remove k w.files _ (Agree-copy_exe k (torn n) w.files) i w.tasks _ h refl s.tasks)
Step-Sound {w} (publishes i k n p h) calm s = publish-Sound w s i k n p h
Step-Sound {w} (records i k n p now h) calm s = record-Sound w s i k n p now h
Step-Sound {w} (remembers i k info h) calm s = record {
  exe = s.exe;
  meta = s.meta;
  memory = AllRely-get w.files i w.tasks (recorded k info) h s.tasks;
  tasks = AllRely-remove k w.files w.files (Agree-refl _ w.files) i w.tasks _ h refl s.tasks;
}
Step-Sound {w} (forgets h) calm s = record {
  exe = s.exe;
  meta = s.meta;
  memory = tt;
  tasks = s.tasks;
}
Step-Sound {w} restarts calm s = record {
  exe = s.exe;
  meta = s.meta;
  memory = load-VouchedInfo w.files s.meta;
  tasks = tt;
}

-- No step claims a slot that is in use.
abbrev pub AllCalm : List Bool → Type 0
AllCalm steps = All (λ overlaps. overlaps ≡ false) steps

-- The last known good exe is a whole exe of a tree that is vouched for, and its records on the disk and
-- in memory name such trees, at every point of any run of builds side by side, whatever fails and
-- whenever the supervisor stops and starts again: if it is so at the start, and no build claims a slot
-- while another one is not done with it. In particular no build of a foreign tree and no half-written file gets there.
pub lkg_stays_vouched :
    (w w' : World) (steps : List Bool) → Run w steps w' → AllCalm steps → Sound w → Sound w'
lkg_stays_vouched w w' [] rest calm s = s
lkg_stays_vouched w w'' (b ∷ bs) (act {w' = w'} run st) calm s =
    Step-Sound st calm.0 (lkg_stays_vouched w w' bs run calm.1 s)
