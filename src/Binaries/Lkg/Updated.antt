-- ===== src/Binaries/Lkg/Updated.antt =====
-- What one update of the last known good exe leaves, whatever operation fails
-- (src/build_monitor.rs, `update_lkg_after_success`).
use qontinui_supervisor.Prelude.{
  ℕ, ◌≡◌, refl, sym, ◌∙◌, String, Bool, true, false, Option, none, some, eqb_iff,
}
use qontinui_supervisor.Binaries.{is_vouched, BuildProvenance}
use qontinui_supervisor.Binaries.Lkg.{
  Content, len, Outcomes, exe_not_found, write_meta, rename_meta, Result, ok, err, put, info_of,
  copy_exe, publish_exe, Lkg, record_info, promote, update_lkg_after_success, load_lkg_from_disk,
}

module _ (now : String) (k : ℕ) (provenance : BuildProvenance) (s : Lkg) where
  abbrev pub NothingNew : Lkg → Type 0
  NothingNew s' =
      (s'.files.exe ≡ s.files.exe)
      × (s'.files.meta ≡ s.files.meta)
      × (s'.last_known_good ≡ s.last_known_good)

  -- The exe is new, and its record is still that of the exe before.
  abbrev pub OldRecord : Lkg → Type 0
  OldRecord s' =
      (s'.files.exe ≡ s.files.slot k)
      × (s'.files.meta ≡ s.files.meta)
      × (s'.last_known_good ≡ s.last_known_good)

  -- The exe is that of the slot, and the record on the disk, the one in memory and the one that a
  -- restart reads from the disk are the same and describe it.
  abbrev pub Promoted : Content → Lkg → Type 0
  Promoted c s' =
      (s'.files.exe ≡ some c)
      × (s'.files.meta ≡ some (info_of now k (len c) provenance))
      × (s'.last_known_good ≡ some (info_of now k (len c) provenance))
      × (load_lkg_from_disk s'.files ≡ s'.last_known_good)

  abbrev pub After : Bool → Option Content → Result → Lkg → Type 0
  After false _ r s' = (r ≡ ok) × (s' ≡ s)
  After true none r s' = (r ≡ err exe_not_found) × (s' ≡ s)
  After true (some c) ok s' = Promoted c s'
  After true (some c) (err write_meta) s' = OldRecord s'
  After true (some c) (err rename_meta) s' = OldRecord s'
  After true (some c) (err e) s' = NothingNew s'

  abbrev pub Left : Bool → Option Content → Result × Lkg → Type 0
  Left vouched found out = After vouched found out.0 out.1 × (out.1.files.slot ≡ s.files.slot)

  abbrev outcomes : Bool → Bool → ℕ → Bool → Bool → Bool → Bool → Outcomes
  outcomes d c n t e w m = record {
    creates_dir = d;
    copies = c;
    copied_bytes = n;
    stats = t;
    renames_exe = e;
    writes_meta = w;
    renames_meta = m;
  }

  put_self : (c : Content) → put k (some c) s.files.tmp_exe k ≡ some c
  put_self c = rw ((eqb_iff k k).1 refl) refl

  promote_lem :
      (d copies : Bool) (n : ℕ) (stats exe writes metas : Bool) (c : Content)
      → s.files.slot k ≡ some c
      → Left true
          (some c)
          (promote (outcomes d copies n stats exe writes metas) now k provenance c s)
  unfolding promote copy_exe publish_exe record_info load_lkg_from_disk
  promote_lem d false n t x w m c e = ((refl, refl, refl), refl)
  promote_lem d true n false x w m c e = ((refl, refl, refl), refl)
  promote_lem d true n true false w m c e = ((refl, refl, refl), refl)
  promote_lem d true n true true false m c e = ((put_self c ∙ sym e, refl, refl), refl)
  promote_lem d true n true true true false c e = ((put_self c ∙ sym e, refl, refl), refl)
  promote_lem d true n true true true true c e =
      ((put_self c, refl, refl, rw (put_self c, load_lkg_from_disk) refl), refl)

  update_cases :
      (d copies : Bool) (n : ℕ) (stats exe writes metas vouched : Bool) (found : Option Content)
      → is_vouched provenance.source ≡ vouched
      → s.files.slot k ≡ found
      → Left vouched found
          (update_lkg_after_success (outcomes d copies n stats exe writes metas) now k provenance s)
  unfolding update_lkg_after_success
  update_cases d c n t x w m false found v e =
      rw (v, update_lkg_after_success, Left) ((refl, refl), refl)
  update_cases d c n t x w m true none v e =
      rw (v, e, update_lkg_after_success, Left) ((refl, refl), refl)
  update_cases false c n t x w m true (some f) v e =
      rw (v, e, update_lkg_after_success, Left) ((refl, refl, refl), refl)
  update_cases true c n t x w m true (some f) v e =
      rw (v, e, update_lkg_after_success, Left) (promote_lem true c n t x w m f e)

  -- The exe of the slot is left as it is. A build of a tree that is not vouched for changes nothing.
  -- Otherwise a success promotes the exe of the slot with a record that describes it, on the disk and in
  -- memory, and a restart reads that record again. A failure changes nothing but the temporary files,
  -- except one of the last two operations: then the exe is promoted and the record is the old one.
  pub update_lkg_after_success-Left :
      (o : Outcomes)
      → Left
          (is_vouched provenance.source)
          (s.files.slot k)
          (update_lkg_after_success o now k provenance s)
  update_lkg_after_success-Left o =
      update_cases o.creates_dir o.copies o.copied_bytes o.stats o.renames_exe o.writes_meta
        o.renames_meta _ _ refl refl
