-- ===== src/ArtifactCache/Tests.antt =====
-- A run of the model of the artifact cache (src/build_submissions.rs, src/bazel_remote.rs) against a
-- server that keeps everything.
use qontinui_supervisor.Prelude.{
  ℕ, ◌≡◌, ◌≢◌, ◌↔◌, refl, ap, subst, Bool, true, false, Option, none, some, List, [], ◌∷◌, ◌&&◌,
  arith, eqb, if◌then◌else◌, find_first, PartialEq, In, Distinct,
}
use qontinui_supervisor.Reapi.{Utf8, as_i64, as_u64, encode_digest, encode_file}
use qontinui_supervisor.Reapi.Wire.{put_len_delimited}
use qontinui_supervisor.Reapi.Results.{IsActionResult}
use qontinui_supervisor.ArtifactCache.{
  Url, ac, cas, Remote, ac_get, Candidate, is_current, populate_cache, try_materialize_hit,
  write_file,
}
use qontinui_supervisor.ArtifactCache.Filled.{targets, AllThere, try_materialize_hit-AllThere}
use qontinui_supervisor.ArtifactCache.RoundTrip.{Keeps, entry, populate_then_hit}

abbrev bytes_text : Utf8
bytes_text = record {
  Text = List ℕ;
  empty = [];
  as_bytes = λ s. s;
  from_utf8_lossy = λ s. s;
  lossy-as_bytes = λ s. refl;
}

abbrev same_text : List ℕ → List ℕ → Bool
same_text [] [] = true
same_text [] (b ∷ t) = false
same_text (a ∷ s) [] = false
same_text (a ∷ s) (b ∷ t) = eqb a b && same_text s t

same_text_iff : (s t : List ℕ) → (same_text s t ≡ true) ↔ (s ≡ t)
same_text_iff [] [] = ground arith
same_text_iff [] (b ∷ t) = ground arith
same_text_iff (a ∷ s) [] = ground arith
same_text_iff (a ∷ s) (b ∷ t) = ground (arith, same_text_iff s t)

instance abbrev text_eq : PartialEq (List ℕ)
text_eq = record { same = same_text; same_iff = same_text_iff }

abbrev same_url : Url (List ℕ) → Url (List ℕ) → Bool
same_url (ac s) (ac t) = same_text s t
same_url (cas s) (cas t) = same_text s t
same_url (ac s) (cas t) = false
same_url (cas s) (ac t) = false

same_url_iff : (u v : Url (List ℕ)) → (same_url u v ≡ true) ↔ (u ≡ v)
same_url_iff (ac s) (ac t) = ground (arith, same_text_iff s t)
same_url_iff (cas s) (cas t) = ground (arith, same_text_iff s t)
same_url_iff (ac s) (cas t) = ground arith
same_url_iff (cas s) (ac t) = ground arith

abbrev server : Remote (List ℕ)
server = record {
  State = Url (List ℕ) → Option (List ℕ);
  get = λ u st. elim (st u) [ none ↦ some (404, []) | some body ↦ some (200, body) ];
  put = λ u body st. (some 200, λ v. if same_url u v then some body else st v);
}

server-Keeps : Keeps server
server-Keeps = record {
  stored = λ u body st st' status h taken.
      subst (λ s. server.get u s ≡ some (200, body)) (ap (λ p. p.1) h)
        (ground (arith, same_url_iff u u));
  elsewhere = λ u v body st n. ground (arith, same_url_iff u v, n);
}

-- A hash that is good enough for one artifact.
abbrev sha : List ℕ → List ℕ
sha bytes = 115 ∷ []

abbrev artifact : Candidate bytes_text server
artifact = record {
  rel = 97 ∷ 98 ∷ [];
  is_file = true;
  modified = some 9000000000;
  content = some (1 ∷ 2 ∷ 3 ∷ []);
}

abbrev missing : Candidate bytes_text server
missing = record { rel = 97 ∷ []; is_file = false; modified = none; content = none }

abbrev candidates : List (Candidate bytes_text server)
candidates = missing ∷ artifact ∷ []

abbrev empty_store : Url (List ℕ) → Option (List ℕ)
empty_store u = none

abbrev filled : Url (List ℕ) → Option (List ℕ)
filled = (populate_cache bytes_text server sha true (107 ∷ []) 10000000000 candidates empty_store).1

-- A path with a leading `./` is the same file as without it.
abbrev as_file : List ℕ → List ℕ
as_file [] = []
as_file (a ∷ []) = a ∷ []
as_file (a ∷ b ∷ p) = if eqb a 46 && eqb b 47 then p else a ∷ b ∷ p

entry-IsActionResult :
    IsActionResult bytes_text (entry bytes_text server sha (97 ∷ 98 ∷ []) (1 ∷ 2 ∷ 3 ∷ []))
unfolding IsActionResult encode_file encode_digest put_len_delimited as_u64 as_i64
entry-IsActionResult =
    ((((omega arith, (omega arith, omega arith), omega arith), omega arith), tt), omega arith)

abbrev some_or {ℓ} : {A : Type ℓ} → A → Option A → A
some_or a none = a
some_or a (some b) = b

fits :
    (c : Candidate bytes_text server) (bytes : List ℕ)
    → some artifact ≡ some c
    → c.content ≡ some bytes
    → IsActionResult bytes_text (entry bytes_text server sha c.rel bytes)
fits c bytes e r =
    subst
      (λ d.
        d.content ≡ some bytes
        → IsActionResult bytes_text (entry bytes_text server sha d.rel bytes))
      (ap (some_or artifact) e)
      (λ read.
        subst (λ b. IsActionResult bytes_text (entry bytes_text server sha (97 ∷ 98 ∷ []) b))
          (ap (some_or []) read) entry-IsActionResult)
      r

populate_then_hit_example :
    (c : Candidate bytes_text server) × (bytes : List ℕ) × (find_first
        (is_current bytes_text server 10000000000)
        candidates
      ≡ some c)
    × (c.content ≡ some bytes)
    × (ac_get bytes_text server true (107 ∷ []) filled
        ≡ some (entry bytes_text server sha c.rel bytes))
    × ((can_write : List ℕ → Bool) (files : List ℕ → Option (List ℕ))
        → can_write c.rel ≡ true
        → try_materialize_hit bytes_text server as_file true filled can_write
            (entry bytes_text server sha c.rel bytes)
            files
          ≡ (true, write_file bytes_text server as_file (as_file c.rel) bytes files))
unfolding populate_cache is_current
populate_then_hit_example =
    populate_then_hit bytes_text server as_file server-Keeps sha (107 ∷ []) 10000000000 candidates
      empty_store filled refl fits

try_materialize_hit-AllThere_example :
    let r =
      try_materialize_hit bytes_text server as_file true filled
        (λ p. true)
        (entry bytes_text server sha (97 ∷ 98 ∷ []) (1 ∷ 2 ∷ 3 ∷ []))
        (λ p. none) in
    (r.0 ≡ true
      → ((entry bytes_text server sha (97 ∷ 98 ∷ []) (1 ∷ 2 ∷ 3 ∷ [])).output_files ≢ [])
        × (Distinct (
              targets bytes_text server as_file
                (entry bytes_text server sha (97 ∷ 98 ∷ []) (1 ∷ 2 ∷ 3 ∷ [])).output_files)
            → AllThere bytes_text server as_file true filled
                (λ p. true)
                (entry bytes_text server sha (97 ∷ 98 ∷ []) (1 ∷ 2 ∷ 3 ∷ [])).output_files
                r.1))
    × ((p : List ℕ)
        → (In p (
              targets bytes_text server as_file
                (entry bytes_text server sha (97 ∷ 98 ∷ []) (1 ∷ 2 ∷ 3 ∷ [])).output_files)
            → ⊥)
        → r.1 p ≡ none)
try_materialize_hit-AllThere_example =
    try_materialize_hit-AllThere bytes_text server as_file true filled (λ p. true)
      (entry bytes_text server sha (97 ∷ 98 ∷ []) (1 ∷ 2 ∷ 3 ∷ [])) (λ p. none)
