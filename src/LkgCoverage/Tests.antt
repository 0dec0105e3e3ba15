-- ===== src/LkgCoverage/Tests.antt =====
-- Queries and files at concrete inputs (src/routes/lkg_coverage.rs, tests).
use qontinui_supervisor.Prelude.{
  ℕ, ◌≡◌, refl, arith, Bool, false, not, Option, none, some, List, [], ◌∷◌, ◌++◌, ◌&&◌, leb,
}
use qontinui_supervisor.LkgCoverage.Params.{Bytes, parse_path_params, percent_decode}
use qontinui_supervisor.LkgCoverage.Query.{Escapes, query, parse_path_params-query}
use qontinui_supervisor.LkgCoverage.{
  root_dir, parent_dir, normal, FilePath, resolve_path, lexical_normalize, build_coverage_response,
}
use qontinui_supervisor.LkgCoverage.Contained.{Under, resolve_path-Under}
use qontinui_supervisor.LkgCoverage.Covered.{
  Covers, outdated, all_contained, build_coverage_response-Covers,
}

-- Small letters are kept.
abbrev keep : ℕ → Bool
keep b = leb 97 b && leb b 122

escapes : Escapes keep
escapes = record { percent = refl; plus = refl; ampersand = refl }

-- "a b" and "c&+".
abbrev paths : List Bytes
paths = (97 ∷ 32 ∷ 98 ∷ []) ∷ (99 ∷ 38 ∷ 43 ∷ []) ∷ []

parse_path_params-query_example : parse_path_params (λ s. s) (some (query keep paths)) ≡ paths
parse_path_params-query_example =
    parse_path_params-query (λ s. s) keep escapes paths
      (
        ((omega arith, (omega arith, (omega arith, tt))), refl),
        (((omega arith, (omega arith, (omega arith, tt))), refl), tt),
      )

-- A malformed escape stays as it is: `%Q+` is read as `%Q` and a space.
malformed : percent_decode (λ s. s) (37 ∷ 81 ∷ 43 ∷ []) ≡ 37 ∷ 81 ∷ 32 ∷ []
unfolding percent_decode
malformed = refl

abbrev project : FilePath
project = root_dir ∷ normal "work" ∷ normal "runner" ∷ []

abbrev outside : FilePath
outside = normal "src" ∷ parent_dir ∷ parent_dir ∷ normal "other" ∷ []

rejected : resolve_path false outside project ≡ none
unfolding resolve_path
rejected = refl

resolve_path-Under_example :
    Under project (resolve_path false outside project)
    × (resolve_path false (normal "src" ∷ normal "main.rs" ∷ []) project
        ≡ some (lexical_normalize project ++ (normal "src" ∷ normal "main.rs" ∷ [])))
resolve_path-Under_example =
    resolve_path-Under outside (normal "src" ∷ normal "main.rs" ∷ []) project (refl, (refl, tt))

abbrev components : Bytes → FilePath
components raw = normal "main.rs" ∷ []

abbrev read_file_mtime : FilePath → Option ℕ
read_file_mtime p = some 7000000000

build_coverage_response-Covers_example :
    (let r =
        build_coverage_response
          (λ raw. false)
          components
          read_file_mtime
          paths
          project
          (some 6500000000)
          9000000000 in
      Covers
        (λ raw. false)
        components
        read_file_mtime
        project
        (outdated (some 6500000000) 9000000000)
        (some 6500000000)
        paths
        r.files
      × (r.all_covered
          ≡ not false
            && all_contained
                (λ raw. false)
                components
                read_file_mtime
                project
                (some 6500000000)
                paths)
      × (r.lkg_stale ≡ outdated (some 6500000000) 9000000000))
build_coverage_response-Covers_example =
    build_coverage_response-Covers (λ raw. false) components read_file_mtime project paths
      (some 6500000000) 9000000000
