-- ===== src/Logs/History.antt =====
-- What the log buffers of src/log_capture.rs hold after any sequence of entries.
use qontinui_supervisor.Prelude.{
  ℕ, ◌<◌, ◌+◌, ◌≡◌, refl, ◌∙◌, not, Bool, List, [], ◌∷◌, ◌++◌, arith, keep_if, count_if, push_all,
  push_all-eq-last_n, last_n,
}
use qontinui_supervisor.Prelude.Sort.{Sorted, sort_by_key-Sorted, sort_by_key-count}
use qontinui_supervisor.Logs.{
  LogEntry, LogState, is_build, new, push, history, build_history, merged_history,
}

-- The entries are pushed in turn.
unfoldable pub pushes : ℕ → ℕ → List LogEntry → LogState → LogState
unfolding push
pushes n m [] s = s
pushes n m (e ∷ es) s = pushes n m es (push n m e s)

abbrev pub of_build : LogEntry → Bool
of_build e = is_build e.source

abbrev pub not_of_build : LogEntry → Bool
not_of_build e = not (of_build e)

pushes_routed :
    (n m : ℕ) (es : List LogEntry) (s : LogState)
    → ((pushes n m es s).buffer ≡ push_all n (keep_if not_of_build es) s.buffer)
      × ((pushes n m es s).build_buffer ≡ push_all m (keep_if of_build es) s.build_buffer)
unfolding pushes push_all
pushes_routed n m [] s = (refl, refl)
pushes_routed n m (e ∷ es) s = ground (arith, pushes_routed n m es (push n m e s))

-- From empty buffers of at least one place each, the history is the last entries that fit among
-- those not of a build, and the build history the last that fit among those of a build: output of
-- a build never evicts another entry, nor the other way round.
pub history-pushes :
    (n m : ℕ) (es : List LogEntry)
    → 0 < n
    → 0 < m
    → (history (pushes n m es new) ≡ last_n n (keep_if not_of_build es))
      × (build_history (pushes n m es new) ≡ last_n m (keep_if of_build es))
unfolding history build_history new
history-pushes n m es hn hm =
    let (main, built) = pushes_routed n m es new in
    (
      main ∙ push_all-eq-last_n n (keep_if not_of_build es) hn,
      built ∙ push_all-eq-last_n m (keep_if of_build es) hm,
    )

count_if-append :
    (p : LogEntry → Bool) (xs ys : List LogEntry)
    → count_if p (xs ++ ys) ≡ count_if p xs + count_if p ys
count_if-append p [] ys = omega arith
count_if-append p (x ∷ xs) ys = ground (arith, count_if-append p xs ys)

-- The merged history is in the order of the timestamps, and holds every entry of the two buffers as
-- often as they hold it together.
pub merged_history-Sorted :
    (s : LogState)
    → Sorted (λ e. e.timestamp) (merged_history s)
      × ((p : LogEntry → Bool)
          → count_if p (merged_history s) ≡ count_if p (history s) + count_if p (build_history s))
unfolding merged_history history build_history
merged_history-Sorted s = (
  sort_by_key-Sorted (λ e. e.timestamp) (s.buffer ++ s.build_buffer),
  λ p.
      sort_by_key-count (λ e. e.timestamp) p (s.buffer ++ s.build_buffer)
      ∙ count_if-append p s.buffer s.build_buffer,
)
