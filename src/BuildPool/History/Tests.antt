-- ===== src/BuildPool/History/Tests.antt =====
-- Runs of the model of a slot's history (src/state.rs) on concrete texts and builds.
use qontinui_supervisor.Prelude.{ℕ, ◌≡◌, refl, true, false, none, some, List, [], ◌∷◌, arith}
use qontinui_supervisor.BuildPool.History.{
  is_continuation, tail_bytes_keep_utf8, Finished, recorded,
}
use qontinui_supervisor.BuildPool.History.Tail.{
  Utf8Char, encode, IsTail, tail_bytes_keep_utf8-IsTail,
}
use qontinui_supervisor.BuildPool.History.Refinement.{Summarises, recorded-Summarises}

-- "é" and "b"
abbrev e_acute : Utf8Char
unfolding is_continuation
e_acute = record {
  first = 195;
  more = 169 ∷ [];
  starts = refl;
  continues = (refl, tt);
  short = omega arith;
}

abbrev b : Utf8Char
unfolding is_continuation
b = record { first = 98; more = []; starts = refl; continues = tt; short = omega arith }

-- A cut inside of a character drops the rest of it.
tail_moved : tail_bytes_keep_utf8 (encode (e_acute ∷ b ∷ [])) 2 ≡ 98 ∷ []
unfolding tail_bytes_keep_utf8
tail_moved = refl

tail_bytes_keep_utf8-IsTail_example :
    IsTail (encode (e_acute ∷ b ∷ [])) (tail_bytes_keep_utf8 (encode (e_acute ∷ b ∷ [])) 2) 2
tail_bytes_keep_utf8-IsTail_example = tail_bytes_keep_utf8-IsTail (e_acute ∷ b ∷ []) 2

abbrev builds : List (Finished ℕ)
builds =
    record {
      duration_secs = 200;
      success = false;
      error = some (98 ∷ []);
      error_detail = some (encode (e_acute ∷ b ∷ []));
      now = 700;
    }
    ∷ record { duration_secs = 180; success = true; error = none; error_detail = none; now = 300 }
    ∷ []

recorded-Summarises_example : Summarises (recorded ℕ builds) builds
recorded-Summarises_example = recorded-Summarises builds (omega arith)
