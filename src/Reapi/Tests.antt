-- ===== src/Reapi/Tests.antt =====
-- Runs of the model of src/reapi.rs on concrete bytes.
use qontinui_supervisor.Prelude.{ℕ, ◌≡◌, ◌≢◌, refl, pos, negsuc, true, List, [], ◌∷◌, arith}
use qontinui_supervisor.Reapi.{
  Utf8, OutputFile, ActionResult, as_u64, encode_digest, encode_file, encode, decode,
}
use qontinui_supervisor.Reapi.Wire.{ok, err, out_of_fuel, put_len_delimited}
use qontinui_supervisor.Reapi.Results.{IsActionResult, decode-encode}
use qontinui_supervisor.Reapi.Fuel.{decode-ne-out_of_fuel}

-- Texts that are their bytes.
abbrev plain : Utf8
plain = record {
  Text = List ℕ;
  empty = [];
  as_bytes = λ s. s;
  from_utf8_lossy = λ s. s;
  lossy-as_bytes = λ s. refl;
}

abbrev artifact : OutputFile plain
artifact = record {
  path = 97 ∷ 98 ∷ [];
  digest = record { hash = 99 ∷ []; size_bytes = pos 300 };
  is_executable = true;
}

abbrev outcome : ActionResult plain
outcome = record { output_files = artifact ∷ []; exit_code = negsuc 0 }

IsActionResult-outcome : IsActionResult plain outcome
unfolding IsActionResult encode_file encode_digest put_len_delimited as_u64
IsActionResult-outcome =
    ((((omega arith, (omega arith, omega arith), omega arith), omega arith), tt), omega arith)

decode-encode_example : decode plain (encode plain outcome) ≡ ok outcome
decode-encode_example = decode-encode plain outcome IsActionResult-outcome

decode-ne-out_of_fuel_example : decode plain (18 ∷ 255 ∷ []) ≢ err out_of_fuel
decode-ne-out_of_fuel_example = decode-ne-out_of_fuel plain (18 ∷ 255 ∷ [])
