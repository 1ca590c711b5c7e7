-- ===== src/Transfers/Tests.antt =====
-- src/controller/file-transfer-store.mjs: files put, read, evicted and released on concrete values.
mod Tasks
use codex_compatible_mcp.Base.{
  ℕ, ◌≡◌, refl, Bool, true, false, Option, none, some, List, [], ◌∷◌, arith,
}
use codex_compatible_mcp.Base.Text.{Text, text, text_eq}
use codex_compatible_mcp.Base.Dict
use codex_compatible_mcp.Transfers.Files.{
  Files, Upload, no_files, unlink, remove, cleanup_loop, cleanup, evict_loop, evict, check_upload,
  add_entry, put_checked, put, get, acquire_entry, acquire, end_reading, release, close,
}
use codex_compatible_mcp.Transfers.Accounting.{sum_bytes}
use codex_compatible_mcp.Transfers.Calls.{
  Call, puts, gets, acquires, releases, closes, step, IsKept, step-IsKept,
}
use codex_compatible_mcp.Transfers.Reading.{run, run-bins}

abbrev upload : Upload
upload = record {
  environment_id = none;
  filename = text "f";
  mime_type = text "m";
  byte_length = 6;
  decoded_length = 6;
  digest = text "d";
  sha256 = none;
}

abbrev one_file : Files
one_file = step (puts (text "a") 0 0 upload) (no_files false 10)

abbrev reading : Files
reading = step (acquires (text "a") 1) one_file

-- The second file evicts the first, whose reader is still there.
abbrev calls : List Call
calls = puts (text "b") 2 2 upload ∷ gets (text "a") 3 ∷ []

step-IsKept_example : IsKept (step (puts (text "b") 2 2 upload) one_file)
unfolding sum_bytes run Dict.get Dict.set codex_compatible_mcp.Base.Text.text_beq
step-IsKept_example =
    step-IsKept (puts (text "b") 2 2 upload) one_file refl (record {
      accounted = record { distinct = (refl, tt); counted = refl };
      within = omega arith;
    })

run-bins_example : Dict.get (text "a") (run calls reading).bins ≡ Dict.get (text "a") reading.bins
unfolding run Dict.get Dict.set Dict.delete codex_compatible_mcp.Base.Text.text_beq
run-bins_example =
    run-bins (text "a") calls reading (omega arith, refl, tt, (omega arith, tt, tt, omega arith))

evicted_test : Dict.get (text "a") (run calls reading).entries ≡ none
unfolding run Dict.get Dict.set Dict.delete codex_compatible_mcp.Base.Text.text_beq
evicted_test = refl

unlinked_test : Dict.get (text "a") (step (releases (text "a")) (run calls reading)).bins ≡ none
unfolding run Dict.get Dict.set Dict.delete codex_compatible_mcp.Base.Text.text_beq
unlinked_test = refl

-- A directory of the store's own goes with it.
closed_test : (close (step (puts (text "a") 0 0 upload) (no_files true 10))).bins ≡ []
unfolding close step
closed_test = refl
