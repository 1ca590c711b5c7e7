-- ===== src/Policy/Tests/Scripts.antt =====
-- src/controller/trusted-package-script-store.mjs: a script that is trusted, and one that changed.
use codex_compatible_mcp.Base.{◌≡◌, refl, true, false, none, some, List, [], ◌∷◌, all}
use codex_compatible_mcp.Base.Text.{Text, text, trim, drop_while, drop_end, is_space, starts_with}
use codex_compatible_mcp.Base.Dict.{is_some}
use codex_compatible_mcp.Policy.Shell.{last_piece}
use codex_compatible_mcp.Policy.Scripts.{Binding, Execution, key_of, ScriptStore, load}
use codex_compatible_mcp.Policy.Trust.{match, trust}
use codex_compatible_mcp.Policy.Trusted.{IsUnique, trusted_after}
use codex_compatible_mcp.Policy.Exact.{trust-match}

abbrev build : Execution
build = record {
  environment_id = text "e";
  workspace_id = text "w";
  workspace_root = text "r";
  cmd = some (text " npm  run build:all ");
  workdir = some (text ".");
  choice = record { args_shell = none; path = none; type = some (text "pwsh") };
  tty = false;
}

abbrev script : Binding
script = record {
  package_manager = text "npm";
  script = text "build:all";
  script_sha256 = text "1";
}

abbrev changed : Binding
changed = record script { script_sha256 = text "2" }

abbrev no_rules : ScriptStore
no_rules = load true []

trust-match_example :
    (is_some
        (match build
          (some changed)
          (trust true (text "i") (text "n") build (some script) no_rules).0).1
      ≡ trusted_after
          (key_of build)
          (key_of build)
          script
          changed
          (is_some (match build (some changed) no_rules).1))
    × IsUnique (trust true (text "i") (text "n") build (some script) no_rules).0.rules
unfolding load trust codex_compatible_mcp.Base.Text.text_beq
trust-match_example =
    trust-match true (text "i") (text "n") build build script changed no_rules tt refl refl

changed_test :
    is_some
      (match build
        (some changed)
        (trust true (text "i") (text "n") build (some script) no_rules).0).1
    ≡ false
unfolding starts_with last_piece load match trust codex_compatible_mcp.Base.Text.text_beq
changed_test = refl

trusted_test :
    is_some
      (match build
        (some script)
        (trust true (text "i") (text "n") build (some script) no_rules).0).1
    ≡ true
unfolding starts_with last_piece load match trust codex_compatible_mcp.Base.Text.text_beq
trusted_test = refl
