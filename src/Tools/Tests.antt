-- ===== src/Tools/Tests.antt =====
-- src/tools/tool-registry.mjs: a small registry, and the theorems at it.
use codex_compatible_mcp.Base.{
  ℕ, ◌≡◌, ◌≢◌, ◌⊎◌, refl, inl, inr, Bool, true, false, Option, none, some, List, [], ◌∷◌, Outcome,
  ok, err, arith, ◌==◌, All,
}
use codex_compatible_mcp.Base.Text.{Text, text, text_eq}
use codex_compatible_mcp.Base.Dict
use codex_compatible_mcp.Tools.Registry.{
  direct, code_mode, search, Definition, Tool, RegistryError, wire_name_collision, ambiguous,
  or_surfaces, new_tool, Registry, register, is_on_surface, resolve,
}
use codex_compatible_mcp.Tools.Names.{
  direct_count, IsWellFormed, register-IsWellFormed, register-resolve,
}
use codex_compatible_mcp.Tools.Resolve.{resolve-direct, resolve-found}

abbrev definition : Text → Text → Definition
definition namespace name = record {
  name = name;
  has_handler = true;
  namespace = some namespace;
  provider = none;
  provenance = none;
  surfaces = none;
  discoverability = none;
  tags = [];
  supports_parallel = false;
  stability = none;
}

abbrev the_registry : Outcome RegistryError (Registry × Tool) → Registry
the_registry (ok r) = r.0
the_registry (err e) = []

abbrev read_tool : Tool
read_tool = new_tool (definition (text "ccm") (text "read")) (or_surfaces none) search

abbrev one_tool : Registry
one_tool = the_registry (register (definition (text "ccm") (text "read")) [])

one_tool_test : one_tool ≡ (text "ccm.read", read_tool) ∷ []
unfolding register Dict.get Dict.set
one_tool_test = refl

clash_test :
    register (definition (text "other") (text "read")) one_tool
    ≡ err (wire_name_collision (text "read"))
unfolding register Dict.get Dict.set codex_compatible_mcp.Base.Text.text_beq
clash_test = refl

register-IsWellFormed_example : IsWellFormed one_tool
unfolding register direct_count Dict.get
register-IsWellFormed_example =
    register-IsWellFormed (definition (text "ccm") (text "read")) [] one_tool read_tool
      (record { distinct = tt; entries = tt; unique = λ n. omega arith }) refl

register-resolve_example :
    (resolve read_tool.qualified_name none one_tool ≡ ok (some read_tool))
    × ((key : Text) → key ≢ read_tool.qualified_name → Dict.get key one_tool ≡ Dict.get key [])
unfolding register Dict.get
register-resolve_example =
    register-resolve (definition (text "ccm") (text "read")) [] one_tool read_tool refl

resolve-direct_example : resolve (text "read") (some direct) one_tool ≢ err (ambiguous [])
unfolding register direct_count Dict.get
resolve-direct_example = resolve-direct (text "read") one_tool (ambiguous []) (
    register-IsWellFormed (definition (text "ccm") (text "read")) [] one_tool read_tool
      (record { distinct = tt; entries = tt; unique = λ n. omega arith }) refl)

resolve-found_example :
    (is_on_surface code_mode read_tool ≡ true)
    × ((Dict.get (text "read") one_tool ≡ some read_tool)
        ⊎ ((Dict.get (text "read") one_tool ≡ none) × (read_tool.name ≡ text "read")))
unfolding register resolve Dict.get Dict.set codex_compatible_mcp.Base.Text.text_beq
resolve-found_example = resolve-found (text "read") code_mode one_tool read_tool refl
