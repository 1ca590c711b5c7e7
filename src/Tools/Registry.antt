-- ===== src/Tools/Registry.antt =====
-- src/tools/tool-registry.mjs: the class ToolRegistry, less its search, its JSON schemas and the
-- checking of arguments.
use codex_compatible_mcp.Base.{
  Bool, true, false, not, ◌&&◌, Option, none, some, List, [], ◌∷◌, ◌++◌, filter, find?, is_empty,
  if◌then◌else◌, ◌==◌, Outcome, ok, err, ◌>>=◌, ◌>>◌, throw_if,
}
use codex_compatible_mcp.Base.Text.{Text, text, text_eq}
use codex_compatible_mcp.Base.Dict
use codex_compatible_mcp.Base.Dict.{Dict}

pub data ToolSurface : Type 0 where
  direct deferred code_mode : ToolSurface

pub record Surfaces : Type 0 where
  pub direct : Bool
  pub deferred : Bool
  pub code_mode : Bool

pub data Exposure : Type 0 where
  direct_and_code direct_model_only deferred_and_code deferred_model_only code_mode_only hidden :
      Exposure

pub data Discoverability : Type 0 where
  search exact : Discoverability

-- A tool as it is handed in; `none` and the empty text are the values that `||` replaces.
pub record Definition : Type 0 where
  pub name : Text
  pub has_handler : Bool
  pub namespace : Option Text
  pub provider : Option Text
  pub provenance : Option Text
  pub surfaces : Option Surfaces
  pub discoverability : Option Text
  pub tags : List Text
  pub supports_parallel : Bool
  pub stability : Option Text

pub record Tool : Type 0 where
  pub name : Text
  pub namespace : Text
  pub qualified_name : Text
  pub provider : Text
  pub provenance : Text
  pub surfaces : Surfaces
  pub exposure : Exposure
  pub discoverability : Discoverability
  pub tags : List Text
  pub supports_parallel : Bool
  pub stability : Text

pub data RegistryError : Type 0 where
  name_required handler_required direct_and_deferred invalid_discoverability : RegistryError
  collision wire_name_collision : Text → RegistryError
  ambiguous : List Text → RegistryError

abbrev pub or_text : Option Text → Text → Text
or_text none d = d
or_text (some s) d = if is_empty s then d else s

unfoldable pub normalized_surfaces : Surfaces → Outcome RegistryError Surfaces
normalized_surfaces s = throw_if (s.direct && s.deferred) direct_and_deferred >> ok s

unfoldable pub normalized_discoverability : Option Text → Outcome RegistryError Discoverability
normalized_discoverability none = ok search
normalized_discoverability (some s) =
    if s == text "search"
    then ok search
    else (if s == text "exact" then ok exact else err invalid_discoverability)

unfoldable pub tool_exposure_label : Surfaces → Exposure
tool_exposure_label s =
    if s.direct && s.code_mode
    then direct_and_code
    else (if s.direct
        then direct_model_only
        else (if s.deferred && s.code_mode
            then deferred_and_code
            else (if s.deferred
                then deferred_model_only
                else (if s.code_mode then code_mode_only else hidden))))

unfoldable pub qualified_name : Text → Text → Text
qualified_name namespace name = if is_empty namespace then name else namespace ++ (text "." ++ name)

abbrev pub or_surfaces : Option Surfaces → Surfaces
or_surfaces none = record { direct = true; deferred = false; code_mode = true }
or_surfaces (some s) = s

unfoldable pub key_of : Definition → Text
unfolding qualified_name
key_of d = qualified_name (or_text d.namespace (text "ccm")) d.name

unfoldable pub new_tool : Definition → Surfaces → Discoverability → Tool
unfolding qualified_name tool_exposure_label
new_tool d surfaces discoverability = record {
  name = d.name;
  namespace = or_text d.namespace (text "ccm");
  qualified_name = qualified_name (or_text d.namespace (text "ccm")) d.name;
  provider = or_text d.provider (text "ccm-core");
  provenance = or_text d.provenance (or_text d.provider (text "ccm-core"));
  surfaces = surfaces;
  exposure = tool_exposure_label surfaces;
  discoverability = discoverability;
  tags = d.tags;
  supports_parallel = d.supports_parallel;
  stability = or_text d.stability (text "stable");
}

-- The map of a ToolRegistry.
abbrev pub Registry : Type 0
Registry = Dict Text Tool

abbrev pub is_direct_named : Text → Tool → Bool
is_direct_named name t = t.surfaces.direct && (t.name == name)

unfoldable pub check_wire_name : Surfaces → Text → Registry → Outcome RegistryError (Unit {0})
unfolding Dict.values
check_wire_name s name tools =
    throw_if (s.direct && Dict.is_some (find? (is_direct_named name) (Dict.values tools)))
      (wire_name_collision name)

unfoldable pub check_surfaces :
    Definition → Registry → Outcome RegistryError (Surfaces × Discoverability)
unfolding normalized_surfaces normalized_discoverability check_wire_name
check_surfaces d tools = normalized_surfaces (or_surfaces d.surfaces) >>= λ surfaces.
    normalized_discoverability d.discoverability >>= λ discoverability.
    check_wire_name surfaces d.name tools >> ok (surfaces, discoverability)

unfoldable pub check_definition :
    Definition → Registry → Outcome RegistryError (Surfaces × Discoverability)
unfolding key_of check_surfaces
check_definition d tools =
    if is_empty d.name
    then err name_required
    else (if not d.has_handler
        then err handler_required
        else (if Dict.has (key_of d) tools
            then err (collision (key_of d))
            else check_surfaces d tools))

unfoldable pub register : Definition → Registry → Outcome RegistryError (Registry × Tool)
unfolding key_of check_definition new_tool
register d tools = check_definition d tools >>= λ c.
    ok (Dict.set (key_of d) (new_tool d c.0 c.1) tools, new_tool d c.0 c.1)

unfoldable pub named : Text → Registry → List Tool
unfolding Dict.values
named identifier tools = filter (λ t. t.name == identifier) (Dict.values tools)

unfoldable pub only : List Tool → Option Tool
only [] = none
only (t ∷ []) = some t
only (t ∷ u ∷ ts) = none

-- `get`, for a text that is not empty or for the empty text, which is falsy.
unfoldable pub get : Text → Registry → Option Tool
unfolding only named
get identifier tools = if is_empty identifier then none else (elim (Dict.get identifier tools) [
  | some t ↦ some t
  | none ↦ only (named identifier tools)
])

unfoldable pub is_on_surface : ToolSurface → Tool → Bool
is_on_surface direct t = t.surfaces.direct
is_on_surface deferred t = t.surfaces.deferred
is_on_surface code_mode t = t.surfaces.code_mode

unfoldable pub on_surface : Option ToolSurface → List Tool → List Tool
unfolding is_on_surface
on_surface none ts = ts
on_surface (some s) ts = filter (is_on_surface s) ts

unfoldable pub matches : Text → Registry → List Tool
unfolding named
matches identifier tools = elim (Dict.get identifier tools) [
  | some t ↦ t ∷ []
  | none ↦ named identifier tools
]

unfoldable pub names : List Tool → List Text
names [] = []
names (t ∷ ts) = t.qualified_name ∷ names ts

unfoldable pub one_of : List Tool → Outcome RegistryError (Option Tool)
unfolding names
one_of [] = ok none
one_of (t ∷ []) = ok (some t)
one_of (t ∷ u ∷ ts) = err (ambiguous (t.qualified_name ∷ u.qualified_name ∷ names ts))

unfoldable pub resolve : Text → Option ToolSurface → Registry → Outcome RegistryError (Option Tool)
unfolding one_of on_surface matches
resolve identifier surface tools = one_of (on_surface surface (matches identifier tools))

unfoldable pub remove : Text → Registry → Registry × Bool
unfolding get
remove identifier tools = elim (get identifier tools) [
  | none ↦ (tools, false)
  | some t ↦ (Dict.delete t.qualified_name tools, Dict.has t.qualified_name tools)
]

unfoldable pub list : Option ToolSurface → Registry → List Tool
unfolding on_surface Dict.values
list surface tools = on_surface surface (Dict.values tools)

unfoldable pub list_direct : Registry → List Tool
unfolding list
list_direct tools = list (some direct) tools

unfoldable pub list_deferred : Registry → List Tool
unfolding list
list_deferred tools = list (some deferred) tools

unfoldable pub list_code_mode : Registry → List Tool
unfolding list
list_code_mode tools = list (some code_mode) tools
