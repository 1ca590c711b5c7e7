-- ===== src/Tools/Names.antt =====
-- src/tools/tool-registry.mjs: names in the registry lead to one tool.
use codex_compatible_mcp.Base.{
  ℕ, ◌+◌, ◌≤◌, ◌≡◌, ◌≢◌, refl, sym, ap, subst, inl, inr, true, false, ◌&&◌, none, some, [], ◌∷◌,
  length, filter, find?, All, if◌then◌else◌, ◌==◌, ok, arith, Bool-cases, Option-cases,
  Outcome-cases,
}
use codex_compatible_mcp.Base.Text.{Text, text_eq}
use codex_compatible_mcp.Base.Dict
use codex_compatible_mcp.Base.Dict.{Dict, IsDistinct}
use codex_compatible_mcp.Tools.Registry.{
  Surfaces, Discoverability, Definition, Tool, normalized_surfaces, normalized_discoverability,
  or_surfaces, key_of, new_tool, Registry, is_direct_named, check_wire_name, check_definition,
  check_surfaces, register, get, on_surface, matches, one_of, resolve, remove,
}

-- Each tool stands under its qualified name and is not both direct and deferred.
abbrev IsEntry : Text × Tool → Type 0
IsEntry e = (e.1.qualified_name ≡ e.0) × (e.1.surfaces.direct && e.1.surfaces.deferred ≡ false)

unfoldable pub direct_count : Text → Registry → ℕ
direct_count name tools = length (filter (is_direct_named name) (Dict.values tools))

-- A name is the wire name of at most one direct tool.
pub record IsWellFormed (tools : Registry) : Type 0 where
  pub distinct : IsDistinct tools
  pub entries : All IsEntry tools
  pub unique : (name : Text) → direct_count name tools ≤ 1

direct_count-set_new :
    (name key : Text) (t : Tool) (tools : Registry)
    → Dict.get key tools ≡ none
    → direct_count name (Dict.set key t tools)
      ≡ direct_count name tools + (if is_direct_named name t then 1 else 0)
unfolding direct_count Dict.values Dict.set Dict.get
direct_count-set_new name key t [] h = ground arith
direct_count-set_new name key t ((k, u) ∷ tools) h = elim (Bool-cases (k == key)) [
  | inl same ↦ absurd (ground arith)
  | inr other ↦ rw other (ground (arith, direct_count-set_new name key t tools))
]

entries-set_new :
    (key : Text) (t : Tool) (tools : Registry)
    → IsEntry (key, t)
    → Dict.get key tools ≡ none
    → All IsEntry tools
    → All IsEntry (Dict.set key t tools)
unfolding Dict.set Dict.get
entries-set_new key t [] new h rest = (new, tt)
entries-set_new key t ((k, u) ∷ tools) new h (here, rest) = elim (Bool-cases (k == key)) [
  | inl same ↦ absurd (ground arith)
  | inr other ↦ rw other (here, entries-set_new key t tools new (ground arith) rest)
]

-- No direct tool is found under a name that none has.
direct_count-zero :
    (name : Text) (tools : Registry)
    → find? (is_direct_named name) (Dict.values tools) ≡ none
    → direct_count name tools ≡ 0
unfolding direct_count Dict.values
direct_count-zero name [] h = refl
direct_count-zero name ((k, u) ∷ tools) h = ground (arith, direct_count-zero name tools)

entries-delete :
    (key : Text) (tools : Registry) → All IsEntry tools → All IsEntry (Dict.delete key tools)
unfolding Dict.delete
entries-delete key [] h = tt
entries-delete key ((k, u) ∷ tools) (here, rest) = elim (Bool-cases (k == key)) [
  | inl same ↦ rw same (entries-delete key tools rest)
  | inr other ↦ rw other (here, entries-delete key tools rest)
]

direct_count-delete_le :
    (name key : Text) (tools : Registry)
    → direct_count name (Dict.delete key tools) ≤ direct_count name tools
unfolding direct_count Dict.values Dict.delete
direct_count-delete_le name key [] = ground arith
direct_count-delete_le name key ((k, u) ∷ tools) =
    ground (arith, direct_count-delete_le name key tools)

-- What a definition that is let through was checked for.
record Checked (d : Definition) (tools : Registry) (c : Surfaces × Discoverability) : Type 0 where
  is_new : Dict.get (key_of d) tools ≡ none
  one_list : c.0.direct && c.0.deferred ≡ false
  wire_name : c.0.direct ≡ true → find? (is_direct_named d.name) (Dict.values tools) ≡ none

check_surfaces-ok :
    (d : Definition) (tools : Registry) (c : Surfaces × Discoverability)
    → check_surfaces d tools ≡ ok c
    → (c.0.direct && c.0.deferred ≡ false)
      × (c.0.direct && Dict.is_some (find? (is_direct_named d.name) (Dict.values tools)) ≡ false)
unfolding check_surfaces normalized_surfaces check_wire_name
check_surfaces-ok d tools c h =
    let s = or_surfaces d.surfaces in
    elim (Bool-cases (s.direct && s.deferred)) [
      | inl both ↦ absurd (ground (arith, both, h))
      | inr one ↦ elim (Outcome-cases (normalized_discoverability d.discoverability)) [
        | inr (e, bad) ↦ absurd (ground (arith, one, bad, h))
        | inl (found, good) ↦
            elim (Bool-cases
              (s.direct && Dict.is_some (find? (is_direct_named d.name) (Dict.values tools)))) [
                | inl taken ↦ absurd (ground (arith, one, good, taken, h))
                | inr free ↦
                    let is_c : c ≡ (s, found) = ground (arith, one, good, free, h) in
                    rw is_c (one, free)
              ]
      ]
    ]

check_definition-Checked :
    (d : Definition) (tools : Registry) (c : Surfaces × Discoverability)
    → check_definition d tools ≡ ok c
    → Checked d tools c
unfolding check_definition
check_definition-Checked d tools c h = elim (Bool-cases (Dict.has (key_of d) tools)) [
  | inl taken ↦ absurd (ground (arith, taken, h))
  | inr free ↦
      let rest : check_surfaces d tools ≡ ok c = ground (arith, free, h) in
      let ok_c = check_surfaces-ok d tools c rest in
      record {
        is_new = ground (arith, free);
        one_list = ok_c.0;
        wire_name = λ is_direct. ground (arith, ok_c.1, is_direct);
      }
]

record Registered (d : Definition) (tools tools' : Registry) (t : Tool) : Type 0 where
  checked : Surfaces × Discoverability
  passed : Checked d tools checked
  same_name : t.name ≡ d.name
  same_key : t.qualified_name ≡ key_of d
  same_surfaces : t.surfaces ≡ checked.0
  added : tools' ≡ Dict.set (key_of d) t tools

register-Registered :
    (d : Definition) (tools tools' : Registry) (t : Tool)
    → register d tools ≡ ok (tools', t)
    → Registered d tools tools' t
unfolding register new_tool key_of
register-Registered d tools tools' t h = elim (Outcome-cases (check_definition d tools)) [
  | inr (e, bad) ↦ absurd (ground (arith, bad, h))
  | inl (c, good) ↦
      let is_t : t ≡ new_tool d c.0 c.1 = ground (arith, good, h) in
      record {
        checked = c;
        passed = check_definition-Checked d tools c good;
        same_name = ap (λ u. u.name) is_t;
        same_key = ap (λ u. u.qualified_name) is_t;
        same_surfaces = ap (λ u. u.surfaces) is_t;
        added = ground (arith, good, h);
      }
]

-- The new tool is the only direct one of its name.
direct_count-register :
    (name key : Text) (t : Tool) (tools : Registry)
    → Dict.get key tools ≡ none
    → (t.surfaces.direct ≡ true → find? (is_direct_named t.name) (Dict.values tools) ≡ none)
    → direct_count name tools ≤ 1
    → direct_count name (Dict.set key t tools) ≤ 1
direct_count-register name key t tools new wire h = elim (Bool-cases (is_direct_named name t)) [
  | inr other ↦ ground (arith, direct_count-set_new name key t tools new, other)
  | inl is_named ↦
      let same : t.name ≡ name = ground (arith, text_eq.beq_iff t.name name) in
      let none_yet : find? (is_direct_named t.name) (Dict.values tools) ≡ none =
        wire (ground arith) in
      let zero_yet : direct_count name tools ≡ 0 =
        direct_count-zero name tools
          (subst (λ n. find? (is_direct_named n) (Dict.values tools) ≡ none) same none_yet) in
      ground (arith, direct_count-set_new name key t tools new, zero_yet, is_named)
]

-- A registration that succeeds keeps the names of a well-formed registry in order: each tool under its
-- qualified name, a wire name for one direct tool at most, and no tool both direct and deferred.
pub register-IsWellFormed :
    (d : Definition) (tools tools' : Registry) (t : Tool)
    → IsWellFormed tools
    → register d tools ≡ ok (tools', t)
    → IsWellFormed tools'
register-IsWellFormed d tools tools' t h e =
    let r = register-Registered d tools tools' t e in
    let k = r.passed in
    subst IsWellFormed (sym r.added) (record {
      distinct = Dict.set-IsDistinct (key_of d) t tools h.distinct;
      entries =
          entries-set_new (key_of d) t tools
            (
              r.same_key,
              subst (λ s. s.direct && s.deferred ≡ false) (sym r.same_surfaces) k.one_list,
            )
            k.is_new h.entries;
      unique = λ name.
          direct_count-register name (key_of d) t tools k.is_new
            (λ is_direct.
              subst (λ n. find? (is_direct_named n) (Dict.values tools) ≡ none) (sym r.same_name)
                (k.wire_name (subst (λ s. s.direct ≡ true) r.same_surfaces is_direct)))
            (h.unique name);
    })

-- A removal keeps the names of a well-formed registry in order.
pub remove-IsWellFormed :
    (identifier : Text) (tools : Registry)
    → IsWellFormed tools
    → IsWellFormed (remove identifier tools).0
unfolding remove
remove-IsWellFormed identifier tools h = elim (Option-cases (get identifier tools)) [
  | inl e ↦ rw (e, remove) h
  | inr (t, e) ↦
      rw (e, remove)
        (record {
          distinct = Dict.delete-IsDistinct t.qualified_name tools h.distinct;
          entries = entries-delete t.qualified_name tools h.entries;
          unique = λ name.
              omega (arith, direct_count-delete_le name t.qualified_name tools, h.unique name);
        })
]

-- A tool that was registered is found under its qualified name, and every other qualified name leads
-- where it led.
pub register-resolve :
    (d : Definition) (tools tools' : Registry) (t : Tool)
    → register d tools ≡ ok (tools', t)
    → (resolve t.qualified_name none tools' ≡ ok (some t))
      × ((key : Text) → key ≢ t.qualified_name → Dict.get key tools' ≡ Dict.get key tools)
unfolding resolve matches on_surface one_of
register-resolve d tools tools' t e =
    let r = register-Registered d tools tools' t e in
    let there : Dict.get t.qualified_name tools' ≡ some t =
      subst (λ k. Dict.get k tools' ≡ some t) (sym r.same_key)
        (rw r.added (Dict.get-set_self (key_of d) t tools)) in
    (
      rw (there, matches) refl,
      λ key other. rw r.added (
          ground (
            arith,
            Dict.get-set (key_of d) key t tools,
            text_eq.beq_iff (key_of d) key,
            r.same_key,
            other,
          )),
    )
