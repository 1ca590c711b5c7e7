-- ===== src/Tools/Resolve.antt =====
-- src/tools/tool-registry.mjs: what `resolve` finds.
use codex_compatible_mcp.Base.{
  ◌≤◌, ◌≡◌, ◌≢◌, ◌⊎◌, refl, sym, subst, ◌∙◌, inl, inr, Bool, true, ◌&&◌, none, some, List, [], ◌∷◌,
  length, filter, ◌==◌, ok, err, arith, Bool-cases, Option-cases,
}
use codex_compatible_mcp.Base.Text.{Text, text_eq}
use codex_compatible_mcp.Base.Dict
use codex_compatible_mcp.Base.Dict.{Dict, IsDistinct}
use codex_compatible_mcp.Tools.Registry.{
  ToolSurface, direct, Tool, RegistryError, Registry, named, is_on_surface, on_surface, matches,
  one_of, resolve,
}
use codex_compatible_mcp.Tools.Names.{IsWellFormed, direct_count}

module _ {A : Type 0} where
  filter-filter :
      (p q : A → Bool) (xs : List A) → filter p (filter q xs) ≡ filter (λ x. p x && q x) xs
  filter-filter p q [] = refl
  filter-filter p q (x ∷ xs) = ground (arith, filter-filter p q xs)

  filter-singleton : (p : A → Bool) (xs : List A) {x : A} → filter p xs ≡ x ∷ [] → p x ≡ true
  filter-singleton p [] h = absurd (ground arith)
  filter-singleton p (y ∷ xs) {x} h = elim (Bool-cases (p y)) [
    | inl kept ↦ let same : y ≡ x = ground (arith, kept, h) in subst (λ z. p z ≡ true) same kept
    | inr gone ↦ filter-singleton p xs (ground (arith, gone, h))
  ]

one_of-short : (ts : List Tool) → length ts ≤ 1 → (e : RegistryError) → one_of ts ≢ err e
unfolding one_of
one_of-short [] h e bad = absurd (ground arith)
one_of-short (t ∷ []) h e bad = absurd (ground arith)
one_of-short (t ∷ u ∷ ts) h e bad = absurd (omega arith)

one_of-found : (ts : List Tool) {t : Tool} → one_of ts ≡ ok (some t) → ts ≡ t ∷ []
unfolding one_of
one_of-found [] h = absurd (ground arith)
one_of-found (u ∷ []) h = ground arith
one_of-found (u ∷ v ∷ ts) h = absurd (ground arith)

matches-key :
    (identifier : Text) (tools : Registry) {t : Tool}
    → Dict.get identifier tools ≡ some t
    → matches identifier tools ≡ t ∷ []
unfolding matches
matches-key identifier tools h = rw (h, matches) refl

matches-name :
    (identifier : Text) (tools : Registry)
    → Dict.get identifier tools ≡ none
    → matches identifier tools ≡ named identifier tools
unfolding matches
matches-name identifier tools h = rw (h, matches) refl

filter-length_le : (p : Tool → Bool) (t : Tool) → length (filter p (t ∷ [])) ≤ 1
filter-length_le p t = ground arith

-- In a well-formed registry no name is ambiguous on the direct surface, a wire name or a qualified one.
pub resolve-direct :
    (identifier : Text) (tools : Registry) (e : RegistryError)
    → IsWellFormed tools
    → resolve identifier (some direct) tools ≢ err e
unfolding resolve on_surface is_on_surface direct_count named
resolve-direct identifier tools e h bad =
    let on : List Tool → List Tool = λ ts. filter (is_on_surface direct) ts in
    elim (Option-cases (Dict.get identifier tools)) [
      | inr (t, there) ↦
          one_of-short (on (t ∷ [])) (filter-length_le (is_on_surface direct) t) e
            (subst (λ ts. one_of (on ts) ≡ err e) (matches-key identifier tools there) bad)
      | inl gone ↦
          one_of-short (on (named identifier tools))
            (subst (λ ts. length ts ≤ 1)
              (sym (
                filter-filter (is_on_surface direct) (λ t. t.name == identifier)
                  (Dict.values tools)))
              (h.unique identifier))
            e (subst (λ ts. one_of (on ts) ≡ err e) (matches-name identifier tools gone) bad)
    ]

singleton-eq : {A : Type 0} (p : A → Bool) (x : A) {y : A} → filter p (x ∷ []) ≡ y ∷ [] → x ≡ y
singleton-eq p x h = ground arith

-- A tool that `resolve` gives for a surface is on it, and it is the one registered under the name as a
-- qualified name, or the name leads to no tool as a qualified name and is the tool's own.
pub resolve-found :
    (identifier : Text) (surface : ToolSurface) (tools : Registry) (t : Tool)
    → resolve identifier (some surface) tools ≡ ok (some t)
    → (is_on_surface surface t ≡ true)
      × ((Dict.get identifier tools ≡ some t)
          ⊎ ((Dict.get identifier tools ≡ none) × (t.name ≡ identifier)))
unfolding resolve on_surface named
resolve-found identifier surface tools t h =
    let on : List Tool → List Tool = λ ts. filter (is_on_surface surface) ts in
    let one : on (matches identifier tools) ≡ t ∷ [] =
      one_of-found (on (matches identifier tools)) h in
    elim (Option-cases (Dict.get identifier tools)) [
      | inr (u, there) ↦
          let single : on (u ∷ []) ≡ t ∷ [] =
            subst (λ ts. on ts ≡ t ∷ []) (matches-key identifier tools there) one in
          (
            filter-singleton (is_on_surface surface) (u ∷ []) single,
            inl (
                subst (λ v. Dict.get identifier tools ≡ some v)
                  (singleton-eq (is_on_surface surface) u single) there),
          )
      | inl gone ↦
          let single : on (named identifier tools) ≡ t ∷ [] =
            subst (λ ts. on ts ≡ t ∷ []) (matches-name identifier tools gone) one in
          let both =
            filter-singleton (λ t. is_on_surface surface t && (t.name == identifier))
              (Dict.values tools)
              (sym (
                  filter-filter (is_on_surface surface) (λ t. t.name == identifier)
                    (Dict.values tools))
                ∙ single) in
          (ground arith, inr (gone, ground (arith, both, text_eq.beq_iff t.name identifier)))
    ]
