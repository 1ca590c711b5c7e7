-- ===== src/Policy/Matching.antt =====
-- src/controller/exec-policy-store.mjs: which commands the rules allow.
use codex_compatible_mcp.Base.{
  ◌≡◌, refl, sym, ◌∙◌, ◌↔◌, ◌⊎◌, inl, inr, true, false, Option, none, some, List, [], ◌∷◌, is_empty,
  All, arith, Bool-cases,
}
use codex_compatible_mcp.Base.Text.{Text, text_eq}
use codex_compatible_mcp.Base.Dict
use codex_compatible_mcp.Base.Dict.{Dict, is_some}
use codex_compatible_mcp.Policy.Shell.{ShellChoice, effective_shell}
use codex_compatible_mcp.Policy.Commands.{Segment, Command, parse_shell_command}
use codex_compatible_mcp.Policy.Store.{
  Rule, ExecPolicyStore, covers, rule_for, match_segment, match_segments, cons_both,
}
use codex_compatible_mcp.Policy.Grants.{
  by_id, unique_rules, grant_matches, match_segments_of, match_command, or_parse, grant_of, match,
}
use codex_compatible_mcp.Policy.Prefixes.{IsRulePrefix, IsPrefix, token_prefix_matches_iff}

-- Some element has the property.
abbrev pub Any {ℓ} : {A : Type ℓ} → (A → Type 0) → List A → Type 0
Any P [] = ⊥
Any P (x ∷ xs) = P x ⊎ Any P xs

-- The tokens begin with those of the rule.
abbrev pub Covers : List Text → Rule → Type 0
Covers tokens r = IsRulePrefix r.prefix_tokens × IsPrefix r.prefix_tokens tokens

abbrev pub Covered : List Rule → Segment → Type 0
Covered rules g = Any (Covers g.tokens) rules

abbrev pub IsCovered : List Rule → List Segment → Type 0
IsCovered rules [] = ⊥
IsCovered rules (g ∷ gs) = All (Covered rules) (g ∷ gs)

-- The command could be read, has a segment, and each of its segments is covered by a rule.
abbrev pub IsAllowed : List Rule → Option Command → Type 0
IsAllowed rules none = ⊥
IsAllowed rules (some parsed) = IsCovered rules parsed.segments

pub rule_for_sound :
    (tokens : List Text) (rules : List Rule)
    → is_some (rule_for tokens rules) ≡ true
    → Any (Covers tokens) rules
unfolding rule_for
rule_for_sound tokens [] h = absurd cc
rule_for_sound tokens (r ∷ rules) h = elim (Bool-cases (covers tokens r)) [
  | inl fits ↦ inl ((token_prefix_matches_iff r.prefix_tokens tokens).0 fits)
  | inr differs ↦ inr (rule_for_sound tokens rules (ground (arith, differs)))
]

pub rule_for_complete :
    (tokens : List Text) (rules : List Rule)
    → Any (Covers tokens) rules
    → is_some (rule_for tokens rules) ≡ true
unfolding rule_for
rule_for_complete tokens [] nowhere = absurd nowhere
rule_for_complete tokens (r ∷ rules) (inl here) =
    ground (arith, (token_prefix_matches_iff r.prefix_tokens tokens).1 here)
rule_for_complete tokens (r ∷ rules) (inr there) =
    ground (arith, rule_for_complete tokens rules there)

match_segments_sound :
    (s : ExecPolicyStore) (gs : List Segment)
    → is_some (match_segments s gs) ≡ true
    → All (Covered s.rules) gs
unfolding match_segments match_segment
match_segments_sound s [] h = tt
match_segments_sound s (g ∷ gs) h =
    let both : (is_some (rule_for g.tokens s.rules) ≡ true)
        × (is_some (match_segments s gs) ≡ true) =
      ground arith in
    (rule_for_sound g.tokens s.rules both.0, match_segments_sound s gs both.1)

match_segments_complete :
    (s : ExecPolicyStore) (gs : List Segment)
    → All (Covered s.rules) gs
    → is_some (match_segments s gs) ≡ true
unfolding match_segments match_segment
match_segments_complete s [] h = refl
match_segments_complete s (g ∷ gs) (h, hs) =
    ground (arith, rule_for_complete g.tokens s.rules h, match_segments_complete s gs hs)

set_nonempty :
    (k : Text) (r : Rule) (m : Dict Text Rule) → is_empty (Dict.values (Dict.set k r m)) ≡ false
unfolding Dict.set Dict.values
set_nonempty k r [] = refl
set_nonempty k r ((j, q) ∷ m) = ground arith

by_id_nonempty :
    (rs : List Rule) (m : Dict Text Rule)
    → is_empty (Dict.values m) ≡ false
    → is_empty (Dict.values (by_id rs m)) ≡ false
unfolding by_id
by_id_nonempty [] m h = h
by_id_nonempty (r ∷ rs) m h =
    by_id_nonempty rs (Dict.set r.rule_id r m) (set_nonempty r.rule_id r m)

grant_of_nonempty : (rs : List Rule) → is_empty rs ≡ false → is_some (grant_of rs) ≡ true
grant_of_nonempty [] h = absurd cc
grant_of_nonempty (r ∷ rs) h = refl

grant_matches-is_some :
    (r : Rule) (rs : List Rule) (s : ExecPolicyStore)
    → is_some (grant_matches (some (r ∷ rs)) s).1 ≡ true
unfolding grant_matches unique_rules by_id
grant_matches-is_some r rs s =
    grant_of_nonempty (unique_rules (r ∷ rs))
      (by_id_nonempty rs (Dict.set r.rule_id r []) (set_nonempty r.rule_id r []))

grant_matches-cons_both :
    (r : Option Rule) (rest : Option (List Rule)) (s : ExecPolicyStore)
    → is_some (grant_matches (cons_both r rest) s).1 ≡ is_some (cons_both r rest)
unfolding grant_matches
grant_matches-cons_both none rest s = refl
grant_matches-cons_both (some r) none s = refl
grant_matches-cons_both (some r) (some rs) s = grant_matches-is_some r rs s

match_segments_of-is_some :
    (gs : List Segment) (s : ExecPolicyStore)
    → (is_some (match_segments_of gs s).1 ≡ true) ↔ IsCovered s.rules gs
unfolding match_segments_of match_segments match_segment
match_segments_of-is_some [] s = ground arith
match_segments_of-is_some (g ∷ gs) s =
    let same = grant_matches-cons_both (rule_for g.tokens s.rules) (match_segments s gs) s in
    (
      λ h. match_segments_sound s (g ∷ gs) (sym same ∙ h),
      λ h. same ∙ match_segments_complete s (g ∷ gs) h,
    )

match_command-is_some :
    (parsed : Option Command) (s : ExecPolicyStore)
    → (is_some (match_command parsed s).1 ≡ true) ↔ IsAllowed s.rules parsed
unfolding match_command
match_command-is_some none s = ground arith
match_command-is_some (some parsed) s = match_segments_of-is_some parsed.segments s

-- Whatever the native parser gives: a command is allowed exactly if it could be read, has a segment,
-- and each of its segments begins with the tokens of a rule, which are 1 to 64 tokens of 1 to 4096
-- characters; the command is the one that the caller has parsed, or else the one that the text of the
-- call gives under its shell.
pub match-IsAllowed :
    (lower_script : Option Text → Option (List (List Text)))
    → (choice : ShellChoice) (cmd : Option Text) (parsed : Option Command) (s : ExecPolicyStore)
    → (is_some (match lower_script choice cmd parsed s).1 ≡ true)
      ↔ IsAllowed s.rules
          (or_parse parsed (parse_shell_command lower_script cmd (effective_shell choice)))
unfolding match
match-IsAllowed lower_script choice cmd parsed s =
    match_command-is_some
      (or_parse parsed (parse_shell_command lower_script cmd (effective_shell choice))) s
