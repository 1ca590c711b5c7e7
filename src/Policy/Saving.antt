-- ===== src/Policy/Saving.antt =====
-- src/controller/exec-policy-store.mjs: rules in memory and in the state file.
use codex_compatible_mcp.Base.{
  ◌≡◌, refl, Bool, true, false, none, some, List, [], ◌∷◌, ◌++◌, map, find?, All, ok, err, arith,
}
use codex_compatible_mcp.Base.Text.{Text, text_beq}
use codex_compatible_mcp.Base.Dict.{beq_self}
use codex_compatible_mcp.Policy.Shell.{strings, tokens_eq}
use codex_compatible_mcp.Policy.Store.{
  Rule, ExecPolicyStore, write_failed, stored_rule, read_rule, read_rules, load, persist,
}
use codex_compatible_mcp.Policy.Grants.{
  has_prefix, new_rule, push_rule, allow_unless, allow_tokens, allow, close,
}
use codex_compatible_mcp.Policy.Prefixes.{IsRulePrefix, validate_prefix_tokens-strings}

abbrev pub IsNamed : Text → Type 0
IsNamed [] = ⊥
IsNamed (c ∷ s) = Unit

-- A rule has an id, and tokens that a rule may have.
abbrev pub IsRule : Rule → Type 0
IsRule r = IsNamed r.rule_id × IsRulePrefix r.prefix_tokens

read_rule-stored_rule :
    (id now : Text) (ts : List Text)
    → IsNamed id
    → IsRulePrefix ts
    → read_rule (stored_rule (new_rule id now ts)) ≡ some (new_rule id now ts)
unfolding read_rule text_beq
read_rule-stored_rule [] now ts named valid = absurd named
read_rule-stored_rule (c ∷ id) now ts named valid =
    rw (validate_prefix_tokens-strings ts valid) refl

read_rules-map : (rules : List Rule) → All IsRule rules → read_rules (map stored_rule rules) ≡ rules
unfolding read_rules
read_rules-map [] h = refl
read_rules-map (r ∷ rules) (h, hs) =
    rw
      (
        read_rule-stored_rule r.rule_id r.created_at r.prefix_tokens h.0 h.1,
        read_rules-map rules hs,
      )
      refl

-- A store closed with its file written and loaded again has the same rules, given that each of them
-- has an id and tokens that a rule may have.
pub load-close :
    (s : ExecPolicyStore)
    → s.has_file ≡ true
    → All IsRule s.rules
    → (load true (close true s).0.file).rules ≡ s.rules
unfolding load close persist
load-close s has valid = rw has (read_rules-map s.rules valid)

find?-snoc :
    (ts : List Text) (rules : List Rule) (id now : Text)
    → find? (has_prefix ts) rules ≡ none
    → find? (has_prefix ts) (rules ++ (new_rule id now ts ∷ [])) ≡ some (new_rule id now ts)
find?-snoc ts [] id now h = ground (arith, beq_self ts)
find?-snoc ts (r ∷ rules) id now h = ground (arith, find?-snoc ts rules id now)

-- A grant of tokens that no rule has, whose write to the state file fails, is answered with an error
-- and leaves the file as it was; the rule is in force nevertheless, and a second grant of the tokens
-- is answered with it and writes nothing.
pub allow_unsaved :
    (id now id' now' : Text) (writes : Bool) (ts : List Text) (s : ExecPolicyStore)
    → s.has_file ≡ true
    → IsRulePrefix ts
    → find? (has_prefix ts) s.rules ≡ none
    → let failed = allow false id now (strings ts) s in
      (failed.1 ≡ err write_failed)
      × (failed.0.file ≡ s.file)
      × (allow writes id' now' (strings ts) failed.0 ≡ (failed.0, ok (new_rule id now ts)))
unfolding allow allow_tokens allow_unless push_rule
allow_unsaved id now id' now' writes ts s has valid fresh =
    rw (validate_prefix_tokens-strings ts valid, fresh, has, find?-snoc ts s.rules id now fresh)
      (refl, refl, refl)
