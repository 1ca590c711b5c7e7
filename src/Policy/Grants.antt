-- ===== src/Policy/Grants.antt =====
-- src/controller/exec-policy-store.mjs: match, allow, list and close of the class ExecPolicyStore.
use codex_compatible_mcp.Base.{
  Bool, not, ◌&&◌, Option, none, some, List, [], ◌∷◌, ◌++◌, map, if◌then◌else◌, ◌==◌, find?,
  Outcome, ok, err,
}
use codex_compatible_mcp.Base.Text.{Text, text_eq}
use codex_compatible_mcp.Base.Dict
use codex_compatible_mcp.Base.Dict.{Dict}
use codex_compatible_mcp.Policy.Shell.{
  tokens_eq, Untyped, validate_prefix_tokens, ShellChoice, effective_shell,
}
use codex_compatible_mcp.Policy.Commands.{Segment, Command, parse_shell_command}
use codex_compatible_mcp.Policy.Store.{
  Rule, matched, created, ExecPolicyStore, PolicyError, invalid_prefix, write_failed, persist, emit,
  match_segments,
}

pub data Prefixes : Type 0 where
  one_prefix : List Text → Prefixes
  prefixes : List (List Text) → Prefixes

-- The answer to a command that the rules allow.
pub record Grant : Type 0 where
  pub rule_id : Text
  pub rule_ids : List Text
  pub prefix_tokens : Prefixes

-- `[...new Map(matches.map((rule) => [rule.rule_id, rule])).values()]`.
unfoldable pub by_id : List Rule → Dict Text Rule → Dict Text Rule
by_id [] m = m
by_id (r ∷ rs) m = by_id rs (Dict.set r.rule_id r m)

unfoldable pub unique_rules : List Rule → List Rule
unfolding by_id
unique_rules rs = Dict.values (by_id rs [])

unfoldable pub emit_matches : List Rule → ExecPolicyStore → ExecPolicyStore
emit_matches [] s = s
emit_matches (r ∷ rs) s = emit_matches rs (emit (matched r.rule_id r.prefix_tokens) s)

abbrev prefixes_of : Rule → List Rule → Prefixes
prefixes_of r [] = one_prefix r.prefix_tokens
prefixes_of r (q ∷ qs) = prefixes (map (λ (x : Rule). x.prefix_tokens) (r ∷ q ∷ qs))

-- The first of the rules gives the answer its id; there is one, as there is a segment.
abbrev pub grant_of : List Rule → Option Grant
grant_of [] = none
grant_of (r ∷ rs) = some (record {
  rule_id = r.rule_id;
  rule_ids = map (λ (x : Rule). x.rule_id) (r ∷ rs);
  prefix_tokens = prefixes_of r rs;
})

unfoldable pub grant_matches : Option (List Rule) → ExecPolicyStore → ExecPolicyStore × Option Grant
unfolding unique_rules emit_matches
grant_matches none s = (s, none)
grant_matches (some rs) s = (emit_matches (unique_rules rs) s, grant_of (unique_rules rs))

unfoldable pub match_segments_of : List Segment → ExecPolicyStore → ExecPolicyStore × Option Grant
unfolding match_segments grant_matches
match_segments_of [] s = (s, none)
match_segments_of (g ∷ gs) s = grant_matches (match_segments s (g ∷ gs)) s

unfoldable pub match_command : Option Command → ExecPolicyStore → ExecPolicyStore × Option Grant
unfolding match_segments_of
match_command none s = (s, none)
match_command (some parsed) s = match_segments_of parsed.segments s

abbrev pub or_parse : Option Command → Option Command → Option Command
or_parse none other = other
or_parse (some parsed) other = some parsed

-- `match`; `lower_script` is the native parser of PowerShell, and `parsed` a command that the
-- caller has parsed.
module _ (lower_script : Option Text → Option (List (List Text))) where
  unfoldable pub match :
      ShellChoice → Option Text → Option Command → ExecPolicyStore → ExecPolicyStore × Option Grant
  unfolding match_command parse_shell_command effective_shell
  match choice cmd parsed s =
      match_command
        (or_parse parsed (parse_shell_command lower_script cmd (effective_shell choice))) s

abbrev pub has_prefix : List Text → Rule → Bool
has_prefix tokens r = r.prefix_tokens == tokens

abbrev pub new_rule : (id now : Text) → List Text → Rule
new_rule id now tokens = record { rule_id = id; prefix_tokens = tokens; created_at = now }

-- The rule is in memory before the file is written.
unfoldable pub push_rule :
    Bool → Rule → ExecPolicyStore → ExecPolicyStore × Outcome PolicyError Rule
unfolding persist
push_rule writes rule s =
    let pushed : ExecPolicyStore = record s { rules = s.rules ++ (rule ∷ []) } in
    if s.has_file && not writes
    then (pushed, err write_failed)
    else (emit (created rule.rule_id rule.prefix_tokens) (persist pushed), ok rule)

unfoldable pub allow_unless :
    Option Rule → Bool → Rule → ExecPolicyStore → ExecPolicyStore × Outcome PolicyError Rule
unfolding push_rule
allow_unless (some existing) writes rule s = (s, ok existing)
allow_unless none writes rule s = push_rule writes rule s

-- `allow` on the tokens that its guard gives.
unfoldable pub allow_tokens :
    Option (List Text)
    → Bool
    → (id now : Text) → ExecPolicyStore
    → ExecPolicyStore × Outcome PolicyError Rule
unfolding allow_unless
allow_tokens none writes id now s = (s, err invalid_prefix)
allow_tokens (some tokens) writes id now s =
    allow_unless (find? (has_prefix tokens) s.rules) writes (new_rule id now tokens) s

unfoldable pub allow :
    Bool → (id now : Text) → Untyped → ExecPolicyStore → ExecPolicyStore × Outcome PolicyError Rule
unfolding validate_prefix_tokens allow_tokens
allow writes id now prefix_tokens s =
    allow_tokens (validate_prefix_tokens prefix_tokens) writes id now s

-- `list` gives copies of the rules.
unfoldable pub list : ExecPolicyStore → List Rule
list s = s.rules

unfoldable pub close : Bool → ExecPolicyStore → ExecPolicyStore × Outcome PolicyError (Unit {0})
unfolding persist
close writes s = if s.has_file && not writes then (s, err write_failed) else (persist s, ok tt)
