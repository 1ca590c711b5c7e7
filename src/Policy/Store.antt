-- ===== src/Policy/Store.antt =====
-- src/controller/exec-policy-store.mjs: the class ExecPolicyStore. `file` is what its state file
-- holds; whether a write to it succeeds is an argument.
use codex_compatible_mcp.Base.{
  ℕ, Bool, true, false, Option, none, some, List, [], ◌∷◌, ◌++◌, map, nat_beq, if◌then◌else◌, ◌==◌,
  find?,
}
use codex_compatible_mcp.Base.Text.{Text, text, text_eq}
use codex_compatible_mcp.Policy.Shell.{
  tokens_eq, Untyped, strings, validate_prefix_tokens, token_prefix_matches,
}
use codex_compatible_mcp.Policy.Commands.{Segment}

-- A rule whose decision is to allow; the class makes and loads no others.
pub record Rule : Type 0 where
  pub rule_id : Text
  pub prefix_tokens : List Text
  pub created_at : Text

-- An entry of the state file; a field is none where it is missing or of another type.
pub record StoredRule : Type 0 where
  pub rule_id : Option Text
  pub decision : Option Text
  pub created_at : Option Text
  pub prefix_tokens : Untyped

-- What the state file holds.
pub data Stored : Type 0 where
  absent : Stored
  unreadable : Stored
  version : ℕ → Option (List StoredRule) → Stored

pub data Event : Type 0 where
  load_failed : Event
  matched : Text → List Text → Event
  created : Text → List Text → Event

-- `audit` has the events that were emitted, in order.
pub record ExecPolicyStore : Type 0 where
  pub has_file : Bool
  pub rules : List Rule
  pub file : Stored
  pub audit : List Event

pub data PolicyError : Type 0 where
  invalid_prefix : PolicyError
  write_failed : PolicyError

abbrev pub state_version : ℕ
state_version = 3

abbrev rule_with : Option Text → Option Text → Option (List Text) → Option Rule
rule_with (some []) created_at tokens = none
rule_with (some (c ∷ id)) (some created_at) (some tokens) =
    some (record { rule_id = c ∷ id; prefix_tokens = tokens; created_at = created_at })
rule_with _ _ _ = none

abbrev is_allow : Option Text → Bool
is_allow none = false
is_allow (some d) = d == text "allow"

-- A rule of the file that the filter keeps.
unfoldable pub read_rule : StoredRule → Option Rule
unfolding validate_prefix_tokens
read_rule r =
    if is_allow r.decision
    then rule_with r.rule_id r.created_at (validate_prefix_tokens r.prefix_tokens)
    else none

abbrev cons_read : Option Rule → List Rule → List Rule
cons_read none rules = rules
cons_read (some r) rules = r ∷ rules

unfoldable pub read_rules : List StoredRule → List Rule
unfolding read_rule
read_rules [] = []
read_rules (r ∷ rs) = cons_read (read_rule r) (read_rules rs)

abbrev loaded : Stored → List Rule → List Event → ExecPolicyStore
loaded file rules audit = record { has_file = true; rules = rules; file = file; audit = audit }

abbrev load_rules : Stored → ℕ → Option (List StoredRule) → ExecPolicyStore
unfolding read_rules
load_rules file v none = loaded file [] (load_failed ∷ [])
load_rules file v (some rs) =
    if nat_beq v state_version
    then loaded file (read_rules rs) []
    else loaded file [] (load_failed ∷ [])

-- The constructor, with `#load`.
unfoldable pub load : Bool → Stored → ExecPolicyStore
unfolding read_rules
load false file = record { has_file = false; rules = []; file = file; audit = [] }
load true absent = loaded absent [] []
load true unreadable = loaded unreadable [] (load_failed ∷ [])
load true (version v rs) = load_rules (version v rs) v rs

abbrev pub stored_rule : Rule → StoredRule
stored_rule r = record {
  rule_id = some r.rule_id;
  decision = some (text "allow");
  created_at = some r.created_at;
  prefix_tokens = strings r.prefix_tokens;
}

-- `#persist`, where the write succeeds.
unfoldable pub persist : ExecPolicyStore → ExecPolicyStore
persist s =
    if s.has_file
    then record s { file = version state_version (some (map stored_rule s.rules)) }
    else s

abbrev pub emit : Event → ExecPolicyStore → ExecPolicyStore
emit e s = record s { audit = s.audit ++ (e ∷ []) }

abbrev pub covers : List Text → Rule → Bool
unfolding token_prefix_matches
covers tokens r = token_prefix_matches (strings r.prefix_tokens) tokens

unfoldable pub rule_for : List Text → List Rule → Option Rule
unfolding token_prefix_matches
rule_for tokens rules = find? (covers tokens) rules

abbrev emit_match : Bool → Option Rule → ExecPolicyStore → ExecPolicyStore
emit_match loud none s = s
emit_match loud (some r) s = if loud then emit (matched r.rule_id r.prefix_tokens) s else s

unfoldable pub match_segment : List Text → Bool → ExecPolicyStore → ExecPolicyStore × Option Rule
unfolding rule_for
match_segment tokens loud s = (emit_match loud (rule_for tokens s.rules) s, rule_for tokens s.rules)

abbrev pub cons_both {ℓ} : {A : Type ℓ} → Option A → Option (List A) → Option (List A)
cons_both (some a) (some rest) = some (a ∷ rest)
cons_both none rest = none
cons_both (some a) none = none

-- The loop over the segments: the rule of each, or none.
unfoldable pub match_segments : ExecPolicyStore → List Segment → Option (List Rule)
unfolding match_segment
match_segments s [] = some []
match_segments s (g ∷ gs) = cons_both (match_segment g.tokens false s).1 (match_segments s gs)
