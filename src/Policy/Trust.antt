-- ===== src/Policy/Trust.antt =====
-- src/controller/trusted-package-script-store.mjs: match, trust, revoke, list and close of the class
-- TrustedPackageScriptStore.
use codex_compatible_mcp.Base.{
  ℕ, ◌-◌, Bool, not, ◌&&◌, ◌||◌, Option, none, some, List, [], ◌∷◌, ◌++◌, nat_beq, if◌then◌else◌,
  length, filter, find?, is_empty, Outcome, ok, err,
}
use codex_compatible_mcp.Base.Text.{Text}
use codex_compatible_mcp.Base.Dict.{is_some}
use codex_compatible_mcp.Policy.Shell.{effective_shell, normalize_workdir}
use codex_compatible_mcp.Policy.Scripts.{
  normalize_command, parse_package_script_command, Binding, Key, Execution, key_of, ScriptRule,
  same_key, same_binding, rule_invalidated, rule_matched, rule_created, ScriptStore, ScriptError,
  unresolved_script, compound_command, persist, emit, runs_as,
}

-- The loop of `match` over the rules, for an execution's key and a script.
unfoldable pub match_rules :
    Key → Binding → List ScriptRule → ScriptStore → ScriptStore × Option ScriptRule
unfolding same_key same_binding
match_rules k b [] s = (s, none)
match_rules k b (r ∷ rs) s =
    let skipped = match_rules k b rs s in
    let changed = match_rules k b rs (emit (rule_invalidated r.rule_id) s) in
    if not (runs_as k r)
    then skipped
    else if not (same_binding r.package_script b)
    then changed
    else (emit (rule_matched r.rule_id) s, some r)

unfoldable pub match : Execution → Option Binding → ScriptStore → ScriptStore × Option ScriptRule
unfolding match_rules normalize_command normalize_workdir effective_shell
match x none s = (s, none)
match x (some b) s = match_rules (key_of x) b s.rules s

abbrev pub is_resolved : Binding → Bool
is_resolved b = not (is_empty b.package_manager || is_empty b.script || is_empty b.script_sha256)

abbrev pub trusts : Key → Binding → ScriptRule → Bool
trusts k b r = runs_as k r && same_binding r.package_script b

abbrev pub differs : Key → ScriptRule → Bool
differs k r = not (runs_as k r)

abbrev pub created :
    ScriptRule → ScriptStore × Option ScriptError → ScriptStore × Outcome ScriptError ScriptRule
created r (s, none) = (emit (rule_created r.rule_id) s, ok r)
created r (s, some e) = (s, err e)

-- A new rule takes the place of all rules for the execution. The JSON texts of two bindings are equal
-- where their fields are, since a binding is made of these three in this order.
unfoldable pub trust_key :
    Bool
    → (id now : Text) → Key
    → Binding
    → Option ScriptRule
    → ScriptStore
    → ScriptStore × Outcome ScriptError ScriptRule
unfolding same_key persist
trust_key writes id now k b (some existing) s = (s, ok existing)
trust_key writes id now k b none s =
    let r : ScriptRule = record { rule_id = id; key = k; package_script = b; created_at = now } in
    let kept : ScriptStore = record s { rules = filter (differs k) s.rules ++ (r ∷ []) } in
    created r (persist writes kept)

abbrev trust_simple :
    Bool
    → (id now : Text) → Execution
    → Binding
    → ScriptStore
    → ScriptStore × Outcome ScriptError ScriptRule
unfolding same_key same_binding trust_key normalize_command normalize_workdir effective_shell
trust_simple writes id now x b s =
    trust_key writes id now (key_of x) b (find? (trusts (key_of x) b) s.rules) s

unfoldable pub trust :
    Bool
    → (id now : Text) → Execution
    → Option Binding
    → ScriptStore
    → ScriptStore × Outcome ScriptError ScriptRule
unfolding parse_package_script_command trust_key same_key same_binding normalize_command
    normalize_workdir effective_shell
trust writes id now x none s = (s, err unresolved_script)
trust writes id now x (some b) s =
    if not (is_resolved b)
    then (s, err unresolved_script)
    else if not (is_some (parse_package_script_command x.cmd))
    then (s, err compound_command)
    else trust_simple writes id now x b s

abbrev answered {ℓ} :
    {A : Type ℓ} → A → ScriptStore × Option ScriptError → ScriptStore × Outcome ScriptError A
answered a (s, none) = (s, ok a)
answered a (s, some e) = (s, err e)

unfoldable pub revoke : Bool → Execution → ScriptStore → ScriptStore × Outcome ScriptError ℕ
unfolding same_key persist normalize_command normalize_workdir effective_shell
revoke writes x s =
    let kept = filter (differs (key_of x)) s.rules in
    let left : ScriptStore = record s { rules = kept } in
    let removed = length s.rules - length kept in
    answered removed (if nat_beq removed 0 then (left, none) else persist writes left)

-- `list` gives copies of the rules.
unfoldable pub list : ScriptStore → List ScriptRule
list s = s.rules

unfoldable pub close : Bool → ScriptStore → ScriptStore × Outcome ScriptError (Unit {0})
unfolding persist
close writes s = answered tt (persist writes s)
