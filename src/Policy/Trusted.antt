-- ===== src/Policy/Trusted.antt =====
-- src/controller/trusted-package-script-store.mjs: which scripts are trusted for an execution.
use codex_compatible_mcp.Base.{
  ◌≡◌, refl, ap, subst, ◌∙◌, ◌↔◌, inl, inr, Bool, true, false, ◌||◌, Option, none, some, List, [],
  ◌∷◌, ◌++◌, if◌then◌else◌, any, filter, find?, arith, Bool-cases,
}
use codex_compatible_mcp.Base.Text.{Text, text_beq_iff}
use codex_compatible_mcp.Base.Dict.{is_some}
use codex_compatible_mcp.Policy.Scripts.{
  Binding, Key, ScriptRule, option_beq, bool_beq, same_key, same_binding, ScriptStore,
  rule_invalidated, ScriptError, emit, persist, runs_as,
}
use codex_compatible_mcp.Policy.Trust.{match_rules, trusts, differs, created, trust_key}

option_beq_iff : (s t : Option Text) → (option_beq s t ≡ true) ↔ (s ≡ t)
option_beq_iff none none = ground arith
option_beq_iff none (some t) = ground arith
option_beq_iff (some s) none = ground arith
option_beq_iff (some s) (some t) = ground (arith, text_beq_iff s t)

bool_beq_iff : (a b : Bool) → (bool_beq a b ≡ true) ↔ (a ≡ b)
bool_beq_iff true true = ground arith
bool_beq_iff true false = ground arith
bool_beq_iff false true = ground arith
bool_beq_iff false false = ground arith

pub same_key_sound : (j k : Key) → same_key j k ≡ true → j ≡ k
unfolding same_key
same_key_sound j k h =
    let a : j.environment_id ≡ k.environment_id =
      ground (arith, text_beq_iff j.environment_id k.environment_id) in
    let b : j.workspace_id ≡ k.workspace_id =
      ground (arith, text_beq_iff j.workspace_id k.workspace_id) in
    let c : j.workspace_root ≡ k.workspace_root =
      ground (arith, text_beq_iff j.workspace_root k.workspace_root) in
    let d : j.command ≡ k.command = ground (arith, text_beq_iff j.command k.command) in
    let e : j.workdir ≡ k.workdir = ground (arith, option_beq_iff j.workdir k.workdir) in
    let f : j.shell ≡ k.shell = ground (arith, option_beq_iff j.shell k.shell) in
    let g : j.tty ≡ k.tty = ground (arith, bool_beq_iff j.tty k.tty) in
    λ i. record {
      environment_id = a i;
      workspace_id = b i;
      workspace_root = c i;
      command = d i;
      workdir = e i;
      shell = f i;
      tty = g i;
    }

pub same_key_self : (k : Key) → same_key k k ≡ true
unfolding same_key
same_key_self k = ground (
  arith,
  (text_beq_iff k.environment_id k.environment_id).1 refl,
  (text_beq_iff k.workspace_id k.workspace_id).1 refl,
  (text_beq_iff k.workspace_root k.workspace_root).1 refl,
  (text_beq_iff k.command k.command).1 refl,
  (option_beq_iff k.workdir k.workdir).1 refl,
  (option_beq_iff k.shell k.shell).1 refl,
  (bool_beq_iff k.tty k.tty).1 refl,
)

same_binding_sound : (a b : Binding) → same_binding a b ≡ true → a ≡ b
unfolding same_binding
same_binding_sound a b h =
    let m : a.package_manager ≡ b.package_manager =
      ground (arith, text_beq_iff a.package_manager b.package_manager) in
    let s : a.script ≡ b.script = ground (arith, text_beq_iff a.script b.script) in
    let d : a.script_sha256 ≡ b.script_sha256 =
      ground (arith, text_beq_iff a.script_sha256 b.script_sha256) in
    λ i. record { package_manager = m i; script = s i; script_sha256 = d i }

pub match_rules-find? :
    (k : Key) (b : Binding) (rs : List ScriptRule) (s : ScriptStore)
    → (match_rules k b rs s).1 ≡ find? (trusts k b) rs
unfolding match_rules
match_rules-find? k b [] s = refl
match_rules-find? k b (r ∷ rs) s = elim (Bool-cases (runs_as k r)) [
  | inr other ↦ rw (other, match_rules) (match_rules-find? k b rs s)
  | inl same ↦ elim (Bool-cases (same_binding r.package_script b)) [
    | inl bound ↦ rw (same, bound, match_rules) refl
    | inr changed ↦
        rw (same, changed, match_rules)
          (match_rules-find? k b rs (emit (rule_invalidated r.rule_id) s))
  ]
]

-- At most one rule for an execution.
abbrev pub IsUnique : List ScriptRule → Type 0
IsUnique [] = Unit
IsUnique (r ∷ rs) = (any (runs_as r.key) rs ≡ false) × IsUnique rs

find?-absent :
    (k : Key) (q : Binding) (rs : List ScriptRule)
    → any (runs_as k) rs ≡ false
    → find? (trusts k q) rs ≡ none
find?-absent k q [] h = refl
find?-absent k q (r ∷ rs) h = ground (arith, find?-absent k q rs)

find?-runs_as :
    (k : Key) (b : Binding) (rs : List ScriptRule) (r : ScriptRule)
    → find? (trusts k b) rs ≡ some r
    → any (runs_as k) rs ≡ true
find?-runs_as k b [] r h = absurd cc
find?-runs_as k b (t ∷ rs) r h = elim (Bool-cases (runs_as k t)) [
  | inl same ↦ rw same refl
  | inr other ↦ rw other (find?-runs_as k b rs r (ground (arith, other)))
]

-- Where one rule is for the execution, it alone says which script is trusted.
find?-unique :
    (k : Key) (b q : Binding) (rs : List ScriptRule) (r : ScriptRule)
    → IsUnique rs
    → find? (trusts k b) rs ≡ some r
    → is_some (find? (trusts k q) rs) ≡ same_binding b q
find?-unique k b q [] r u h = absurd cc
find?-unique k b q (t ∷ rs) r (alone, u) h = elim (Bool-cases (runs_as k t)) [
  | inr other ↦ rw other (find?-unique k b q rs r u (ground (arith, other)))
  | inl same ↦
      let key : t.key ≡ k = same_key_sound t.key k same in
      let none_else : any (runs_as k) rs ≡ false =
        subst (λ k. any (runs_as k) rs ≡ false) key alone in
      elim (Bool-cases (same_binding t.package_script b)) [
        | inl bound ↦
            let e : t.package_script ≡ b = same_binding_sound t.package_script b bound in
            let gone = find?-absent k q rs none_else in rw (same, e) (ground (arith, gone))
        | inr changed ↦
            let found = find?-runs_as k b rs r (ground (arith, same, changed)) in
            absurd (ground (arith, none_else, found))
      ]
]

find?-differs :
    (k j : Key) (q : Binding) (rs : List ScriptRule)
    → same_key k j ≡ false
    → find? (trusts j q) (filter (differs k) rs) ≡ find? (trusts j q) rs
find?-differs k j q [] h = refl
find?-differs k j q (r ∷ rs) h = elim (Bool-cases (runs_as k r)) [
  | inl same ↦
      let key : r.key ≡ k = same_key_sound r.key k same in
      let other : runs_as j r ≡ false = ap (λ i. same_key i j) key ∙ h in
      rw (same, other) (find?-differs k j q rs h)
  | inr kept ↦ rw kept (ground (arith, find?-differs k j q rs h))
]

pub any-differs : (k : Key) (rs : List ScriptRule) → any (runs_as k) (filter (differs k) rs) ≡ false
any-differs k [] = refl
any-differs k (r ∷ rs) = ground (arith, any-differs k rs)

find?-end :
    (p : ScriptRule → Bool) (rs : List ScriptRule) (r : ScriptRule)
    → is_some (find? p (rs ++ (r ∷ []))) ≡ (is_some (find? p rs) || p r)
find?-end p [] r = ground arith
find?-end p (t ∷ rs) r = ground (arith, find?-end p rs r)

-- What is trusted for an execution after a script was trusted for one.
abbrev pub trusted_after : (trusted asked : Key) → (b q : Binding) → Bool → Bool
trusted_after k j b q before = if same_key k j then same_binding b q else before

pub persist-rules : (writes : Bool) (s : ScriptStore) → (persist writes s).0.rules ≡ s.rules
unfolding persist
persist-rules true s = elim (Bool-cases s.has_file) [
  | inl e ↦ rw (e, persist) refl
  | inr e ↦ rw (e, persist) refl
]
persist-rules false s = elim (Bool-cases s.has_file) [
  | inl e ↦ rw (e, persist) refl
  | inr e ↦ rw (e, persist) refl
]

created-rules :
    (r : ScriptRule) (x : ScriptStore × Option ScriptError) → (created r x).0.rules ≡ x.0.rules
created-rules r (s, none) = refl
created-rules r (s, some e) = refl

-- The rules in memory where a new one is made, written to the file or not.
pub trust_key-rules :
    (writes : Bool) (id now : Text) (k : Key) (b : Binding) (s : ScriptStore)
    → let new : ScriptRule = record {
      rule_id = id;
      key = k;
      package_script = b;
      created_at = now;
    } in
      (trust_key writes id now k b none s).0.rules ≡ filter (differs k) s.rules ++ (new ∷ [])
unfolding trust_key
trust_key-rules writes id now k b s =
    let new : ScriptRule = record { rule_id = id; key = k; package_script = b; created_at = now } in
    let kept : ScriptStore = record s { rules = filter (differs k) s.rules ++ (new ∷ []) } in
    created-rules new (persist writes kept) ∙ persist-rules writes kept

pub trust_key-trusted :
    (writes : Bool) (id now : Text) (k j : Key) (b q : Binding) (known : Option ScriptRule)
    (s : ScriptStore)
    → IsUnique s.rules
    → find? (trusts k b) s.rules ≡ known
    → is_some (find? (trusts j q) (trust_key writes id now k b known s).0.rules)
      ≡ trusted_after k j b q (is_some (find? (trusts j q) s.rules))
unfolding trust_key
trust_key-trusted writes id now k j b q (some r) s u known = elim (Bool-cases (same_key k j)) [
  | inr other ↦ rw other refl
  | inl same ↦
      let e : k ≡ j = same_key_sound k j same in
      rw same (
        subst (λ i. is_some (find? (trusts i q) s.rules) ≡ same_binding b q) e
          (find?-unique k b q s.rules r u known))
]
trust_key-trusted writes id now k j b q none s u known =
    let new : ScriptRule = record { rule_id = id; key = k; package_script = b; created_at = now } in
    let kept = filter (differs k) s.rules in
    ap (λ rs. is_some (find? (trusts j q) rs)) (trust_key-rules writes id now k b s)
    ∙ find?-end (trusts j q) kept new
    ∙ elim (Bool-cases (same_key k j)) [
      | inr other ↦ rw other (ground (arith, find?-differs k j q s.rules other))
      | inl same ↦
          let e : k ≡ j = same_key_sound k j same in
          let gone : find? (trusts j q) kept ≡ none =
            find?-absent j q kept
              (subst (λ i. any (runs_as i) kept ≡ false) e (any-differs k s.rules)) in
          rw (same, gone) refl
    ]
