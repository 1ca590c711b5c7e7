-- ===== src/Policy/Allowing.antt =====
-- src/controller/exec-policy-store.mjs: what a new rule changes.
use codex_compatible_mcp.Base.{
  ◌≡◌, refl, ◌↔◌, ◌⊎◌, inl, inr, Bool, true, false, Option, none, some, List, [], ◌∷◌, ◌++◌, find?,
  All, arith, Bool-cases,
}
use codex_compatible_mcp.Base.Text.{Text}
use codex_compatible_mcp.Policy.Shell.{strings, tokens_beq_iff}
use codex_compatible_mcp.Policy.Store.{Rule, ExecPolicyStore, persist}
use codex_compatible_mcp.Policy.Grants.{
  has_prefix, new_rule, push_rule, allow_unless, allow_tokens, allow,
}
use codex_compatible_mcp.Policy.Prefixes.{IsRulePrefix, IsPrefix, validate_prefix_tokens-strings}
use codex_compatible_mcp.Policy.Matching.{Any, Covers}

Any-snoc {ℓ} :
    {A : Type ℓ} (P : A → Type 0) (xs : List A) (x : A) → Any P (xs ++ (x ∷ [])) ↔ (Any P xs ⊎ P x)
Any-snoc P [] x = ground arith
Any-snoc P (y ∷ ys) x = ground (arith, Any-snoc P ys x)

All-snoc {ℓ κ} :
    {A : Type ℓ} (P : A → Type κ) (xs : List A) (x : A) → All P xs → P x → All P (xs ++ (x ∷ []))
All-snoc P [] x h here = (here, tt)
All-snoc P (y ∷ ys) x (h, hs) here = (h, All-snoc P ys x hs here)

abbrev HasPrefix : List Text → Rule → Type 0
HasPrefix ts r = r.prefix_tokens ≡ ts

find?-Any :
    (ts : List Text) (rules : List Rule) (r : Rule)
    → find? (has_prefix ts) rules ≡ some r
    → Any (HasPrefix ts) rules
find?-Any ts [] r h = absurd cc
find?-Any ts (q ∷ rules) r h = elim (Bool-cases (has_prefix ts q)) [
  | inl same ↦ inl ((tokens_beq_iff q.prefix_tokens ts).0 same)
  | inr other ↦ inr (find?-Any ts rules r (ground (arith, other)))
]

Any-Covers :
    (ts tokens : List Text) (rules : List Rule)
    → IsRulePrefix ts
    → IsPrefix ts tokens
    → Any (HasPrefix ts) rules
    → Any (Covers tokens) rules
Any-Covers ts tokens [] valid fits nowhere = absurd nowhere
Any-Covers ts tokens (r ∷ rules) valid fits (inl same) = inl (rw same (valid, fits))
Any-Covers ts tokens (r ∷ rules) valid fits (inr there) =
    inr (Any-Covers ts tokens rules valid fits there)

push_rule-rules :
    (writes : Bool) (r : Rule) (s : ExecPolicyStore)
    → (push_rule writes r s).0.rules ≡ s.rules ++ (r ∷ [])
unfolding push_rule persist
push_rule-rules true r s = ground arith
push_rule-rules false r s = ground arith

allow_unless-Covers :
    (writes : Bool) (id now : Text) (ts tokens : List Text) (s : ExecPolicyStore)
    (known : Option Rule)
    → find? (has_prefix ts) s.rules ≡ known
    → IsRulePrefix ts
    → Any (Covers tokens) (allow_unless known writes (new_rule id now ts) s).0.rules
      ↔ (Any (Covers tokens) s.rules ⊎ IsPrefix ts tokens)
unfolding allow_unless
allow_unless-Covers writes id now ts tokens s none h valid =
    rw (push_rule-rules writes (new_rule id now ts) s)
      (ground (arith, Any-snoc (Covers tokens) s.rules (new_rule id now ts)))
allow_unless-Covers writes id now ts tokens s (some r) h valid = (
  inl,
  λ e. elim e [
    | inl before ↦ before
    | inr fits ↦ Any-Covers ts tokens s.rules valid fits (find?-Any ts s.rules r h)
  ],
)

-- A grant of tokens that a rule may have covers, whether it is saved or not, the commands that were
-- covered before and those that begin with the tokens, and no others.
pub allow-Covers :
    (writes : Bool) (id now : Text) (ts tokens : List Text) (s : ExecPolicyStore)
    → IsRulePrefix ts
    → Any (Covers tokens) (allow writes id now (strings ts) s).0.rules
      ↔ (Any (Covers tokens) s.rules ⊎ IsPrefix ts tokens)
unfolding allow allow_tokens
allow-Covers writes id now ts tokens s valid =
    rw (validate_prefix_tokens-strings ts valid)
      (allow_unless-Covers writes id now ts tokens s (find? (has_prefix ts) s.rules) refl valid)
