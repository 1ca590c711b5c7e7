-- ===== src/Policy/Exact.antt =====
-- src/controller/trusted-package-script-store.mjs: what a match finds once a script is trusted.
use codex_compatible_mcp.Base.{
  ◌≡◌, refl, sym, ap, subst, ◌∙◌, inl, inr, Bool, true, false, ◌||◌, Option, none, some, List, [],
  ◌∷◌, ◌++◌, any, filter, find?, Outcome, arith, Bool-cases,
}
use codex_compatible_mcp.Base.Text.{Text}
use codex_compatible_mcp.Base.Dict.{is_some}
use codex_compatible_mcp.Policy.Scripts.{
  parse_package_script_command, Binding, Key, Execution, key_of, ScriptRule, same_key, ScriptStore,
  ScriptError, runs_as,
}
use codex_compatible_mcp.Policy.Trust.{match, is_resolved, trusts, differs, trust_key, trust}
use codex_compatible_mcp.Policy.Trusted.{
  same_key_sound, same_key_self, match_rules-find?, IsUnique, any-differs, trusted_after,
  trust_key-rules, trust_key-trusted,
}

any-filter :
    (k : Key) (p : ScriptRule → Bool) (rs : List ScriptRule)
    → any (runs_as k) rs ≡ false
    → any (runs_as k) (filter p rs) ≡ false
any-filter k p [] h = refl
any-filter k p (r ∷ rs) h = ground (arith, any-filter k p rs)

filter-IsUnique :
    (p : ScriptRule → Bool) (rs : List ScriptRule) → IsUnique rs → IsUnique (filter p rs)
filter-IsUnique p [] u = tt
filter-IsUnique p (r ∷ rs) (alone, u) = elim (Bool-cases (p r)) [
  | inl kept ↦ rw kept (any-filter r.key p rs alone, filter-IsUnique p rs u)
  | inr gone ↦ rw gone (filter-IsUnique p rs u)
]

same_key_sym : (j k : Key) → same_key j k ≡ false → same_key k j ≡ false
same_key_sym j k other = elim (Bool-cases (same_key k j)) [
  | inr e ↦ e
  | inl same ↦
      let e : k ≡ j = same_key_sound k j same in
      absurd (ground (arith, ap (λ i. same_key j i) e ∙ same_key_self j, other))
]

any_end :
    (k : Key) (rs : List ScriptRule) (r : ScriptRule)
    → any (runs_as k) (rs ++ (r ∷ [])) ≡ (any (runs_as k) rs || runs_as k r)
any_end k [] r = ground arith
any_end k (t ∷ rs) r = ground (arith, any_end k rs r)

still-IsUnique :
    (rs : List ScriptRule) (r : ScriptRule)
    → IsUnique rs
    → any (runs_as r.key) rs ≡ false
    → IsUnique (rs ++ (r ∷ []))
still-IsUnique [] r u new = (refl, tt)
still-IsUnique (t ∷ rs) r (alone, u) new =
    let other : runs_as t.key r ≡ false = same_key_sym t.key r.key (ground arith) in
    (any_end t.key rs r ∙ rw (alone, other) refl, still-IsUnique rs r u (ground arith))

trust_key-IsUnique :
    (writes : Bool) (id now : Text) (k : Key) (b : Binding) (known : Option ScriptRule)
    (s : ScriptStore)
    → IsUnique s.rules
    → IsUnique (trust_key writes id now k b known s).0.rules
unfolding trust_key
trust_key-IsUnique writes id now k b (some r) s u = u
trust_key-IsUnique writes id now k b none s u =
    let new : ScriptRule = record { rule_id = id; key = k; package_script = b; created_at = now } in
    let kept = filter (differs k) s.rules in
    subst IsUnique (sym (trust_key-rules writes id now k b s))
      (still-IsUnique kept new (filter-IsUnique (differs k) s.rules u) (any-differs k s.rules))

match-find? :
    (y : Execution) (q : Binding) (s : ScriptStore)
    → (match y (some q) s).1 ≡ find? (trusts (key_of y) q) s.rules
unfolding match
match-find? y q s = match_rules-find? (key_of y) q s.rules s

-- With at most one rule for an execution: once a script that was resolved, with the digest of its
-- text, is trusted for an execution of a simple command, a match for that execution finds a rule
-- exactly if it is asked for the same script with the same digest; a match for an execution that
-- differs from it finds one exactly if it did before; and there is still at most one rule for an
-- execution. All this whether or not the rules could be written to the file.
pub trust-match :
    (writes : Bool) (id now : Text) (x y : Execution) (b q : Binding) (s : ScriptStore)
    → IsUnique s.rules
    → is_resolved b ≡ true
    → is_some (parse_package_script_command x.cmd) ≡ true
    → (is_some (match y (some q) (trust writes id now x (some b) s).0).1
        ≡ trusted_after (key_of x) (key_of y) b q (is_some (match y (some q) s).1))
      × IsUnique (trust writes id now x (some b) s).0.rules
unfolding trust
trust-match writes id now x y b q s u resolved simple =
    let known = find? (trusts (key_of x) b) s.rules in
    let after : trust writes id now x (some b) s ≡ trust_key writes id now (key_of x) b known s =
      rw (resolved, simple, trust) refl in
    (
      ap is_some (match-find? y q (trust writes id now x (some b) s).0)
          ∙ ap
              (λ (p : ScriptStore × Outcome ScriptError ScriptRule).
                is_some (find? (trusts (key_of y) q) p.0.rules))
              after
          ∙ trust_key-trusted writes id now (key_of x) (key_of y) b q known s u refl
          ∙ ap (λ o. trusted_after (key_of x) (key_of y) b q (is_some o)) (sym (match-find? y q s)),
      subst (λ (p : ScriptStore × Outcome ScriptError ScriptRule). IsUnique p.0.rules) (sym after)
          (trust_key-IsUnique writes id now (key_of x) b known s u),
    )
