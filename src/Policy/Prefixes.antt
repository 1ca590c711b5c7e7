-- ===== src/Policy/Prefixes.antt =====
-- src/runtime/sandbox/shell-policy-parser.mjs: what validatePrefixTokens and tokenPrefixMatches
-- accept.
use codex_compatible_mcp.Base.{
  ◌≤◌, ◌<◌, ◌≡◌, refl, ap, subst, ◌∙◌, ◌↔◌, inl, inr, true, Option, none, some, List, [], ◌∷◌, ◌++◌,
  map, length, All, arith, Option-cases, length-append,
}
use codex_compatible_mcp.Base.Text.{Text, text_eq, text_beq_iff}
use codex_compatible_mcp.Base.Dict.{beq_self}
use codex_compatible_mcp.Policy.Shell.{
  Untyped, strings, validate_tokens, validate_prefix_tokens, tokens_agree, token_prefix_matches,
}

abbrev pub IsToken : Text → Type 0
IsToken t = (0 < length t) × (length t ≤ 4096)

-- Tokens that a rule may have.
abbrev pub IsRulePrefix : List Text → Type 0
IsRulePrefix ts = (0 < length ts) × (length ts ≤ 64) × All IsToken ts

-- The tokens begin with those of the prefix.
abbrev pub IsPrefix : List Text → List Text → Type 0
IsPrefix prefix tokens = (rest : List Text) × (tokens ≡ prefix ++ rest)

pub length-map {ℓ κ} :
    {A : Type ℓ} {B : Type κ} (f : A → B) (xs : List A) → length (map f xs) ≡ length xs
length-map f [] = refl
length-map f (x ∷ xs) = ground (arith, length-map f xs)

validate_tokens-strings :
    (ts : List Text) → All IsToken ts → validate_tokens (map some ts) ≡ some ts
unfolding validate_tokens
validate_tokens-strings [] h = refl
validate_tokens-strings (t ∷ ts) (h, hs) = ground (arith, validate_tokens-strings ts hs)

pub validate_prefix_tokens-strings :
    (ts : List Text) → IsRulePrefix ts → validate_prefix_tokens (strings ts) ≡ some ts
unfolding validate_prefix_tokens
validate_prefix_tokens-strings ts (pos, short, hs) =
    ground (arith, length-map {A = Text} {B = Option Text} some ts, validate_tokens-strings ts hs)

validate_tokens-All :
    (vs : List (Option Text)) (ts : List Text)
    → validate_tokens vs ≡ some ts
    → (vs ≡ map some ts) × All IsToken ts
unfolding validate_tokens
validate_tokens-All [] [] h = (refl, tt)
validate_tokens-All [] (t ∷ ts) h = absurd (cc)
validate_tokens-All (none ∷ vs) ts h = absurd (cc)
validate_tokens-All (some v ∷ vs) ts h = elim (Option-cases (validate_tokens vs)) [
  | inl bad ↦ absurd (ground (arith, bad))
  | inr (us, good) ↦
      let (same, valid) = validate_tokens-All vs us good in
      let read : (◌≡◌ {A = List Text} (v ∷ us) ts) × IsToken v = ground (arith, good) in
      subst (λ us. (some v ∷ vs ≡ map some us) × All IsToken us) read.0
        (ap (◌∷◌ (some v)) same, (read.1, valid))
]

pub validate_prefix_tokens-IsRulePrefix :
    (v : Untyped) (ts : List Text)
    → validate_prefix_tokens v ≡ some ts
    → (v ≡ strings ts) × IsRulePrefix ts
unfolding validate_prefix_tokens
validate_prefix_tokens-IsRulePrefix none ts h = absurd (cc)
validate_prefix_tokens-IsRulePrefix (some vs) ts h =
    let tokens : validate_tokens vs ≡ some ts = ground arith in
    let (same, valid) = validate_tokens-All vs ts tokens in
    let bounds : (0 < length vs) × (length vs ≤ 64) = ground arith in
    let len : length vs ≡ length ts = ap length same ∙ length-map some ts in
    (ap some same, (omega arith, omega arith, valid))

tokens_agree_sound : (es ts : List Text) → tokens_agree es ts ≡ true → IsPrefix es ts
unfolding tokens_agree
tokens_agree_sound [] ts h = (ts, refl)
tokens_agree_sound (e ∷ es) [] h = absurd (cc)
tokens_agree_sound (e ∷ es) (t ∷ ts) h =
    let both : (e ≡ t) × (tokens_agree es ts ≡ true) = ground (arith, text_beq_iff e t) in
    let (rest, split) = tokens_agree_sound es ts both.1 in (rest, cc)

tokens_agree_complete : (es rest : List Text) → tokens_agree es (es ++ rest) ≡ true
unfolding tokens_agree
tokens_agree_complete [] rest = refl
tokens_agree_complete (e ∷ es) rest = ground (arith, beq_self e, tokens_agree_complete es rest)

map-some-injective :
    (ts us : List Text) → ◌≡◌ {A = List (Option Text)} (map some ts) (map some us) → ts ≡ us
map-some-injective [] [] h = refl
map-some-injective [] (u ∷ us) h = absurd cc
map-some-injective (t ∷ ts) [] h = absurd cc
map-some-injective (t ∷ ts) (u ∷ us) h =
    let tails : ◌≡◌ {A = List (Option Text)} (map some ts) (map some us) = cc in
    let same = map-some-injective ts us tails in cc

token_prefix_matches_sound :
    (prefix tokens : List Text)
    → token_prefix_matches (strings prefix) tokens ≡ true
    → IsRulePrefix prefix × IsPrefix prefix tokens
unfolding token_prefix_matches
token_prefix_matches_sound prefix tokens h =
    elim (Option-cases (validate_prefix_tokens (strings prefix))) [
      | inl bad ↦ absurd (ground (arith, bad))
      | inr (ts, good) ↦
          let (same, valid) = validate_prefix_tokens-IsRulePrefix (strings prefix) ts good in
          let e : prefix ≡ ts = map-some-injective prefix ts (cc) in
          let agree : tokens_agree ts tokens ≡ true = ground (arith, good) in
          rw e (valid, tokens_agree_sound ts tokens agree)
    ]

token_prefix_matches_complete :
    (prefix rest : List Text)
    → IsRulePrefix prefix
    → token_prefix_matches (strings prefix) (prefix ++ rest) ≡ true
unfolding token_prefix_matches
token_prefix_matches_complete prefix rest h =
    rw (validate_prefix_tokens-strings prefix h)
      (ground (arith, length-append prefix rest, tokens_agree_complete prefix rest))

pub token_prefix_matches_iff :
    (prefix tokens : List Text)
    → (token_prefix_matches (strings prefix) tokens ≡ true)
      ↔ (IsRulePrefix prefix × IsPrefix prefix tokens)
token_prefix_matches_iff prefix tokens = (
  token_prefix_matches_sound prefix tokens,
  λ (valid, (rest, split)). rw split (token_prefix_matches_complete prefix rest valid),
)
