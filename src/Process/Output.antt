-- ===== src/Process/Output.antt =====
-- src/runtime/output-budget.mjs: what of a command's output is kept and shown.
use codex_compatible_mcp.Base.{
  ℕ, zero, suc, ◌+◌, ◌-◌, ◌*◌, ◌/◌, ◌%◌, ◌≤◌, ◌<◌, max, ◌≡◌, sym, ap, subst, ◌∙◌, Bool, true, false,
  Option, none, some, List, [], ◌∷◌, ◌++◌, length, take, drop, leb, nat_beq, if◌then◌else◌, arith,
  Bool-cases, inl, inr, take-append-drop, length-take, length-drop, drop-drop,
}
use codex_compatible_mcp.Base.Text.{Text, text}

abbrev pub default_max_output_tokens : ℕ
default_max_output_tokens = 10000

abbrev pub max_capture_bytes : ℕ
max_capture_bytes = 1048576

abbrev approx_chars_per_token : ℕ
approx_chars_per_token = 4

unfoldable pub approx_token_count : Text → ℕ
approx_token_count s = (length s + 3) / approx_chars_per_token

-- The decimal digits of a number; each step divides by ten, so fuel above the number is enough.
digits_onto : ℕ → ℕ → Text → Text
digits_onto zero n rest = rest
digits_onto (suc fuel) n rest =
    let more = (48 + n % 10) ∷ rest in
    let high = digits_onto fuel (n / 10) more in if nat_beq (n / 10) 0 then more else high

unfoldable pub decimal : ℕ → Text
unfolding digits_onto
decimal n = digits_onto (suc n) n []

-- Buffer.from and toString, with the utf8 encoding.
pub record Buffers : Type 0 where
  pub encode : Text → List ℕ
  pub decode : List ℕ → Text

pub record Captured : Type 0 where
  pub text : Text
  pub omitted_bytes : ℕ

unfoldable pub cap_captured_output : Buffers → Text → ℕ → Captured
unfolding decimal
cap_captured_output buffers source max_bytes =
    let bytes = length (buffers.encode source) in
    let budget = max_bytes / 2 in
    let head = buffers.decode (take budget (buffers.encode source)) in
    let tail = buffers.decode (drop (bytes - budget) (buffers.encode source)) in
    let omitted = (bytes - length (buffers.encode head)) - length (buffers.encode tail) in
    if leb bytes max_bytes then record { text = source; omitted_bytes = 0 } else record {
      text = head ++ (text "\n... " ++ (decimal omitted ++ (text " bytes omitted ...\n" ++ tail)));
      omitted_bytes = omitted;
    }

pub record Bounded : Type 0 where
  pub output : Text
  pub truncated : Bool
  pub original_token_count : ℕ

-- `maxOutputTokens || DEFAULT_MAX_OUTPUT_TOKENS`, in characters.
unfoldable pub max_chars : Option ℕ → ℕ
max_chars none = max 256 (default_max_output_tokens * approx_chars_per_token)
max_chars (some tokens) =
    max 256
      ((if nat_beq tokens 0 then default_max_output_tokens else tokens) * approx_chars_per_token)

unfoldable pub truncation_marker : ℕ → Text
unfolding decimal
truncation_marker omitted = text "\n... " ++ (decimal omitted ++ text " chars truncated ...\n")

-- `Math.floor(maxChars * 0.6)` is `maxChars * 3 / 5` for the integers that doubles represent.
unfoldable pub head_chars : ℕ → ℕ
head_chars chars = chars * 3 / 5

unfoldable pub bound_output : Text → Option ℕ → Bounded
unfolding max_chars head_chars truncation_marker approx_token_count
bound_output source max_output_tokens =
    let limit = max_chars max_output_tokens in
    let head = head_chars limit in
    let tail = limit - head in
    let omitted = (length source - head) - tail in
    let count = approx_token_count source in
    if leb (length source) limit
    then record { output = source; truncated = false; original_token_count = count }
    else record {
      output =
          take head source ++ (truncation_marker omitted ++ drop (length source - tail) source);
      truncated = true;
      original_token_count = count;
    }

pub record Cut (source output : Text) (limit : ℕ) : Type 0 where
  pub head : Text
  pub middle : Text
  pub tail : Text
  pub source_parts : source ≡ head ++ (middle ++ tail)
  pub output_parts : output ≡ head ++ (truncation_marker (length middle) ++ tail)
  pub kept : length head + length tail ≡ limit
  pub some_omitted : 0 < length middle

head_chars_le : (n : ℕ) → head_chars n ≤ n
unfolding head_chars
head_chars_le n = omega arith

module _ (source : Text) (head tail : ℕ) (h : head + tail < length source) where
  abbrev omitted : ℕ
  omitted = (length source - head) - tail

  length_middle : length (take omitted (drop head source)) ≡ omitted
  length_middle = omega (arith, length-take omitted (drop head source), length-drop head source)

  source-eq :
      source
      ≡ take head source ++ (take omitted (drop head source) ++ drop (length source - tail) source)
  source-eq =
      sym (take-append-drop head source)
      ∙ ap (λ r. take head source ++ r)
          (sym (take-append-drop omitted (drop head source))
            ∙ ap (λ r. take omitted (drop head source) ++ r)
                (drop-drop head omitted source ∙ ap (λ n. drop n source) (omega arith)))

  cut :
      Cut source
        (take head source ++ (truncation_marker omitted ++ drop (length source - tail) source))
        (head + tail)
  cut = record {
    head = take head source;
    middle = take omitted (drop head source);
    tail = drop (length source - tail) source;
    source_parts = source-eq;
    output_parts =
        ap (λ n. take head source ++ (truncation_marker n ++ drop (length source - tail) source))
          (sym length_middle);
    kept = omega (arith, length-take head source, length-drop (length source - tail) source);
    some_omitted = omega (arith, length_middle);
  }

-- Output that is truncated loses one stretch of the middle, and the marker in its place says how
-- long the stretch was; what is kept has the number of characters that the caller allows.
pub bound_output-Cut :
    (source : Text) (tokens : Option ℕ)
    → (bound_output source tokens).truncated ≡ true
    → Cut source (bound_output source tokens).output (max_chars tokens)
unfolding bound_output
bound_output-Cut source tokens h = elim (Bool-cases (leb (length source) (max_chars tokens))) [
  | inl fits ↦ absurd (ground arith)
  | inr long ↦
      let limit = max_chars tokens in
      let head = head_chars limit in
      let sum : head + (limit - head) ≡ limit = omega (arith, head_chars_le limit) in
      let wide : head + (limit - head) < length source = ground (arith, sum, long) in
      let output : Text =
        take head source
        ++ (truncation_marker ((length source - head) - (limit - head))
            ++ drop (length source - (limit - head)) source) in
      rw long (subst (λ n. Cut source output n) sum (cut source head (limit - head) wide))
]
