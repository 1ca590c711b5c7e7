-- ===== src/Policy/Trims.antt =====
-- `trim` takes one stretch of a text, and where it stands.
use codex_compatible_mcp.Base.{
  ℕ, zero, suc, ◌+◌, ◌-◌, ◌≤◌, ◌<◌, ◌≡◌, refl, sym, ap, ◌∙◌, inl, inr, Bool, false, [], ◌∷◌, ◌++◌,
  if◌then◌else◌, length, take, drop, is_empty, arith, Bool-cases, length-append, length-take,
  length-drop, take-take_le, drop-drop, take-append_le, take-all,
}
use codex_compatible_mcp.Base.Text.{Text, is_space, drop_while, drop_end, trim}
use codex_compatible_mcp.Policy.Sources.{slice, leading, trailing, source_of}
use mathlib.Core.List.{reverse, reverse-append, reverse-reverse}

drop_while-suffix : (p : ℕ → Bool) (s : Text) → (front : Text) × (s ≡ front ++ drop_while p s)
unfolding drop_while
drop_while-suffix p [] = ([], refl)
drop_while-suffix p (c ∷ s) = elim (Bool-cases (p c)) [
  | inl skipped ↦
      let (front, split) = drop_while-suffix p s in
      rw (skipped, drop_while) (c ∷ front, ap (◌∷◌ c) split)
  | inr kept ↦ rw (kept, drop_while) ([], refl)
]

-- What a test takes from the front, under `drop_while` and `leading` alike.
drop_while_cons :
    (c : ℕ) (s : Text)
    → drop_while is_space (c ∷ s) ≡ (if is_space c then drop_while is_space s else c ∷ s)
unfolding drop_while
drop_while_cons c s = elim (Bool-cases (is_space c)) [
  | inl skipped ↦ rw (skipped, drop_while) refl
  | inr kept ↦ rw (kept, drop_while) refl
]

drop_while-nil : drop_while is_space [] ≡ []
unfolding drop_while
drop_while-nil = refl

drop_while-drop : (s : Text) → drop_while is_space s ≡ drop (leading s) s
unfolding leading
drop_while-drop [] = drop_while-nil
drop_while-drop (c ∷ s) = elim (Bool-cases (is_space c)) [
  | inl skipped ↦ drop_while_cons c s ∙ rw (skipped, leading) (drop_while-drop s)
  | inr kept ↦ drop_while_cons c s ∙ rw (kept, leading) refl
]

leading-append :
    (s t : Text) → is_empty (drop_while is_space s) ≡ false → leading (s ++ t) ≡ leading s
unfolding leading
leading-append [] t h = absurd (ground (arith, drop_while-nil))
leading-append (c ∷ s) t h = elim (Bool-cases (is_space c)) [
  | inl skipped ↦
      let there : is_empty (drop_while is_space s) ≡ false =
        ground (arith, drop_while_cons c s, skipped) in
      rw (skipped, leading) (ap suc (leading-append s t there))
  | inr kept ↦ rw (kept, leading) refl
]

take-nil : (n : ℕ) → ◌≡◌ {A = Text} (take n []) []
take-nil zero = refl
take-nil (suc n) = refl

drop-take : (k n : ℕ) (s : Text) → drop k (take n s) ≡ take (n - k) (drop k s)
drop-take zero n s = ap (λ m. take m s) (omega arith)
drop-take (suc k) zero s = let e : 0 - suc k ≡ 0 = omega arith in rw e refl
drop-take (suc k) (suc n) [] = sym (take-nil (suc n - suc k))
drop-take (suc k) (suc n) (c ∷ s) =
    let e : suc n - suc k ≡ n - k = omega arith in rw e (drop-take k n s)

drop_end-prefix : (s : Text) → (back : Text) × (s ≡ drop_end is_space s ++ back)
unfolding drop_end
drop_end-prefix s =
    let (front, split) = drop_while-suffix is_space (reverse s) in
    (
      reverse front,
      sym (reverse-reverse s)
          ∙ ap reverse split
          ∙ reverse-append front (drop_while is_space (reverse s)),
    )

trim-leading : (s : Text) → is_empty (trim s) ≡ false → leading (drop_end is_space s) ≡ leading s
unfolding trim
trim-leading s h =
    let (back, split) = drop_end-prefix s in
    sym (leading-append (drop_end is_space s) back h) ∙ ap leading (sym split)

pub nonempty-drop : (k : ℕ) (s : Text) → is_empty (drop k s) ≡ false → k < length s
nonempty-drop zero [] h = absurd cc
nonempty-drop zero (c ∷ s) h = omega arith
nonempty-drop (suc k) [] h = absurd cc
nonempty-drop (suc k) (c ∷ s) h = omega (arith, nonempty-drop k s h)

-- The trimmed text is the stretch between what is left out in front and behind.
pub trim-stretch :
    (s : Text)
    → is_empty (trim s) ≡ false
    → (leading s < length (drop_end is_space s))
      × (length (drop_end is_space s) ≤ length s)
      × (trim s ≡ take (length (drop_end is_space s) - leading s) (drop (leading s) s))
unfolding trim
trim-stretch s h =
    let kept = drop_end is_space s in
    let (back, split) = drop_end-prefix s in
    let same = trim-leading s h in
    let cut : trim s ≡ drop (leading s) kept = drop_while-drop kept ∙ ap (λ k. drop k kept) same in
    let len : length s ≡ length kept + length back = ap length split ∙ length-append kept back in
    let front : kept ≡ take (length kept) s =
      sym (take-all (length kept) kept (omega arith))
      ∙ sym (take-append_le (length kept) kept back (omega arith))
      ∙ ap (take (length kept)) (sym split) in
    (
      nonempty-drop (leading s) kept (ap is_empty (sym cut) ∙ h),
      omega arith,
      cut ∙ ap (drop (leading s)) front ∙ drop-take (leading s) (length kept) s,
    )

-- A segment that is not white space alone stands in the command at the place that it is given.
pub source_of-slice :
    (command : Text) (start end : ℕ)
    → start ≤ end
    → end ≤ length command
    → is_empty (trim (slice start end command)) ≡ false
    → let g = source_of start end (slice start end command) in
      (start ≤ g.start)
      × (g.start < g.end)
      × (g.end ≤ end)
      × (slice g.start g.end command ≡ g.source)
unfolding source_of trailing
source_of-slice command start end before within h =
    let raw = slice start end command in
    let kept = length (drop_end is_space raw) in
    let (room, small, cut) = trim-stretch raw h in
    let len : length raw ≡ end - start =
      ground (arith, length-take (end - start) (drop start command), length-drop start command) in
    let width : end - (length raw - kept) - (start + leading raw) ≡ kept - leading raw =
      omega arith in
    let before_it = leading raw in
    let stretch : trim raw ≡ take (kept - before_it) (drop (start + before_it) command) =
      cut
      ∙ ap (take (kept - before_it)) (drop-take before_it (end - start) (drop start command))
      ∙ take-take_le (kept - before_it) (end - start - before_it)
          (drop before_it (drop start command)) (omega arith)
      ∙ ap (take (kept - before_it)) (drop-drop start before_it command) in
    (
      omega arith,
      omega arith,
      omega arith,
      ap (λ n. take n (drop (start + before_it) command)) width ∙ sym stretch,
    )
