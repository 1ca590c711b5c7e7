-- ===== src/Process/Delivery.antt =====
-- src/runtime/process-manager.mjs: what successive polls of a session's output show.
use codex_compatible_mcp.Base.{
  ℕ, zero, suc, ◌+◌, ◌*◌, ◌≤◌, ◌≡◌, refl, sym, ap, subst, ◌∙◌, inl, inr, Bool, true, false, Option,
  none, some, List, [], ◌∷◌, ◌++◌, length, drop, get_elem?, set, leb, if◌then◌else◌, arith,
  length-append, Bool-cases,
}
use codex_compatible_mcp.Base.Text.{Text}
use codex_compatible_mcp.Process.Output.{
  Buffers, cap_captured_output, max_capture_bytes, max_chars, bound_output,
}
use codex_compatible_mcp.Process.Types.{Process, Manager}
use codex_compatible_mcp.Process.Manager.{change_record, append_output, delete_record}
use codex_compatible_mcp.Process.Sessions.{
  ProcessResult, raw_part, deliver, result_of, delivered, result_for,
}
use mathlib.Core.List.{append_assoc, append-nil}

-- What happens to a session between its start and its exit: output comes in, or a poll that asked for
-- what is new ends its wait, with the number of tokens that its caller allows.
pub data Use : Type 0 where
  receives : Text → Use
  polls : Option ℕ → Use

unfoldable pub received : List Use → Text
received [] = []
received (receives chunk ∷ us) = chunk ++ received us
received (polls tokens ∷ us) = received us

abbrev pub shown : Option ProcessResult → Text
shown none = []
shown (some r) = r.output

abbrev waits_in : Option Process → Text
waits_in none = []
waits_in (some p) = drop p.delivered_offset p.raw_output

-- What no poll has taken yet of the output of a record.
unfoldable pub waiting : ℕ → Manager → Text
waiting place m = waits_in (get_elem? m.records place)

module _ (buffers : Buffers) (place : ℕ) where
  -- The outputs that the polls answer with, one after the other.
  unfoldable pub polled : List Use → Manager → Text
  unfolding change_record append_output result_for
  polled [] m = []
  polled (receives chunk ∷ us) m = polled us (change_record place (append_output buffers chunk) m)
  polled (polls tokens ∷ us) m =
      shown (result_for tokens true place m).1 ++ polled us (result_for tokens true place m).0

  unfoldable pub after : List Use → Manager → Manager
  unfolding change_record append_output result_for
  after [] m = m
  after (receives chunk ∷ us) m = after us (change_record place (append_output buffers chunk) m)
  after (polls tokens ∷ us) m = after us (result_for tokens true place m).0

-- Each poll allows as many characters as wait then; `n` of them wait now.
abbrev pub IsShown : ℕ → List Use → Type 0
IsShown n [] = Unit
IsShown n (receives chunk ∷ us) = IsShown (n + length chunk) us
IsShown n (polls tokens ∷ us) = (n ≤ max_chars tokens) × IsShown 0 us

drop-length {ℓ} : {A : Type ℓ} (xs : List A) → drop (length xs) xs ≡ []
drop-length [] = refl
drop-length (x ∷ xs) = drop-length xs

drop-append {ℓ} :
    {A : Type ℓ} (k : ℕ) (xs ys : List A) → k ≤ length xs → drop k (xs ++ ys) ≡ drop k xs ++ ys
drop-append zero xs ys h = refl
drop-append (suc k) [] ys h = absurd (omega arith)
drop-append (suc k) (x ∷ xs) ys h = drop-append k xs ys (omega arith)

module _ (buffers : Buffers) (units : (s : Text) → length (buffers.encode s) ≤ 3 * length s) where
  append_output-small :
      (chunk : Text) (p : Process)
      → 3 * length (p.raw_output ++ chunk) ≤ max_capture_bytes
      → (append_output buffers chunk p).raw_output ≡ p.raw_output ++ chunk
  unfolding append_output cap_captured_output
  append_output-small chunk p small =
      let s = p.raw_output ++ chunk in
      let fits : leb (length (buffers.encode s)) max_capture_bytes ≡ true =
        ground (arith, units s) in
      rw fits refl

  get-set :
      (ps : List Process) (place : ℕ) (p q : Process)
      → get_elem? ps place ≡ some p
      → get_elem? (set ps place q) place ≡ some q
  get-set [] place p q e = absurd cc
  get-set (r ∷ ps) zero p q e = refl
  get-set (r ∷ ps) (suc place) p q e = get-set ps place p q e

  -- A record whose output is taken.
  record Taken (place : ℕ) (p : Process) (m : Manager) : Type 0 where
    left : Process
    there : get_elem? m.records place ≡ some left
    same : left.raw_output ≡ p.raw_output
    all_taken : left.delivered_offset ≡ length p.raw_output

  delivered-Taken :
      (place : ℕ) (p : Process) (m : Manager)
      → get_elem? m.records place ≡ some p
      → Taken place p (delivered place p m)
  unfolding delivered delete_record
  delivered-Taken place p m e =
      let once = get-set m.records place p (deliver p) e in
      let kept : Manager = record m { records = set m.records place (deliver p) } in
      let After : Bool → Type 0 =
        λ b. Taken place p (if b then delete_record place (deliver p) kept else kept) in
      elim (Bool-cases p.exited) [
        | inr running ↦
            subst After (sym running)
              (record { left = deliver p; there = once; same = refl; all_taken = refl })
        | inl gone ↦ subst After (sym gone) (record {
          left = record (deliver p) { has_timer = false };
          there =
              get-set (set m.records place (deliver p)) place (deliver p)
                (record (deliver p) { has_timer = false }) once;
          same = refl;
          all_taken = refl;
        })
      ]

  output-whole :
      (tokens : Option ℕ) (p : Process)
      → length (drop p.delivered_offset p.raw_output) ≤ max_chars tokens
      → (result_of tokens true p).output ≡ drop p.delivered_offset p.raw_output
  unfolding result_of raw_part bound_output
  output-whole tokens p small =
      let fits : leb (length (drop p.delivered_offset p.raw_output)) (max_chars tokens) ≡ true =
        ground arith in
      rw fits refl

  module _ (place : ℕ) where
    -- With an encoding of at most three bytes for a code unit, as long as three times the output is
    -- within what a record captures, and if each poll allows as many characters as wait when it is
    -- answered: what a process writes reaches the answers once and in order. The output that waited
    -- and all that came in is what the polls answered with and what waits now.
    pub polled_complete :
        (us : List Use) (m : Manager) (p : Process)
        → get_elem? m.records place ≡ some p
        → p.delivered_offset ≤ length p.raw_output
        → 3 * (length p.raw_output + length (received us)) ≤ max_capture_bytes
        → IsShown (length (drop p.delivered_offset p.raw_output)) us
        → polled buffers place us m ++ waiting place (after buffers place us m)
          ≡ waiting place m ++ received us
    unfolding polled received after waiting
    polled_complete [] m p e h small shows = sym (append-nil (waiting place m))
    polled_complete (receives chunk ∷ us) m p e h small shows =
        let q = append_output buffers chunk p in
        let m' = change_record place (append_output buffers chunk) m in
        let there : get_elem? m'.records place ≡ some q =
          rw (e, change_record) (get-set m.records place p q e) in
        let joined : q.raw_output ≡ p.raw_output ++ chunk =
          append_output-small chunk p
            (omega (arith, length-append p.raw_output chunk, length-append chunk (received us))) in
        let waits : drop q.delivered_offset q.raw_output
            ≡ drop p.delivered_offset p.raw_output ++ chunk =
          ap (λ t. drop p.delivered_offset t) joined
          ∙ drop-append p.delivered_offset p.raw_output chunk h in
        let rest =
          polled_complete us m' q there
            (subst (λ t. p.delivered_offset ≤ length t) (sym joined)
              (omega (arith, length-append p.raw_output chunk)))
            (subst (λ t. 3 * (length t + length (received us)) ≤ max_capture_bytes) (sym joined)
              (omega (arith, length-append p.raw_output chunk, length-append chunk (received us))))
            (subst (λ n. IsShown n us)
              (sym (ap length waits ∙ length-append (drop p.delivered_offset p.raw_output) chunk))
              shows) in
        rest
        ∙ ap (λ t. t ++ received us)
            (ap waits_in there ∙ waits ∙ ap (λ o. waits_in o ++ chunk) (sym e))
        ∙ append_assoc (waiting place m) chunk (received us)
    polled_complete (polls tokens ∷ us) m p e h small (room, shows) =
        let m' = delivered place p m in
        let answered : result_for tokens true place m ≡ (m', some (result_of tokens true p)) =
          rw (e, result_for) refl in
        let t = delivered-Taken place p m e in
        let none_left : drop t.left.delivered_offset t.left.raw_output ≡ [] =
          rw (t.same, t.all_taken) (drop-length p.raw_output) in
        let rest =
          polled_complete us m' t.left t.there (rw (t.same, t.all_taken) (omega arith))
            (rw t.same small) (subst (λ l. IsShown (length l) us) (sym none_left) shows) in
        let took : drop p.delivered_offset p.raw_output ≡ waiting place m = ap waits_in (sym e) in
        ap
          (λ (x : Manager × Option ProcessResult).
            (shown x.1 ++ polled buffers place us x.0)
            ++ waiting place (after buffers place us x.0))
          answered
        ∙ append_assoc (result_of tokens true p).output (polled buffers place us m')
            (waiting place (after buffers place us m'))
        ∙ ap (λ l. (result_of tokens true p).output ++ l)
            (rest ∙ ap (λ l. l ++ received us) (ap waits_in t.there ∙ none_left))
        ∙ ap (λ l. l ++ received us) (output-whole tokens p room ∙ took)
