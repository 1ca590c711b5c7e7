-- ===== src/Base/Text.antt =====
-- JavaScript strings as lists of UTF-16 code units, with the string methods that the code calls.
use Prim.Native.Char.{code}
use Prim.Native.Nat.{ℕ}
use Prim.Native.String.{String}
use mathlib.Core.Path.{◌≡◌}
use mathlib.Core.Logic.{◌↔◌}
use mathlib.Core.Bool.{Bool, true, false, ◌&&◌, ◌||◌}
use mathlib.Core.List.{List, [], ◌∷◌, ◌++◌, reverse}
use native.Mathlib.Omega.{arith}
use codex_compatible_mcp.Base.Tests.{Eq, nat_eq, nat_beq, leb, if◌then◌else◌}

abbrev pub Text : Type 0
Text = List ℕ

-- An ASCII literal.
abbrev pub text : String → Text
text String.[] = []
text (String.◌∷◌ c s) = code c ∷ text s

unfoldable pub text_beq : Text → Text → Bool
text_beq [] [] = true
text_beq [] (d ∷ t) = false
text_beq (c ∷ s) [] = false
text_beq (c ∷ s) (d ∷ t) = nat_beq c d && text_beq s t

pub text_beq_iff : (s t : Text) → (text_beq s t ≡ true) ↔ (s ≡ t)
unfolding text_beq
text_beq_iff [] [] = ground arith
text_beq_iff [] (d ∷ t) = ground arith
text_beq_iff (c ∷ s) [] = ground arith
text_beq_iff (c ∷ s) (d ∷ t) = ground (arith, text_beq_iff s t)

instance abbrev pub text_eq : Eq Text
text_eq = record { beq = text_beq; beq_iff = text_beq_iff }

unfoldable pub starts_with : Text → Text → Bool
starts_with [] s = true
starts_with (c ∷ p) [] = false
starts_with (c ∷ p) (d ∷ s) = nat_beq c d && starts_with p s

-- What `trim` and `\s` take for white space.
unfoldable pub is_space : ℕ → Bool
is_space c =
    (leb 0x9 c && leb c 0xd)
    || nat_beq c 0x20
    || nat_beq c 0xa0
    || nat_beq c 0x1680
    || (leb 0x2000 c && leb c 0x200a)
    || nat_beq c 0x2028
    || nat_beq c 0x2029
    || nat_beq c 0x202f
    || nat_beq c 0x205f
    || nat_beq c 0x3000
    || nat_beq c 0xfeff

-- Drops the code units at the front that pass the test.
unfoldable pub drop_while : (ℕ → Bool) → Text → Text
drop_while p [] = []
drop_while p (c ∷ s) = elim (p c) [ true ↦ drop_while p s | false ↦ c ∷ s ]

-- Drops the code units at the end that pass the test.
unfoldable pub drop_end : (ℕ → Bool) → Text → Text
unfolding drop_while
drop_end p s = reverse (drop_while p (reverse s))

unfoldable pub trim : Text → Text
unfolding is_space drop_while drop_end
trim s = drop_while is_space (drop_end is_space s)

-- `replace(/\r\n/g, '\n')`, then `replace(/\r/g, '\n')`: a carriage return, with the line feed
-- after it where there is one, becomes a line feed.
unfoldable pub lf_text : Text → Text
lf_text [] = []
lf_text (c ∷ []) = (if nat_beq c 13 then 10 else c) ∷ []
lf_text (c ∷ d ∷ s) = elim (nat_beq c 13) [
  | false ↦ c ∷ lf_text (d ∷ s)
  | true ↦ elim (nat_beq d 10) [ true ↦ 10 ∷ lf_text s | false ↦ 10 ∷ lf_text (d ∷ s) ]
]

abbrev pub cons_first : ℕ → List Text → List Text
cons_first c [] = (c ∷ []) ∷ []
cons_first c (l ∷ ls) = (c ∷ l) ∷ ls

-- `split('\n')`: always at least one piece.
unfoldable pub split_lines : Text → List Text
split_lines [] = [] ∷ []
split_lines (c ∷ s) = if nat_beq c 10 then [] ∷ split_lines s else cons_first c (split_lines s)

-- `join`.
unfoldable pub join : Text → List Text → Text
join sep [] = []
join sep (l ∷ []) = l
join sep (l ∷ m ∷ ls) = l ++ (sep ++ join sep (m ∷ ls))
