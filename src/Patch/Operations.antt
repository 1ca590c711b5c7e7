-- ===== src/Patch/Operations.antt =====
-- The operations that the two loops at the end of a patch make of the states.
use codex_compatible_mcp.Base.{
  ◌≡◌, refl, ◌∙◌, inl, inr, not, ◌&&◌, Option, none, some, List, [], ◌∷◌, ◌++◌, arith, ◌==◌,
  if◌then◌else◌, Bool-cases, All,
}
use codex_compatible_mcp.Base.Text.{Text, text_eq, text_beq_iff}
use codex_compatible_mcp.Base.Dict
use codex_compatible_mcp.Patch.Files.{FileState, States, Op, write_file, unlink, writes, unlinks}
use codex_compatible_mcp.Patch.Separate.{op_path, first_on, Once}

-- Each state stands under its own path.
abbrev pub Own : States → Type 0
Own m = All (λ (e : Text × FileState). e.1.path ≡ e.0) m

pub entries-All :
    (P : Text → FileState → Type 0) (m : States)
    → Dict.IsDistinct m
    → ((p : Text) (s : FileState) → Dict.get p m ≡ some s → P p s)
    → All (λ (e : Text × FileState). P e.0 e.1) m
unfolding Dict.get
entries-All P [] distinct own = tt
entries-All P ((k, s) ∷ m) distinct own = (
  own k s (ground (arith, Dict.beq_self k)),
  entries-All P m distinct.1 (λ p t e. own p t (ground (arith, text_beq_iff k p))),
)

-- What the two loops do with the state of a path.
abbrev pub write_of : Option FileState → Option Op
write_of none = none
write_of (some s) = if s.dirty && s.exists then some (write_file s.path s.content) else none

abbrev pub unlink_of : Option FileState → Option Op
unlink_of none = none
unlink_of (some s) =
    if s.dirty && not s.exists && s.initial_exists then some (unlink s.path) else none

abbrev pub or_op : Option Op → Option Op → Option Op
or_op none o = o
or_op (some op) o = some op

pub first_on-writes :
    (m : States) (q : Text)
    → Dict.IsDistinct m
    → Own m
    → first_on q (writes (Dict.values m)) ≡ write_of (Dict.get q m)
unfolding writes Dict.values Dict.get
first_on-writes [] q distinct own = refl
first_on-writes ((k, s) ∷ m) q distinct own = elim (Bool-cases (k == q)) [
  | inl same ↦
      let at : k ≡ q = (text_beq_iff k q).0 same in
      let absent : Dict.get q m ≡ none = rw (← at) distinct.0 in
      ground (arith, first_on-writes m q distinct.1 own.1, own.0)
  | inr apart ↦ ground (arith, first_on-writes m q distinct.1 own.1, own.0)
]

pub first_on-unlinks :
    (m : States) (q : Text)
    → Dict.IsDistinct m
    → Own m
    → first_on q (unlinks (Dict.values m)) ≡ unlink_of (Dict.get q m)
unfolding unlinks Dict.values Dict.get
first_on-unlinks [] q distinct own = refl
first_on-unlinks ((k, s) ∷ m) q distinct own = elim (Bool-cases (k == q)) [
  | inl same ↦
      let at : k ≡ q = (text_beq_iff k q).0 same in
      let absent : Dict.get q m ≡ none = rw (← at) distinct.0 in
      ground (arith, first_on-unlinks m q distinct.1 own.1, own.0)
  | inr apart ↦ ground (arith, first_on-unlinks m q distinct.1 own.1, own.0)
]

pub first_on-append :
    (q : Text) (xs ys : List Op) → first_on q (xs ++ ys) ≡ or_op (first_on q xs) (first_on q ys)
first_on-append q [] ys = refl
first_on-append q (op ∷ xs) ys = elim (Bool-cases (op_path op == q)) [
  | inl same ↦ rw same refl
  | inr apart ↦ rw apart (first_on-append q xs ys)
]

pub Once-append :
    (xs ys : List Op)
    → Once xs
    → Once ys
    → ((q : Text) (op : Op) → first_on q xs ≡ some op → first_on q ys ≡ none)
    → Once (xs ++ ys)
Once-append [] ys hx hy apart = hy
Once-append (op ∷ xs) ys hx hy apart = (
  first_on-append (op_path op) xs ys
      ∙ rw (hx.0, apart (op_path op) op (rw (Dict.beq_self (op_path op)) refl)) refl,
  Once-append xs ys hx.1 hy (λ q x e. elim (Bool-cases (op_path op == q)) [
    | inl same ↦ apart q op (rw same refl)
    | inr other ↦ apart q x (rw (other, e) refl)
  ]),
)

pub writes-Once : (m : States) → Dict.IsDistinct m → Own m → Once (writes (Dict.values m))
unfolding writes Dict.values
writes-Once [] distinct own = tt
writes-Once ((k, s) ∷ m) distinct own =
    let once = writes-Once m distinct.1 own.1 in
    let alone : first_on s.path (writes (Dict.values m)) ≡ none =
      first_on-writes m s.path distinct.1 own.1 ∙ rw (own.0, distinct.0) refl in
    ground (arith, once, alone)

pub unlinks-Once : (m : States) → Dict.IsDistinct m → Own m → Once (unlinks (Dict.values m))
unfolding unlinks Dict.values
unlinks-Once [] distinct own = tt
unlinks-Once ((k, s) ∷ m) distinct own =
    let once = unlinks-Once m distinct.1 own.1 in
    let alone : first_on s.path (unlinks (Dict.values m)) ≡ none =
      first_on-unlinks m s.path distinct.1 own.1 ∙ rw (own.0, distinct.0) refl in
    ground (arith, once, alone)

pub written_or_unlinked :
    (o : Option FileState) (op : Op) → write_of o ≡ some op → unlink_of o ≡ none
written_or_unlinked none op e = refl
written_or_unlinked (some s) op e = ground arith
