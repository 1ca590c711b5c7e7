-- ===== src/Patch/Staging.antt =====
-- The table of states stands for the disk that the hunks so far would have left.
use mathlib.Core.Path.{fun_ext}
use codex_compatible_mcp.Base.{
  ◌≡◌, refl, sym, ◌∙◌, ap, subst, inl, inr, Bool, true, false, Option, none, some, [], arith, ◌==◌,
  if◌then◌else◌, Bool-cases, Option-cases, Outcome, ok, err,
}
use codex_compatible_mcp.Base.Text.{Text, text_eq, text_beq_iff}
use codex_compatible_mcp.Base.Dict
use codex_compatible_mcp.Patch.Types.{PatchError, not_a_file, binary, io_error}
use codex_compatible_mcp.Patch.Files.{
  Entry, missing, other, nul_bytes, file, unreadable, Disk, FileState, States, load_state,
  fresh_state, put, with_content, removed,
}
use codex_compatible_mcp.Patch.Sequence.{write, read}

abbrev pub entry_of : FileState → Entry
entry_of s = if s.exists then file s.content else missing

abbrev pub overlay_at : Entry → Option FileState → Entry
overlay_at entry none = entry
overlay_at entry (some s) = entry_of s

-- The disk as the states have it.
unfoldable pub overlay : Disk → States → Disk
overlay disk states p = overlay_at (disk p) (Dict.get p states)

abbrev pub is_file : Entry → Bool
is_file (file content) = true
is_file _ = false

-- A state belongs to its path, knows whether there was a file, and differs from the disk only if
-- it is dirty.
pub record Faithful (disk : Disk) (p : Text) (s : FileState) : Type 0 where
  pub own_path : s.path ≡ p
  pub none_before : s.initial_exists ≡ false → disk p ≡ missing
  pub some_before : s.initial_exists ≡ true → is_file (disk p) ≡ true
  pub clean : s.dirty ≡ false → disk p ≡ entry_of s

pub record Good (disk : Disk) (states : States) : Type 0 where
  pub distinct : Dict.IsDistinct states
  pub faithful : (p : Text) (s : FileState) → Dict.get p states ≡ some s → Faithful disk p s

overlay-set :
    (disk : Disk) (states : States) (p : Text) (s : FileState)
    → overlay disk (Dict.set p s states) ≡ write (overlay disk states) p (entry_of s)
unfolding overlay
overlay-set disk states p s = fun_ext λ q. ground (arith, Dict.get-set p q s states)

set-Good :
    (disk : Disk) (states : States) (p : Text) (s : FileState)
    → Good disk states
    → Faithful disk p s
    → Good disk (Dict.set p s states)
set-Good disk states p s good f = record {
  distinct = Dict.set-IsDistinct p s states good.distinct;
  faithful = λ q t e. elim (Bool-cases (p == q)) [
    | inl same ↦
        let at : p ≡ q = (text_beq_iff p q).0 same in
        let is : s ≡ t = ground (arith, Dict.get-set p q s states) in rw (← is, ← at) f
    | inr differs ↦ good.faithful q t (ground (arith, Dict.get-set p q s states))
  ];
}

abbrev text_of : FileState → Option Text
text_of s = if s.exists then some s.content else none

-- What `loadState` returns: the state under the path, with the table still standing for the same disk.
pub record Loaded (disk : Disk) (states : States) (p : Text) (s : FileState) (states' : States)
    : Type 0 where
  pub loads : load_state disk states p ≡ ok (s, states')
  pub reads : read p (overlay disk states p) ≡ ok (text_of s)
  pub same : overlay disk states' ≡ overlay disk states
  pub good : Good disk states'
  pub found : Dict.get p states' ≡ some s
  pub keeps : (q : Text) (t : FileState) → Dict.get q states ≡ some t → Dict.get q states' ≡ some t

pub data Loading (disk : Disk) (states : States) (p : Text) : Type 0 where
  loaded :
      (s : FileState) (states' : States) → Loaded disk states p s states' → Loading disk states p
  failed :
      (e : PatchError)
      → load_state disk states p ≡ err e
      → read p (overlay disk states p) ≡ err e
      → Loading disk states p

write-same : (disk : Disk) (p : Text) (entry : Entry) → disk p ≡ entry → write disk p entry ≡ disk
write-same disk p entry e = fun_ext λ q. elim (Bool-cases (p == q)) [
  | inl same ↦ let at : p ≡ q = (text_beq_iff p q).0 same in rw same (sym e ∙ ap disk at)
  | inr differs ↦ rw differs
]

module _ (disk : Disk) (states : States) (p : Text) (good : Good disk states) where
  loads_new :
      (s : FileState)
      → Dict.get p states ≡ none
      → s.path ≡ p
      → s.initial_exists ≡ s.exists
      → disk p ≡ entry_of s
      → load_state disk states p ≡ ok (s, Dict.set p s states)
      → Loading disk states p
  unfolding overlay
  loads_new s absent own before e h = loaded s (Dict.set p s states) (record {
    loads = h;
    reads = ground arith;
    same =
        overlay-set disk states p s
        ∙ write-same (overlay disk states) p (entry_of s) (ground arith);
    good = set-Good disk states p s good (record {
      own_path = own;
      none_before = λ b. ground arith;
      some_before = λ b. ground arith;
      clean = λ _. e;
    });
    found = Dict.get-set_self p s states;
    keeps = λ q t e. ground (arith, Dict.get-set p q s states, text_beq_iff p q);
  })

  loads_entry : (entry : Entry) → disk p ≡ entry → Dict.get p states ≡ none → Loading disk states p
  unfolding load_state overlay
  loads_entry missing e absent =
      loads_new (fresh_state p false []) absent refl refl e (ground arith)
  loads_entry (file content) e absent =
      loads_new (fresh_state p true content) absent refl refl e (ground arith)
  loads_entry other e absent = failed (not_a_file p) (ground arith) (ground arith)
  loads_entry nul_bytes e absent = failed (binary p) (ground arith) (ground arith)
  loads_entry unreadable e absent = failed (io_error p) (ground arith) (ground arith)

  loads_known : (s : FileState) → Dict.get p states ≡ some s → Loading disk states p
  unfolding load_state overlay
  loads_known s e = loaded s states (record {
    loads = ground arith;
    reads = ground arith;
    same = refl;
    good = good;
    found = e;
    keeps = λ q t h. h;
  })

  -- `loadState` reads the files as the hunks so far have left them.
  pub Loading-total : Loading disk states p
  Loading-total = elim (Option-cases (Dict.get p states)) [
    | inl absent ↦ loads_entry (disk p) refl absent
    | inr (s, e) ↦ loads_known s e
  ]

abbrev pub map_ok {ℓ κ} :
    {A : Type ℓ} {B : Type κ} → (A → B) → Outcome PatchError A → Outcome PatchError B
map_ok f (ok a) = ok (f a)
map_ok f (err e) = err e

module _ (disk : Disk) (states : States) (p : Text) (s : FileState) (good : Good disk states)
    (found : Dict.get p states ≡ some s) where
  of_p : Faithful disk p s
  of_p = good.faithful p s found

  at_p : (t : FileState) → t.path ≡ p → put t states ≡ Dict.set p t states
  at_p t e = ap (λ k. Dict.set k t states) e

  -- A state with a new text stands for the disk with the file written.
  pub put-with_content :
      (content : Text)
      → overlay disk (put (with_content s content) states)
        ≡ write (overlay disk states) p (file content)
  put-with_content content =
      ap (overlay disk) (at_p (with_content s content) of_p.own_path)
      ∙ overlay-set disk states p (with_content s content)

  pub put-removed : overlay disk (put (removed s) states) ≡ write (overlay disk states) p missing
  put-removed =
      ap (overlay disk) (at_p (removed s) of_p.own_path) ∙ overlay-set disk states p (removed s)

  pub put_content-Good : (content : Text) → Good disk (put (with_content s content) states)
  put_content-Good content = subst (Good disk) (sym (at_p (with_content s content) of_p.own_path)) (
      set-Good disk states p (with_content s content) good (record {
        own_path = of_p.own_path;
        none_before = of_p.none_before;
        some_before = of_p.some_before;
        clean = λ b. absurd (cc);
      }))

  pub put-removed-Good : Good disk (put (removed s) states)
  put-removed-Good = subst (Good disk) (sym (at_p (removed s) of_p.own_path)) (
      set-Good disk states p (removed s) good (record {
        own_path = of_p.own_path;
        none_before = of_p.none_before;
        some_before = of_p.some_before;
        clean = λ b. absurd (cc);
      }))
