-- ===== src/Patch/Whole.antt =====
-- `applyPatchToEnvironment` as a whole.
use codex_compatible_mcp.Base.{
  ◌≡◌, refl, subst, Bool, true, Option, List, [], arith, map, All, Outcome, ok, err, ◌>>◌,
  Outcome-cases, inl, inr,
}
use codex_compatible_mcp.Base.Text.{Text}
use codex_compatible_mcp.Patch.Types.{Hunk, PatchError}
use codex_compatible_mcp.Patch.Parse.{parse_patch}
use codex_compatible_mcp.Patch.Writable.{
  Host, Environment, resolve_workdir, assert_writable_targets,
}
use codex_compatible_mcp.Patch.Files.{
  Disk, FileSystem, Item, States, Change, Ran, change_of, resolve_item, targets, stage, disk_ops,
  run_ops, plan_patch, answered, apply_patch_to_environment,
}
use codex_compatible_mcp.Patch.Sequence.{run_items}
use codex_compatible_mcp.Patch.Staging.{overlay, Good}
use codex_compatible_mcp.Patch.Refinement.{both_fail, both_go}
use codex_compatible_mcp.Patch.Rounds.{stage-Agree, empty-Good, empty-overlay}
use codex_compatible_mcp.Patch.Separate.{IsSeparate}
use codex_compatible_mcp.Patch.Cuts.{staged-IsWithin}
use codex_compatible_mcp.Patch.Flushing.{Left, run_ops-overlay}

abbrev pub items_of : Host → Environment → Option Text → List Hunk → List Item
items_of host environment workdir hunks =
    map (resolve_item host (resolve_workdir host environment workdir)) hunks

-- The disk of a run that succeeds, or the error with the disk as it was.
abbrev pub settle :
    Disk → List Item → Outcome PatchError Disk → Disk × Outcome PatchError (List Change)
settle disk items (err e) = (disk, err e)
settle disk items (ok disk') = (disk', ok (map change_of items))

-- A patch as it is meant: parsed, checked, and then carried out hunk by hunk, or not at all. A later
-- hunk reads the text that an earlier one wrote.
unfoldable pub run_patch :
    Host → Environment → Text → Option Text → Disk → Disk × Outcome PatchError (List Change)
run_patch host environment patch workdir disk = elim (parse_patch patch) [
  | err e ↦ (disk, err e)
  | ok hunks ↦
      let items = items_of host environment workdir hunks in
      settle disk items
        (assert_writable_targets host environment (targets items) >> run_items disk items)
]

abbrev parsed_targets :
    Host → Environment → Option Text → Outcome PatchError (List Hunk) → List Text
parsed_targets host environment workdir (err e) = []
parsed_targets host environment workdir (ok hunks) =
    targets (items_of host environment workdir hunks)

-- The paths that a patch reads and writes.
unfoldable pub patch_targets : Host → Environment → Text → Option Text → List Text
unfolding parse_patch targets
patch_targets host environment patch workdir =
    parsed_targets host environment workdir (parse_patch patch)

-- What a program did to the disk, by what was meant.
pub record AsMeant {D : Type 0} (fs : FileSystem D) (among : Text → Bool) (decoded : Text → Text)
    (d : D) (did : D × Outcome PatchError (List Change))
    (meant : Disk × Outcome PatchError (List Change)) : Type 0 where
  pub answer : did.1 ≡ meant.1
  pub untouched : (e : PatchError) → did.1 ≡ err e → did.0 ≡ d
  pub left : (q : Text) → among q ≡ true → Left decoded (meant.0 q) (fs.find did.0 q)

answered-ok :
    {D : Type 0} (items : List Item) (x : Ran D)
    → x.1 ≡ ok tt
    → answered items x ≡ (x.0, ok (map change_of items))
answered-ok items (d, ok u) h = refl
answered-ok items (d, err e) h = absurd cc

module _ {D : Type 0} (fs : FileSystem D) (host : Host) (among : Text → Bool)
    (decoded : Text → Text) (h : IsSeparate fs host among decoded) (d : D) where
  refused : (e : PatchError) → AsMeant fs among decoded d (d, err e) (fs.find d, err e)
  refused e = record { answer = refl; untouched = λ e' same. refl; left = λ q a. inl refl }

  carried :
      (items : List Item) (states : States)
      → Good (fs.find d) states
      → All (λ p. among p ≡ true) (targets items)
      → stage (fs.find d) [] items ≡ ok states
      → AsMeant fs among decoded d
          (answered items (run_ops fs host (disk_ops states) d))
          (overlay (fs.find d) states, ok (map change_of items))
  carried items states good t staged =
      let within = staged-IsWithin among (fs.find d) items states staged t in
      let (done, left) = run_ops-overlay fs host among decoded h d states good within in
      rw (answered-ok items (run_ops fs host (disk_ops states) d) done)
        (record { answer = refl; untouched = λ e same. absurd cc; left = left })

  AsMeant-of :
      {did did' : D × Outcome PatchError (List Change)}
      {meant meant' : Disk × Outcome PatchError (List Change)}
      → did' ≡ did
      → meant' ≡ meant
      → AsMeant fs among decoded d did meant
      → AsMeant fs among decoded d did' meant'
  AsMeant-of p q m = rw (p, q) m

  module _ (environment : Environment) (patch : Text) (workdir : Option Text) where
    -- For a patch whose targets name separate files that may be written: the program answers as the
    -- hunks would if each were carried out at once, in their order, a later hunk reading the text that
    -- an earlier one wrote; it leaves under each target what they would, a written text as its bytes
    -- are read; and where the patch cannot be read, a path may not be written or a hunk fails, it
    -- answers with that error and changes nothing.
    pub apply_patch-run_patch :
        All (λ p. among p ≡ true) (patch_targets host environment patch workdir)
        → AsMeant fs among decoded d
            (apply_patch_to_environment fs host environment patch workdir d)
            (run_patch host environment patch workdir (fs.find d))
    unfolding apply_patch_to_environment run_patch plan_patch patch_targets
    apply_patch-run_patch t = elim (Outcome-cases (parse_patch patch)) [
      | inr (e, bad) ↦ AsMeant-of (ground arith) (ground arith) (refused e)
      | inl (hunks, parsed) ↦
          let items = items_of host environment workdir hunks in
          let disk = fs.find d in
          let among_them : All (λ p. among p ≡ true) (targets items) =
            subst (λ o. All (λ p. among p ≡ true) (parsed_targets host environment workdir o))
              parsed t in
          elim (Outcome-cases (assert_writable_targets host environment (targets items))) [
            | inr (e, bad) ↦ AsMeant-of (ground arith) (ground arith) (refused e)
            | inl (u, allowed) ↦ elim (stage-Agree disk [] (empty-Good disk) items) [
              | both_fail e p q ↦
                  AsMeant-of (ground arith) (ground (arith, empty-overlay disk)) (refused e)
              | both_go states good p q ↦
                  AsMeant-of (ground arith) (ground (arith, empty-overlay disk))
                    (carried items states good among_them p)
            ]
          ]
    ]
