-- ===== src/Patch/Refinement.antt =====
-- Staging the hunks refines the specification that carries them out one after the other.
use codex_compatible_mcp.Base.{
  ◌≡◌, ◌≢◌, refl, sym, ap, inl, inr, false, Option, none, some, arith, ◌==◌, Bool-cases, Outcome,
  ok, err,
}
use codex_compatible_mcp.Base.Text.{Text, text_eq, text_beq_iff}
use codex_compatible_mcp.Base.Dict
use codex_compatible_mcp.Patch.Types.{
  add, delete, PatchError, already_exists, does_not_exist, destination_exists,
}
use codex_compatible_mcp.Patch.Files.{
  Disk, moves_to, FileState, States, put, with_content, removed, stage_update, stage_hunk,
}
use codex_compatible_mcp.Patch.Sequence.{replace_file, run_hunk}
use codex_compatible_mcp.Patch.Staging.{
  overlay, Good, Loaded, loaded, failed, Loading-total, put-with_content, put-removed,
  put_content-Good, put-removed-Good,
}

-- Both fail in the same way, or both go on from the same disk.
pub data Agree (disk : Disk) (o : Outcome PatchError States) (r : Outcome PatchError Disk)
    : Type 0 where
  both_fail : (e : PatchError) → o ≡ err e → r ≡ err e → Agree disk o r
  both_go :
      (states : States)
      → Good disk states
      → o ≡ ok states
      → r ≡ ok (overlay disk states)
      → Agree disk o r

module _ (disk : Disk) (states : States) (good : Good disk states) (source : Text)
    (destination : Option Text) where
  pub add-Agree :
      (path content : Text)
      → Agree disk
          (stage_hunk disk states source destination (add path content))
          (run_hunk (overlay disk states) source destination (add path content))
  unfolding stage_hunk run_hunk
  add-Agree path content = elim (Loading-total disk states source good) [
    | failed e p q ↦ both_fail e (ground arith) (ground arith)
    | loaded s states' l ↦ elim (Bool-cases s.exists) [
      | inl there ↦ both_fail (already_exists path) (ground arith) (ground arith)
      | inr gone ↦
          both_go (put (with_content s content) states')
            (put_content-Good disk states' source s l.good l.found content) (ground arith)
            (ground (arith, put-with_content disk states' source s l.good l.found content, l.same))
    ]
  ]

  pub delete-Agree :
      (path : Text)
      → Agree disk
          (stage_hunk disk states source destination (delete path))
          (run_hunk (overlay disk states) source destination (delete path))
  unfolding stage_hunk run_hunk
  delete-Agree path = elim (Loading-total disk states source good) [
    | failed e p q ↦ both_fail e (ground arith) (ground arith)
    | loaded s states' l ↦ elim (Bool-cases s.exists) [
      | inr gone ↦ both_fail (does_not_exist path) (ground arith) (ground arith)
      | inl there ↦
          both_go (put (removed s) states') (put-removed-Good disk states' source s l.good l.found)
            (ground arith)
            (ground (arith, put-removed disk states' source s l.good l.found, l.same))
    ]
  ]

module _ (disk : Disk) (states : States) (good : Good disk states) (source : Text) (s : FileState)
    (here : Dict.get source states ≡ some s) (content : Text) where
  place-Agree :
      Agree disk
        (stage_update disk states s source none content)
        (replace_file (overlay disk states) source none content)
  unfolding stage_update
  place-Agree =
      both_go (put (with_content s content) states)
        (put_content-Good disk states source s good here content) refl
        (ap ok (sym (put-with_content disk states source s good here content)))

  moved-Agree :
      (d : Text) (t : FileState) (states' : States)
      → source ≢ d
      → Loaded disk states d t states'
      → t.exists ≡ false
      → Agree disk
          (stage_update disk states s source (some d) content)
          (replace_file (overlay disk states) source (some d) content)
  unfolding stage_update
  moved-Agree d t states' differs l free =
      let written = put (with_content t content) states' in
      let still : Dict.get source written ≡ some s = ground (
        arith,
        Dict.get-set (with_content t content).path source (with_content t content) states',
        text_beq_iff (with_content t content).path source,
        (l.good.faithful d t l.found).own_path,
        l.keeps source s here,
      ) in
      let good' = put_content-Good disk states' d t l.good l.found content in
      both_go (put (removed s) written) (put-removed-Good disk written source s good' still)
        (ground arith)
        (ground (
          arith,
          put-removed disk written source s good' still,
          put-with_content disk states' d t l.good l.found content,
          l.same,
        ))

  move-Agree :
      (d : Text)
      → source ≢ d
      → Agree disk
          (stage_update disk states s source (some d) content)
          (replace_file (overlay disk states) source (some d) content)
  unfolding stage_update
  move-Agree d differs = elim (Loading-total disk states d good) [
    | failed e p q ↦ both_fail e (ground arith) (ground arith)
    | loaded t states' l ↦ elim (Bool-cases t.exists) [
      | inl taken ↦ both_fail (destination_exists d) (ground arith) (ground arith)
      | inr free ↦ moved-Agree d t states' differs l free
    ]
  ]

  pub replace-Agree :
      (destination : Option Text)
      → Agree disk
          (stage_update disk states s source (moves_to source destination) content)
          (replace_file (overlay disk states) source (moves_to source destination) content)
  replace-Agree none = place-Agree
  replace-Agree (some d) = elim (Bool-cases (d == source)) [
    | inl same ↦ rw same place-Agree
    | inr other ↦ rw other (move-Agree d (λ e. ground (arith, text_beq_iff d source)))
  ]
