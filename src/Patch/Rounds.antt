-- ===== src/Patch/Rounds.antt =====
-- Staging all hunks refines the specification that carries them out one after the other.
use codex_compatible_mcp.Base.{
  ◌≡◌, refl, ◌∙◌, inl, inr, Option, List, [], ◌∷◌, arith, Bool-cases, Outcome, Outcome-cases,
}
use codex_compatible_mcp.Base.Text.{Text, text_eq}
use codex_compatible_mcp.Base.Dict
use codex_compatible_mcp.Patch.Types.{Chunk, Hunk, add, delete, update, PatchError, does_not_exist}
use codex_compatible_mcp.Patch.Update.{apply_update_text}
use codex_compatible_mcp.Patch.Files.{Disk, Item, States, stage_hunk, stage}
use codex_compatible_mcp.Patch.Sequence.{run_hunk, run_items}
use codex_compatible_mcp.Patch.Staging.{overlay, Good, loaded, failed, Loading-total}
use codex_compatible_mcp.Patch.Refinement.{
  Agree, both_fail, both_go, add-Agree, delete-Agree, replace-Agree,
}

Agree-of :
    {disk : Disk} {o o' : Outcome PatchError States} {r r' : Outcome PatchError Disk}
    → o' ≡ o
    → r' ≡ r
    → Agree disk o r
    → Agree disk o' r'
Agree-of p q (both_fail e a b) = both_fail e (p ∙ a) (q ∙ b)
Agree-of p q (both_go states good a b) = both_go states good (p ∙ a) (q ∙ b)

module _ (disk : Disk) (source : Text) (destination : Option Text) where
  update-Agree :
      (states : States)
      → Good disk states
      → (path : Text) (move_path : Option Text) (chunks : List Chunk)
      → Agree disk
          (stage_hunk disk states source destination (update path move_path chunks))
          (run_hunk (overlay disk states) source destination (update path move_path chunks))
  unfolding stage_hunk run_hunk
  update-Agree states good path move_path chunks = elim (Loading-total disk states source good) [
    | failed e p q ↦ both_fail e (ground arith) (ground arith)
    | loaded s states' l ↦ elim (Bool-cases s.exists) [
      | inr gone ↦ both_fail (does_not_exist path) (ground arith) (ground arith)
      | inl there ↦ elim (Outcome-cases (apply_update_text s.content chunks)) [
        | inr (e, bad) ↦ both_fail e (ground arith) (ground arith)
        | inl (content, fine) ↦
            Agree-of (ground arith) (ground arith)
              (replace-Agree disk states' l.good source s l.found content destination)
      ]
    ]
  ]

  hunk-Agree :
      (states : States)
      → Good disk states
      → (hunk : Hunk)
      → Agree disk
          (stage_hunk disk states source destination hunk)
          (run_hunk (overlay disk states) source destination hunk)
  hunk-Agree states good (add path content) =
      add-Agree disk states good source destination path content
  hunk-Agree states good (delete path) = delete-Agree disk states good source destination path
  hunk-Agree states good (update path move_path chunks) =
      update-Agree states good path move_path chunks

pub stage-Agree :
    (disk : Disk) (states : States)
    → Good disk states
    → (items : List Item)
    → Agree disk (stage disk states items) (run_items (overlay disk states) items)
unfolding stage run_items
stage-Agree disk states good [] = both_go states good refl refl
stage-Agree disk states good (item ∷ items) =
    elim (hunk-Agree disk item.source item.destination states good item.hunk) [
      | both_fail e p q ↦ both_fail e (ground arith) (ground arith)
      | both_go states' good' p q ↦ Agree-of (rw p) (rw q) (stage-Agree disk states' good' items)
    ]

pub empty-Good : (disk : Disk) → Good disk []
unfolding Dict.get
empty-Good disk = record { distinct = tt; faithful = λ p s e. absurd (cc) }

pub empty-overlay : (disk : Disk) → overlay disk [] ≡ disk
unfolding overlay Dict.get
empty-overlay disk = refl
