-- ===== src/Patch/Cuts.antt =====
-- A run of the operations on the disk that is cut off at any point leaves each file old or new.
use codex_compatible_mcp.Base.{
  ℕ, zero, suc, ◌≡◌, refl, sym, ◌∙◌, ap, ◌⊎◌, inl, inr, Bool, true, none, List, [], ◌∷◌, ◌==◌, take,
  Bool-cases, All, subst, ok, ok-injective,
}
use codex_compatible_mcp.Base.Text.{Text, text_eq}
use codex_compatible_mcp.Patch.Types.{PatchError}
use codex_compatible_mcp.Patch.Writable.{Host}
use codex_compatible_mcp.Patch.Files.{
  Disk, FileSystem, Item, States, Op, run_ops, disk_ops, stage, targets,
}
use codex_compatible_mcp.Patch.Staging.{Good}
use codex_compatible_mcp.Patch.Refinement.{both_fail, both_go}
use codex_compatible_mcp.Patch.Rounds.{stage-Agree, empty-Good}
use codex_compatible_mcp.Patch.Separate.{
  IsSeparate, op_path, first_on, Once, effect, AllSuit, run_ops-effect,
}
use codex_compatible_mcp.Patch.Targets.{Holds, IsWithin, stage-IsWithin, empty-IsWithin}
use codex_compatible_mcp.Patch.Flushing.{disk_ops-Once, disk_ops-AllSuit}

-- The first operations have none on a path, or that of them all.
first_on-take :
    (n : ℕ) (q : Text) (ops : List Op)
    → (first_on q (take n ops) ≡ none) ⊎ (first_on q (take n ops) ≡ first_on q ops)
first_on-take zero q ops = inl refl
first_on-take (suc n) q [] = inl refl
first_on-take (suc n) q (op ∷ ops) = elim (Bool-cases (op_path op == q)) [
  | inl same ↦ inr (rw same refl)
  | inr apart ↦ rw apart (first_on-take n q ops)
]

Once-take : (n : ℕ) (ops : List Op) → Once ops → Once (take n ops)
Once-take zero ops once = tt
Once-take (suc n) [] once = tt
Once-take (suc n) (op ∷ ops) (alone, once) = (
  elim (first_on-take n (op_path op) ops) [ inl gone ↦ gone | inr same ↦ same ∙ alone ],
  Once-take n ops once,
)

module _ {D : Type 0} (fs : FileSystem D) (host : Host) (among : Text → Bool)
    (decoded : Text → Text) (h : IsSeparate fs host among decoded) (d : D) where
  AllSuit-take :
      (n : ℕ) (ops : List Op)
      → AllSuit fs host among decoded h d ops
      → AllSuit fs host among decoded h d (take n ops)
  unfolding AllSuit
  AllSuit-take zero ops s = tt
  AllSuit-take (suc n) [] s = tt
  AllSuit-take (suc n) (op ∷ ops) (a, r, s) = (a, r, AllSuit-take n ops s)

  ops_cut :
      (n : ℕ) (ops : List Op) (q : Text)
      → Once ops
      → AllSuit fs host among decoded h d ops
      → among q ≡ true
      → (fs.find (run_ops fs host (take n ops) d).0 q ≡ fs.find d q)
        ⊎ (fs.find (run_ops fs host (take n ops) d).0 q ≡ fs.find (run_ops fs host ops d).0 q)
  ops_cut n ops q once s a =
      let whole = (run_ops-effect fs host among decoded h ops d once s).1 q a in
      let part =
        (run_ops-effect fs host among decoded h (take n ops) d (Once-take n ops once)
            (AllSuit-take n ops s)).1
          q a in
      elim (first_on-take n q ops) [
        | inl gone ↦ inl (part ∙ ap (effect decoded (fs.find d q)) gone)
        | inr same ↦ inr (part ∙ ap (effect decoded (fs.find d q)) same ∙ sym whole)
      ]

pub staged-Good :
    (disk : Disk) (items : List Item) (states : States)
    → stage disk [] items ≡ ok states
    → Good disk states
staged-Good disk items states h = elim (stage-Agree disk [] (empty-Good disk) items) [
  | both_fail e p q ↦ absurd (cc)
  | both_go states' good p q ↦ subst (Good disk) (ok-injective PatchError (sym p ∙ h)) good
]

pub staged-IsWithin :
    (among : Text → Bool) (disk : Disk) (items : List Item) (states : States)
    → stage disk [] items ≡ ok states
    → All (λ p. among p ≡ true) (targets items)
    → IsWithin among states
staged-IsWithin among disk items states h t =
    subst (Holds (IsWithin among)) h (stage-IsWithin among disk [] items t (empty-IsWithin among))

-- For a patch whose hunks could be staged, and whose targets name separate files that may be written:
-- if the program stops between two of the operations that it carries out, each of these files is as it
-- was before the patch or as the whole patch leaves it.
pub disk_ops_cut :
    {D : Type 0} (fs : FileSystem D) (host : Host) (among : Text → Bool) (decoded : Text → Text)
    → IsSeparate fs host among decoded
    → (d : D) (items : List Item) (states : States) → All (λ p. among p ≡ true) (targets items)
    → stage (fs.find d) [] items ≡ ok states
    → (n : ℕ) (q : Text) → among q ≡ true
    → (fs.find (run_ops fs host (take n (disk_ops states)) d).0 q ≡ fs.find d q)
      ⊎ (fs.find (run_ops fs host (take n (disk_ops states)) d).0 q
          ≡ fs.find (run_ops fs host (disk_ops states) d).0 q)
disk_ops_cut fs host among decoded h d items states t staged n q a =
    let good = staged-Good (fs.find d) items states staged in
    let within = staged-IsWithin among (fs.find d) items states staged t in
    ops_cut fs host among decoded h d n (disk_ops states) q
      (disk_ops-Once fs host among decoded h d states good within)
      (disk_ops-AllSuit fs host among decoded h d states good within) a
