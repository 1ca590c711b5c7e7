-- ===== src/Handles/Revoking.antt =====
-- src/controller/workspace-handle-manager.mjs: what a revocation changes, saved or not.
use codex_compatible_mcp.Base.{
  ◌≡◌, refl, sym, ap, ◌∙◌, inl, inr, Bool, true, false, not, Option, none, some, [], ◌∷◌,
  if◌then◌else◌, ◌==◌, length, ok, err, arith, Bool-cases,
}
use codex_compatible_mcp.Base.Text.{Text, text_eq, text_beq_iff}
use codex_compatible_mcp.Base.Dict
use codex_compatible_mcp.Base.Dict.{
  Dict, IsDistinct, keep_when, get-set, get-retain, retain-IsDistinct, beq_self,
}
use codex_compatible_mcp.Handles.Manager.{
  Handle, Write, succeeds, fails, WorkspaceHandleManager, write_failed, persist, is_revoked,
  restore, revoke_registered,
}

abbrev or_get : Option Handle → Option Handle → Option Handle
or_get none other = other
or_get (some h) other = some h

get-restore :
    (k : Text) (removed m : Dict Text Handle)
    → IsDistinct removed
    → Dict.get k (restore removed m) ≡ or_get (Dict.get k removed) (Dict.get k m)
unfolding restore Dict.get
get-restore k [] m h = refl
get-restore k ((id, r) ∷ removed) m (new, h) =
    get-restore k removed (Dict.set id r m) h
    ∙ ap (or_get (Dict.get k removed)) (get-set id k r m)
    ∙ elim (Bool-cases (id == k)) [
      | inl same ↦
          let e : id ≡ k = (text_beq_iff id k).0 same in
          let gone : Dict.get k removed ≡ none = rw (sym e) new in rw (same, gone) refl
      | inr other ↦ rw other refl
    ]

or_get-keep_when :
    (p : Handle → Bool) (o : Option Handle)
    → or_get (keep_when p o) (keep_when (λ h. not (p h)) o) ≡ o
or_get-keep_when p none = refl
or_get-keep_when p (some h) = ground arith

-- What leads to a handle after a revocation, given whether it succeeds.
abbrev pub after_revoking : Bool → (environment workspace : Text) → Option Handle → Option Handle
after_revoking true environment workspace found =
    keep_when (λ h. not (is_revoked environment workspace h)) found
after_revoking false environment workspace found = found

abbrev pub is_saved : Write → Bool
is_saved succeeds = true
is_saved (fails left) = false

-- With each id held once: a revocation whose write succeeds, or that has no file to write, takes away
-- the handles that were registered for the environment and the workspace, and no others, and answers
-- with their number; one whose write fails is answered with the error and, whatever the write leaves
-- in the file, every id leads where it led.
pub get-revoke_registered :
    (writes : Write) (environment workspace id : Text) (m : WorkspaceHandleManager)
    → IsDistinct m.handles
    → let saved = if m.has_file then is_saved writes else true in
      let result = revoke_registered writes environment workspace m in
      (Dict.get id result.0.handles
        ≡ after_revoking saved environment workspace (Dict.get id m.handles))
      × (result.1 ≡ (
          if saved
          then ok (length (Dict.retain (λ _ h. is_revoked environment workspace h) m.handles))
          else err write_failed))
unfolding revoke_registered persist
get-revoke_registered succeeds environment workspace id m h =
    let kept = get-retain (λ _ r. not (is_revoked environment workspace r)) id m.handles h in
    elim (Bool-cases m.has_file) [ inl e ↦ rw e (kept, refl) | inr e ↦ rw e (kept, refl) ]
get-revoke_registered (fails left) environment workspace id m h =
    let stays = λ (r : Handle). not (is_revoked environment workspace r) in
    let goes = λ (r : Handle). is_revoked environment workspace r in
    let kept = get-retain (λ _. stays) id m.handles h in
    let gone = get-retain (λ _. goes) id m.handles h in
    elim (Bool-cases m.has_file) [
      | inl e ↦ rw e (
        get-restore id (Dict.retain (λ _. goes) m.handles) (Dict.retain (λ _. stays) m.handles)
              (retain-IsDistinct (λ _. goes) m.handles h)
            ∙ rw (kept, gone) (or_get-keep_when goes (Dict.get id m.handles)),
        refl,
      )
      | inr e ↦ rw e (kept, refl)
    ]
