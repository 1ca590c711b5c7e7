-- ===== src/Handles/Restart.antt =====
-- src/controller/workspace-handle-manager.mjs: handles after a restart.
use codex_compatible_mcp.Base.{
  ◌≡◌, ◌≢◌, refl, sym, ap, subst, ◌∙◌, inl, inr, true, false, none, some, [], ◌∷◌, ◌++◌, map, ◌==◌,
  is_empty, All, ok, arith, Bool-cases,
}
use codex_compatible_mcp.Base.Text.{Text, text_eq, text_beq_iff}
use codex_compatible_mcp.Base.Dict
use codex_compatible_mcp.Base.Dict.{Dict, IsDistinct, beq_self}
use codex_compatible_mcp.Handles.Manager.{
  Handle, succeeds, WorkspaceHandleManager, read_handle, set_handle, truthy, load_handles, load,
  stored_handle, persist, close,
}
use mathlib.Core.List.{append_assoc, append-nil}

-- Each handle stands under its own id, and none of its texts is empty.
abbrev pub IsHeld : Text × Handle → Type 0
IsHeld e =
    (e.0 ≡ e.1.id)
    × (is_empty e.1.id ≡ false)
    × (is_empty e.1.environment_id ≡ false)
    × (is_empty e.1.workspace_id ≡ false)
    × (is_empty e.1.kind ≡ false)
    × (is_empty e.1.root ≡ false)
    × (is_empty e.1.created_at ≡ false)

pub record IsWellFormed (m : WorkspaceHandleManager) : Type 0 where
  pub distinct : IsDistinct m.handles
  pub held : All IsHeld m.handles

truthy_kept : (s : Text) → is_empty s ≡ false → truthy (some s) ≡ some s
truthy_kept [] h = absurd cc
truthy_kept (c ∷ s) h = refl

read_handle-stored_handle :
    (now id environment workspace kind root created : Text)
    → let h : Handle = record {
      id = id;
      environment_id = environment;
      workspace_id = workspace;
      kind = kind;
      root = root;
      created_at = created;
    } in
      IsHeld (id, h) → read_handle now (stored_handle h) ≡ some h
unfolding read_handle
read_handle-stored_handle now id environment workspace kind root created (key, a, b, c, d, e, f) =
    rw
      (
        truthy_kept id a,
        truthy_kept environment b,
        truthy_kept workspace c,
        truthy_kept kind d,
        truthy_kept root e,
        truthy_kept created f,
      )
      refl

set-new :
    (k : Text) (h : Handle) (m : Dict Text Handle)
    → Dict.get k m ≡ none
    → Dict.set k h m ≡ m ++ ((k, h) ∷ [])
unfolding Dict.set Dict.get
set-new k h [] e = refl
set-new k h ((j, v) ∷ m) e = elim (Bool-cases (j == k)) [
  | inl same ↦ absurd (ground (arith, same))
  | inr other ↦ rw other (ap (◌∷◌ (j, v)) (set-new k h m (ground (arith, other))))
]

get-middle :
    (k : Text) (h : Handle) (m rest : Dict Text Handle) → Dict.get k (m ++ ((k, h) ∷ rest)) ≢ none
unfolding Dict.get
get-middle k h [] rest e = ground (arith, beq_self k)
get-middle k h ((j, v) ∷ m) rest e = ground (arith, get-middle k h m rest)

get-before :
    (k : Text) (h : Handle) (m rest : Dict Text Handle)
    → IsDistinct (m ++ ((k, h) ∷ rest))
    → Dict.get k m ≡ none
unfolding Dict.get
get-before k h [] rest d = refl
get-before k h ((j, v) ∷ m) rest (new, d) = elim (Bool-cases (j == k)) [
  | inl same ↦
      let e : j ≡ k = (text_beq_iff j k).0 same in
      absurd
        (get-middle j h m rest (subst (λ i. Dict.get j (m ++ ((i, h) ∷ rest)) ≡ none) (sym e) new))
  | inr other ↦ rw other (get-before k h m rest d)
]

load_handles-append :
    (now : Text) (m held : Dict Text Handle)
    → All IsHeld m
    → IsDistinct (held ++ m)
    → load_handles now (map stored_handle (Dict.values m)) held ≡ held ++ m
unfolding load_handles Dict.values
load_handles-append now [] held h d = sym (append-nil held)
load_handles-append now ((k, v) ∷ m) held ((key, a, b, c, e, f, g), h) d =
    let read : read_handle now (stored_handle v) ≡ some v =
      read_handle-stored_handle now v.id v.environment_id v.workspace_id v.kind v.root v.created_at
        (refl, a, b, c, e, f, g) in
    let joined = append_assoc held ((k, v) ∷ []) m in
    let added : Dict.set v.id v held ≡ held ++ ((k, v) ∷ []) =
      subst (λ i. Dict.set i v held ≡ held ++ ((k, v) ∷ [])) key
        (set-new k v held (get-before k v held m d)) in
    let rest =
      load_handles-append now m (held ++ ((k, v) ∷ [])) h (subst IsDistinct (sym joined) d) in
    let stored = map stored_handle (Dict.values m) in
    ap (λ o. load_handles now stored (set_handle o held)) read
    ∙ ap (load_handles now stored) added
    ∙ rest
    ∙ joined

-- A manager whose handles stand under their own ids, each once, and have no empty texts: closed with
-- its file written and started again, it has the same handles in the same order.
pub restart_keeps_handles :
    (now : Text) (m : WorkspaceHandleManager)
    → IsWellFormed m
    → m.has_file ≡ true
    → (restarted : WorkspaceHandleManager) × (load now true (close succeeds m).0.file
        ≡ ok restarted)
      × (restarted.handles ≡ m.handles)
unfolding load close persist
restart_keeps_handles now m h has =
    rw has (_, refl, load_handles-append now m.handles [] h.held h.distinct)
