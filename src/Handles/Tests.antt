-- ===== src/Handles/Tests.antt =====
-- src/controller/workspace-handle-manager.mjs: handles made, revoked and loaded on concrete values.
use codex_compatible_mcp.Base.{
  ◌≡◌, refl, Bool, true, false, Option, none, some, List, [], ◌∷◌, if◌then◌else◌, length, Outcome,
  ok, err,
}
use codex_compatible_mcp.Base.Text.{Text, text, text_eq}
use codex_compatible_mcp.Base.Dict
use codex_compatible_mcp.Handles.Manager.{
  Workspace, absent, unreadable, succeeds, fails, WorkspaceHandleManager, write_failed,
  unknown_handle, load, persist, create, is_revoked, restore, revoke_registered, resolve, close,
}
use codex_compatible_mcp.Handles.Revoking.{after_revoking, is_saved, get-revoke_registered}
use codex_compatible_mcp.Handles.Restart.{restart_keeps_handles}

abbrev empty : WorkspaceHandleManager
empty = record { has_file = true; handles = []; file = absent }

abbrev repository : Workspace
repository = record { workspace_id = text "w"; kind = text "registered"; root = text "r" }

abbrev one_handle : WorkspaceHandleManager
one_handle = (create succeeds (text "h") (text "now") (text "e") repository empty).0

get-revoke_registered_example :
    let result = revoke_registered (fails unreadable) (text "e") (text "w") one_handle in
    (Dict.get (text "h") result.0.handles
      ≡ after_revoking
          (if one_handle.has_file then is_saved (fails unreadable) else true)
          (text "e")
          (text "w")
          (Dict.get (text "h") one_handle.handles))
    × (result.1 ≡ (
        if (if one_handle.has_file then is_saved (fails unreadable) else true)
        then ok
            (length (Dict.retain (λ _ h. is_revoked (text "e") (text "w") h) one_handle.handles))
        else err write_failed))
unfolding persist create restore revoke_registered Dict.get Dict.set Dict.values Dict.retain
    codex_compatible_mcp.Base.Text.text_beq
get-revoke_registered_example =
    get-revoke_registered (fails unreadable) (text "e") (text "w") (text "h") one_handle (refl, tt)

revoked_test :
    resolve (text "h") (revoke_registered succeeds (text "e") (text "w") one_handle).0
    ≡ err (unknown_handle (text "h"))
unfolding persist create restore revoke_registered resolve Dict.get Dict.set Dict.values Dict.retain
    codex_compatible_mcp.Base.Text.text_beq
revoked_test = refl

restart_keeps_handles_example :
    (restarted : WorkspaceHandleManager) × (load
        (text "later")
        true
        (close succeeds one_handle).0.file
      ≡ ok restarted)
    × (restarted.handles ≡ one_handle.handles)
unfolding persist create Dict.get Dict.set Dict.values
restart_keeps_handles_example =
    restart_keeps_handles (text "later") one_handle
      (record { distinct = (refl, tt); held = ((refl, refl, refl, refl, refl, refl, refl), tt) })
      refl
