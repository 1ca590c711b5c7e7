-- ===== src/Handles/Manager.antt =====
-- src/controller/workspace-handle-manager.mjs: the class WorkspaceHandleManager. `file` is what its
-- state file holds; how a write to it goes is an argument.
use codex_compatible_mcp.Base.{
  ℕ, Bool, true, false, not, ◌&&◌, Option, none, some, List, [], ◌∷◌, map, if◌then◌else◌, ◌==◌,
  length, Outcome, ok, err,
}
use codex_compatible_mcp.Base.Text.{Text, text, text_eq}
use codex_compatible_mcp.Base.Dict
use codex_compatible_mcp.Base.Dict.{Dict}

pub record Handle : Type 0 where
  pub id : Text
  pub environment_id : Text
  pub workspace_id : Text
  pub kind : Text
  pub root : Text
  pub created_at : Text

-- A workspace as a worker or a registration describes it.
pub record Workspace : Type 0 where
  pub workspace_id : Text
  pub kind : Text
  pub root : Text

-- An entry of the state file; a field that is missing is none.
pub record StoredHandle : Type 0 where
  pub id : Option Text
  pub environment_id : Option Text
  pub workspace_id : Option Text
  pub kind : Option Text
  pub root : Option Text
  pub created_at : Option Text

pub data Stored : Type 0 where
  absent : Stored
  unreadable : Stored
  entries : List StoredHandle → Stored

-- How a write of the state file goes: one that fails may have truncated the file, or written a part of
-- it, and leaves any file behind.
pub data Write : Type 0 where
  succeeds : Write
  fails : Stored → Write

pub record WorkspaceHandleManager : Type 0 where
  pub has_file : Bool
  pub handles : Dict Text Handle
  pub file : Stored

pub data HandleError : Type 0 where
  unreadable_file : HandleError
  write_failed : HandleError
  unknown_handle : Text → HandleError
  unknown_environment : HandleError
  worker_failed : HandleError

-- `value || other` of a field.
abbrev pub truthy : Option Text → Option Text
truthy none = none
truthy (some []) = none
truthy (some (c ∷ s)) = some (c ∷ s)

abbrev or_now : Option Text → Text → Text
or_now none now = now
or_now (some s) now = s

abbrev handle_of :
    Option Text → Option Text → Option Text → Option Text → Option Text → Text → Option Handle
handle_of (some id) (some environment) (some workspace) (some kind) (some root) created_at =
    some (record {
      id = id;
      environment_id = environment;
      workspace_id = workspace;
      kind = kind;
      root = root;
      created_at = created_at;
    })
handle_of _ _ _ _ _ created_at = none

unfoldable pub read_handle : Text → StoredHandle → Option Handle
read_handle now v =
    handle_of (truthy v.id) (truthy v.environment_id) (truthy v.workspace_id) (truthy v.kind)
      (truthy v.root) (or_now (truthy v.created_at) now)

abbrev pub set_handle : Option Handle → Dict Text Handle → Dict Text Handle
set_handle none m = m
set_handle (some h) m = Dict.set h.id h m

unfoldable pub load_handles : Text → List StoredHandle → Dict Text Handle → Dict Text Handle
unfolding read_handle
load_handles now [] m = m
load_handles now (v ∷ vs) m = load_handles now vs (set_handle (read_handle now v) m)

abbrev loaded : Stored → Dict Text Handle → WorkspaceHandleManager
loaded file m = record { has_file = true; handles = m; file = file }

-- The constructor, with `#load`; `now` stands for a time of creation that is missing.
unfoldable pub load : Text → Bool → Stored → Outcome HandleError WorkspaceHandleManager
unfolding load_handles
load now false file = ok (record { has_file = false; handles = []; file = file })
load now true absent = ok (loaded absent [])
load now true unreadable = err unreadable_file
load now true (entries vs) = ok (loaded (entries vs) (load_handles now vs []))

abbrev pub stored_handle : Handle → StoredHandle
stored_handle h = record {
  id = some h.id;
  environment_id = some h.environment_id;
  workspace_id = some h.workspace_id;
  kind = some h.kind;
  root = some h.root;
  created_at = some h.created_at;
}

abbrev written : Write → WorkspaceHandleManager → WorkspaceHandleManager × Option HandleError
written succeeds m = (record m { file = entries (map stored_handle (Dict.values m.handles)) }, none)
written (fails left) m = (record m { file = left }, some write_failed)

-- `#persist`, with the error where the write fails.
unfoldable pub persist :
    Write → WorkspaceHandleManager → WorkspaceHandleManager × Option HandleError
persist writes m = if m.has_file then written writes m else (m, none)

abbrev pub answered {ℓ} :
    {A : Type ℓ}
    → A
    → WorkspaceHandleManager × Option HandleError
    → WorkspaceHandleManager × Outcome HandleError A
answered a (m, none) = (m, ok a)
answered a (m, some e) = (m, err e)

abbrev new_handle : (id now environment : Text) → Workspace → Handle
new_handle id now environment w = record {
  id = id;
  environment_id = environment;
  workspace_id = w.workspace_id;
  kind = w.kind;
  root = w.root;
  created_at = now;
}

-- `#create`, which is createRegistered too. The handle is in memory before the file is written.
unfoldable pub create :
    Write
    → (id now environment : Text) → Workspace
    → WorkspaceHandleManager
    → WorkspaceHandleManager × Outcome HandleError Handle
unfolding persist
create writes id now environment w m =
    let h = new_handle id now environment w in
    let held : WorkspaceHandleManager = record m { handles = Dict.set id h m.handles } in
    answered h (persist writes held)

abbrev create_in :
    Write
    → (id now environment : Text) → Option Workspace
    → WorkspaceHandleManager
    → WorkspaceHandleManager × Outcome HandleError Handle
unfolding create
create_in writes id now environment none m = (m, err worker_failed)
create_in writes id now environment (some w) m = create writes id now environment w m

-- `find_environment` is the registry's resolve, and `call` what the worker answers.
unfoldable pub create_projectless :
    (find_environment : Option Text → Option Text)
    → (call : Text → Option Workspace) → Write
    → (id now : Text) → Option Text
    → WorkspaceHandleManager
    → WorkspaceHandleManager × Outcome HandleError Handle
unfolding create
create_projectless find_environment call writes id now wanted m = elim (find_environment wanted) [
  | none ↦ (m, err unknown_environment)
  | some environment ↦ create_in writes id now environment (call environment) m
]

-- The handles that a revocation is about.
abbrev pub is_revoked : (environment workspace : Text) → Handle → Bool
is_revoked environment workspace h =
    h.kind == text "registered" && h.environment_id == environment && h.workspace_id == workspace

unfoldable pub restore : Dict Text Handle → Dict Text Handle → Dict Text Handle
restore [] m = m
restore ((id, h) ∷ removed) m = restore removed (Dict.set id h m)

abbrev settle :
    Dict Text Handle
    → WorkspaceHandleManager × Option HandleError
    → WorkspaceHandleManager × Outcome HandleError ℕ
unfolding restore
settle removed (m, none) = (m, ok (length removed))
settle removed (m, some e) = (record m { handles = restore removed m.handles }, err e)

unfoldable pub revoke_registered :
    Write
    → (environment workspace : Text) → WorkspaceHandleManager
    → WorkspaceHandleManager × Outcome HandleError ℕ
unfolding persist restore
revoke_registered writes environment workspace m =
    let removed = Dict.retain (λ _ h. is_revoked environment workspace h) m.handles in
    let kept : WorkspaceHandleManager = record m {
      handles = Dict.retain (λ _ h. not (is_revoked environment workspace h)) m.handles;
    } in
    settle removed (persist writes kept)

abbrev or_unknown : Text → Option Handle → Outcome HandleError Handle
or_unknown id none = err (unknown_handle id)
or_unknown id (some h) = ok h

-- `resolve`, on a handle's id or the empty text.
unfoldable pub resolve : Text → WorkspaceHandleManager → Outcome HandleError Handle
resolve id m = or_unknown id (Dict.get id m.handles)

unfoldable pub close :
    Write → WorkspaceHandleManager → WorkspaceHandleManager × Outcome HandleError (Unit {0})
unfolding persist
close writes m = answered tt (persist writes m)
