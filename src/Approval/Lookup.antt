-- ===== src/Approval/Lookup.antt =====
-- What a method of ApprovalManager leaves under each approval id.
use codex_compatible_mcp.Base.{
  ℕ, ◌≡◌, ap, ◌∙◌, inl, inr, Bool, not, some, arith, if◌then◌else◌, ◌==◌, Outcome, ok, err, ◌>>=◌,
  Outcome-cases,
}
use codex_compatible_mcp.Base.Text.{Text, text_eq}
use codex_compatible_mcp.Base.Dict
use codex_compatible_mcp.Base.Dict.{Dict}
use codex_compatible_mcp.Approval.Types.{Request, Event, ApprovalError}
use codex_compatible_mcp.Approval.Manager.{Manager, is_expired, emit, prune, find, change}

pub emit-requests :
    (e : Event) (b : Bool) (r : Request) (m : Manager) → (emit e b r m).requests ≡ m.requests
unfolding emit
emit-requests e b r m = ground arith

emit-retention :
    (e : Event) (b : Bool) (r : Request) (m : Manager)
    → (emit e b r m).terminal_retention_ms ≡ m.terminal_retention_ms
unfolding emit
emit-retention e b r m = ground arith

-- A request that `prune` keeps.
abbrev pub is_kept : ℕ → Manager → Request → Bool
is_kept now m r = not (is_expired m.terminal_retention_ms now r)

-- Pruning removes the expired requests and no other.
pub get-prune :
    (now : ℕ) (id : Text) (m : Manager)
    → Dict.IsDistinct m.requests
    → Dict.get id (prune now m).requests ≡ Dict.keep_when (is_kept now m) (Dict.get id m.requests)
unfolding prune
get-prune now id m h = Dict.get-retain (λ _. is_kept now m) id m.requests h

pub prune-IsDistinct :
    (now : ℕ) (m : Manager) → Dict.IsDistinct m.requests → Dict.IsDistinct (prune now m).requests
unfolding prune
prune-IsDistinct now m h = Dict.retain-IsDistinct (λ _. is_kept now m) m.requests h

module _ (now : ℕ) (id : Text) (e : Event) (b : Bool) (f : Request → Outcome ApprovalError Request)
    (m : Manager) where
  -- What `change` answers.
  pub change-result : (change now id e b f m).1 ≡ (find id (prune now m) >>= f)
  unfolding change
  change-result = ground arith

  -- `change` writes its result under its own id, and nothing elsewhere.
  pub get-change :
      (j : Text)
      → Dict.get j (change now id e b f m).0.requests ≡ elim (find id (prune now m) >>= f) [
        | err x ↦ Dict.get j (prune now m).requests
        | ok r ↦ if id == j then some r else Dict.get j (prune now m).requests
      ]
  unfolding change
  get-change j = elim (Outcome-cases (find id (prune now m) >>= f)) [
    | inl (r, p) ↦
        rw (p, change)
          (ap (Dict.get j) (emit-requests e b r _) ∙ Dict.get-set id j r (prune now m).requests)
    | inr (x, p) ↦ rw (p, change)
  ]
