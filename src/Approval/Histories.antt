-- ===== src/Approval/Histories.antt =====
-- Histories of calls of ApprovalManager. The program runs one method at a time, in any order.
use codex_compatible_mcp.Base.{◌⊎◌, List, [], ◌∷◌}
use codex_compatible_mcp.Approval.Types.{Digests}
use codex_compatible_mcp.Approval.Manager.{Manager, Draws}
use codex_compatible_mcp.Approval.Calls.{Call, step}
use codex_compatible_mcp.Approval.Origins.{IsDistinct, step-IsDistinct}

-- The latest call comes first.
pub data History (digests : Digests) (start : Manager)
    : List (Draws × Call) → Manager → Type 0 where
  begin : History digests start [] start
  next :
      {h : List (Draws × Call)} {m : Manager}
      → History digests start h m
      → (d : Draws) (c : Call) → History digests start ((d, c) ∷ h) (step digests d c m)

-- Some call of the history is such a one.
abbrev pub Had : (Draws → Call → Type 0) → List (Draws × Call) → Type 0
Had P [] = ⊥
Had P ((d, c) ∷ h) = P d c ⊎ Had P h

-- No call of the history is such a one.
abbrev pub HadNo : (Draws → Call → Type 0) → List (Draws × Call) → Type 0
HadNo P [] = Unit
HadNo P ((d, c) ∷ h) = ¬ P d c × HadNo P h

pub History-IsDistinct :
    {digests : Digests} {start m : Manager} {h : List (Draws × Call)}
    → IsDistinct start
    → History digests start h m
    → IsDistinct m
History-IsDistinct s begin = s
History-IsDistinct {digests = g} s (next {m = m} r d c) =
    step-IsDistinct g d m (History-IsDistinct s r) c
