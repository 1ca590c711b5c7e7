-- ===== src/Inputs/Tests.antt =====
-- src/controller/verification-input-manager.mjs: a card that is submitted twice.
use codex_compatible_mcp.Base.{
  ℕ, ◌+◌, ◌≤◌, ◌≡◌, refl, Bool, true, false, Option, none, some, List, [], ◌∷◌, ok, err,
}
use codex_compatible_mcp.Base.Text.{Text, text, text_eq}
use codex_compatible_mcp.Base.Dict
use codex_compatible_mcp.Inputs.Manager.{
  Manager, no_card, prune, get, Session, put, create, overwrite, status, send, submit, failed,
  settled, settle, close,
}
use codex_compatible_mcp.Inputs.Once.{Call, submits, settles, step, run, count, waiting, spent}
use codex_compatible_mcp.Inputs.Runs.{sent_once}

abbrev session : Session
session = record { workspace_handle = text "w"; environment_id = text "e"; workspace_id = text "i" }

abbrev waiting_card : Manager
waiting_card =
    (create 0 0 (text "a") (some session) true (text "w") 1001 (text "code") none
      (record { requests = []; sent = [] })).0

abbrev calls : List Call
calls =
    submits 1 (text "a") (text "123") none true
    ∷ submits 2 (text "a") (text "456") none true
    ∷ settles (text "a") failed
    ∷ submits 3 (text "a") (text "789") none true
    ∷ []

sent_test : (run calls waiting_card).sent ≡ (text "a", text "123") ∷ []
unfolding prune get put create overwrite status send submit settled settle close step run count
    spent Dict.get Dict.set Dict.values Dict.retain Dict.delete
    codex_compatible_mcp.Base.Text.text_beq
sent_test = refl

late_test : (status 14400001 (text "a") none true waiting_card).1 ≡ err no_card
unfolding prune get put create overwrite status send submit settled settle close step run count
    spent Dict.get Dict.set Dict.values Dict.retain Dict.delete
    codex_compatible_mcp.Base.Text.text_beq
late_test = refl

sent_once_example :
    count (text "a") (run calls waiting_card).sent
    ≤ count (text "a") waiting_card.sent + waiting (Dict.get (text "a") waiting_card.requests)
unfolding prune get put create overwrite status send submit settled settle close step run count
    spent Dict.get Dict.set Dict.values Dict.retain Dict.delete
    codex_compatible_mcp.Base.Text.text_beq
sent_once_example = sent_once (text "a") calls waiting_card (tt, (tt, (tt, (tt, tt)))) (refl, tt)
