-- ===== src/Approval/Receipts.antt =====
-- src/controller/approval-receipt-store.mjs: the store of receipts. `file` is what its state file
-- holds; a failing write to it is not modelled.
use codex_compatible_mcp.Base.{
  ℕ, ◌+◌, ◌-◌, Bool, true, false, not, ◌&&◌, ◌||◌, Option, none, some, List, [], ◌∷◌, ltb, leb,
  nat_beq, if◌then◌else◌, ◌==◌, length, take, all, Outcome, ok, err,
}
use codex_compatible_mcp.Base.Text.{Text, text, text_eq}
use codex_compatible_mcp.Base.Dict
use codex_compatible_mcp.Base.Dict.{Dict}
use codex_compatible_mcp.Approval.Types.{
  State, pending, approved_retryable, dispatching, consumed, denied, execution_unknown, Kind,
  execution, workspace, Request, Digests, ApprovalError, capability_invalid,
}
use codex_compatible_mcp.Approval.Intents.{
  intent_environment_id, intent_operation, action_workspace_id, truthy,
}

pub record Receipt : Type 0 where
  pub approval_id : Text
  pub operation_id : Text
  pub nonce_hash : Text
  pub host_session : Option Text
  pub kind : Kind
  pub operation : Option Text
  pub environment_id : Text
  pub workspace_id : Option Text
  pub state : State
  pub action_failed : Bool
  pub decision_deny : Bool
  pub output : Option Text
  pub output_truncated : Bool
  pub exit_code : Option ℕ
  pub session_id : Option ℕ
  pub workspace_handle : Option Text
  pub saved_at : ℕ

-- The result of a decided action; an exit code that is no natural number is not modelled.
pub record ActionResult : Type 0 where
  pub state : State
  pub action_failed : Bool
  pub output : Option Text
  pub exit_code : Option ℕ
  pub session_id : Option ℕ
  pub workspace_kind : Option Text
  pub workspace_handle : Option Text

pub record Store : Type 0 where
  pub has_file : Bool
  pub retention_ms : ℕ
  pub max_receipts : ℕ
  pub receipts : Dict Text Receipt
  pub file : Option (List Receipt)

abbrev pub max_receipt_output_chars : ℕ
max_receipt_output_chars = 12000

abbrev pub is_outcome : State → Bool
is_outcome consumed = true
is_outcome denied = true
is_outcome execution_unknown = true
is_outcome pending = false
is_outcome approved_retryable = false
is_outcome dispatching = false

abbrev is_hex_digit : ℕ → Bool
is_hex_digit c = (leb b'a' c && leb c b'f') || (leb b'0' c && leb c b'9')

-- `sameHash`.
unfoldable pub same_hash : Digests → Text → Text → Bool
same_hash digests nonce expected =
    (nat_beq (length expected) 64 && all is_hex_digit expected)
    && digests.of_secret nonce == expected

-- A stable sort by the time of saving.
insert_by_age : Text × Receipt → List (Text × Receipt) → List (Text × Receipt)
insert_by_age e [] = e ∷ []
insert_by_age e (f ∷ fs) =
    if ltb f.1.saved_at e.1.saved_at then f ∷ insert_by_age e fs else e ∷ f ∷ fs

sort_by_age : List (Text × Receipt) → List (Text × Receipt)
unfolding insert_by_age
sort_by_age [] = []
sort_by_age (e ∷ es) = insert_by_age e (sort_by_age es)

delete_all : List (Text × Receipt) → Dict Text Receipt → Dict Text Receipt
delete_all [] m = m
delete_all (e ∷ es) m = delete_all es (Dict.delete e.0 m)

abbrev is_fresh : ℕ → ℕ → Text → Receipt → Bool
is_fresh retention now id r = ltb now (r.saved_at + retention)

unfoldable pub prune : ℕ → Store → Store
unfolding sort_by_age delete_all
prune now s =
    let fresh = Dict.retain (is_fresh s.retention_ms now) s.receipts in
    let excess = length fresh - s.max_receipts in
    record s { receipts = delete_all (take excess (sort_by_age fresh)) fresh }

-- The receipts of the file that are still fresh, later ones over earlier ones of the same id.
load_receipts : ℕ → ℕ → List Receipt → Dict Text Receipt → Dict Text Receipt
load_receipts retention now [] m = m
load_receipts retention now (r ∷ rs) m =
    load_receipts retention now rs
      (if is_fresh retention now r.approval_id r then Dict.set r.approval_id r m else m)

abbrev stored_receipts : Option (List Receipt) → List Receipt
stored_receipts none = []
stored_receipts (some rs) = rs

-- The constructor, with what it reads from the file; entries without an id or a time of saving are
-- not among the receipts of a file here.
unfoldable pub load_store : Bool → ℕ → ℕ → Option (List Receipt) → (loaded_at pruned_at : ℕ) → Store
unfolding prune load_receipts
load_store has_file retention_ms max_receipts file loaded_at pruned_at =
    let empty : Store = record {
      has_file = has_file;
      retention_ms = retention_ms;
      max_receipts = max_receipts;
      receipts = [];
      file = file;
    } in
    let receipts = load_receipts retention_ms loaded_at (stored_receipts file) [] in
    if has_file && Dict.is_some file
    then prune pruned_at (record empty { receipts = receipts })
    else empty

unfoldable pub persist : Store → Store
persist s = if s.has_file then record s { file = some (Dict.values s.receipts) } else s

abbrev when {ℓ} : {A : Type ℓ} → Bool → Option A → Option A
when true o = o
when false o = none

abbrev pub is_execution : Kind → Bool
is_execution execution = true
is_execution workspace = false

abbrev pub is_workspace : Kind → Bool
is_workspace execution = false
is_workspace workspace = true

abbrev is_consumed : State → Bool
is_consumed consumed = true
is_consumed _ = false

abbrev is_denied : State → Bool
is_denied denied = true
is_denied _ = false

abbrev text_is : Option Text → Text → Bool
text_is none t = false
text_is (some s) t = s == t

abbrev clip : Option Text → Option Text
clip none = none
clip (some s) = some (take max_receipt_output_chars s)

abbrev is_clipped : Option Text → Bool
is_clipped none = false
is_clipped (some s) = ltb max_receipt_output_chars (length s)

unfoldable pub receipt_for : Request → Text → ActionResult → ℕ → Receipt
receipt_for r nonce_hash result now =
    let ran = is_execution r.kind && not (is_denied result.state) in
    let done = is_execution r.kind && is_consumed result.state in
    let operation = if is_workspace r.kind then intent_operation r.intent else none in
    let opened =
      is_workspace r.kind
      && (text_is operation (text "select_workspace")
          || text_is operation (text "register_workspace"))
      && is_consumed result.state
      && not result.action_failed
      && text_is result.workspace_kind (text "registered") in
    record {
      approval_id = r.approval_id;
      operation_id = r.operation_id;
      nonce_hash = nonce_hash;
      host_session = truthy r.host_session;
      kind = r.kind;
      operation = operation;
      environment_id = intent_environment_id r.intent;
      workspace_id = truthy (action_workspace_id r.action);
      state = result.state;
      action_failed = result.action_failed;
      decision_deny = is_denied result.state;
      output = when ran (clip result.output);
      output_truncated = ran && is_clipped result.output;
      exit_code = when done result.exit_code;
      session_id = when done result.session_id;
      workspace_handle = when opened result.workspace_handle;
      saved_at = now;
    }

-- `saved_at` is the reading of the clock for the receipt, `pruned_at` the later one of `#prune`.
unfoldable pub save : ℕ → ℕ → Request → ActionResult → Store → Store
save saved_at pruned_at r result s =
    if is_outcome result.state
    then elim r.approval_nonce_hash [
      | none ↦ s
      | some h ↦
          let receipt = receipt_for r h result saved_at in
          persist (
            prune pruned_at
              (record s { receipts = Dict.set receipt.approval_id receipt s.receipts }))
    ]
    else s

-- `receipt.host_session && receipt.host_session !== String(hostSession || '')`.
abbrev pub foreign_session : Option Text → Option Text → Bool
foreign_session bound given = elim (truthy bound) [
  | none ↦ false
  | some s ↦ not (s == elim given [ none ↦ [] | some g ↦ g ])
]

-- The receipt is handed out without its nonce hash, host session and time; the model keeps the
-- record whole.
unfoldable pub read :
    Digests → ℕ → Text → Text → Option Text → Store → Store × Outcome ApprovalError (Option Receipt)
read digests now approval_id nonce host_session s0 =
    let s = prune now s0 in
    (
      s,
      elim (Dict.get approval_id s.receipts) [
        | none ↦ ok none
        | some receipt ↦
            if not (same_hash digests nonce receipt.nonce_hash)
              || foreign_session receipt.host_session host_session
            then err capability_invalid
            else ok (some receipt)
      ],
    )
