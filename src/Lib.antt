-- ===== src/Lib.antt =====
-- Verification of the parts of the program that decide what a client may do, and what it changes.
--
-- The program is a server of tools for a language model. A client asks for a command, a patch or an
-- action on a workspace; what needs consent waits for an approval card that a person answers, or for
-- an unlock of full access on a web page. The registry leads a tool's name to its handler; the
-- handlers run commands through the process manager, and change files through apply_patch. A code
-- that a command waits for is typed into a card of the verification input manager. A command whose
-- segments match rules of the execution policy needs no card, nor does a package script that was
-- trusted as it is. Handles name the workspaces that a
-- client works in; files go from one to another as transfer tasks, and to the client through the file
-- store.
--
-- Base: what all modules share: native numbers, lists (Base.Lists), Boolean tests and equality as an
--   interface (Base.Tests), calls that may throw (Base.Outcomes), JavaScript strings as lists of
--   UTF-16 code units (Base.Text), and Maps in their order of insertion (Base.Dict).
-- Approval: src/controller/approval-manager.mjs, the class ApprovalManager with all its methods, over
--   src/controller/approval-receipt-store.mjs. Types holds the requests, Intents what is frozen of the
--   arguments and shown, Receipts the store of receipts, Manager the requests' life, Cards the claims,
--   denials and marks, Status what a card reads; Calls is one call of a method, and Histories runs of
--   calls. Lookup, Changes, Advances, Fates, Steps, Origins, Authority, Answers, Frozen and Exclusion
--   hold the proofs.
-- Patch: src/runtime/filesystem/apply-patch.mjs. Types and Parse are parsePatch, Seek findSequence,
--   Update applyUpdateText and applySingleFilePatchToText, Writable the check of paths, Files the
--   staging of hunks and the operations on the disk. Sequence and Whole hold the specification that
--   carries out one hunk after the other, and Separate what node:fs does with paths that name separate
--   files; Fuel, Found, Search, Chunks, Edits, Ancestor, Staging, Refinement, Rounds, Targets,
--   Operations, Flushing and Cuts hold the proofs.
-- Access: src/controller/web-full-access.mjs. Unlock is the class WebFullAccess; Claims, Grants and
--   Budget hold the proofs.
-- Process: src/runtime/process-manager.mjs and src/runtime/output-budget.mjs. Output is the budget,
--   Types and Manager the records and sessions, Sessions the answers and the steps; Ids, Live, Sound,
--   Steps and Delivery hold the proofs. A method that awaits an exit is cut into steps there, and the
--   callbacks of children and timers are steps of their own, in any order.
-- Tools: src/tools/tool-registry.mjs. Registry is the class ToolRegistry; Names and Resolve hold the
--   proofs.
-- Inputs: src/controller/verification-input-manager.mjs. Manager is the class VerificationInputManager,
--   with submit cut in two where it awaits the process manager; Once and Runs hold the proofs.
-- Plans: src/controller/plan-manager.mjs, splitLines and boundedSlice. Slice holds them; Pages and
--   Whole hold the proofs.
-- Policy: src/runtime/sandbox/shell-policy-parser.mjs and src/controller/exec-policy-store.mjs. Shell,
--   Tokens, Sources, Parse and Commands are the parser: the shell, the tokens of a segment, the parts
--   of the loop over a command, that loop, and parseShellCommand; Store and Grants are the class
--   ExecPolicyStore, which takes the parser's segments; Scripts and Trust are
--   src/controller/package-script-policy.mjs and src/controller/trusted-package-script-store.mjs.
--   Prefixes, Matching, Allowing, Saving, Trims, Places, Turns, Bound, Lowered, Quoting, Trusted and
--   Exact hold the proofs.
-- Handles: src/controller/workspace-handle-manager.mjs. Manager is the class WorkspaceHandleManager;
--   Revoking and Restart hold the proofs.
-- Transfers: Files is src/controller/file-transfer-store.mjs, the class FileTransferStore, with the
--   proofs in Accounting, Calls, Readers and Reading; Tasks and Manager are the run of a task and the
--   other methods of src/controller/transfer-task-manager.mjs, with the proofs in Copying, Calling,
--   Copies, Completing, Outcome and Limit.
-- The modules named Tests, other than Base.Tests, run the definitions on concrete values.
--
-- Bounds and fuel: parse_patch allows a round for each line, as each round reads one. free_id allows
-- twice the number of sessions and two more, as the ids wrap around at most once while the sessions
-- are fewer than the ids. nearest_ancestor allows one round more than the path has code units, as
-- each parent is shorter. copy_chunks allows a round for each byte of a file, as each chunk has one at
-- least; evict_loop one for each entry, as each round removes one. Times and
-- identifiers are numbers without bound, as they stay far below 2^53 in the program.
--
-- Parameters: digests (SHA-256), random identifiers and readings of the clock, node:path and the file
-- system that a patch changes, the encoding of a Buffer, the child that an executor starts, the native
-- parser of PowerShell, and the answers of the workers. What is shown of a patch's operations is under
-- the hypothesis Patch.Separate.IsSeparate: the targets name separate files, no link or other spelling
-- of one another and none within another, and may be written.
--
-- Not modelled: input and output of the network, the worker hub and remote processes, the native
-- programs and user interfaces; the search of the tool registry and JSON schemas; the files and the
-- search of plans; malformed entries of a file of receipts, and writes of files that fail, but for those
-- of a patch, of the execution policy, of the trusted scripts and of the workspace handles; the letters
-- beyond ASCII in the name of a shell.
pub mod Base
pub mod Approval
pub mod Patch
pub mod Access
pub mod Process
pub mod Tools
pub mod Inputs
pub mod Plans
pub mod Policy
pub mod Handles
pub mod Transfers
