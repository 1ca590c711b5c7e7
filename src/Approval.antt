-- ===== src/Approval.antt =====
-- src/controller/approval-manager.mjs and approval-receipt-store.mjs: the requests that wait for a
-- decision of the user, the cards that carry the decision, and the receipts of what was decided.
pub mod Types
pub mod Intents
pub mod Receipts
pub mod Manager
pub mod Cards
pub mod Status
pub mod Calls
pub mod Lookup
pub mod Changes
pub mod Advances
pub mod Fates
pub mod Steps
pub mod Origins
pub mod Histories
pub mod Authority
pub mod Answers
pub mod Frozen
pub mod Exclusion
mod Tests
