-- ===== src/Transfers/Calling.antt =====
-- src/controller/transfer-task-manager.mjs: the calls to the workers that a transfer makes.
use codex_compatible_mcp.Base.{
  ℕ, suc, ◌+◌, ◌≤◌, ◌<◌, ◌≡◌, refl, sym, ap, subst, ◌∙◌, Bool, true, false, none, some, List, [],
  ◌∷◌, ◌++◌,
}
use codex_compatible_mcp.Base.Text.{Text}
use codex_compatible_mcp.Transfers.Tasks.{
  Item, WorkerCall, read, write, digest, finish, Workers, TransferError, Task, transfer_chunk_bytes,
  Ran, ◌then_run◌, throw_unless,
}
use mathlib.Core.List.{append_assoc, append-nil}

-- The calls that copy a file from an offset to its end: each chunk is read where the one before ended,
-- comes with the length that was asked for, and is written as it was read, at the same place.
pub data Copied (w : Workers) (index size : ℕ) : ℕ → List WorkerCall → Type 0 where
  at_end : Copied w index size size []
  chunk :
      (offset len : ℕ) (content : Text) (cs : List WorkerCall)
      → 0 < len
      → len ≤ transfer_chunk_bytes
      → w.chunk index offset len ≡ some (len, content)
      → w.accepted index offset content ≡ some (offset + len)
      → Copied w index size (offset + len) cs
      → Copied w index size offset (read index offset len ∷ write index offset content ∷ cs)

-- The calls for the entries of a manifest from an index on: each file is copied from its beginning,
-- and finished with the digest that a worker gave for it.
pub data Entries (w : Workers) : ℕ → List Item → List WorkerCall → Type 0 where
  no_more : (index : ℕ) → Entries w index [] []
  directory :
      (index : ℕ) (e : Item) (es : List Item) (cs : List WorkerCall)
      → e.is_file ≡ false
      → Entries w (suc index) es cs
      → Entries w index (e ∷ es) cs
  a_file :
      (index : ℕ) (e : Item) (es : List Item) (fs : List WorkerCall) (sha256 : Text)
      (cs : List WorkerCall)
      → e.is_file ≡ true
      → Copied w index e.size 0 fs
      → w.digested index ≡ some sha256
      → w.finished index sha256 ≡ true
      → Entries w (suc index) es cs
      → Entries w index (e ∷ es) ((fs ++ (digest index ∷ finish index sha256 ∷ [])) ++ cs)

-- What a part of the run that did not throw adds to the calls.
abbrev pub Adds : (List WorkerCall → Type 0) → Task → Ran → Type 0
Adds R t (u, none) = (cs : List WorkerCall) × (u.calls ≡ t.calls ++ cs) × R cs
Adds R t (u, some e) = Unit

pub Adds-after :
    (S Q : List WorkerCall → Type 0) (t u : Task) (cs : List WorkerCall) (x : Ran)
    → u.calls ≡ t.calls ++ cs
    → ((ds : List WorkerCall) → S ds → Q (cs ++ ds))
    → Adds S u x
    → Adds Q t x
Adds-after S Q t u cs (v, none) e join (ds, f, s) =
    (cs ++ ds, f ∙ ap (λ l. l ++ ds) e ∙ append_assoc t.calls cs ds, join ds s)
Adds-after S Q t u cs (v, some x) e join a = tt

pub Adds-then :
    (R S Q : List WorkerCall → Type 0) (t : Task) (x : Ran) (f : Task → Ran)
    → Adds R t x
    → ((u : Task) → Adds S u (f u))
    → ((cs ds : List WorkerCall) → R cs → S ds → Q (cs ++ ds))
    → Adds Q t (x then_run f)
Adds-then R S Q t (u, none) f (cs, e, r) next join =
    Adds-after S Q t u cs (f u) e (λ ds s. join cs ds r s) (next u)
Adds-then R S Q t (u, some e) f a next join = tt

abbrev pub Nothing : List WorkerCall → Type 0
Nothing cs = cs ≡ []

pub same_calls : (t : Task) → t.calls ≡ t.calls ++ []
same_calls t = sym (append-nil t.calls)

pub unless-Adds :
    (P : Type 0) (b : Bool) (e : TransferError) (t : Task)
    → (b ≡ true → P)
    → Adds (λ cs. (cs ≡ []) × P) t (throw_unless b e t)
unless-Adds P true e t p = ([], same_calls t, (refl, p refl))
unless-Adds P false e t p = tt

pub Nothing-then :
    (Q : List WorkerCall → Type 0) (t : Task) (x : Ran) (f : Task → Ran)
    → Adds Nothing t x
    → ((u : Task) → Adds Q u (f u))
    → Adds Q t (x then_run f)
Nothing-then Q t x f a next =
    Adds-then Nothing Q Q t x f a next (λ cs ds r s. subst (λ l. Q (l ++ ds)) (sym r) s)

pub ends_quiet :
    (Q : List WorkerCall → Type 0) (t : Task) (x : Ran) (f : Task → Ran)
    → Adds Q t x
    → ((u : Task) → Adds Nothing u (f u))
    → Adds Q t (x then_run f)
ends_quiet Q t x f a next =
    Adds-then Q Nothing Q t x f a next
      (λ cs ds q s. subst (λ l. Q (cs ++ l)) (sym s) (subst Q (sym (append-nil cs)) q))

pub unless-Nothing : (b : Bool) (e : TransferError) (t : Task) → Adds Nothing t (throw_unless b e t)
unless-Nothing true e t = ([], same_calls t, refl)
unless-Nothing false e t = tt
