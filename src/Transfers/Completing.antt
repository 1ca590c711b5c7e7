-- ===== src/Transfers/Completing.antt =====
-- src/controller/transfer-task-manager.mjs: the calls of a transfer from its reservation to its commit.
use codex_compatible_mcp.Base.{
  ◌≡◌, refl, ap, ◌∙◌, true, false, not, ◌&&◌, none, some, List, [], ◌∷◌, ◌++◌, is_empty,
}
use codex_compatible_mcp.Transfers.Tasks.{
  Manifest, WorkerCall, reserve, commit, Workers, transferring, completed, worker_failed,
  empty_manifest, into_itself, Task, ◌then_run◌, called, throw_unless, measured, check_cancelled,
  copy_entries, begin_transfer, commit_transfer, transfer,
}
use codex_compatible_mcp.Transfers.Calling.{
  Entries, Adds, Adds-after, Adds-then, Nothing, same_calls, Nothing-then, ends_quiet,
  unless-Nothing,
}
use codex_compatible_mcp.Transfers.Copies.{cancelled-Nothing, copy_entries-Adds}

module _ (w : Workers) where
  -- The calls of a transfer that is completed, behind the inspection.
  abbrev pub TransferCalls : Manifest → List WorkerCall → Type 0
  TransferCalls m cs =
      (fs : List WorkerCall) × Entries w 0 m.entries fs × (cs ≡ (reserve ∷ fs) ++ (commit ∷ []))

  begin_transfer-Adds : (t : Task) → Adds (λ cs. cs ≡ reserve ∷ []) t (begin_transfer w t)
  unfolding begin_transfer
  begin_transfer-Adds t =
      let asked = called reserve (record t { reserve_attempted = true }) in
      ends_quiet (λ cs. cs ≡ reserve ∷ []) t (throw_unless w.reserved worker_failed asked)
        (λ u. (record u { state = transferring }, none))
        (Adds-after Nothing (λ cs. cs ≡ reserve ∷ []) t asked (reserve ∷ [])
          (throw_unless w.reserved worker_failed asked) refl
          (λ ds none_more. ap (λ l. reserve ∷ l) none_more)
          (unless-Nothing w.reserved worker_failed asked))
        (λ u. ([], same_calls u, refl))

  commit_transfer-Adds : (t : Task) → Adds (λ cs. cs ≡ commit ∷ []) t (commit_transfer w t)
  unfolding commit_transfer
  commit_transfer-Adds t =
      ends_quiet (λ cs. cs ≡ commit ∷ []) t
        (throw_unless w.committed worker_failed (called commit t))
        (λ u. (record u { reserve_attempted = false; state = completed }, none))
        (Adds-after Nothing (λ cs. cs ≡ commit ∷ []) t (called commit t) (commit ∷ [])
          (throw_unless w.committed worker_failed (called commit t)) refl
          (λ ds none_more. ap (λ l. commit ∷ l) none_more)
          (unless-Nothing w.committed worker_failed (called commit t)))
        (λ u. ([], same_calls u, refl))

  pub transfer-Adds : (m : Manifest) (t : Task) → Adds (TransferCalls m) t (transfer w (some m) t)
  unfolding transfer
  transfer-Adds m t =
      let full = throw_unless (not (is_empty m.entries)) empty_manifest in
      let apart = throw_unless (not (m.is_dir && w.is_inside)) into_itself in
      let a = check_cancelled w t then_run full in
      let b = a then_run apart in
      let c = b then_run measured m in
      let d = c then_run check_cancelled w in
      let e = d then_run begin_transfer w in
      let f = e then_run copy_entries w 0 m.entries in
      let g = f then_run check_cancelled w in
      let Copying = λ (cs : List WorkerCall).
        (fs : List WorkerCall) × Entries w 0 m.entries fs × (cs ≡ reserve ∷ fs) in
      let a_adds : Adds Nothing t a =
        ends_quiet Nothing t (check_cancelled w t) full (cancelled-Nothing w t)
          (unless-Nothing (not (is_empty m.entries)) empty_manifest) in
      let b_adds : Adds Nothing t b =
        ends_quiet Nothing t a apart a_adds
          (unless-Nothing (not (m.is_dir && w.is_inside)) into_itself) in
      let c_adds : Adds Nothing t c =
        ends_quiet Nothing t b (measured m) b_adds (λ u. ([], same_calls u, refl)) in
      let d_adds : Adds Nothing t d =
        ends_quiet Nothing t c (check_cancelled w) c_adds (cancelled-Nothing w) in
      let e_adds : Adds (λ cs. cs ≡ reserve ∷ []) t e =
        Nothing-then (λ cs. cs ≡ reserve ∷ []) t d (begin_transfer w) d_adds begin_transfer-Adds in
      let f_adds : Adds Copying t f =
        Adds-then (λ cs. cs ≡ reserve ∷ []) (Entries w 0 m.entries) Copying t e
          (copy_entries w 0 m.entries) e_adds (copy_entries-Adds w 0 m.entries)
          (λ cs ds reserved copied. (ds, copied, ap (λ l. l ++ ds) reserved)) in
      let g_adds : Adds Copying t g =
        ends_quiet Copying t f (check_cancelled w) f_adds (cancelled-Nothing w) in
      Adds-then Copying (λ cs. cs ≡ commit ∷ []) (TransferCalls m) t g (commit_transfer w) g_adds
        commit_transfer-Adds
        (λ cs ds (fs, copied, calls) committed.
          (fs, copied, ap (λ l. l ++ ds) calls ∙ ap (λ l. (reserve ∷ fs) ++ l) committed))
