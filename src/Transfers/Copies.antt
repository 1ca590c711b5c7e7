-- ===== src/Transfers/Copies.antt =====
-- src/controller/transfer-task-manager.mjs: the calls to the workers that copy the files.
use codex_compatible_mcp.Base.{
  ℕ, zero, suc, ◌+◌, ◌-◌, ◌≤◌, ◌<◌, ◌≡◌, refl, sym, ap, subst, ◌∙◌, inl, inr, min, true, not,
  Option, none, some, List, [], ◌∷◌, ◌++◌, ltb, nat_beq, if◌then◌else◌, length, arith, Bool-cases,
  ltb→lt,
}
use codex_compatible_mcp.Base.Text.{Text}
use codex_compatible_mcp.Transfers.Tasks.{
  Item, WorkerCall, read, write, digest, finish, Workers, transfer_cancelled, worker_failed,
  length_mismatch, offset_mismatch, Task, transfer_chunk_bytes, ◌then_run◌, called, throw_unless,
  check_cancelled, count_bytes, accept, write_chunk, pass_chunk, read_chunk, copy_chunk,
  copy_chunks, count_file, finish_file, check_file, copy_file, copy_entries,
}
use codex_compatible_mcp.Transfers.Calling.{
  Copied, at_end, chunk, Entries, no_more, directory, a_file, Adds, Adds-after, Adds-then, Nothing,
  same_calls, unless-Adds, Nothing-then, ends_quiet, unless-Nothing,
}

module _ (w : Workers) where
  pub cancelled-Nothing : (t : Task) → Adds Nothing t (check_cancelled w t)
  unfolding check_cancelled
  cancelled-Nothing t = unless-Nothing (not (w.is_cancelled (length t.calls))) transfer_cancelled t

  accept-Adds :
      (offset len : ℕ) (reached : Option ℕ) (t : Task)
      → Adds (λ cs. (cs ≡ []) × (reached ≡ some (offset + len))) t (accept w offset len reached t)
  unfolding accept
  accept-Adds offset len none t = tt
  accept-Adds offset len (some reached) t =
      ends_quiet (λ cs. (cs ≡ []) × (some reached ≡ some (offset + len))) t
        (throw_unless (nat_beq reached (offset + len)) offset_mismatch t) (count_bytes len)
        (unless-Adds (some reached ≡ some (offset + len)) (nat_beq reached (offset + len))
          offset_mismatch t (λ e. ground (arith, e)))
        (λ u. ([], same_calls u, refl))

  -- The two calls for a chunk.
  abbrev ChunkCalls : (index offset len : ℕ) → List WorkerCall → Type 0
  ChunkCalls index offset len cs =
      (content : Text) × (w.chunk index offset len ≡ some (len, content))
      × (w.accepted index offset content ≡ some (offset + len))
      × (cs ≡ read index offset len ∷ write index offset content ∷ [])

  write_chunk-Adds :
      (index offset len : ℕ) (content : Text) (t : Task)
      → Adds
          (λ cs.
            (w.accepted index offset content ≡ some (offset + len))
            × (cs ≡ write index offset content ∷ []))
          t
          (write_chunk w index offset len content t)
  unfolding write_chunk
  write_chunk-Adds index offset len content t =
      let given = w.accepted index offset content in
      Adds-after (λ cs. (cs ≡ []) × (given ≡ some (offset + len)))
        (λ cs. (given ≡ some (offset + len)) × (cs ≡ write index offset content ∷ [])) t
        (called (write index offset content) t) (write index offset content ∷ [])
        (accept w offset len given (called (write index offset content) t)) refl
        (λ ds (none_more, fits). (fits, ap (λ l. write index offset content ∷ l) none_more))
        (accept-Adds offset len given (called (write index offset content) t))

  pass_chunk-Adds :
      (index offset len : ℕ) (given : Option (ℕ × Text)) (t : Task)
      → Adds
          (λ cs.
            (content : Text) × (given ≡ some (len, content))
            × (w.accepted index offset content ≡ some (offset + len))
            × (cs ≡ write index offset content ∷ []))
          t
          (pass_chunk w index offset len given t)
  unfolding pass_chunk
  pass_chunk-Adds index offset len none t = tt
  pass_chunk-Adds index offset len (some (got, content)) t =
      let fits = throw_unless (nat_beq got len) length_mismatch in
      let Same : Type 0 = some (got, content) ≡ some (len, content) in
      let Wrote = λ (cs : List WorkerCall).
        (w.accepted index offset content ≡ some (offset + len))
        × (cs ≡ write index offset content ∷ []) in
      Adds-then (λ cs. (cs ≡ []) × Same) Wrote _ t (check_cancelled w t then_run fits)
        (write_chunk w index offset len content)
        (Nothing-then (λ cs. (cs ≡ []) × Same) t (check_cancelled w t) fits (cancelled-Nothing t)
          (λ u. unless-Adds Same (nat_beq got len) length_mismatch u (λ e. ground (arith, e))))
        (write_chunk-Adds index offset len content)
        (λ cs ds (empty, same) (accepted, wrote).
          (content, same, accepted, ap (λ l. l ++ ds) empty ∙ wrote))

  copy_chunk-Adds :
      (index offset len : ℕ) (t : Task)
      → Adds (ChunkCalls index offset len) t (copy_chunk w index offset len t)
  unfolding copy_chunk read_chunk
  copy_chunk-Adds index offset len t =
      Nothing-then (ChunkCalls index offset len) t (check_cancelled w t)
        (read_chunk w index offset len) (cancelled-Nothing t)
        (λ u.
          Adds-after _ (ChunkCalls index offset len) u (called (read index offset len) u)
            (read index offset len ∷ [])
            (pass_chunk w index offset len (w.chunk index offset len)
              (called (read index offset len) u))
            refl
            (λ ds (content, given, accepted, wrote).
              (content, given, accepted, ap (λ l. read index offset len ∷ l) wrote))
            (pass_chunk-Adds index offset len (w.chunk index offset len)
              (called (read index offset len) u)))

  copy_chunks-Adds :
      (fuel index size offset : ℕ) (t : Task)
      → offset ≤ size
      → Adds (Copied w index size offset) t (copy_chunks w fuel index size offset t)
  unfolding copy_chunks
  copy_chunks-Adds zero index size offset t within = elim (Bool-cases (ltb offset size)) [
    | inl more ↦ rw (more, copy_chunks) tt
    | inr done ↦
        let same : size ≡ offset = ground (arith, done) in
        rw (done, copy_chunks) ([], same_calls t, subst (λ o. Copied w index size o []) same at_end)
  ]
  copy_chunks-Adds (suc fuel) index size offset t within = elim (Bool-cases (ltb offset size)) [
    | inr done ↦
        let same : size ≡ offset = ground (arith, done) in
        rw (done, copy_chunks) ([], same_calls t, subst (λ o. Copied w index size o []) same at_end)
    | inl more ↦
        let len = min transfer_chunk_bytes (size - offset) in
        let before : offset < size = ltb→lt offset size more in
        rw (more, copy_chunks)
          (Adds-then (ChunkCalls index offset len) (Copied w index size (offset + len))
            (Copied w index size offset) t (copy_chunk w index offset len t)
            (copy_chunks w fuel index size (offset + len)) (copy_chunk-Adds index offset len t)
            (λ u. copy_chunks-Adds fuel index size (offset + len) u (omega arith))
            (λ cs ds (content, given, accepted, calls) rest.
              subst (λ l. Copied w index size offset (l ++ ds)) (sym calls)
                (chunk offset len content ds (omega arith) (omega arith) given accepted rest)))
  ]

  -- The calls for a file.
  abbrev FileCalls : (index size : ℕ) → List WorkerCall → Type 0
  FileCalls index size cs =
      (fs : List WorkerCall) × (sha256 : Text) × Copied w index size 0 fs
      × (w.digested index ≡ some sha256)
      × (w.finished index sha256 ≡ true)
      × (cs ≡ fs ++ (digest index ∷ finish index sha256 ∷ []))

  finish_file-Adds :
      (index : ℕ) (sha : Option Text) (t : Task)
      → Adds
          (λ cs.
            (sha256 : Text) × (sha ≡ some sha256)
            × (w.finished index sha256 ≡ true)
            × (cs ≡ finish index sha256 ∷ []))
          t
          (finish_file w index sha t)
  unfolding finish_file
  finish_file-Adds index none t = tt
  finish_file-Adds index (some sha256) t =
      let Done : Type 0 = w.finished index sha256 ≡ true in
      let after = called (finish index sha256) t in
      ends_quiet _ t (throw_unless (w.finished index sha256) worker_failed after) count_file
        (Adds-after (λ cs. (cs ≡ []) × Done) _ t after (finish index sha256 ∷ [])
          (throw_unless (w.finished index sha256) worker_failed after) refl
          (λ ds (none_more, done).
            (sha256, refl, done, ap (λ l. finish index sha256 ∷ l) none_more))
          (unless-Adds Done (w.finished index sha256) worker_failed after (λ e. e)))
        (λ u. ([], same_calls u, refl))

  copy_file-Adds :
      (index size : ℕ) (t : Task) → Adds (FileCalls index size) t (copy_file w index size t)
  unfolding copy_file check_file
  copy_file-Adds index size t =
      let Finished = λ (cs : List WorkerCall).
        (sha256 : Text) × (w.digested index ≡ some sha256)
        × (w.finished index sha256 ≡ true)
        × (cs ≡ digest index ∷ finish index sha256 ∷ []) in
      Adds-then (Copied w index size 0) Finished (FileCalls index size) t
        (copy_chunks w size index size 0 t then_run check_cancelled w) (check_file w index)
        (ends_quiet (Copied w index size 0) t (copy_chunks w size index size 0 t)
          (check_cancelled w) (copy_chunks-Adds size index size 0 t (omega arith))
          cancelled-Nothing)
        (λ u.
          Adds-after _ Finished u (called (digest index) u) (digest index ∷ [])
            (finish_file w index (w.digested index) (called (digest index) u)) refl
            (λ ds (sha256, is, done, calls). (sha256, is, done, ap (λ l. digest index ∷ l) calls))
            (finish_file-Adds index (w.digested index) (called (digest index) u)))
        (λ cs ds copied (sha256, is, done, calls).
          (cs, sha256, copied, is, done, ap (λ l. cs ++ l) calls))

  pub copy_entries-Adds :
      (index : ℕ) (es : List Item) (t : Task)
      → Adds (Entries w index es) t (copy_entries w index es t)
  unfolding copy_entries
  copy_entries-Adds index [] t = ([], same_calls t, no_more index)
  copy_entries-Adds index (e ∷ es) t = elim (Bool-cases e.is_file) [
    | inr folder ↦
        subst
          (λ b. Adds (Entries w index (e ∷ es)) t (
            (if b then copy_file w index e.size t else (t, none))
            then_run copy_entries w (suc index) es))
          (sym folder)
          (Adds-after (Entries w (suc index) es) (Entries w index (e ∷ es)) t t []
            (copy_entries w (suc index) es t) (same_calls t)
            (λ ds rest. directory index e es ds folder rest) (copy_entries-Adds (suc index) es t))
    | inl is_one ↦
        subst
          (λ b. Adds (Entries w index (e ∷ es)) t (
            (if b then copy_file w index e.size t else (t, none))
            then_run copy_entries w (suc index) es))
          (sym is_one)
          (Adds-then (FileCalls index e.size) (Entries w (suc index) es) (Entries w index (e ∷ es))
            t (copy_file w index e.size t) (copy_entries w (suc index) es)
            (copy_file-Adds index e.size t) (copy_entries-Adds (suc index) es)
            (λ cs ds (fs, sha256, copied, is, done, calls) rest.
              subst (λ l. Entries w index (e ∷ es) (l ++ ds)) (sym calls)
                (a_file index e es fs sha256 ds is_one copied is done rest)))
  ]
