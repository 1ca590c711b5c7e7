-- ===== src/Transfers/Copying.antt =====
-- src/controller/transfer-task-manager.mjs: what a task has done at each point of its run.
use codex_compatible_mcp.Base.{
  ℕ, zero, suc, ◌+◌, ◌-◌, ◌≤◌, ◌<◌, ◌≡◌, ◌≢◌, refl, sym, ap, subst, ◌∙◌, inl, inr, min, Bool, true,
  false, not, ◌||◌, Option, none, some, List, [], ◌∷◌, ◌++◌, ltb, nat_beq, length, any, arith,
  Bool-cases, ltb→lt,
}
use codex_compatible_mcp.Base.Text.{Text}
use codex_compatible_mcp.Transfers.Tasks.{
  Item, WorkerCall, reserve, read, write, digest, finish, abort, Workers, TransferError,
  transfer_cancelled, worker_failed, length_mismatch, offset_mismatch, out_of_fuel, Task,
  transfer_chunk_bytes, Ran, ◌then_run◌, called, throw_unless, check_cancelled, count_bytes, accept,
  write_chunk, pass_chunk, read_chunk, copy_chunk, copy_chunks, count_file, finish_file, check_file,
  copy_file, copy_entries, file_items, sum_sizes,
}

abbrev pub is_reserve : WorkerCall → Bool
is_reserve reserve = true
is_reserve _ = false

abbrev pub is_abort : WorkerCall → Bool
is_abort abort = true
is_abort _ = false

-- Where a task stands: whether it has asked for a reservation, what it is to copy, and what it has
-- copied; it has sent no abort.
pub record At (reserved : Bool) (total count bytes files : ℕ) (t : Task) : Type 0 where
  pub attempted : t.reserve_attempted ≡ reserved
  pub asked : any is_reserve t.calls ≡ reserved
  pub kept : any is_abort t.calls ≡ false
  pub quiet : t.error ≡ none
  pub total_is : t.total_bytes ≡ total
  pub count_is : t.file_count ≡ count
  pub bytes_are : t.transferred_bytes ≡ bytes
  pub files_are : t.completed_files ≡ files

-- A part of the run that threw: an abort is owed exactly if a reservation was asked for.
pub record Thrown (t : Task) (e : TransferError) : Type 0 where
  pub owed : t.reserve_attempted ≡ any is_reserve t.calls
  pub kept : any is_abort t.calls ≡ false
  pub fueled : e ≢ out_of_fuel

abbrev pub Ends : (Task → Type 0) → Ran → Type 0
Ends P (t, none) = P t
Ends P (t, some e) = Thrown t e

pub Ends-then :
    (P Q : Task → Type 0) (r : Ran) (f : Task → Ran)
    → Ends P r
    → ((t : Task) → P t → Ends Q (f t))
    → Ends Q (r then_run f)
Ends-then P Q (t, none) f h next = next t h
Ends-then P Q (t, some e) f h next = h

pub any-snoc :
    (p : WorkerCall → Bool) (cs : List WorkerCall) (c : WorkerCall)
    → p c ≡ false
    → any p (cs ++ (c ∷ [])) ≡ any p cs
any-snoc p [] c h = rw h refl
any-snoc p (d ∷ cs) c h = ap (◌||◌ (p d)) (any-snoc p cs c h)

module _ {reserved : Bool} {total count bytes files : ℕ} where
  pub called-At :
      (c : WorkerCall) (t : Task)
      → is_reserve c ≡ false
      → is_abort c ≡ false
      → At reserved total count bytes files t
      → At reserved total count bytes files (called c t)
  called-At c t quiet kept h = record {
    attempted = h.attempted;
    asked = any-snoc is_reserve t.calls c quiet ∙ h.asked;
    kept = any-snoc is_abort t.calls c kept ∙ h.kept;
    quiet = h.quiet;
    total_is = h.total_is;
    count_is = h.count_is;
    bytes_are = h.bytes_are;
    files_are = h.files_are;
  }

  pub throws :
      (e : TransferError) (t : Task)
      → e ≢ out_of_fuel
      → At reserved total count bytes files t
      → Thrown t e
  throws e t fueled h = record { owed = h.attempted ∙ sym h.asked; kept = h.kept; fueled = fueled }

  pub throw_unless-Ends :
      (b : Bool) (e : TransferError) (t : Task)
      → e ≢ out_of_fuel
      → At reserved total count bytes files t
      → Ends (At reserved total count bytes files) (throw_unless b e t)
  throw_unless-Ends true e t fueled h = h
  throw_unless-Ends false e t fueled h = throws e t fueled h

  pub check_cancelled-Ends :
      (w : Workers) (t : Task)
      → At reserved total count bytes files t
      → Ends (At reserved total count bytes files) (check_cancelled w t)
  unfolding check_cancelled
  check_cancelled-Ends w t h =
      throw_unless-Ends (not (w.is_cancelled (length t.calls))) transfer_cancelled t
        (λ e. absurd cc) h

  pub accept-Ends :
      (w : Workers) (offset len : ℕ) (reached : Option ℕ) (t : Task)
      → At reserved total count bytes files t
      → Ends (At reserved total count (bytes + len) files) (accept w offset len reached t)
  unfolding accept
  accept-Ends w offset len none t h = throws worker_failed t (λ e. absurd cc) h
  accept-Ends w offset len (some reached) t h =
      Ends-then (At reserved total count bytes files) (At reserved total count (bytes + len) files)
        (throw_unless (nat_beq reached (offset + len)) offset_mismatch t) (count_bytes len)
        (throw_unless-Ends (nat_beq reached (offset + len)) offset_mismatch t (λ e. absurd cc) h)
        (λ u g. record {
          attempted = g.attempted;
          asked = g.asked;
          kept = g.kept;
          quiet = g.quiet;
          total_is = g.total_is;
          count_is = g.count_is;
          bytes_are = ap (λ n. n + len) g.bytes_are;
          files_are = g.files_are;
        })

  pub pass_chunk-Ends :
      (w : Workers) (index offset len : ℕ) (chunk : Option (ℕ × Text)) (t : Task)
      → At reserved total count bytes files t
      → Ends (At reserved total count (bytes + len) files) (pass_chunk w index offset len chunk t)
  unfolding pass_chunk write_chunk
  pass_chunk-Ends w index offset len none t h = throws worker_failed t (λ e. absurd cc) h
  pass_chunk-Ends w index offset len (some (given, content)) t h =
      let here = At reserved total count bytes files in
      let fits = throw_unless (nat_beq given len) length_mismatch in
      Ends-then here (At reserved total count (bytes + len) files)
        (check_cancelled w t then_run fits) (write_chunk w index offset len content)
        (Ends-then here here (check_cancelled w t) fits (check_cancelled-Ends w t h)
          (λ u g. throw_unless-Ends (nat_beq given len) length_mismatch u (λ e. absurd cc) g))
        (λ u g.
          accept-Ends w offset len (w.accepted index offset content)
            (called (write index offset content) u)
            (called-At (write index offset content) u refl refl g))

  pub copy_chunk-Ends :
      (w : Workers) (index offset len : ℕ) (t : Task)
      → At reserved total count bytes files t
      → Ends (At reserved total count (bytes + len) files) (copy_chunk w index offset len t)
  unfolding copy_chunk read_chunk
  copy_chunk-Ends w index offset len t h =
      Ends-then (At reserved total count bytes files) (At reserved total count (bytes + len) files)
        (check_cancelled w t) (read_chunk w index offset len) (check_cancelled-Ends w t h)
        (λ u g.
          pass_chunk-Ends w index offset len (w.chunk index offset len)
            (called (read index offset len) u) (called-At (read index offset len) u refl refl g))

  pub finish_file-Ends :
      (w : Workers) (index : ℕ) (sha : Option Text) (t : Task)
      → At reserved total count bytes files t
      → Ends (At reserved total count bytes (files + 1)) (finish_file w index sha t)
  unfolding finish_file
  finish_file-Ends w index none t h = throws worker_failed t (λ e. absurd cc) h
  finish_file-Ends w index (some sha) t h =
      let done = called (finish index sha) t in
      Ends-then (At reserved total count bytes files) (At reserved total count bytes (files + 1))
        (throw_unless (w.finished index sha) worker_failed done) count_file
        (throw_unless-Ends (w.finished index sha) worker_failed done (λ e. absurd cc)
          (called-At (finish index sha) t refl refl h))
        (λ u g. record {
          attempted = g.attempted;
          asked = g.asked;
          kept = g.kept;
          quiet = g.quiet;
          total_is = g.total_is;
          count_is = g.count_is;
          bytes_are = g.bytes_are;
          files_are = ap (λ n. n + 1) g.files_are;
        })

-- The loop over a file copies what is left of it, with a round for each byte at most.
copy_chunks-Ends :
    (w : Workers) (reserved : Bool) (total count bytes files fuel index size offset : ℕ) (t : Task)
    → size ≤ fuel + offset
    → At reserved total count bytes files t
    → Ends
        (At reserved total count (bytes + (size - offset)) files)
        (copy_chunks w fuel index size offset t)
unfolding copy_chunks
copy_chunks-Ends w reserved total count bytes files zero index size offset t enough h =
    let done : ltb offset size ≡ false = ground arith in
    let same : bytes + (size - offset) ≡ bytes = omega arith in rw (done, same, copy_chunks) h
copy_chunks-Ends w reserved total count bytes files (suc fuel) index size offset t enough h =
    elim (Bool-cases (ltb offset size)) [
      | inr done ↦
          let same : bytes + (size - offset) ≡ bytes = ground (arith, done) in
          rw (done, same, copy_chunks) h
      | inl more ↦
          let len = min transfer_chunk_bytes (size - offset) in
          let before : offset < size = ltb→lt offset size more in
          let sum : bytes + (size - offset) ≡ bytes + len + (size - (offset + len)) = omega arith in
          rw (more, sum, copy_chunks)
            (Ends-then (At reserved total count (bytes + len) files)
              (At reserved total count (bytes + len + (size - (offset + len))) files)
              (copy_chunk w index offset len t) (copy_chunks w fuel index size (offset + len))
              (copy_chunk-Ends w index offset len t h)
              (λ u g.
                copy_chunks-Ends w reserved total count (bytes + len) files fuel index size
                  (offset + len) u (omega arith) g))
    ]

copy_file-Ends :
    (w : Workers) (reserved : Bool) (total count bytes files index size : ℕ) (t : Task)
    → At reserved total count bytes files t
    → Ends (At reserved total count (bytes + size) (files + 1)) (copy_file w index size t)
unfolding copy_file check_file
copy_file-Ends w reserved total count bytes files index size t h =
    let copied = At reserved total count (bytes + size) files in
    let chunks : Ends copied (copy_chunks w size index size 0 t) =
      subst
        (λ n. Ends (At reserved total count (bytes + n) files) (copy_chunks w size index size 0 t))
        (omega arith)
        (copy_chunks-Ends w reserved total count bytes files size index size 0 t (omega arith) h) in
    Ends-then copied (At reserved total count (bytes + size) (files + 1))
      (copy_chunks w size index size 0 t then_run check_cancelled w) (check_file w index)
      (Ends-then copied copied (copy_chunks w size index size 0 t) (check_cancelled w) chunks
        (check_cancelled-Ends w))
      (λ u g.
        finish_file-Ends w index (w.digested index) (called (digest index) u)
          (called-At (digest index) u refl refl g))

-- The loop over the manifest copies its files.
pub copy_entries-Ends :
    (w : Workers) (reserved : Bool) (total count bytes files index : ℕ) (es : List Item) (t : Task)
    → At reserved total count bytes files t
    → Ends
        (At reserved total count
          (bytes + sum_sizes (file_items es))
          (files + length (file_items es)))
        (copy_entries w index es t)
unfolding copy_entries sum_sizes
copy_entries-Ends w reserved total count bytes files index [] t h =
    let a : bytes + 0 ≡ bytes = omega arith in
    let b : files + 0 ≡ files = omega arith in rw (a, b) h
copy_entries-Ends w reserved total count bytes files index (e ∷ es) t h =
    elim (Bool-cases e.is_file) [
      | inl file ↦
          let a : bytes + (e.size + sum_sizes (file_items es))
              ≡ bytes + e.size + sum_sizes (file_items es) =
            omega arith in
          let b : files + suc (length (file_items es)) ≡ files + 1 + length (file_items es) =
            omega arith in
          rw (file, a, b, copy_entries)
            (Ends-then (At reserved total count (bytes + e.size) (files + 1))
              (At reserved total count (bytes + e.size + sum_sizes (file_items es))
                (files + 1 + length (file_items es)))
              (copy_file w index e.size t) (copy_entries w (suc index) es)
              (copy_file-Ends w reserved total count bytes files index e.size t h)
              (copy_entries-Ends w reserved total count (bytes + e.size) (files + 1) (suc index)
                es))
      | inr folder ↦
          rw (folder, copy_entries)
            (copy_entries-Ends w reserved total count bytes files (suc index) es t h)
    ]
