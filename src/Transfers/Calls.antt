-- ===== src/Transfers/Calls.antt =====
-- src/controller/file-transfer-store.mjs: calls of the store and of its timer, in any order.
use codex_compatible_mcp.Base.{
  ℕ, ◌≤◌, ◌≡◌, refl, sym, ap, subst, ◌∙◌, inl, inr, Option, none, some, nat_beq, arith, Bool-cases,
  Option-cases,
}
use codex_compatible_mcp.Base.Text.{Text, text_eq}
use codex_compatible_mcp.Base.Dict
use codex_compatible_mcp.Base.Dict.{Dict, IsDistinct, set-IsDistinct}
use codex_compatible_mcp.Transfers.Files.{
  Entry, Files, Upload, has_token, without, released_count, has_size, unlink, remove, cleanup,
  evict, check_upload, new_entry, add_entry, put_checked, put, get, acquire_entry, acquire,
  end_reading, release, close,
}
use codex_compatible_mcp.Transfers.Accounting.{
  sum_bytes, sum_bytes-set, IsAccounted, IsLess, unlink-fields, remove-IsLess, cleanup-IsLess,
  evict-fits,
}

pub data Call : Type 0 where
  puts : (token : Text) → (now evicted_at : ℕ) → Upload → Call
  gets : Text → ℕ → Call
  acquires : Text → ℕ → Call
  releases : Text → Call
  cleans : ℕ → Call
  closes : Call

unfoldable pub step : Call → Files → Files
unfolding put get acquire release cleanup close
step (puts token now evicted_at u) s = (put token now evicted_at u s).0
step (gets token now) s = (get token now s).0
step (acquires token now) s = (acquire token now s).0
step (releases token) s = release token s
step (cleans now) s = cleanup now s
step closes s = close s

-- The token of an upload is new.
abbrev pub IsNew : Call → Files → Type 0
IsNew (puts token now evicted_at u) s = Dict.get token s.entries ≡ none
IsNew _ s = Unit

-- The sum that is kept is that of the entries' sizes, and within the limit.
pub record IsKept (s : Files) : Type 0 where
  pub accounted : IsAccounted s
  pub within : s.total_bytes ≤ s.max_total_bytes

IsLess-IsKept : (s t : Files) → IsKept s → IsLess s t → IsKept t
IsLess-IsKept s t h less = record {
  accounted = less.accounted;
  within = omega (arith, h.within, less.limit, less.fewer);
}

-- Calls that change no entry.
same_entries-IsKept :
    (s t : Files)
    → IsKept s
    → t.entries ≡ s.entries
    → t.total_bytes ≡ s.total_bytes
    → t.max_total_bytes ≡ s.max_total_bytes
    → IsKept t
same_entries-IsKept s t h entries total limit = record {
  accounted = record {
    distinct = subst IsDistinct (sym entries) h.accounted.distinct;
    counted = total ∙ h.accounted.counted ∙ ap sum_bytes (sym entries);
  };
  within = omega (arith, h.within);
}

add_entry-IsKept :
    (token : Text) (now evicted_at : ℕ) (e : Entry) (s : Files)
    → IsKept s
    → Dict.get token s.entries ≡ none
    → e.byte_length ≤ s.max_total_bytes
    → IsKept (add_entry token now evicted_at e s)
unfolding add_entry
add_entry-IsKept token now evicted_at e s h new small =
    let written : Files = record s {
      bins = Dict.set token e.byte_length s.bins;
      metas = Dict.set token e s.metas;
    } in
    let counted : IsAccounted written = record {
      distinct = h.accounted.distinct;
      counted = h.accounted.counted;
    } in
    let (less, fits) = evict-fits evicted_at e.byte_length written counted small in
    let room = evict evicted_at e.byte_length written in
    record {
      accounted = record {
        distinct = set-IsDistinct token e room.entries less.accounted.distinct;
        counted = omega (
          arith,
          less.accounted.counted,
          sum_bytes-set token e room.entries (less.absent token new),
        );
      };
      within = omega (arith, less.limit);
    }

check_upload-le :
    (u : Upload) (max_total : ℕ) → check_upload u max_total ≡ none → u.decoded_length ≤ max_total
unfolding check_upload
check_upload-le u max_total h = ground arith

put-IsKept :
    (token : Text) (now evicted_at : ℕ) (u : Upload) (s : Files)
    → IsKept s
    → Dict.get token s.entries ≡ none
    → IsKept (put token now evicted_at u s).0
unfolding put put_checked
put-IsKept token now evicted_at u s h new = elim (Option-cases (check_upload u s.max_total_bytes)) [
  | inl fine ↦
      rw (fine, put, put_checked)
        (add_entry-IsKept token now evicted_at (new_entry token now u) s h new
          (check_upload-le u s.max_total_bytes fine))
  | inr (e, bad) ↦ rw (bad, put, put_checked) h
]

cleanup-IsKept : (now : ℕ) (s : Files) → IsKept s → IsKept (cleanup now s)
cleanup-IsKept now s h = IsLess-IsKept s (cleanup now s) h (cleanup-IsLess now s h.accounted)

acquire_entry-IsKept :
    (token : Text) (s : Files) (found : Option Entry)
    → IsKept s
    → Dict.get token s.entries ≡ found
    → IsKept (acquire_entry token found s).0
unfolding acquire_entry
acquire_entry-IsKept token s none h same = h
acquire_entry-IsKept token s (some e) h same =
    elim (Bool-cases (has_size (Dict.get token s.bins) e.byte_length)) [
      | inl there ↦ rw (there, acquire_entry) (same_entries-IsKept s _ h refl refl refl)
      | inr lost ↦
          rw (lost, acquire_entry)
            (IsLess-IsKept s (remove token s) h (remove-IsLess token s e h.accounted same).0)
    ]

unlink-IsKept : (token : Text) (s : Files) → IsKept s → IsKept (unlink token s)
unlink-IsKept token s h =
    let (entries, total, limit, active) = unlink-fields token s in
    same_entries-IsKept s (unlink token s) h entries total limit

release-IsKept : (token : Text) (s : Files) → IsKept s → IsKept (release token s)
unfolding release end_reading
release-IsKept token s h =
    let count = released_count (Dict.get token s.active) in
    let idle : Files = record s { active = Dict.delete token s.active } in
    elim (Bool-cases (nat_beq count 0)) [
      | inr more ↦ rw (more, release) (same_entries-IsKept s _ h refl refl refl)
      | inl last ↦ elim (Bool-cases (has_token token s.pending_delete)) [
        | inl pending ↦
            rw (last, pending, release, end_reading)
              (unlink-IsKept token (record idle { pending_delete = without token s.pending_delete })
                (same_entries-IsKept s _ h refl refl refl))
        | inr free ↦
            rw (last, free, release, end_reading) (same_entries-IsKept s _ h refl refl refl)
      ]
    ]

-- Each call, made in any order, keeps the sum that the store keeps equal to the sizes of its entries
-- and within its limit, given that the token of an upload is new.
pub step-IsKept : (x : Call) (s : Files) → IsNew x s → IsKept s → IsKept (step x s)
unfolding step get acquire close sum_bytes
step-IsKept (puts token now evicted_at u) s new h = put-IsKept token now evicted_at u s h new
step-IsKept (gets token now) s new h = cleanup-IsKept now s h
step-IsKept (acquires token now) s new h =
    acquire_entry-IsKept token (cleanup now s) _ (cleanup-IsKept now s h) refl
step-IsKept (releases token) s new h = release-IsKept token s h
step-IsKept (cleans now) s new h = cleanup-IsKept now s h
step-IsKept closes s new h = elim (Bool-cases s.ephemeral) [
  | inl own ↦
      rw own (record { accounted = record { distinct = tt; counted = refl }; within = omega arith })
  | inr given ↦
      rw given
        (record { accounted = record { distinct = tt; counted = refl }; within = omega arith })
]
