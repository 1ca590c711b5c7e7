-- ===== src/Transfers/Readers.antt =====
-- src/controller/file-transfer-store.mjs: a file that is being read stays in the directory.
use codex_compatible_mcp.Base.{
  ℕ, zero, suc, ◌+◌, ◌<◌, ◌≡◌, refl, sym, subst, ◌∙◌, inl, inr, true, false, Option, none, some, [],
  ◌∷◌, ltb, leb, nat_beq, ◌==◌, length, arith, Bool-cases, Option-cases,
}
use codex_compatible_mcp.Base.Text.{Text, text_eq, text_beq_iff}
use codex_compatible_mcp.Base.Dict
use codex_compatible_mcp.Base.Dict.{Dict, get-set, get-delete}
use codex_compatible_mcp.Transfers.Files.{
  Entry, Files, Upload, readers, active_of, has_size, unlink, remove, first_token, cleanup_loop,
  cleanup, evict_loop, evict, check_upload, new_entry, add_entry, put_checked, put, acquire_entry,
}
use codex_compatible_mcp.Transfers.Accounting.{taken, remove_found, remove_absent}
use codex_compatible_mcp.Transfers.Calls.{Call, puts}

-- The file of a token and the readers are as they were.
pub record Keeps (t : Text) (s u : Files) : Type 0 where
  pub bin : Dict.get t u.bins ≡ Dict.get t s.bins
  pub reading : u.active ≡ s.active

Keeps-trans : (t : Text) (s u v : Files) → Keeps t s u → Keeps t u v → Keeps t s v
Keeps-trans t s u v a b = record { bin = b.bin ∙ a.bin; reading = b.reading ∙ a.reading }

pub Keeps-left : (t : Text) (s u : Files) → Keeps t s u → 0 < active_of t s → 0 < active_of t u
Keeps-left t s u a h = subst (λ m. 0 < readers (Dict.get t m)) (sym a.reading) h

no_reader :
    (t k : Text) (s : Files)
    → 0 < active_of t s
    → nat_beq (active_of k s) 0 ≡ true
    → (k == t) ≡ false
no_reader t k s h idle = elim (Bool-cases (k == t)) [
  | inl same ↦
      let e : k ≡ t = (text_beq_iff k t).0 same in
      let still : nat_beq (active_of t s) 0 ≡ true =
        subst (λ i. nat_beq (active_of i s) 0 ≡ true) e idle in
      absurd (ground (arith, still))
  | inr other ↦ other
]

pub unlink-Keeps : (t k : Text) (s : Files) → 0 < active_of t s → Keeps t s (unlink k s)
unfolding unlink
unlink-Keeps t k s h = elim (Bool-cases (nat_beq (active_of k s) 0)) [
  | inl idle ↦
      rw (idle, unlink)
        (record { bin = get-delete k t s.bins ∙ rw (no_reader t k s h idle) refl; reading = refl })
  | inr busy ↦ rw (busy, unlink) (record { bin = refl; reading = refl })
]

Keeps-self : (t : Text) (s : Files) → Keeps t s s
Keeps-self t s = record { bin = refl; reading = refl }

remove-Keeps : (t k : Text) (s : Files) → 0 < active_of t s → Keeps t s (remove k s)
remove-Keeps t k s h = elim (Option-cases (Dict.get k s.entries)) [
  | inl gone ↦ rw (remove_absent k s gone) (Keeps-self t s)
  | inr (e, found) ↦
      let there = unlink-Keeps t k (taken k e s) h in
      rw (remove_found k s e found) (record { bin = there.bin; reading = there.reading })
]

-- A round behind another one keeps what both keep.
then-Keeps :
    (t : Text) (s u : Files) (v : Files)
    → Keeps t s u
    → 0 < active_of t s
    → (0 < active_of t u → Keeps t u v)
    → Keeps t s v
then-Keeps t s u v a h next = Keeps-trans t s u v a (next (Keeps-left t s u a h))

cleanup_loop-Keeps :
    (t : Text) (now : ℕ) (m : Dict Text Entry) (s : Files)
    → 0 < active_of t s
    → Keeps t s (cleanup_loop now m s)
unfolding cleanup_loop
cleanup_loop-Keeps t now [] s h = Keeps-self t s
cleanup_loop-Keeps t now ((k, e) ∷ m) s h = elim (Bool-cases (leb e.expires_at now)) [
  | inl old ↦
      rw (old, cleanup_loop)
        (then-Keeps t s (remove k s) _ (remove-Keeps t k s h) h
          (cleanup_loop-Keeps t now m (remove k s)))
  | inr young ↦ rw (young, cleanup_loop) (cleanup_loop-Keeps t now m s h)
]

pub cleanup-Keeps : (t : Text) (now : ℕ) (s : Files) → 0 < active_of t s → Keeps t s (cleanup now s)
unfolding cleanup
cleanup-Keeps t now s h = cleanup_loop-Keeps t now s.entries s h

evict_loop-Keeps :
    (t : Text) (fuel bytes : ℕ) (s : Files)
    → 0 < active_of t s
    → Keeps t s (evict_loop fuel bytes s)
unfolding evict_loop
evict_loop-Keeps t zero bytes s h = Keeps-self t s
evict_loop-Keeps t (suc fuel) bytes s h = elim (Option-cases (first_token s.entries)) [
  | inl empty ↦ rw (empty, evict_loop) (Keeps-self t s)
  | inr (k, first) ↦ elim (Bool-cases (ltb s.max_total_bytes (s.total_bytes + bytes))) [
    | inl over ↦
        rw (first, over, evict_loop)
          (then-Keeps t s (remove k s) _ (remove-Keeps t k s h) h
            (evict_loop-Keeps t fuel bytes (remove k s)))
    | inr room ↦ rw (first, room, evict_loop) (Keeps-self t s)
  ]
]

evict-Keeps :
    (t : Text) (now bytes : ℕ) (s : Files) → 0 < active_of t s → Keeps t s (evict now bytes s)
unfolding evict
evict-Keeps t now bytes s h =
    then-Keeps t s (cleanup now s) _ (cleanup-Keeps t now s h) h
      (evict_loop-Keeps t (length (cleanup now s).entries) bytes (cleanup now s))

-- A call that puts no file under the token.
abbrev pub IsNoPut : Text → Call → Type 0
IsNoPut t (puts token now evicted_at u) = (token == t) ≡ false
IsNoPut t _ = Unit

add_entry-bins :
    (t token : Text) (now evicted_at : ℕ) (e : Entry) (s : Files)
    → 0 < active_of t s
    → (token == t) ≡ false
    → Dict.get t (add_entry token now evicted_at e s).bins ≡ Dict.get t s.bins
unfolding add_entry
add_entry-bins t token now evicted_at e s h other =
    let written : Files = record s {
      bins = Dict.set token e.byte_length s.bins;
      metas = Dict.set token e s.metas;
    } in
    (evict-Keeps t evicted_at e.byte_length written h).bin
    ∙ get-set token t e.byte_length s.bins
    ∙ rw other refl

pub put-bins :
    (t token : Text) (now evicted_at : ℕ) (u : Upload) (s : Files)
    → 0 < active_of t s
    → (token == t) ≡ false
    → Dict.get t (put token now evicted_at u s).0.bins ≡ Dict.get t s.bins
unfolding put put_checked
put-bins t token now evicted_at u s h other =
    elim (Option-cases (check_upload u s.max_total_bytes)) [
      | inl fine ↦
          rw (fine, put, put_checked)
            (add_entry-bins t token now evicted_at (new_entry token now u) s h other)
      | inr (e, bad) ↦ rw (bad, put, put_checked) refl
    ]

pub acquire_entry-bins :
    (t token : Text) (s : Files) (found : Option Entry)
    → 0 < active_of t s
    → Dict.get t (acquire_entry token found s).0.bins ≡ Dict.get t s.bins
unfolding acquire_entry
acquire_entry-bins t token s none h = refl
acquire_entry-bins t token s (some e) h =
    elim (Bool-cases (has_size (Dict.get token s.bins) e.byte_length)) [
      | inl there ↦ rw (there, acquire_entry) refl
      | inr lost ↦ rw (lost, acquire_entry) (remove-Keeps t token s h).bin
    ]
