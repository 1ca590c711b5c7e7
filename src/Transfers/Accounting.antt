-- ===== src/Transfers/Accounting.antt =====
-- src/controller/file-transfer-store.mjs: the sum of the files' sizes and its limit.
use codex_compatible_mcp.Base.{
  ℕ, zero, suc, ◌+◌, ◌-◌, ◌≤◌, ◌≡◌, refl, sym, ap, subst, ◌∙◌, ◌⊎◌, inl, inr, none, some, [], ◌∷◌,
  ltb, leb, nat_beq, ◌==◌, length, arith, Bool-cases, Option-cases,
}
use codex_compatible_mcp.Base.Text.{Text, text_eq, text_beq_iff}
use codex_compatible_mcp.Base.Dict
use codex_compatible_mcp.Base.Dict.{
  Dict, IsDistinct, get-set, get-delete, set-IsDistinct, delete-IsDistinct, beq_self,
}
use codex_compatible_mcp.Transfers.Files.{
  Entry, Files, active_of, unlink, remove, first_token, cleanup_loop, cleanup, evict_loop, evict,
}

unfoldable pub sum_bytes : Dict Text Entry → ℕ
sum_bytes [] = 0
sum_bytes ((t, e) ∷ m) = e.byte_length + sum_bytes m

delete_absent : (t : Text) (m : Dict Text Entry) → Dict.get t m ≡ none → Dict.delete t m ≡ m
unfolding Dict.get Dict.delete
delete_absent t [] h = refl
delete_absent t ((j, w) ∷ m) h = elim (Bool-cases (j == t)) [
  | inl same ↦ absurd (ground (arith, same))
  | inr other ↦ rw other (ap (◌∷◌ (j, w)) (delete_absent t m (ground (arith, other))))
]

sum_bytes-delete :
    (t : Text) (e : Entry) (m : Dict Text Entry)
    → IsDistinct m
    → Dict.get t m ≡ some e
    → (sum_bytes m ≡ sum_bytes (Dict.delete t m) + e.byte_length)
      × (length m ≡ suc (length (Dict.delete t m)))
unfolding sum_bytes Dict.get Dict.delete
sum_bytes-delete t e [] d h = absurd cc
sum_bytes-delete t e ((j, w) ∷ m) (new, d) h = elim (Bool-cases (j == t)) [
  | inl same ↦
      let key : j ≡ t = (text_beq_iff j t).0 same in
      let gone : Dict.delete t m ≡ m =
        delete_absent t m (subst (λ k. Dict.get k m ≡ none) key new) in
      let size : w ≡ e = ground (arith, same) in
      rw (same, gone) (ap (λ (x : Entry). x.byte_length + sum_bytes m) size ∙ omega arith, refl)
  | inr other ↦
      let (sum, len) = sum_bytes-delete t e m d (ground (arith, other)) in
      rw other (omega arith, omega arith)
]

pub sum_bytes-set :
    (t : Text) (e : Entry) (m : Dict Text Entry)
    → Dict.get t m ≡ none
    → sum_bytes (Dict.set t e m) ≡ sum_bytes m + e.byte_length
unfolding sum_bytes Dict.get Dict.set
sum_bytes-set t e [] h = omega arith
sum_bytes-set t e ((j, w) ∷ m) h = elim (Bool-cases (j == t)) [
  | inl same ↦ absurd (ground (arith, same))
  | inr other ↦ rw other (omega (arith, sum_bytes-set t e m (ground (arith, other))))
]

-- The entries have each token once, and the sum that is kept is that of their sizes.
pub record IsAccounted (s : Files) : Type 0 where
  pub distinct : IsDistinct s.entries
  pub counted : s.total_bytes ≡ sum_bytes s.entries

-- What the removal of entries keeps.
pub record IsLess (s t : Files) : Type 0 where
  pub accounted : IsAccounted t
  pub limit : t.max_total_bytes ≡ s.max_total_bytes
  pub fewer : t.total_bytes ≤ s.total_bytes
  pub absent : (k : Text) → Dict.get k s.entries ≡ none → Dict.get k t.entries ≡ none

pub IsLess-self : (s : Files) → IsAccounted s → IsLess s s
IsLess-self s h = record {
  accounted = h;
  limit = refl;
  fewer = omega arith;
  absent = λ k gone. gone;
}

pub IsLess-trans : (s t u : Files) → IsLess s t → IsLess t u → IsLess s u
IsLess-trans s t u a b = record {
  accounted = b.accounted;
  limit = b.limit ∙ a.limit;
  fewer = omega (arith, a.fewer, b.fewer);
  absent = λ k gone. b.absent k (a.absent k gone);
}

pub unlink-fields :
    (t : Text) (s : Files)
    → ((unlink t s).entries ≡ s.entries)
      × ((unlink t s).total_bytes ≡ s.total_bytes)
      × ((unlink t s).max_total_bytes ≡ s.max_total_bytes)
      × ((unlink t s).active ≡ s.active)
unfolding unlink
unlink-fields t s = elim (Bool-cases (nat_beq (active_of t s) 0)) [
  | inl e ↦ rw (e, unlink) (refl, refl, refl, refl)
  | inr e ↦ rw (e, unlink) (refl, refl, refl, refl)
]

unlink-IsLess : (t : Text) (s u : Files) → IsLess s u → IsLess s (unlink t u)
unlink-IsLess t s u h =
    let (entries, total, limit, active) = unlink-fields t u in
    record {
      accounted = record {
        distinct = subst IsDistinct (sym entries) h.accounted.distinct;
        counted = total ∙ h.accounted.counted ∙ ap sum_bytes (sym entries);
      };
      limit = limit ∙ h.limit;
      fewer = omega (arith, h.fewer);
      absent = λ k gone. ap (Dict.get k) entries ∙ h.absent k gone;
    }

abbrev pub taken : Text → Entry → Files → Files
taken t e s = record s {
  entries = Dict.delete t s.entries;
  total_bytes = s.total_bytes - e.byte_length;
  metas = Dict.delete t s.metas;
}

pub remove_found :
    (t : Text) (s : Files) (e : Entry)
    → Dict.get t s.entries ≡ some e
    → remove t s ≡ unlink t (taken t e s)
unfolding remove
remove_found t s e found = rw (found, remove) refl

taken-IsLess :
    (t : Text) (s : Files) (e : Entry)
    → IsAccounted s
    → Dict.get t s.entries ≡ some e
    → IsLess s (taken t e s)
taken-IsLess t s e h found =
    let (sum, len) = sum_bytes-delete t e s.entries h.distinct found in
    record {
      accounted = record {
        distinct = delete-IsDistinct t s.entries h.distinct;
        counted = omega (arith, h.counted);
      };
      limit = refl;
      fewer = omega arith;
      absent = λ k gone. ground (arith, get-delete t k s.entries);
    }

-- A removal of an entry that is there makes the entries one fewer.
pub remove-IsLess :
    (t : Text) (s : Files) (e : Entry)
    → IsAccounted s
    → Dict.get t s.entries ≡ some e
    → IsLess s (remove t s) × (length s.entries ≡ suc (length (remove t s).entries))
remove-IsLess t s e h found =
    let removed = unlink-IsLess t s (taken t e s) (taken-IsLess t s e h found) in
    let (sum, len) = sum_bytes-delete t e s.entries h.distinct found in
    let (entries, total, limit, active) = unlink-fields t (taken t e s) in
    rw (remove_found t s e found) (removed, rw entries len)

pub remove_absent : (t : Text) (s : Files) → Dict.get t s.entries ≡ none → remove t s ≡ s
unfolding remove
remove_absent t s h = rw (h, remove) refl

remove_any-IsLess : (t : Text) (s : Files) → IsAccounted s → IsLess s (remove t s)
remove_any-IsLess t s h = elim (Option-cases (Dict.get t s.entries)) [
  | inl gone ↦ rw (remove_absent t s gone) (IsLess-self s h)
  | inr (e, found) ↦ (remove-IsLess t s e h found).0
]

cleanup_loop-IsLess :
    (now : ℕ) (m : Dict Text Entry) (s : Files) → IsAccounted s → IsLess s (cleanup_loop now m s)
unfolding cleanup_loop
cleanup_loop-IsLess now [] s h = IsLess-self s h
cleanup_loop-IsLess now ((t, e) ∷ m) s h = elim (Bool-cases (leb e.expires_at now)) [
  | inl old ↦
      let less = remove_any-IsLess t s h in
      rw (old, cleanup_loop)
        (IsLess-trans s (remove t s) _ less (cleanup_loop-IsLess now m (remove t s) less.accounted))
  | inr young ↦ rw (young, cleanup_loop) (cleanup_loop-IsLess now m s h)
]

pub cleanup-IsLess : (now : ℕ) (s : Files) → IsAccounted s → IsLess s (cleanup now s)
unfolding cleanup
cleanup-IsLess now s h = cleanup_loop-IsLess now s.entries s h

first_found : (t : Text) (e : Entry) (m : Dict Text Entry) → Dict.get t ((t, e) ∷ m) ≡ some e
unfolding Dict.get
first_found t e m = rw (beq_self t) refl

pub front :
    (m : Dict Text Entry)
    → (m ≡ []) ⊎ ((t : Text) × (e : Entry) × (rest : Dict Text Entry) × (m ≡ (t, e) ∷ rest))
front [] = inl refl
front ((t, e) ∷ m) = inr (t, e, m, refl)

no_bytes : (m : Dict Text Entry) → length m ≡ 0 → sum_bytes m ≡ 0
unfolding sum_bytes
no_bytes [] h = refl
no_bytes ((t, e) ∷ m) h = absurd (omega arith)

-- Enough rounds make room for the bytes, unless no room is large enough.
evict_loop-fits :
    (fuel bytes : ℕ) (s : Files)
    → IsAccounted s
    → length s.entries ≤ fuel
    → bytes ≤ s.max_total_bytes
    → IsLess s (evict_loop fuel bytes s)
      × ((evict_loop fuel bytes s).total_bytes + bytes ≤ s.max_total_bytes)
unfolding evict_loop sum_bytes
evict_loop-fits zero bytes s h enough small =
    let none_left = no_bytes s.entries (omega arith) in (IsLess-self s h, omega (arith, h.counted))
evict_loop-fits (suc fuel) bytes s h enough small = elim (front s.entries) [
  | inl empty ↦
      let first : first_token s.entries ≡ none = ap first_token empty in
      let none_left : sum_bytes s.entries ≡ 0 = ap sum_bytes empty in
      rw (first, evict_loop) (IsLess-self s h, omega (arith, h.counted))
  | inr (t, e, m, split) ↦
      let first : first_token s.entries ≡ some t = ap first_token split in
      let found : Dict.get t s.entries ≡ some e = ap (Dict.get t) split ∙ first_found t e m in
      let (less, fewer) = remove-IsLess t s e h found in
      elim (Bool-cases (ltb s.max_total_bytes (s.total_bytes + bytes))) [
        | inl over ↦
            let (rest, fits) =
              evict_loop-fits fuel bytes (remove t s) less.accounted (omega arith)
                (omega (arith, less.limit)) in
            rw (first, over, evict_loop)
              (IsLess-trans s (remove t s) _ less rest, omega (arith, less.limit))
        | inr room ↦ rw (first, room, evict_loop) (IsLess-self s h, ground (arith, room))
      ]
]

pub evict-fits :
    (now bytes : ℕ) (s : Files)
    → IsAccounted s
    → bytes ≤ s.max_total_bytes
    → IsLess s (evict now bytes s) × ((evict now bytes s).total_bytes + bytes ≤ s.max_total_bytes)
unfolding evict
evict-fits now bytes s h small =
    let clean = cleanup-IsLess now s h in
    let (less, fits) =
      evict_loop-fits (length (cleanup now s).entries) bytes (cleanup now s) clean.accounted
        (omega arith) (omega (arith, clean.limit)) in
    (IsLess-trans s (cleanup now s) _ clean less, omega (arith, clean.limit))
