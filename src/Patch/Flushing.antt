-- ===== src/Patch/Flushing.antt =====
-- The operations on the disk leave what the table of states stands for.
use codex_compatible_mcp.Base.{
  ◌≡◌, refl, sym, ◌∙◌, ap, ◌⊎◌, inl, inr, Bool, true, not, ◌||◌, Option, none, some, List, [], ◌∷◌,
  ◌++◌, arith, Bool-cases, All, subst, ok,
}
use codex_compatible_mcp.Base.Text.{Text, text_eq}
use codex_compatible_mcp.Base.Dict
use codex_compatible_mcp.Patch.Writable.{Host}
use codex_compatible_mcp.Patch.Files.{
  Entry, file, Disk, FileSystem, FileState, States, Op, writes, unlinks, run_ops, disk_ops,
}
use codex_compatible_mcp.Patch.Staging.{overlay_at, overlay, Faithful, Good, is_file}
use codex_compatible_mcp.Patch.Separate.{
  is_plain, read_back, IsSeparate, first_on, Once, effect, AllSuit, run_ops-effect,
}
use codex_compatible_mcp.Patch.Targets.{IsWithin}
use codex_compatible_mcp.Patch.Operations.{
  Own, entries-All, write_of, unlink_of, or_op, first_on-writes, first_on-unlinks, first_on-append,
  Once-append, writes-Once, unlinks-Once, written_or_unlinked,
}

-- Operations on an entry of the disk that a state was loaded from.
record Fit {D : Type 0} (fs : FileSystem D) (among : Text → Bool) (d : D) (p : Text) (s : FileState)
    : Type 0 where
  own_path : s.path ≡ p
  asked : among p ≡ true
  plain : is_plain (fs.find d p) ≡ true
  there : s.initial_exists ≡ true → is_file (fs.find d p) ≡ true

-- What is found where the specification has an entry: that entry, or what is read where its text was
-- written.
abbrev pub Left : (Text → Text) → (meant found : Entry) → Type 0
Left decoded meant found =
    (found ≡ meant)
    ⊎ ((content : Text) × (meant ≡ file content) × (found ≡ read_back decoded content))

left_at :
    {disk : Disk} (decoded : Text → Text) (q : Text) (o : Option FileState)
    → ((s : FileState) → o ≡ some s → Faithful disk q s)
    → Left decoded
        (overlay_at (disk q) o)
        (effect decoded (disk q) (or_op (write_of o) (unlink_of o)))
left_at decoded q none f = inl refl
left_at decoded q (some s) f = elim (Bool-cases s.dirty) [
  | inr clean ↦ inl (rw clean ((f s refl).clean clean))
  | inl dirty ↦ elim (Bool-cases s.exists) [
    | inl there ↦ inr (s.content, rw there refl, rw (dirty, there) refl)
    | inr gone ↦ elim (Bool-cases s.initial_exists) [
      | inl was ↦ inl (rw (dirty, gone, was) refl)
      | inr new ↦ inl (rw (dirty, gone, new) ((f s refl).none_before new))
    ]
  ]
]

module _ {D : Type 0} (fs : FileSystem D) (host : Host) (among : Text → Bool)
    (decoded : Text → Text) (h : IsSeparate fs host among decoded) (d : D) where
  AllSuit-append :
      (xs ys : List Op)
      → AllSuit fs host among decoded h d xs
      → AllSuit fs host among decoded h d ys
      → AllSuit fs host among decoded h d (xs ++ ys)
  unfolding AllSuit
  AllSuit-append [] ys hx hy = hy
  AllSuit-append (op ∷ xs) ys (a, r, hx) hy = (a, r, AllSuit-append xs ys hx hy)

  writes-AllSuit :
      (m : States)
      → All (λ (e : Text × FileState). Fit fs among d e.0 e.1) m
      → AllSuit fs host among decoded h d (writes (Dict.values m))
  unfolding AllSuit writes Dict.values
  writes-AllSuit [] f = tt
  writes-AllSuit ((k, s) ∷ m) (f, rest) = elim (Bool-cases (not s.dirty || not s.exists)) [
    | inl skipped ↦ rw skipped (writes-AllSuit m rest)
    | inr done ↦ rw done (rw f.own_path f.asked, rw f.own_path f.plain, writes-AllSuit m rest)
  ]

  unlinks-AllSuit :
      (m : States)
      → All (λ (e : Text × FileState). Fit fs among d e.0 e.1) m
      → AllSuit fs host among decoded h d (unlinks (Dict.values m))
  unfolding AllSuit unlinks Dict.values
  unlinks-AllSuit [] f = tt
  unlinks-AllSuit ((k, s) ∷ m) (f, rest) =
      elim (Bool-cases (not s.dirty || s.exists || not s.initial_exists)) [
        | inl skipped ↦ rw skipped (unlinks-AllSuit m rest)
        | inr done ↦
            let was : s.initial_exists ≡ true = ground (arith, done) in
            rw done (rw f.own_path f.asked, rw f.own_path (f.there was), unlinks-AllSuit m rest)
      ]

  module _ (states : States) (good : Good (fs.find d) states) (within : IsWithin among states) where
    fits : (p : Text) (s : FileState) → Dict.get p states ≡ some s → Fit fs among d p s
    unfolding IsWithin
    fits p s e =
        let f = good.faithful p s e in
        record {
          own_path = f.own_path;
          asked = (within p s e).1;
          plain = elim (Bool-cases s.initial_exists) [
            | inl was ↦ ground (arith, f.some_before was)
            | inr new ↦ rw (f.none_before new) refl
          ];
          there = f.some_before;
        }

    own : Own states
    own = entries-All (λ p s. s.path ≡ p) states good.distinct (λ p s e. (fits p s e).own_path)

    pub disk_ops-Once : Once (disk_ops states)
    unfolding disk_ops
    disk_ops-Once =
        Once-append (writes (Dict.values states)) (unlinks (Dict.values states))
          (writes-Once states good.distinct own) (unlinks-Once states good.distinct own)
          (λ q op e.
            first_on-unlinks states q good.distinct own
            ∙ written_or_unlinked (Dict.get q states) op
                (sym (first_on-writes states q good.distinct own) ∙ e))

    pub disk_ops-AllSuit : AllSuit fs host among decoded h d (disk_ops states)
    unfolding disk_ops
    disk_ops-AllSuit =
        let all = entries-All (Fit fs among d) states good.distinct fits in
        AllSuit-append (writes (Dict.values states)) (unlinks (Dict.values states))
          (writes-AllSuit states all) (unlinks-AllSuit states all)

    -- All of them succeed, and leave the disk as the states have it.
    pub run_ops-overlay :
        ((run_ops fs host (disk_ops states) d).1 ≡ ok tt)
        × ((q : Text)
            → among q ≡ true
            → Left decoded
                (overlay (fs.find d) states q)
                (fs.find (run_ops fs host (disk_ops states) d).0 q))
    unfolding disk_ops overlay
    run_ops-overlay =
        let (done, at_path) =
          run_ops-effect fs host among decoded h (disk_ops states) d disk_ops-Once
            disk_ops-AllSuit in
        (
          done,
          λ q a.
              let first : first_on q (disk_ops states)
                  ≡ or_op (write_of (Dict.get q states)) (unlink_of (Dict.get q states)) =
                first_on-append q (writes (Dict.values states)) (unlinks (Dict.values states))
                ∙ rw
                    (
                      first_on-writes states q good.distinct own,
                      first_on-unlinks states q good.distinct own,
                    )
                    refl in
              subst (Left decoded (overlay (fs.find d) states q))
                (sym (at_path q a ∙ ap (effect decoded (fs.find d q)) first))
                (left_at decoded q (Dict.get q states) (λ s e. good.faithful q s e)),
        )
