-- ===== src/Patch/Targets.antt =====
-- The states of staged hunks are those of the patch's targets.
use codex_compatible_mcp.Base.{
  ◌≡◌, refl, inl, inr, Bool, true, not, Option, none, some, List, [], ◌∷◌, ◌++◌, arith, ◌==◌,
  Bool-cases, Option-cases, All, Outcome, ok, err, ◌>>=◌, throw_if,
}
use codex_compatible_mcp.Base.Text.{Text, text_eq, text_beq_iff}
use codex_compatible_mcp.Base.Dict
use codex_compatible_mcp.Patch.Types.{
  Hunk, add, delete, update, PatchError, already_exists, does_not_exist, destination_exists,
}
use codex_compatible_mcp.Patch.Update.{apply_update_text}
use codex_compatible_mcp.Patch.Files.{
  Entry, missing, other, nul_bytes, unreadable, file, Disk, Item, FileState, States, load_entry,
  load_state, put, with_content, removed, moves_to, stage_update, stage_hunk, stage, item_targets,
  targets,
}

-- What holds of a result, if there is one.
abbrev pub Holds : {A : Type 0} → (A → Type 0) → Outcome PatchError A → Type 0
Holds P (ok a) = P a
Holds P (err e) = Unit

>>=-Holds :
    {A B : Type 0} (P : A → Type 0) (Q : B → Type 0) (m : Outcome PatchError A)
    (f : A → Outcome PatchError B)
    → Holds P m
    → ((a : A) → P a → Holds Q (f a))
    → Holds Q (m >>= f)
>>=-Holds P Q (ok a) f h next = next a h
>>=-Holds P Q (err e) f h next = tt

Holds-true : {A : Type 0} (m : Outcome PatchError A) → Holds (λ a. Unit {0}) m
Holds-true (ok a) = tt
Holds-true (err e) = tt

module _ (among : Text → Bool) where
  -- Each state stands under its own path, which is one of those `among`.
  unfoldable pub IsWithin : States → Type 0
  IsWithin states =
      (p : Text) (s : FileState) → Dict.get p states ≡ some s → (s.path ≡ p) × (among p ≡ true)

  set-IsWithin :
      (p : Text) (s : FileState) (states : States)
      → s.path ≡ p
      → among p ≡ true
      → IsWithin states
      → IsWithin (Dict.set p s states)
  unfolding IsWithin
  set-IsWithin p s states own a h q t e = elim (Bool-cases (p == q)) [
    | inl same ↦
        let at : p ≡ q = (text_beq_iff p q).0 same in
        let is : s ≡ t = ground (arith, Dict.get-set p q s states) in rw (← is, ← at) (own, a)
    | inr apart ↦ h q t (ground (arith, Dict.get-set p q s states))
  ]

  put-IsWithin :
      (s : FileState) (states : States)
      → among s.path ≡ true
      → IsWithin states
      → IsWithin (put s states)
  put-IsWithin s states a h = set-IsWithin s.path s states refl a h

  -- A state that was loaded for a path, with the table.
  abbrev Got : Text → FileState × States → Type 0
  Got path x = (x.0.path ≡ path) × IsWithin x.1

  module _ (disk : Disk) where
    load_entry-own :
        (path : Text) (entry : Entry)
        → Holds (λ (s : FileState). s.path ≡ path) (load_entry path entry)
    unfolding load_entry
    load_entry-own path missing = refl
    load_entry-own path other = tt
    load_entry-own path nul_bytes = tt
    load_entry-own path unreadable = tt
    load_entry-own path (file content) = refl

    load_state-Got :
        (states : States) (path : Text)
        → among path ≡ true
        → IsWithin states
        → Holds (Got path) (load_state disk states path)
    unfolding load_state IsWithin
    load_state-Got states path a h = elim (Option-cases (Dict.get path states)) [
      | inr (s, e) ↦ rw (e, load_state) ((h path s e).0, h)
      | inl e ↦
          rw (e, load_state)
            (>>=-Holds (λ (s : FileState). s.path ≡ path) (Got path) (load_entry path (disk path))
              (λ s. ok (s, Dict.set path s states)) (load_entry-own path (disk path))
              (λ s own. (own, set-IsWithin path s states own a h)))
    ]

    stage_update-IsWithin :
        (states : States) (s : FileState) (source : Text) (destination : Option Text)
        (content : Text)
        → among s.path ≡ true
        → IsWithin states
        → All (λ p. among p ≡ true) (elim destination [ none ↦ [] | some d ↦ d ∷ [] ])
        → Holds IsWithin (stage_update disk states s source destination content)
    unfolding stage_update
    stage_update-IsWithin states s source none content a h t =
        put-IsWithin (with_content s content) states a h
    stage_update-IsWithin states s source (some d) content a h t =
        >>=-Holds (Got d) IsWithin (load_state disk states d) _ (load_state-Got states d t.0 h)
          (λ x (own, h').
            >>=-Holds (λ u. Unit {0}) IsWithin (throw_if x.0.exists (destination_exists d)) _
              (Holds-true (throw_if x.0.exists (destination_exists d)))
              (λ u v.
                put-IsWithin (removed s) (put (with_content x.0 content) x.1) a
                  (put-IsWithin (with_content x.0 content) x.1 (rw own t.0) h')))

    moves_to-among :
        (source : Text) (destination : Option Text)
        → All (λ p. among p ≡ true) (elim destination [ none ↦ [] | some d ↦ d ∷ [] ])
        → All
            (λ p. among p ≡ true)
            (elim (moves_to source destination) [ none ↦ [] | some d ↦ d ∷ [] ])
    moves_to-among source none t = tt
    moves_to-among source (some d) t = elim (Bool-cases (d == source)) [
      | inl same ↦ rw same tt
      | inr apart ↦ rw apart t
    ]

    stage_hunk-IsWithin :
        (states : States) (source : Text) (destination : Option Text) (hunk : Hunk)
        → among source ≡ true
        → All (λ p. among p ≡ true) (elim destination [ none ↦ [] | some d ↦ d ∷ [] ])
        → IsWithin states
        → Holds IsWithin (stage_hunk disk states source destination hunk)
    unfolding stage_hunk
    stage_hunk-IsWithin states source destination (add path content) a t h =
        >>=-Holds (Got source) IsWithin (load_state disk states source) _
          (load_state-Got states source a h)
          (λ x (own, h').
            >>=-Holds (λ u. Unit {0}) IsWithin (throw_if x.0.exists (already_exists path)) _
              (Holds-true (throw_if x.0.exists (already_exists path)))
              (λ u v. put-IsWithin (with_content x.0 content) x.1 (rw own a) h'))
    stage_hunk-IsWithin states source destination (delete path) a t h =
        >>=-Holds (Got source) IsWithin (load_state disk states source) _
          (load_state-Got states source a h)
          (λ x (own, h').
            >>=-Holds (λ u. Unit {0}) IsWithin (throw_if (not x.0.exists) (does_not_exist path)) _
              (Holds-true (throw_if (not x.0.exists) (does_not_exist path)))
              (λ u v. put-IsWithin (removed x.0) x.1 (rw own a) h'))
    stage_hunk-IsWithin states source destination (update path move_path chunks) a t h =
        >>=-Holds (Got source) IsWithin (load_state disk states source) _
          (load_state-Got states source a h)
          (λ x (own, h').
            >>=-Holds (λ u. Unit {0}) IsWithin (throw_if (not x.0.exists) (does_not_exist path)) _
              (Holds-true (throw_if (not x.0.exists) (does_not_exist path)))
              (λ u v.
                >>=-Holds (λ c. Unit {0}) IsWithin (apply_update_text x.0.content chunks) _
                  (Holds-true (apply_update_text x.0.content chunks))
                  (λ content w.
                    stage_update-IsWithin x.1 x.0 source (moves_to source destination) content
                      (rw own a) h' (moves_to-among source destination t))))

    All-append :
        (xs ys : List Text)
        → All (λ p. among p ≡ true) (xs ++ ys)
        → All (λ p. among p ≡ true) xs × All (λ p. among p ≡ true) ys
    All-append [] ys h = (tt, h)
    All-append (x ∷ xs) ys (a, h) = let (b, c) = All-append xs ys h in ((a, b), c)

    pub stage-IsWithin :
        (states : States) (items : List Item)
        → All (λ p. among p ≡ true) (targets items)
        → IsWithin states
        → Holds IsWithin (stage disk states items)
    unfolding stage targets
    stage-IsWithin states [] t h = h
    stage-IsWithin states (item ∷ items) t h =
        let (own, rest) = All-append (item_targets item) (targets items) t in
        >>=-Holds IsWithin IsWithin (stage_hunk disk states item.source item.destination item.hunk)
          _ (stage_hunk-IsWithin states item.source item.destination item.hunk own.0 own.1 h)
          (λ states' h'. stage-IsWithin states' items rest h')

  pub empty-IsWithin : IsWithin []
  unfolding IsWithin Dict.get
  empty-IsWithin p s e = absurd cc
