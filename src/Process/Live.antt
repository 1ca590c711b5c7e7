-- ===== src/Process/Live.antt =====
-- src/runtime/process-manager.mjs: how the count of live processes and the sessions' records change.
use codex_compatible_mcp.Base.{
  ℕ, zero, suc, ◌≤◌, ◌≡◌, refl, inl, inr, true, none, some, List, [], ◌∷◌, ◌++◌, length, get_elem?,
  set, All, nat_beq, nat_eq, arith, Bool-cases,
}
use codex_compatible_mcp.Base.Dict
use codex_compatible_mcp.Base.Dict.{Dict}
use codex_compatible_mcp.Process.Types.{Process}
use codex_compatible_mcp.Process.Manager.{is_live, add_live, live_processes}

-- A record of the given id at the given place.
unfoldable pub Holds : List Process → ℕ → ℕ → Type 0
Holds records id place = (p : Process) × (get_elem? records place ≡ some p) × (p.process_id ≡ id)

abbrev pub IsHeld : List Process → Dict ℕ ℕ → Type 0
IsHeld records sessions = All (λ entry. Holds records entry.0 entry.1) sessions

live_mono :
    (records records' : List Process) (sessions : Dict ℕ ℕ)
    → ((i : ℕ) → is_live (get_elem? records' i) ≡ true → is_live (get_elem? records i) ≡ true)
    → live_processes records' sessions ≤ live_processes records sessions
unfolding live_processes
live_mono records records' [] h = ground arith
live_mono records records' ((id, place) ∷ sessions) h =
    ground (arith, live_mono records records' sessions h, h place)

module _ (p : Process) where
  is_live-set :
      (records : List Process) (place i : ℕ)
      → (is_live (some p) ≡ true → is_live (get_elem? records place) ≡ true)
      → is_live (get_elem? (set records place p) i) ≡ true
      → is_live (get_elem? records i) ≡ true
  is_live-set [] place i h l = l
  is_live-set (q ∷ records) zero zero h l = h l
  is_live-set (q ∷ records) zero (suc i) h l = l
  is_live-set (q ∷ records) (suc place) zero h l = l
  is_live-set (q ∷ records) (suc place) (suc i) h l = is_live-set records place i h l

  pub live-set_le :
      (records : List Process) (sessions : Dict ℕ ℕ) (place : ℕ)
      → (is_live (some p) ≡ true → is_live (get_elem? records place) ≡ true)
      → live_processes (set records place p) sessions ≤ live_processes records sessions
  live-set_le records sessions place h =
      live_mono records (set records place p) sessions (λ i. is_live-set records place i h)

  set-Holds :
      (records : List Process) (place id i : ℕ)
      → ((q : Process) → get_elem? records place ≡ some q → p.process_id ≡ q.process_id)
      → Holds records id i
      → Holds (set records place p) id i
  unfolding Holds
  set-Holds [] place id i same h = h
  set-Holds (q ∷ records) zero id zero same (r, e, named) = (p, refl, ground (arith, same q refl))
  set-Holds (q ∷ records) zero id (suc i) same h = h
  set-Holds (q ∷ records) (suc place) id zero same h = h
  set-Holds (q ∷ records) (suc place) id (suc i) same h = set-Holds records place id i same h

  pub set-IsHeld :
      (records : List Process) (sessions : Dict ℕ ℕ) (place : ℕ)
      → ((q : Process) → get_elem? records place ≡ some q → p.process_id ≡ q.process_id)
      → IsHeld records sessions
      → IsHeld (set records place p) sessions
  set-IsHeld records [] place same h = tt
  set-IsHeld records ((id, i) ∷ sessions) place same (here, rest) =
      (set-Holds records place id i same here, set-IsHeld records sessions place same rest)

  get_elem?-append :
      (records : List Process) (i : ℕ) {q : Process}
      → get_elem? records i ≡ some q
      → get_elem? (records ++ (p ∷ [])) i ≡ some q
  get_elem?-append [] i h = absurd (ground arith)
  get_elem?-append (r ∷ records) zero h = h
  get_elem?-append (r ∷ records) (suc i) h = get_elem?-append records i h

  pub get_elem?-last :
      (records : List Process) → get_elem? (records ++ (p ∷ [])) (length records) ≡ some p
  get_elem?-last [] = refl
  get_elem?-last (r ∷ records) = get_elem?-last records

  pub append-IsHeld :
      (records : List Process) (sessions : Dict ℕ ℕ)
      → IsHeld records sessions
      → IsHeld (records ++ (p ∷ [])) sessions
  unfolding Holds
  append-IsHeld records [] h = tt
  append-IsHeld records ((id, i) ∷ sessions) ((q, e, named), rest) =
      ((q, get_elem?-append records i e, named), append-IsHeld records sessions rest)

  pub live-append :
      (records : List Process) (sessions : Dict ℕ ℕ)
      → IsHeld records sessions
      → live_processes (records ++ (p ∷ [])) sessions ≡ live_processes records sessions
  unfolding Holds live_processes
  live-append records [] h = refl
  live-append records ((id, i) ∷ sessions) ((q, e, named), rest) =
      rw (e, get_elem?-append records i e, live-append records sessions rest) refl

pub live-delete_le :
    (records : List Process) (sessions : Dict ℕ ℕ) (id : ℕ)
    → live_processes records (Dict.delete id sessions) ≤ live_processes records sessions
unfolding live_processes Dict.delete
live-delete_le records [] id = ground arith
live-delete_le records ((j, place) ∷ sessions) id = elim (Bool-cases (nat_beq j id)) [
  | inl same ↦ rw same (ground (arith, live-delete_le records sessions id))
  | inr other ↦ rw other (ground (arith, live-delete_le records sessions id))
]

pub delete-IsHeld :
    (records : List Process) (sessions : Dict ℕ ℕ) (id : ℕ)
    → IsHeld records sessions
    → IsHeld records (Dict.delete id sessions)
unfolding Dict.delete
delete-IsHeld records [] id h = tt
delete-IsHeld records ((j, place) ∷ sessions) id (here, rest) = elim (Bool-cases (nat_beq j id)) [
  | inl same ↦ rw same (delete-IsHeld records sessions id rest)
  | inr other ↦ rw other (here, delete-IsHeld records sessions id rest)
]

-- An id that is not there yet is put last.
pub live-set_new :
    (records : List Process) (sessions : Dict ℕ ℕ) (id place : ℕ)
    → Dict.get id sessions ≡ none
    → live_processes records (Dict.set id place sessions)
      ≡ add_live (is_live (get_elem? records place)) (live_processes records sessions)
unfolding live_processes Dict.set Dict.get
live-set_new records [] id place h = refl
live-set_new records ((j, i) ∷ sessions) id place h = elim (Bool-cases (nat_beq j id)) [
  | inl same ↦ absurd (ground arith)
  | inr other ↦ rw other (ground (arith, live-set_new records sessions id place))
]

pub set-IsHeld_new :
    (records : List Process) (sessions : Dict ℕ ℕ) (id place : ℕ)
    → Holds records id place
    → Dict.get id sessions ≡ none
    → IsHeld records sessions
    → IsHeld records (Dict.set id place sessions)
unfolding Dict.set Dict.get
set-IsHeld_new records [] id place new h rest = (new, tt)
set-IsHeld_new records ((j, i) ∷ sessions) id place new h (here, rest) =
    elim (Bool-cases (nat_beq j id)) [
      | inl same ↦ absurd (ground arith)
      | inr other ↦
          rw other (here, set-IsHeld_new records sessions id place new (ground arith) rest)
    ]
