-- ===== src/Process/Ids.antt =====
-- src/runtime/process-manager.mjs: the loop that looks for a free process id ends, with one.
use codex_compatible_mcp.Base.{
  ℕ, zero, suc, ◌+◌, ◌≤◌, ◌<◌, ◌≡◌, refl, inl, inr, true, false, Option, some, [], ◌∷◌, length, leb,
  ltb, nat_beq, nat_eq, arith, Bool-cases, ok,
}
use codex_compatible_mcp.Base.Dict
use codex_compatible_mcp.Base.Dict.{Dict}
use codex_compatible_mcp.Process.Types.{Manager, max_processes, max_process_id}
use codex_compatible_mcp.Process.Manager.{
  add_live, live_processes, next_id, free_id, allocate_process_id,
}

-- How many sessions have an id above the given one.
above : ℕ → Dict ℕ ℕ → ℕ
above id [] = 0
above id ((j, place) ∷ sessions) = add_live (ltb id j) (above id sessions)

above-le_length : (id : ℕ) (sessions : Dict ℕ ℕ) → above id sessions ≤ length sessions
unfolding above
above-le_length id [] = ground arith
above-le_length id ((j, place) ∷ sessions) = ground (arith, above-le_length id sessions)

above-suc_le : (id : ℕ) (sessions : Dict ℕ ℕ) → above (suc id) sessions ≤ above id sessions
unfolding above
above-suc_le id [] = ground arith
above-suc_le id ((j, place) ∷ sessions) = ground (arith, above-suc_le id sessions)

-- A taken id is one less to come.
above-suc_lt :
    (id : ℕ) (sessions : Dict ℕ ℕ)
    → Dict.has (suc id) sessions ≡ true
    → above (suc id) sessions < above id sessions
unfolding above Dict.get
above-suc_lt id [] h = absurd (ground arith)
above-suc_lt id ((j, place) ∷ sessions) h = elim (Bool-cases (nat_beq j (suc id))) [
  | inl same ↦ ground (arith, above-suc_le id sessions)
  | inr other ↦ ground (arith, above-suc_lt id sessions)
]

IsFree : Dict ℕ ℕ → ℕ → Option ℕ → Type 0
IsFree sessions id found =
    (free : ℕ) × (found ≡ some free)
    × (Dict.has free sessions ≡ false)
    × (1000 ≤ free)
    × (free ≤ max_process_id)

-- Before the ids wrap around.
free_id-upward :
    (fuel : ℕ) (sessions : Dict ℕ ℕ) (id : ℕ)
    → above id sessions < fuel
    → id + above id sessions < max_process_id
    → 999 ≤ id
    → IsFree sessions id (free_id fuel sessions id)
unfolding free_id IsFree
free_id-upward zero sessions id enough room low = absurd (omega arith)
free_id-upward (suc fuel) sessions id enough room low =
    let here : next_id id ≡ suc id = ground arith in
    rw here (elim (Bool-cases (Dict.has (suc id) sessions)) [
      | inr free ↦ rw free (suc id, refl, free, omega arith, omega arith)
      | inl taken ↦ rw taken (
          free_id-upward fuel sessions (suc id) (omega (arith, above-suc_lt id sessions taken))
            (omega (arith, above-suc_lt id sessions taken)) (omega arith))
    ])

-- With at most one wrap.
free_id-IsFree :
    (fuel : ℕ) (sessions : Dict ℕ ℕ) (id : ℕ)
    → above id sessions + suc (length sessions) < fuel
    → 1000 + length sessions < max_process_id
    → 999 ≤ id
    → IsFree sessions id (free_id fuel sessions id)
unfolding free_id IsFree
free_id-IsFree zero sessions id enough room low = absurd (omega arith)
free_id-IsFree (suc fuel) sessions id enough room low =
    elim (Bool-cases (ltb max_process_id (suc id))) [
      | inr below ↦ rw below (elim (Bool-cases (Dict.has (suc id) sessions)) [
        | inr free ↦ rw free (suc id, refl, free, omega arith, ground arith)
        | inl taken ↦ rw taken (
            free_id-IsFree fuel sessions (suc id) (omega (arith, above-suc_lt id sessions taken))
              room (omega arith))
      ])
      | inl wraps ↦ rw wraps (elim (Bool-cases (Dict.has 1000 sessions)) [
        | inr free ↦ rw free (1000, refl, free, omega arith, omega arith)
        | inl taken ↦ rw taken (
            free_id-upward fuel sessions 1000 (omega (arith, above-le_length 1000 sessions))
              (omega (arith, above-le_length 1000 sessions)) (omega arith))
      ])
    ]

-- Below the limit of live processes an allocation gives an id that no session has, within the range of
-- ids, as long as the sessions, live or not, are fewer than the ids and the last id is at least 999.
pub allocate_process_id-free :
    (m : Manager)
    → live_processes m.records m.sessions < max_processes
    → 1000 + length m.sessions < max_process_id
    → 999 ≤ m.next_process_id
    → (id : ℕ) × (allocate_process_id m ≡ (record m { next_process_id = id }, ok id))
      × (Dict.has id m.sessions ≡ false)
      × (1000 ≤ id)
      × (id ≤ max_process_id)
unfolding allocate_process_id IsFree
allocate_process_id-free m live room low =
    let below : leb max_processes (live_processes m.records m.sessions) ≡ false = ground arith in
    let (id, found, free, least, most) =
      free_id-IsFree (length m.sessions + (length m.sessions + 2)) m.sessions m.next_process_id
        (omega (arith, above-le_length m.next_process_id m.sessions)) room low in
    (id, rw below (rw found refl), free, least, most)
