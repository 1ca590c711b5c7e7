-- ===== src/Transfers/Files.antt =====
-- src/controller/file-transfer-store.mjs: the class FileTransferStore. `metas` and `bins` are the
-- files of its directory by token, the latter with their sizes; its file calls succeed, and a store
-- whose directory is its own, `ephemeral`, is not used once it is closed.
use codex_compatible_mcp.Base.{
  ℕ, zero, suc, ◌+◌, ◌-◌, ◌*◌, Bool, false, not, ◌&&◌, ◌||◌, Option, none, some, List, [], ◌∷◌, ltb,
  leb, nat_beq, if◌then◌else◌, ◌==◌, length, filter, any, is_empty, Outcome, ok, err,
}
use codex_compatible_mcp.Base.Text.{Text, text_eq}
use codex_compatible_mcp.Base.Dict
use codex_compatible_mcp.Base.Dict.{Dict, is_some}

pub record Entry : Type 0 where
  pub token : Text
  pub environment_id : Option Text
  pub filename : Text
  pub mime_type : Text
  pub byte_length : ℕ
  pub sha256 : Text
  pub created_at : ℕ
  pub expires_at : ℕ

pub record Files : Type 0 where
  pub ephemeral : Bool
  pub max_total_bytes : ℕ
  pub entries : Dict Text Entry
  pub total_bytes : ℕ
  pub active : Dict Text ℕ
  pub pending_delete : List Text
  pub bins : Dict Text ℕ
  pub metas : Dict Text Entry

-- A file that is handed in, decoded: its bytes are given by their number and their digest. `sha256`
-- is the digest that came with it, in lower case, where it has the form of one.
pub record Upload : Type 0 where
  pub environment_id : Option Text
  pub filename : Text
  pub mime_type : Text
  pub byte_length : ℕ
  pub decoded_length : ℕ
  pub digest : Text
  pub sha256 : Option Text

pub data FileError : Type 0 where
  invalid_transfer : FileError
  wrong_size : FileError
  checksum_mismatch : FileError

abbrev pub file_ttl_ms : ℕ
file_ttl_ms = 72 * 60 * 60 * 1000

abbrev pub max_file_bytes : ℕ
max_file_bytes = 12 * 1024 * 1024

abbrev pub has_token : Text → List Text → Bool
has_token token ts = any (λ t. t == token) ts

abbrev pub without : Text → List Text → List Text
without token ts = filter (λ t. not (t == token)) ts

abbrev pub readers : Option ℕ → ℕ
readers none = 0
readers (some n) = n

-- The count of the active readers of a token, zero where there is none.
abbrev pub active_of : Text → Files → ℕ
active_of token s = readers (Dict.get token s.active)

abbrev add_pending : Text → List Text → List Text
add_pending token ts = if has_token token ts then ts else token ∷ ts

unfoldable pub unlink : Text → Files → Files
unlink token s =
    if nat_beq (active_of token s) 0
    then record s { bins = Dict.delete token s.bins }
    else record s { pending_delete = add_pending token s.pending_delete }

abbrev remove_entry : Text → Option Entry → Files → Files
unfolding unlink
remove_entry token none s = s
remove_entry token (some entry) s = unlink token (record s {
  entries = Dict.delete token s.entries;
  total_bytes = s.total_bytes - entry.byte_length;
  metas = Dict.delete token s.metas;
})

unfoldable pub remove : Text → Files → Files
unfolding unlink
remove token s = remove_entry token (Dict.get token s.entries) s

-- The loop over the entries that were there when it began.
unfoldable pub cleanup_loop : ℕ → Dict Text Entry → Files → Files
unfolding remove
cleanup_loop now [] s = s
cleanup_loop now ((token, entry) ∷ rest) s =
    cleanup_loop now rest (if leb entry.expires_at now then remove token s else s)

unfoldable pub cleanup : ℕ → Files → Files
unfolding cleanup_loop
cleanup now s = cleanup_loop now s.entries s

abbrev pub first_token : Dict Text Entry → Option Text
first_token [] = none
first_token ((token, entry) ∷ rest) = some token

-- The loop that evicts from the front; the fuel is a round for each entry.
unfoldable pub evict_loop : ℕ → ℕ → Files → Files
unfolding remove
evict_loop zero bytes s = s
evict_loop (suc fuel) bytes s = elim (first_token s.entries) [
  | none ↦ s
  | some token ↦
      if ltb s.max_total_bytes (s.total_bytes + bytes)
      then evict_loop fuel bytes (remove token s)
      else s
]

unfoldable pub evict : ℕ → ℕ → Files → Files
unfolding cleanup evict_loop
evict now bytes s = let clean = cleanup now s in evict_loop (length clean.entries) bytes clean

abbrev pub mismatches : Option Text → Text → Bool
mismatches none digest = false
mismatches (some sha256) digest = not (sha256 == digest)

unfoldable pub check_upload : Upload → ℕ → Option FileError
check_upload u max_total =
    if is_empty u.filename || is_empty u.mime_type
    then some invalid_transfer
    else if not (nat_beq u.decoded_length u.byte_length)
        || ltb max_file_bytes u.decoded_length
        || ltb max_total u.decoded_length
    then some wrong_size
    else if mismatches u.sha256 u.digest
    then some checksum_mismatch
    else none

abbrev pub new_entry : Text → ℕ → Upload → Entry
new_entry token now u = record {
  token = token;
  environment_id = u.environment_id;
  filename = u.filename;
  mime_type = u.mime_type;
  byte_length = u.decoded_length;
  sha256 = u.digest;
  created_at = now;
  expires_at = now + file_ttl_ms;
}

-- The entry's files are written before room is made for it.
unfoldable pub add_entry : Text → (now evicted_at : ℕ) → Entry → Files → Files
unfolding evict
add_entry token now evicted_at entry s =
    let written : Files = record s {
      bins = Dict.set token entry.byte_length s.bins;
      metas = Dict.set token entry s.metas;
    } in
    let room = evict evicted_at entry.byte_length written in
    record room {
      entries = Dict.set token entry room.entries;
      total_bytes = room.total_bytes + entry.byte_length;
    }

unfoldable pub put_checked :
    Option FileError → Text → (now evicted_at : ℕ) → Entry → Files → Files × Outcome FileError Entry
unfolding add_entry
put_checked (some e) token now evicted_at entry s = (s, err e)
put_checked none token now evicted_at entry s = (add_entry token now evicted_at entry s, ok entry)

-- `put`; `token` is the random one, and the clock is read for the entry and again for the eviction.
unfoldable pub put :
    (token : Text) (now evicted_at : ℕ) → Upload → Files → Files × Outcome FileError Entry
unfolding check_upload put_checked
put token now evicted_at u s =
    put_checked (check_upload u s.max_total_bytes) token now evicted_at (new_entry token now u) s

-- `get`; a text that has not the form of a token is no key of the entries.
unfoldable pub get : Text → ℕ → Files → Files × Option Entry
unfolding cleanup
get token now s = let clean = cleanup now s in (clean, Dict.get token clean.entries)

-- Whether the file of a token is there with the size of its entry.
abbrev pub has_size : Option ℕ → ℕ → Bool
has_size none n = false
has_size (some size) n = nat_beq size n

unfoldable pub acquire_entry : Text → Option Entry → Files → Files × Option Entry
unfolding remove
acquire_entry token none s = (s, none)
acquire_entry token (some entry) s =
    if has_size (Dict.get token s.bins) entry.byte_length
    then (record s { active = Dict.set token (active_of token s + 1) s.active }, some entry)
    else (remove token s, none)

-- `acquire` without the stream.
unfoldable pub acquire : Text → ℕ → Files → Files × Option Entry
unfolding cleanup acquire_entry
acquire token now s =
    let clean = cleanup now s in acquire_entry token (Dict.get token clean.entries) clean

abbrev pub released_count : Option ℕ → ℕ
released_count none = 0
released_count (some zero) = 0
released_count (some (suc n)) = n

-- The `release` of an acquired stream, on its first call.
unfoldable pub end_reading : Text → Files → Files
unfolding unlink
end_reading token s =
    if has_token token s.pending_delete
    then unlink token (record s { pending_delete = without token s.pending_delete })
    else s

unfoldable pub release : Text → Files → Files
unfolding end_reading
release token s =
    let count = released_count (Dict.get token s.active) in
    if nat_beq count 0
    then end_reading token (record s { active = Dict.delete token s.active })
    else record s { active = Dict.set token count s.active }

-- The files of an ephemeral store go with its directory, those that are being read too.
abbrev drop_directory : Files → Files
drop_directory s = if s.ephemeral then record s { bins = []; metas = [] } else s

unfoldable pub close : Files → Files
close s = drop_directory (record s { entries = []; total_bytes = 0 })

-- A token's files as the directory holds them: the entry that was read, and the size of the binary.
pub record Found : Type 0 where
  pub token : Text
  pub meta : Option Entry
  pub bin : Option ℕ

-- `valid`, with the check of the binary.
abbrev is_valid : ℕ → Option ℕ → Text → Entry → Bool
is_valid now bin token entry =
    entry.token == token
    && not (is_empty entry.filename)
    && not (is_empty entry.mime_type)
    && leb entry.byte_length max_file_bytes
    && nat_beq entry.expires_at (entry.created_at + file_ttl_ms)
    && ltb now entry.expires_at
    && has_size bin entry.byte_length

abbrev kept_entry : ℕ → Option ℕ → Text → Option Entry → Option Entry
kept_entry now bin token none = none
kept_entry now bin token (some entry) = if is_valid now bin token entry then some entry else none

abbrev cons_kept : Option Entry → List Entry → List Entry
cons_kept none es = es
cons_kept (some e) es = e ∷ es

unfoldable pub kept_entries : ℕ → List Found → List Entry
kept_entries now [] = []
kept_entries now (f ∷ fs) = cons_kept (kept_entry now f.bin f.token f.meta) (kept_entries now fs)

-- `before` is localeCompare on tokens.
module _ (before : Text → Text → Bool) where
  abbrev is_older : Entry → Entry → Bool
  is_older a b =
      ltb a.created_at b.created_at || (nat_beq a.created_at b.created_at && before a.token b.token)

  unfoldable pub insert_entry : Entry → List Entry → List Entry
  insert_entry e [] = e ∷ []
  insert_entry e (f ∷ fs) = if is_older f e then f ∷ insert_entry e fs else e ∷ f ∷ fs

  unfoldable pub sort_entries : List Entry → List Entry
  unfolding insert_entry
  sort_entries [] = []
  sort_entries (e ∷ es) = insert_entry e (sort_entries es)

unfoldable pub add_all : List Entry → Files → Files
add_all [] s = s
add_all (e ∷ es) s = add_all es (record s {
  entries = Dict.set e.token e s.entries;
  total_bytes = s.total_bytes + e.byte_length;
  bins = Dict.set e.token e.byte_length s.bins;
  metas = Dict.set e.token e s.metas;
})

abbrev pub no_files : Bool → ℕ → Files
no_files ephemeral max_total = record {
  ephemeral = ephemeral;
  max_total_bytes = max_total;
  entries = [];
  total_bytes = 0;
  active = [];
  pending_delete = [];
  bins = [];
  metas = [];
}

-- The constructor, with `#load`: files that are not kept are removed from the directory, and the
-- directory of an ephemeral store is new.
unfoldable pub load :
    (before : Text → Text → Bool) → Bool → (max_total now evicted_at : ℕ) → List Found → Files
unfolding kept_entries sort_entries add_all evict
load before ephemeral max_total now evicted_at found =
    let there = if ephemeral then [] else found in
    evict evicted_at 0
      (add_all (sort_entries before (kept_entries now there)) (no_files ephemeral max_total))
