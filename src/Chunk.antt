-- ===== src/Chunk.antt =====
-- internal/chunk/store.go: the content-addressed store of chunks. A file is found by its name, the
-- chunk's id; SHA-256 is a parameter that gives the bytes of the digest. The lock makes each call one
-- step.
pub mod Content
pub mod Sweep
pub mod Ids
pub mod Sample
mod Witnesses
use minidist.Base.{
  ℕ, zero, suc, ◌+◌, ◌-◌, ◌/◌, ◌%◌, Bool, true, false, not, ◌&&◌, ◌||◌, Option, none, some, List,
  [], ◌∷◌, ◌++◌, ltb, leb, ◌==◌, length, if◌then◌else◌,
}
use minidist.Base.Text.{Text, text_eq}
use minidist.Base.Assoc.{Assoc, lookup, insert, remove, text_eq_inst}
use minidist.Base.Sets.{contains}

pub record File : Type 0 where
  pub bytes : List ℕ
  pub mtime : ℕ

abbrev pub Files : Type 0
Files = Assoc Text File

pub data ChunkErr : Type 0 where
  invalid_id_length : ℕ → ChunkErr
  invalid_id : ChunkErr
  chunk_not_found : ChunkErr
  chunk_checksum_mismatch : Text → ChunkErr
  chunk_io_error : ChunkErr

-- `hex.EncodeToString`; 48 is '0' and 87 + 10 is 'a'.
abbrev pub hex_digit : ℕ → ℕ
hex_digit n = if ltb n 10 then 48 + n else 87 + n

unfoldable pub hex : List ℕ → Text
hex [] = []
hex (b ∷ bs) = hex_digit (b / 16) ∷ hex_digit (b % 16) ∷ hex bs

-- A digit that `hex.DecodeString` takes: 0 to 9, A to F, a to f.
abbrev pub is_hex : ℕ → Bool
is_hex c = leb 48 c && leb c 57 || leb 65 c && leb c 70 || leb 97 c && leb c 102

unfoldable pub all_hex : Text → Bool
all_hex [] = true
all_hex (c ∷ cs) = is_hex c && all_hex cs

unfoldable pub validate_id : Text → Option ChunkErr
unfolding all_hex
validate_id id =
    if not (length id == 64)
    then some (invalid_id_length (length id))
    else if all_hex id
    then none
    else some invalid_id

pub data ChunkRead : Type 0 where
  read : List ℕ → ChunkRead
  read_error : ChunkErr → ChunkRead

module _ (sha256 : List ℕ → List ℕ) where
  unfoldable pub chunk_id : List ℕ → Text
  unfolding hex
  chunk_id bytes = hex (sha256 bytes)

  -- `Put` at time `now`, and whether the calls of the file system succeed. A file that exists with the
  -- right content only gets a new time.
  unfoldable pub put : ℕ → Bool → List ℕ → Files → Option Text × Files
  put now works bytes files =
      let id = chunk_id bytes in
      if not works then (none, files) else elim (lookup id files) [
        | none ↦ (some id, insert id (record { bytes = bytes; mtime = now }) files)
        | some existing ↦
            if text_eq (chunk_id existing.bytes) id
            then (some id, insert id (record { bytes = existing.bytes; mtime = now }) files)
            else (some id, insert id (record { bytes = bytes; mtime = now }) files)
      ]

  unfoldable pub get : Text → Files → ChunkRead
  get id files = elim (validate_id id) [
    | some e ↦ read_error e
    | none ↦ elim (lookup id files) [
      | none ↦ read_error chunk_not_found
      | some file ↦
          if text_eq (chunk_id file.bytes) id
          then read file.bytes
          else read_error (chunk_checksum_mismatch id)
    ]
  ]

unfoldable pub delete : Text → Files → Option ChunkErr × Files
delete id files = elim (validate_id id) [
  | some e ↦ (some e, files)
  | none ↦ (none, remove id files)
]

unfoldable pub exists : Text → Files → Option ChunkErr × Bool
exists id files = elim (validate_id id) [
  | some e ↦ (some e, false)
  | none ↦ elim (lookup id files) [ none ↦ (none, false) | some file ↦ (none, true) ]
]

abbrev pub is_valid : Text → Bool
is_valid id = elim (validate_id id) [ none ↦ true | some e ↦ false ]

pub record SweepResult : Type 0 where
  pub scanned : ℕ
  pub deleted : ℕ
  pub kept : ℕ

-- Whether `Sweep` removes a file.
unfoldable pub is_garbage : List Text → ℕ → Text → File → Bool
is_garbage live cutoff id file = is_valid id && not (contains live id) && ltb file.mtime cutoff

unfoldable pub count_file : List Text → ℕ → Text → File → SweepResult → SweepResult
unfolding is_garbage
count_file live cutoff id file r =
    if not (is_valid id)
    then r
    else if is_garbage live cutoff id file
    then record r { scanned = r.scanned + 1; deleted = r.deleted + 1 }
    else record r { scanned = r.scanned + 1; kept = r.kept + 1 }

unfoldable pub sweep_files : List Text → ℕ → Files → SweepResult → SweepResult × Files
sweep_files live cutoff [] r = (r, [])
sweep_files live cutoff ((id, file) ∷ rest) r =
    let swept = sweep_files live cutoff rest (count_file live cutoff id file r) in
    if is_garbage live cutoff id file then swept else (swept.0, (id, file) ∷ swept.1)

-- `Sweep` when no call of the file system fails.
unfoldable pub sweep : List Text → ℕ → Files → SweepResult × Files
unfolding sweep_files
sweep live cutoff files =
    sweep_files live cutoff files (record { scanned = 0; deleted = 0; kept = 0 })
