-- ===== src/Store/Snapshot.antt =====
-- snapshot.go: the snapshot file, its header and its payload. `encoding/json` is a parameter.
use minidist.Base.{
  ℕ, ◌≤◌, ◌≡◌, ◌≢◌, refl, sym, ap, ◌∙◌, inl, inr, ◌⊎◌, true, false, not, Option, none, some, List,
  [], ◌∷◌, ◌++◌, arith, ltb, ◌==◌, if◌then◌else◌, length, drop, Bool-cases,
}
use mathlib.Core.Path.{subst}
use mathlib.Core.List.{append-nil}
use minidist.Base.Text.{Text}
use minidist.Base.Assoc.{Assoc}
use minidist.Base.BigEndian.{put_u32, put_u16, get_u32, get_u16}
use minidist.Base.Crc.{crc32, crc32-lt}
use minidist.Base.Words.{u32}
use minidist.Store.Version.{Value}
use minidist.Store.Wal.{eof, short, full, read_full}
use minidist.Store.Wal.Records.{read_full-append}

abbrev pub snapshot_magic : ℕ
snapshot_magic = 0x4D445350

abbrev pub snapshot_version : ℕ
snapshot_version = 1

abbrev pub snapshot_header_size : ℕ
snapshot_header_size = 16

abbrev pub max_snapshot_size : ℕ
max_snapshot_size = 67108864

pub record SnapshotData : Type 0 where
  pub values : Assoc Text Value
  pub max_version_counter : ℕ

-- `json.Marshal` and `json.Unmarshal` at one type.
pub record Codec (A : Type 0) : Type 0 where
  pub marshal : A → Option (List ℕ)
  pub unmarshal : List ℕ → Option A

-- The codec writes the value and reads it back.
abbrev pub RoundTrips : {A : Type 0} → Codec A → A → List ℕ → Type 0
RoundTrips codec x bytes = (codec.marshal x ≡ some bytes) × (codec.unmarshal bytes ≡ some x)

pub data SnapshotErr : Type 0 where
  marshal_error : SnapshotErr
  snapshot_too_large : ℕ → SnapshotErr
  file_error : SnapshotErr
  read_header_error : SnapshotErr
  invalid_snapshot_magic : ℕ → SnapshotErr
  unsupported_snapshot_version : ℕ → SnapshotErr
  read_payload_error : SnapshotErr
  snapshot_checksum_mismatch : ℕ → ℕ → SnapshotErr
  unmarshal_error : SnapshotErr

-- Where `saveSnapshot` fails, if it does: at a step on the temporary file or at the rename, or at
-- the sync of the directory, after the rename.
pub data Fault : Type 0 where
  no_fault : Fault
  before_rename : Fault
  at_sync_dir : Fault

unfoldable pub snapshot_header : List ℕ → List ℕ
snapshot_header payload =
    put_u32 snapshot_magic
    ++ put_u16 snapshot_version
    ++ 0 ∷ 0 ∷ []
    ++ put_u32 (u32 (length payload))
    ++ put_u32 (crc32 payload)

-- The file at the path, `none` when there is none, and the error.
unfoldable pub save_snapshot :
    Codec SnapshotData
    → Fault
    → SnapshotData
    → Option (List ℕ)
    → Option SnapshotErr × Option (List ℕ)
save_snapshot codec fault snapshot file = elim (codec.marshal snapshot) [
  | none ↦ (some marshal_error, file)
  | some payload ↦
      if ltb max_snapshot_size (length payload)
      then (some (snapshot_too_large (length payload)), file)
      else elim fault [
        | before_rename ↦ (some file_error, file)
        | at_sync_dir ↦ (some file_error, some (snapshot_header payload ++ payload))
        | no_fault ↦ (none, some (snapshot_header payload ++ payload))
      ]
]

pub data Loaded : Type 0 where
  loaded : SnapshotData → Loaded
  load_error : SnapshotErr → Loaded

unfoldable pub load_payload : Codec SnapshotData → List ℕ → List ℕ → Loaded
load_payload codec header rest = elim (read_full (get_u32 (drop 8 header)) rest) [
  | eof ↦ load_error read_payload_error
  | short ↦ load_error read_payload_error
  | full payload rest' ↦
      if get_u32 (drop 12 header) == crc32 payload
      then elim (codec.unmarshal payload) [
        | none ↦ load_error unmarshal_error
        | some snapshot ↦ loaded snapshot
      ]
      else load_error (snapshot_checksum_mismatch (get_u32 (drop 12 header)) (crc32 payload))
]

unfoldable pub load_header : Codec SnapshotData → List ℕ → List ℕ → Loaded
load_header codec header rest =
    if not (get_u32 header == snapshot_magic)
    then load_error (invalid_snapshot_magic (get_u32 header))
    else if not (get_u16 (drop 4 header) == snapshot_version)
    then load_error (unsupported_snapshot_version (get_u16 (drop 4 header)))
    else if ltb max_snapshot_size (get_u32 (drop 8 header))
    then load_error (snapshot_too_large (get_u32 (drop 8 header)))
    else load_payload codec header rest

unfoldable pub load_snapshot : Codec SnapshotData → Option (List ℕ) → Loaded
load_snapshot codec none = loaded (record { values = []; max_version_counter = 0 })
load_snapshot codec (some bytes) = elim (read_full snapshot_header_size bytes) [
  | eof ↦ load_error read_header_error
  | short ↦ load_error read_header_error
  | full header rest ↦ load_header codec header rest
]

header_fields :
    (payload : List ℕ)
    → length payload ≤ max_snapshot_size
    → (get_u32 (snapshot_header payload) ≡ snapshot_magic)
      × ((get_u16 (drop 4 (snapshot_header payload)) ≡ snapshot_version)
          × ((get_u32 (drop 8 (snapshot_header payload)) ≡ length payload)
              × (get_u32 (drop 12 (snapshot_header payload)) ≡ crc32 payload)))
header_fields payload small =
    unfold snapshot_header get_u32 get_u16 put_u32 put_u16 in
    (refl, (refl, (omega arith, omega (arith, crc32-lt payload))))

load_payload-header :
    (codec : Codec SnapshotData) (snapshot : SnapshotData) (payload : List ℕ)
    → codec.unmarshal payload ≡ some snapshot
    → length payload ≤ max_snapshot_size
    → load_payload codec (snapshot_header payload) payload ≡ loaded snapshot
load_payload-header codec snapshot payload u small =
    let (m, (v, (l, c))) = header_fields payload small in
    let r : read_full (get_u32 (drop 8 (snapshot_header payload))) payload ≡ full payload [] =
      ap (λ n. read_full n payload) l
      ∙ ap (read_full (length payload)) (sym (append-nil payload))
      ∙ read_full-append payload [] in
    unfold load_payload in rw (r, c, load_payload) (ground arith)

-- A snapshot that was saved is the one that is loaded.
pub load_snapshot-saved :
    (codec : Codec SnapshotData) (snapshot : SnapshotData) (payload : List ℕ)
    → codec.unmarshal payload ≡ some snapshot
    → length payload ≤ max_snapshot_size
    → load_snapshot codec (some (snapshot_header payload ++ payload)) ≡ loaded snapshot
load_snapshot-saved codec snapshot payload u small =
    let (m, (v, (l, c))) = header_fields payload small in
    let n : length (snapshot_header payload) ≡ snapshot_header_size =
      unfold snapshot_header put_u32 put_u16 in refl in
    let r : read_full snapshot_header_size (snapshot_header payload ++ payload)
        ≡ full (snapshot_header payload) payload =
      ap (λ k. read_full k (snapshot_header payload ++ payload)) (sym n)
      ∙ read_full-append (snapshot_header payload) payload in
    let h : load_header codec (snapshot_header payload) payload ≡ loaded snapshot =
      unfold load_header in
      rw (m, v, l) (ground (arith, load_payload-header codec snapshot payload u small)) in
    unfold load_snapshot in rw (r, load_snapshot) h

save_snapshot-large :
    (codec : Codec SnapshotData) (fault : Fault) (snapshot : SnapshotData) (payload : List ℕ)
    (file : Option (List ℕ))
    → codec.marshal snapshot ≡ some payload
    → ltb max_snapshot_size (length payload) ≡ true
    → save_snapshot codec fault snapshot file ≡ (some (snapshot_too_large (length payload)), file)
save_snapshot-large codec fault snapshot payload file m e =
    unfold save_snapshot in rw (m, e, save_snapshot) refl

-- What a snapshot of a fitting size leaves.
unfoldable pub saved : Fault → List ℕ → Option (List ℕ) → Option SnapshotErr × Option (List ℕ)
saved before_rename payload file = (some file_error, file)
saved at_sync_dir payload file = (some file_error, some (snapshot_header payload ++ payload))
saved no_fault payload file = (none, some (snapshot_header payload ++ payload))

pub save_snapshot-saved :
    (codec : Codec SnapshotData) (fault : Fault) (snapshot : SnapshotData) (payload : List ℕ)
    (file : Option (List ℕ))
    → codec.marshal snapshot ≡ some payload
    → ltb max_snapshot_size (length payload) ≡ false
    → save_snapshot codec fault snapshot file ≡ saved fault payload file
unfolding saved
save_snapshot-saved codec no_fault snapshot payload file m e =
    unfold save_snapshot in rw (m, e, save_snapshot) refl
save_snapshot-saved codec before_rename snapshot payload file m e =
    unfold save_snapshot in rw (m, e, save_snapshot) refl
save_snapshot-saved codec at_sync_dir snapshot payload file m e =
    unfold save_snapshot in rw (m, e, save_snapshot) refl

-- After a save the file loads as the snapshot, or there was an error and the file is untouched.
abbrev pub Atomic :
    Codec SnapshotData
    → SnapshotData
    → Option (List ℕ)
    → Option SnapshotErr × Option (List ℕ)
    → Type 0
Atomic codec snapshot file (err, file') =
    (load_snapshot codec file' ≡ loaded snapshot) ⊎ ((err ≢ none) × (file' ≡ file))

saved-Atomic :
    (codec : Codec SnapshotData) (fault : Fault) (snapshot : SnapshotData) (payload : List ℕ)
    (file : Option (List ℕ))
    → codec.unmarshal payload ≡ some snapshot
    → length payload ≤ max_snapshot_size
    → Atomic codec snapshot file (saved fault payload file)
unfolding saved
saved-Atomic codec no_fault snapshot payload file u small =
    inl (load_snapshot-saved codec snapshot payload u small)
saved-Atomic codec before_rename snapshot payload file u small = inr (λ e. cc, refl)
saved-Atomic codec at_sync_dir snapshot payload file u small =
    inl (load_snapshot-saved codec snapshot payload u small)

-- saveSnapshot is atomic: wherever it fails, the file either loads as the new snapshot, or there
-- is an error and the file is untouched, for a snapshot that the codec reads back.
pub save_snapshot-Atomic :
    (codec : Codec SnapshotData) (fault : Fault) (snapshot : SnapshotData) (payload : List ℕ)
    (file : Option (List ℕ))
    → RoundTrips codec snapshot payload
    → Atomic codec snapshot file (save_snapshot codec fault snapshot file)
save_snapshot-Atomic codec fault snapshot payload file (m, u) =
    elim (Bool-cases (ltb max_snapshot_size (length payload))) [
      | inl e ↦
          subst (Atomic codec snapshot file)
            (sym (save_snapshot-large codec fault snapshot payload file m e)) (inr (λ e. cc, refl))
      | inr e ↦
          subst (Atomic codec snapshot file)
            (sym (save_snapshot-saved codec fault snapshot payload file m e))
            (saved-Atomic codec fault snapshot payload file u (ground arith))
    ]
