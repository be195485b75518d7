-- ===== src/Store/Wal.antt =====
-- wal.go: the write-ahead log. The file is its bytes; it is opened with O_APPEND, so every write
-- goes to the end, and the read position matters only inside `Replay`, where it is the suffix of
-- the file that is still to be read.
pub mod Records
pub mod Replay
pub mod Torn
mod Witnesses
use minidist.Base.{
  ℕ, zero, suc, ◌+◌, ◌-◌, ◌*◌, Bool, true, false, not, Option, none, some, List, [], ◌∷◌, ◌++◌, ltb,
  leb, ◌==◌, if◌then◌else◌, length, take, drop,
}
use minidist.Base.BigEndian.{put_u32, put_u16, get_u32, get_u16}
use minidist.Base.Crc.{crc32}
use minidist.Base.Words.{u32}

abbrev pub wal_magic : ℕ
wal_magic = 0x4D44574C

abbrev pub wal_version : ℕ
wal_version = 1

abbrev pub wal_header_size : ℕ
wal_header_size = 8

abbrev pub max_wal_record_size : ℕ
max_wal_record_size = 16777216

pub record Wal : Type 0 where
  pub file : List ℕ
  pub has_header : Bool

pub data Err : Type 0 where
  header_incomplete : Err
  invalid_magic : ℕ → Err
  unsupported_version : ℕ → Err
  record_too_large : ℕ → Err
  checksum_mismatch : ℕ → ℕ → Err
  unexpected_eof : Err
  io_error : Err
  apply_error : Err

-- What the disk does in one call of `Append`: how many bytes each of the two writes takes before it
-- fails (`none`: all, without an error), and whether the sync succeeds.
pub record Disk : Type 0 where
  pub header_write : Option ℕ
  pub data_write : Option ℕ
  pub synced : Bool

abbrev pub healthy : Disk
healthy = record { header_write = none; data_write = none; synced = true }

-- `file.Write`: whether it succeeds, and the file after it.
unfoldable pub write : Option ℕ → List ℕ → List ℕ → Bool × List ℕ
write none bytes file = (true, file ++ bytes)
write (some n) bytes file = (false, file ++ take n bytes)

-- The header of a record: the length, and in a file with a header the checksum.
unfoldable pub record_header : Bool → List ℕ → List ℕ
record_header true bytes = put_u32 (u32 (length bytes)) ++ put_u32 (crc32 bytes)
record_header false bytes = put_u32 (u32 (length bytes))

unfoldable pub write_record : Disk → List ℕ → Wal → Option Err × Wal
unfolding write record_header
write_record disk bytes w =
    let (ok, file) = write disk.header_write (record_header w.has_header bytes) w.file in
    let (ok', file') = write disk.data_write bytes file in
    if not ok
    then (some io_error, record w { file = file })
    else if not ok'
    then (some io_error, record w { file = file' })
    else (none, record w { file = file' })

unfoldable pub append : Disk → List ℕ → Wal → Option Err × Wal
unfolding write_record
append disk bytes w =
    if ltb max_wal_record_size (length bytes)
    then (some (record_too_large (length bytes)), w)
    else let (err, w') = write_record disk bytes w in
      elim err [ some e ↦ (some e, w') | none ↦ (if disk.synced then none else some io_error, w') ]

-- `io.ReadFull` of `n` bytes.
pub data Read : Type 0 where
  eof : Read
  short : Read
  full : List ℕ → List ℕ → Read

unfoldable pub read_full : ℕ → List ℕ → Read
read_full n rest =
    if leb n (length rest)
    then full (take n rest) (drop n rest)
    else if length rest == 0
    then eof
    else short

-- `readRecord`: the payload and what is left, or the error; `end_of_file` is io.EOF.
pub data ReadRecord : Type 0 where
  end_of_file : ReadRecord
  failed : Err → ReadRecord
  got : List ℕ → List ℕ → ReadRecord

unfoldable pub check_record : Bool → List ℕ → List ℕ → List ℕ → ReadRecord
check_record has_header header bytes rest =
    if not has_header
    then got bytes rest
    else if get_u32 (drop 4 header) == crc32 bytes
    then got bytes rest
    else failed (checksum_mismatch (get_u32 (drop 4 header)) (crc32 bytes))

unfoldable pub read_payload : Bool → List ℕ → List ℕ → ReadRecord
read_payload has_header header rest =
    if ltb max_wal_record_size (get_u32 header)
    then failed (record_too_large (get_u32 header))
    else elim (read_full (get_u32 header) rest) [
      | eof ↦ end_of_file
      | short ↦ failed unexpected_eof
      | full bytes rest' ↦ check_record has_header header bytes rest'
    ]

abbrev pub header_size : Bool → ℕ
header_size true = 8
header_size false = 4

unfoldable pub read_record : Bool → List ℕ → ReadRecord
read_record has_header rest = elim (read_full (header_size has_header) rest) [
  | eof ↦ end_of_file
  | short ↦ failed unexpected_eof
  | full header rest' ↦ read_payload has_header header rest'
]

pub record ReplayStats : Type 0 where
  pub records : ℕ
  pub tail_repaired : Bool

-- The end of `Replay`: its error, its stats, the file and the state that `apply` has built.
pub record Replayed {ℓ} (S : Type ℓ) : Type ℓ where
  pub error : Option Err
  pub stats : ReplayStats
  pub file : List ℕ
  pub state : S

abbrev pub ended {ℓ} : {S : Type ℓ} → Option Err → ℕ → Bool → List ℕ → S → Option (Replayed S)
ended error records repaired file s = some (record {
  error = error;
  stats = record { records = records; tail_repaired = repaired };
  file = file;
  state = s;
})

module _ {ℓ} {S : Type ℓ} (apply : List ℕ → S → Option S) where
  -- The loop of `Replay`: `valid_offset` bytes are read, `rest` is what follows them. The seeks,
  -- the truncation and the sync succeed. Each round reads at least four bytes, so the length of
  -- the rest bounds the rounds.
  unfoldable pub replay_loop : ℕ → Wal → ℕ → List ℕ → ℕ → S → Option (Replayed S)
  replay_loop zero w valid_offset rest records s = none
  replay_loop (suc fuel) w valid_offset rest records s = elim (read_record w.has_header rest) [
    | end_of_file ↦ ended none records false w.file s
    | failed unexpected_eof ↦ ended none records true (take valid_offset w.file) s
    | failed e ↦ ended (some e) records false w.file s
    | got bytes rest' ↦ elim (apply bytes s) [
      | none ↦ ended (some apply_error) records false w.file s
      | some s' ↦
          replay_loop fuel w (valid_offset + (length rest - length rest')) rest' (records + 1) s'
    ]
  ]

  unfoldable pub replay : Wal → S → Option (Replayed S)
  replay w s =
      let offset = if w.has_header then wal_header_size else 0 in
      replay_loop (suc (length w.file)) w offset (drop offset w.file) 0 s

-- The file header: magic, version and two zero bytes.
unfoldable pub wal_header : List ℕ
wal_header = put_u32 wal_magic ++ put_u16 wal_version ++ 0 ∷ 0 ∷ []

pub data Detected : Type 0 where
  detected : Bool → Detected
  refused : Err → Detected

unfoldable pub validate_wal_header : List ℕ → Detected
validate_wal_header file =
    if not (get_u32 file == wal_magic)
    then refused (invalid_magic (get_u32 file))
    else if not (get_u16 (drop 4 file) == wal_version)
    then refused (unsupported_version (get_u16 (drop 4 file)))
    else detected true

unfoldable pub detect_wal_header : List ℕ → Detected
unfolding validate_wal_header
detect_wal_header file =
    if length file == 0
    then detected false
    else if ltb (length file) wal_header_size
    then refused header_incomplete
    else if not (get_u32 file == wal_magic)
    then detected false
    else validate_wal_header file

pub data Opened : Type 0 where
  opened : Wal → Opened
  open_error : Err → Opened

-- `OpenWAL` on the bytes of the file, none if it is new.
unfoldable pub open_wal : List ℕ → Opened
unfolding detect_wal_header wal_header
open_wal file = elim (detect_wal_header file) [
  | refused e ↦ open_error e
  | detected has_header ↦
      if length file == 0
      then opened (record { file = file ++ wal_header; has_header = true })
      else opened (record { file = file; has_header = has_header })
]

-- Where a truncation fails: before the file is cut off, with some bytes of the new header written, or
-- in the last sync.
pub data TruncateFault : Type 0 where
  no_truncate_fault : TruncateFault
  before_cut : TruncateFault
  header_cut : ℕ → TruncateFault
  header_not_synced : TruncateFault

unfoldable pub truncate : TruncateFault → Wal → Option Err × Wal
unfolding wal_header
truncate no_truncate_fault w = (none, record { file = wal_header; has_header = true })
truncate before_cut w = (some io_error, w)
truncate (header_cut n) w = (some io_error, record w { file = take n wal_header })
truncate header_not_synced w = (some io_error, record { file = wal_header; has_header = true })

unfoldable pub size : Wal → ℕ
size w = if w.has_header then length w.file - wal_header_size else length w.file
