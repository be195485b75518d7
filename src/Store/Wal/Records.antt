-- ===== src/Store/Wal/Records.antt =====
-- wal.go: what `writeRecord` writes, `readRecord` reads.
use minidist.Base.{
  ℕ, ◌≤◌, ◌<◌, ◌≡◌, refl, sym, ap, ◌∙◌, Bool, true, false, none, List, [], ◌∷◌, ◌++◌, arith, ltb,
  le→leb, length, length-append, drop, take-append, drop-append,
}
use minidist.Base.BigEndian.{put_u32, get_u32}
use minidist.Base.Crc.{crc32, crc32-lt}
use mathlib.Core.List.{append_assoc}
use minidist.Store.Wal.{
  Wal, Disk, healthy, record_header, write_record, append, write, eof, short, full, read_full, got,
  read_record, read_payload, check_record, header_size, max_wal_record_size,
}

-- The bytes of one record.
abbrev pub encode : Bool → List ℕ → List ℕ
encode has_header bytes = record_header has_header bytes ++ bytes

-- The bytes of records, one behind the other.
abbrev pub encode_all : Bool → List (List ℕ) → List ℕ
encode_all has_header [] = []
encode_all has_header (bytes ∷ more) = encode has_header bytes ++ encode_all has_header more

abbrev pub Fits : List ℕ → Type 0
Fits bytes = length bytes ≤ max_wal_record_size

pub read_full-append : (xs rest : List ℕ) → read_full (length xs) (xs ++ rest) ≡ full xs rest
unfolding read_full
read_full-append xs rest = rw (
  le→leb (length xs) (length (xs ++ rest)) (omega (arith, length-append xs rest)),
  take-append xs rest,
  drop-append xs rest,
)

-- What is not enough is short, and nothing at all is the end of the file.
pub read_full-short : (n : ℕ) (xs : List ℕ) → length xs < n → 0 < length xs → read_full n xs ≡ short
unfolding read_full
read_full-short n xs h p = ground arith

pub read_full-eof : (n : ℕ) → 0 < n → read_full n [] ≡ eof
unfolding read_full
read_full-eof n p = ground arith

pub length-record_header :
    (h : Bool) (bytes : List ℕ) → length (record_header h bytes) ≡ header_size h
unfolding record_header put_u32
length-record_header true bytes = refl
length-record_header false bytes = refl

pub header_length :
    (h : Bool) (bytes : List ℕ) → Fits bytes → get_u32 (record_header h bytes) ≡ length bytes
header_length true bytes f = unfold record_header get_u32 put_u32 in omega arith
header_length false bytes f = unfold record_header get_u32 put_u32 in omega arith

pub header_checksum : (bytes : List ℕ) → get_u32 (drop 4 (record_header true bytes)) ≡ crc32 bytes
header_checksum bytes = unfold record_header put_u32 get_u32 in omega (arith, crc32-lt bytes)

check_record-encode :
    (h : Bool) (bytes rest : List ℕ)
    → check_record h (record_header h bytes) bytes rest ≡ got bytes rest
unfolding check_record
check_record-encode true bytes rest = ground (arith, header_checksum bytes)
check_record-encode false bytes rest = refl

pub read_header :
    (h : Bool) (bytes rest : List ℕ)
    → read_record h (record_header h bytes ++ rest) ≡ read_payload h (record_header h bytes) rest
read_header h bytes rest =
    let e : read_full (header_size h) (record_header h bytes ++ rest)
        ≡ full (record_header h bytes) rest =
      ap (λ n. read_full n (record_header h bytes ++ rest)) (sym (length-record_header h bytes))
      ∙ read_full-append (record_header h bytes) rest in
    unfold read_record in rw (e, read_record) refl

pub read_payload-full :
    (h : Bool) (bytes payload rest : List ℕ)
    → Fits bytes
    → length payload ≡ length bytes
    → read_payload h (record_header h bytes) (payload ++ rest)
      ≡ check_record h (record_header h bytes) payload rest
read_payload-full h bytes payload rest f e =
    let len = header_length h bytes f in
    let e' : read_full (get_u32 (record_header h bytes)) (payload ++ rest) ≡ full payload rest =
      ap (λ n. read_full n (payload ++ rest)) (len ∙ sym e) ∙ read_full-append payload rest in
    let small : ltb max_wal_record_size (get_u32 (record_header h bytes)) ≡ false = ground arith in
    unfold read_payload in rw (small, e') refl

-- A record of at most 16 MiB that is written is read back, whatever bytes follow it.
pub read_record-encode :
    (h : Bool) (bytes rest : List ℕ)
    → Fits bytes
    → read_record h (encode h bytes ++ rest) ≡ got bytes rest
read_record-encode h bytes rest f = rw (append_assoc (record_header h bytes) bytes rest) (
    read_header h bytes (bytes ++ rest)
    ∙ read_payload-full h bytes bytes rest f refl
    ∙ check_record-encode h bytes rest)

-- A successful append adds the bytes of one record at the end of the file.
pub append-encode :
    (w : Wal) (bytes : List ℕ)
    → Fits bytes
    → append healthy bytes w
      ≡ (none, record { file = w.file ++ encode w.has_header bytes; has_header = w.has_header })
unfolding append write_record write
append-encode w bytes f =
    rw (sym (append_assoc w.file (record_header w.has_header bytes) bytes)) (ground arith)

-- Whatever the disk does, an append without an error has added the whole record.
pub append-done :
    (disk : Disk) (w : Wal) (bytes : List ℕ)
    → Fits bytes
    → (append disk bytes w).0 ≡ none
    → (append disk bytes w).1
      ≡ record { file = w.file ++ encode w.has_header bytes; has_header = w.has_header }
unfolding append write_record write
append-done disk w bytes f e =
    rw (sym (append_assoc w.file (record_header w.has_header bytes) bytes)) (ground arith)
