-- ===== src/Store/Wal/Witnesses.antt =====
-- wal.go at concrete inputs.
use minidist.Base.{
  ℕ, ◌≤◌, ◌≡◌, ◌≢◌, refl, true, false, Option, none, some, List, [], ◌∷◌, ◌++◌, arith, length, take,
  All,
}
use minidist.Base.Assoc.{text_eq_inst}
use minidist.Base.BigEndian.{put_u32, put_u16}
use minidist.Base.Crc.{crc32}
use minidist.Store.Wal.{
  Wal, healthy, wal_header, ended, replay, append, record_header, checksum_mismatch,
}
use minidist.Store.Wal.Records.{encode, encode_all, Fits}
use minidist.Store.Wal.Replay.{apply_all, replay-encode_all}
use minidist.Store.Wal.Torn.{replay-crash, replay-after_header_only}

-- An `apply` that collects the payloads, the last one first.
abbrev collect : List ℕ → List (List ℕ) → Option (List (List ℕ))
collect bytes s = some (bytes ∷ s)

abbrev two_records : List (List ℕ)
two_records = (1 ∷ 2 ∷ []) ∷ (3 ∷ []) ∷ []

abbrev collected : List (List ℕ)
collected = (3 ∷ []) ∷ (1 ∷ 2 ∷ []) ∷ []

two_records-Fits : All Fits two_records
two_records-Fits = (omega arith, (omega arith, tt))

collect-two_records : apply_all collect two_records [] ≡ some collected
unfolding apply_all
collect-two_records = refl

header-length : length wal_header ≡ 8
unfolding wal_header put_u32 put_u16
header-length = refl

abbrev written : Wal
written = record { file = wal_header ++ encode_all true two_records; has_header = true }

replay-encode_all_example : replay collect written [] ≡ ended none 2 false written.file collected
replay-encode_all_example =
    replay-encode_all collect written wal_header two_records [] collected refl header-length
      two_records-Fits collect-two_records

encoded-length : length (encode true (7 ∷ 8 ∷ [])) ≡ 10
unfolding record_header put_u32
encoded-length = refl

replay-crash_example :
    replay collect
      (record {
        file = wal_header ++ (encode_all true two_records ++ take 9 (encode true (7 ∷ 8 ∷ [])));
        has_header = true;
      })
      []
    ≡ ended none 2 true (wal_header ++ encode_all true two_records) collected
replay-crash_example =
    replay-crash collect true wal_header two_records (7 ∷ 8 ∷ []) 9 [] collected header-length
      two_records-Fits (omega arith) (omega arith) (omega (arith, encoded-length)) (omega arith)
      collect-two_records

abbrev misread_sum : ℕ
misread_sum = crc32 (take 1 (encode true (9 ∷ [])))

first_sum : misread_sum ≡ 3523407757
unfolding record_header put_u32 crc32
first_sum = refl

lost_sum : crc32 (7 ∷ []) ≡ 1281784366
unfolding crc32
lost_sum = refl

sums_differ : misread_sum ≢ crc32 (7 ∷ [])
sums_differ = omega (arith, first_sum, lost_sum)

nine-length : 1 ≤ length (encode true (9 ∷ []))
unfolding record_header put_u32
nine-length = omega arith

replay-after_header_only_example :
    (file : List ℕ) × ((append healthy (9 ∷ []) (record {
      file = wal_header ++ (encode_all true two_records ++ record_header true (7 ∷ []));
      has_header = true;
    })
        ≡ (none, record { file = file; has_header = true }))
      × (replay collect (record { file = file; has_header = true }) []
          ≡ ended (some (checksum_mismatch (crc32 (7 ∷ [])) misread_sum)) 2 false file collected))
replay-after_header_only_example =
    replay-after_header_only collect wal_header two_records (7 ∷ []) (9 ∷ []) [] collected
      header-length two_records-Fits (omega arith) (omega arith) nine-length sums_differ
      collect-two_records
