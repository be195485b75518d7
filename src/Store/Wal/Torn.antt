-- ===== src/Store/Wal/Torn.antt =====
-- wal.go: `Replay` of a log whose last record was cut off by a crash in `writeRecord`.
use minidist.Base.{
  take++drop, ℕ, zero, suc, ◌-◌, ◌≤◌, ◌<◌, ◌≡◌, ◌≢◌, refl, sym, ap, ◌∙◌, inl, inr, Bool, true,
  false, Option, none, some, List, [], ◌∷◌, ◌++◌, arith, ltb, leb, length, length-append, take,
  drop, length-take, Bool-cases, All,
}
use minidist.Base.BigEndian.{get_u32}
use minidist.Base.Crc.{crc32}
use mathlib.Core.List.{append_assoc, append-nil}
use minidist.Store.Wal.{
  Wal, healthy, record_header, append, eof, short, read_full, end_of_file, failed, unexpected_eof,
  read_record, read_payload, check_record, header_size, max_wal_record_size, replay_loop, replay,
  ended, wal_header_size, checksum_mismatch,
}
use minidist.Store.Wal.Records.{
  encode, encode_all, Fits, read_full-eof, read_full-short, length-record_header, header_length,
  header_checksum, read_header, read_payload-full, append-encode,
}
use minidist.Store.Wal.Replay.{apply_all, start, replay-torn, replay-tail}

take-front : (n : ℕ) (xs ys : List ℕ) → n ≤ length xs → take n (xs ++ ys) ≡ take n xs
take-front zero xs ys h = refl
take-front (suc n) [] ys h = absurd (omega arith)
take-front (suc n) (x ∷ xs) ys h = ap (λ t. x ∷ t) (take-front n xs ys (omega arith))

take-past :
    (xs ys : List ℕ) (n : ℕ) → length xs ≤ n → take n (xs ++ ys) ≡ xs ++ take (n - length xs) ys
take-past [] ys n h = let e : n ≡ n - 0 = omega arith in ap (λ k. take k ys) e
take-past (x ∷ xs) ys zero h = absurd (omega arith)
take-past (x ∷ xs) ys (suc n) h =
    let e : n - length xs ≡ suc n - suc (length xs) = omega arith in
    ap (λ t. x ∷ t) (take-past xs ys n (omega arith) ∙ ap (λ k. xs ++ take k ys) e)

torn_header :
    (h : Bool) (xs : List ℕ)
    → 0 < length xs
    → length xs < header_size h
    → read_record h xs ≡ failed unexpected_eof
torn_header h xs p q =
    unfold read_record in rw (read_full-short (header_size h) xs q p, read_record) refl

torn_payload :
    (h : Bool) (d part : List ℕ)
    → Fits d
    → 0 < length part
    → length part < length d
    → read_record h (record_header h d ++ part) ≡ failed unexpected_eof
torn_payload h d part f p q =
    let len = header_length h d f in
    let e : read_full (get_u32 (record_header h d)) part ≡ short =
      rw len (read_full-short (length d) part q p) in
    let small : ltb max_wal_record_size (get_u32 (record_header h d)) ≡ false = ground arith in
    read_header h d part ∙ (unfold read_payload in rw (small, e, read_payload) refl)

header_only :
    (h : Bool) (d : List ℕ)
    → Fits d
    → 0 < length d
    → read_record h (record_header h d) ≡ end_of_file
header_only h d f p =
    let len = header_length h d f in
    let e : read_full (get_u32 (record_header h d)) [] ≡ eof =
      rw len (read_full-eof (length d) p) in
    let small : ltb max_wal_record_size (get_u32 (record_header h d)) ≡ false = ground arith in
    ap (read_record h) (sym (append-nil (record_header h d)))
    ∙ read_header h d []
    ∙ (unfold read_payload in rw (small, e, read_payload) refl)

-- Behind a header alone, the bytes that follow are read as its payload, and refused.
misread :
    (d more : List ℕ)
    → Fits d
    → length d ≤ length more
    → crc32 (take (length d) more) ≢ crc32 d
    → read_record true (record_header true d ++ more)
      ≡ failed (checksum_mismatch (crc32 d) (crc32 (take (length d) more)))
misread d more f p c =
    let e : more ≡ take (length d) more ++ drop (length d) more =
      sym (take++drop (length d) more) in
    read_header true d more
    ∙ ap (read_payload true (record_header true d)) e
    ∙ read_payload-full true d (take (length d) more) (drop (length d) more) f
        (ground (arith, length-take (length d) more))
    ∙ (unfold check_record in rw (header_checksum d) (ground arith))

-- The first `k` bytes of a record, not all of them and not exactly its header.
torn_record :
    (h : Bool) (d : List ℕ) (k : ℕ)
    → Fits d
    → 0 < k
    → k < length (encode h d)
    → k ≢ header_size h
    → read_record h (take k (encode h d)) ≡ failed unexpected_eof
torn_record h d k f p q r =
    let n = length-record_header h d in
    let whole = length-append (record_header h d) d in
    elim (Bool-cases (leb k (header_size h))) [
      | inl e ↦ rw (take-front k (record_header h d) d (ground arith)) (
          torn_header h (take k (record_header h d))
            (ground (arith, length-take k (record_header h d)))
            (ground (arith, length-take k (record_header h d))))
      | inr e ↦
          ap (read_record h) (take-past (record_header h d) d k (ground arith))
          ∙ torn_payload h d (take (k - length (record_header h d)) d) f
              (ground (arith, length-take (k - length (record_header h d)) d))
              (ground (arith, length-take (k - length (record_header h d)) d))
    ]

module _ {ℓ} {S : Type ℓ} (apply : List ℕ → S → Option S) where
  -- If a crash left a proper, non-empty prefix of the last record that is not exactly its header,
  -- Replay applies exactly the records before it, reports a repaired tail and cuts the file back
  -- to them.
  pub replay-crash :
      (h : Bool) (front : List ℕ) (ds : List (List ℕ)) (d : List ℕ) (k : ℕ) (s s' : S)
      → length front ≡ start h
      → All Fits ds
      → Fits d
      → 0 < k
      → k < length (encode h d)
      → k ≢ header_size h
      → apply_all apply ds s ≡ some s'
      → replay apply
          (record { file = front ++ (encode_all h ds ++ take k (encode h d)); has_header = h })
          s
        ≡ ended none (length ds) true (front ++ encode_all h ds) s'
  replay-crash h front ds d k s s' n f g p q r a =
      replay-torn apply
        (record { file = front ++ (encode_all h ds ++ take k (encode h d)); has_header = h }) front
        (take k (encode h d)) ds s s' refl n f a (torn_record h d k g p q r)

  -- If a crash left only the header of a record with a non-empty payload, Replay applies the
  -- records before it, reports no repair and keeps the header in the file.
  pub replay-header_only :
      (h : Bool) (front : List ℕ) (ds : List (List ℕ)) (d : List ℕ) (s s' : S)
      → length front ≡ start h
      → All Fits ds
      → Fits d
      → 0 < length d
      → apply_all apply ds s ≡ some s'
      → replay apply
          (record { file = front ++ (encode_all h ds ++ record_header h d); has_header = h })
          s
        ≡ ended none (length ds) false (front ++ (encode_all h ds ++ record_header h d)) s'
  replay-header_only h front ds d s s' n f g p a =
      let w : Wal = record {
        file = front ++ (encode_all h ds ++ record_header h d);
        has_header = h;
      } in
      let (fuel, r) = replay-tail apply w front (record_header h d) ds s s' refl n f a in
      r ∙ (unfold replay_loop in rw (header_only h d g p, replay_loop) refl)

  -- If a crash left only the header of a record in a log with a file header, and the lost payload
  -- is not longer than the next record, header included, the next append succeeds, and Replay then
  -- applies the records before the crash and fails with a checksum mismatch, when the checksum of
  -- the bytes read in place of the lost payload differs.
  pub replay-after_header_only :
      (front : List ℕ) (ds : List (List ℕ)) (d d' : List ℕ) (s s' : S)
      → length front ≡ wal_header_size
      → All Fits ds
      → Fits d
      → Fits d'
      → length d ≤ length (encode true d')
      → crc32 (take (length d) (encode true d')) ≢ crc32 d
      → apply_all apply ds s ≡ some s'
      → (file : List ℕ) × ((append healthy d' (record {
        file = front ++ (encode_all true ds ++ record_header true d);
        has_header = true;
      })
            ≡ (none, record { file = file; has_header = true }))
          × (replay apply (record { file = file; has_header = true }) s
              ≡ ended
                  (some (checksum_mismatch (crc32 d) (crc32 (take (length d) (encode true d')))))
                  (length ds)
                  false
                  file
                  s'))
  replay-after_header_only front ds d d' s s' n f g g' p c a =
      let file : List ℕ =
        front ++ (encode_all true ds ++ (record_header true d ++ encode true d')) in
      let w : Wal = record { file = file; has_header = true } in
      let w0 : Wal = record {
        file = front ++ (encode_all true ds ++ record_header true d);
        has_header = true;
      } in
      let same : w0.file ++ encode true d' ≡ file =
        append_assoc front (encode_all true ds ++ record_header true d) (encode true d')
        ∙ ap (λ t. front ++ t)
            (append_assoc (encode_all true ds) (record_header true d) (encode true d')) in
      let appended : append healthy d' w0 ≡ (none, w) =
        append-encode w0 d' g' ∙ ap (λ t. (none, record { file = t; has_header = true })) same in
      let (fuel, r) =
        replay-tail apply w front (record_header true d ++ encode true d') ds s s' refl n f a in
      (
        file,
        (
          appended,
          r ∙ (unfold replay_loop in rw (misread d (encode true d') g p c, replay_loop) refl),
        ),
      )
