-- ===== src/Chunk/Content.antt =====
-- store.go: what `Put` stores, `Get` reads.
use minidist.Base.{
  ℕ, ◌*◌, ◌/◌, ◌%◌, ◌<◌, ◌≡◌, refl, ap, ◌∙◌, inl, inr, true, none, some, List, [], ◌∷◌, arith,
  length, Bool-cases, Option-cases, All,
}
use minidist.Base.Text.{Text, text_eq, text_eq_iff}
use minidist.Base.Assoc.{lookup, insert, text_eq_inst, lookup-insert}
use minidist.Chunk.{
  File, Files, read, read_error, chunk_not_found, chunk_checksum_mismatch, hex, hex_digit, is_hex,
  all_hex, validate_id, chunk_id, put, get,
}

-- What SHA-256 gives: 32 bytes.
abbrev pub IsDigest : List ℕ → Type 0
IsDigest bytes = (length bytes ≡ 32) × All (λ b. b < 256) bytes

length-hex : (bytes : List ℕ) → length (hex bytes) ≡ 2 * length bytes
unfolding hex
length-hex [] = omega arith
length-hex (b ∷ bs) = omega (arith, length-hex bs)

hex_digit_lem : (n : ℕ) → n < 16 → is_hex (hex_digit n) ≡ true
hex_digit_lem n h = ground arith

all_hex-hex : (bytes : List ℕ) → All (λ b. b < 256) bytes → all_hex (hex bytes) ≡ true
unfolding all_hex hex
all_hex-hex [] h = refl
all_hex-hex (b ∷ bs) h = ground (
  arith,
  hex_digit_lem (b / 16) (omega (arith, h.0)),
  hex_digit_lem (b % 16) (omega (arith, h.0)),
  all_hex-hex bs h.1,
)

pub validate_id-hex : (digest : List ℕ) → IsDigest digest → validate_id (hex digest) ≡ none
unfolding validate_id
validate_id-hex digest d = ground (arith, length-hex digest, d.0, all_hex-hex digest d.1)

pub self-text_eq : (id : Text) → text_eq id id ≡ true
self-text_eq id = ground (arith, text_eq_iff id id)

module _ (sha256 : List ℕ → List ℕ) where
  pub lookup-put :
      (now : ℕ) (bytes : List ℕ) (files : Files)
      → (kept : List ℕ) × ((put sha256 now true bytes files ≡ (
        some (chunk_id sha256 bytes),
        insert (chunk_id sha256 bytes) (record { bytes = kept; mtime = now }) files,
      ))
          × (chunk_id sha256 kept ≡ chunk_id sha256 bytes))
  lookup-put now bytes files =
      let id = chunk_id sha256 bytes in
      elim (Option-cases (lookup id files)) [
        | inl e ↦ (bytes, (unfold put in rw (e, put) refl, refl))
        | inr (file, e) ↦ elim (Bool-cases (text_eq (chunk_id sha256 file.bytes) id)) [
          | inl s ↦ (
            file.bytes,
            (unfold put in rw (e, s, put) refl, (text_eq_iff (chunk_id sha256 file.bytes) id).0 s),
          )
          | inr s ↦ (bytes, (unfold put in rw (e, s, put) refl, refl))
        ]
      ]

  put-existing :
      (now : ℕ) (bytes : List ℕ) (files : Files) (file : File)
      → lookup (chunk_id sha256 bytes) files ≡ some file
      → text_eq (chunk_id sha256 file.bytes) (chunk_id sha256 bytes) ≡ true
      → put sha256 now true bytes files ≡ (
        some (chunk_id sha256 bytes),
        insert (chunk_id sha256 bytes) (record { bytes = file.bytes; mtime = now }) files,
      )
  put-existing now bytes files file e s = unfold put in rw (e, s, put) refl

  pub get-lookup :
      (id : Text) (files : Files) (file : File)
      → validate_id id ≡ none
      → lookup id files ≡ some file
      → text_eq (chunk_id sha256 file.bytes) id ≡ true
      → get sha256 id files ≡ read file.bytes
  get-lookup id files file v e s = unfold get in rw (v, e, s, get) refl

  -- A chunk that was put is read back, whatever stood under its name, if SHA-256 gives 32 bytes
  -- for it and no other content has its id.
  pub get-put :
      (now : ℕ) (bytes : List ℕ) (files : Files)
      → IsDigest (sha256 bytes)
      → ((other : List ℕ) → chunk_id sha256 other ≡ chunk_id sha256 bytes → other ≡ bytes)
      → get sha256 (chunk_id sha256 bytes) (put sha256 now true bytes files).1 ≡ read bytes
  get-put now bytes files d unique =
      let id = chunk_id sha256 bytes in
      let (kept, (p, same)) = lookup-put now bytes files in
      let there : lookup id (put sha256 now true bytes files).1
          ≡ some (record { bytes = kept; mtime = now }) =
        ap (λ q. lookup id q.1) p
        ∙ lookup-insert id id (record { bytes = kept; mtime = now }) files
        ∙ rw (self-text_eq id) refl in
      get-lookup id (put sha256 now true bytes files).1 (record { bytes = kept; mtime = now })
        (unfold chunk_id in validate_id-hex (sha256 bytes) d) there
        (ap (λ k. text_eq k id) same ∙ self-text_eq id)
      ∙ ap read (unique kept same)

  -- What a successful `Get` has found.
  pub get-read :
      (id : Text) (files : Files) (old : List ℕ)
      → get sha256 id files ≡ read old
      → (file : File) × ((lookup id files ≡ some file)
          × ((text_eq (chunk_id sha256 file.bytes) id ≡ true)
              × ((file.bytes ≡ old) × (validate_id id ≡ none))))
  get-read id files old g = elim (Option-cases (validate_id id)) [
    | inr (e, v) ↦
        let bad : get sha256 id files ≡ read_error e = unfold get in rw (v, get) refl in
        absurd (ground (arith, bad, g))
    | inl v ↦ elim (Option-cases (lookup id files)) [
      | inl e ↦
          let bad : get sha256 id files ≡ read_error chunk_not_found =
            unfold get in rw (v, e, get) refl in
          absurd (ground (arith, bad, g))
      | inr (file, e) ↦ elim (Bool-cases (text_eq (chunk_id sha256 file.bytes) id)) [
        | inl s ↦
            let good : get sha256 id files ≡ read file.bytes =
              unfold get in rw (v, e, s, get) refl in
            (file, (e, (s, (ground (arith, good, g), v))))
        | inr s ↦
            let bad : get sha256 id files ≡ read_error (chunk_checksum_mismatch id) =
              unfold get in rw (v, e, s, get) refl in
            absurd (ground (arith, bad, g))
      ]
    ]
  ]

  -- A chunk that could be read before a successful Put, of whatever content, is read the same
  -- after it.
  pub put_keeps :
      (now : ℕ) (bytes : List ℕ) (files : Files) (id : Text) (old : List ℕ)
      → get sha256 id files ≡ read old
      → get sha256 id (put sha256 now true bytes files).1 ≡ read old
  put_keeps now bytes files id old g =
      let (file, (at, (good, (is_old, valid)))) = get-read id files old g in
      elim (Bool-cases (text_eq (chunk_id sha256 bytes) id)) [
        | inl s ↦
            let same = (text_eq_iff (chunk_id sha256 bytes) id).0 s in
            let here : lookup (chunk_id sha256 bytes) files ≡ some file =
              ap (λ k. lookup k files) same ∙ at in
            let sum : text_eq (chunk_id sha256 file.bytes) (chunk_id sha256 bytes) ≡ true =
              ap (text_eq (chunk_id sha256 file.bytes)) same ∙ good in
            let after : lookup id (put sha256 now true bytes files).1
                ≡ some (record { bytes = file.bytes; mtime = now }) =
              ap (λ q. lookup id q.1) (put-existing now bytes files file here sum)
              ∙ lookup-insert (chunk_id sha256 bytes) id
                  (record { bytes = file.bytes; mtime = now }) files
              ∙ rw s refl in
            get-lookup id (put sha256 now true bytes files).1
              (record { bytes = file.bytes; mtime = now }) valid after good
            ∙ ap read is_old
        | inr s ↦
            let (kept, (p, same)) = lookup-put now bytes files in
            let after : lookup id (put sha256 now true bytes files).1 ≡ some file =
              ap (λ q. lookup id q.1) p
              ∙ lookup-insert (chunk_id sha256 bytes) id (record { bytes = kept; mtime = now })
                  files
              ∙ rw s at in
            get-lookup id (put sha256 now true bytes files).1 file valid after good ∙ ap read is_old
      ]
