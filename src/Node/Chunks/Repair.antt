-- ===== src/Node/Chunks/Repair.antt =====
-- node/chunk.go: what repairChunk leaves on the replicas.
use minidist.Base.{
  ℕ, ◌≡◌, refl, sym, ap, ◌∙◌, inl, inr, true, false, Option, none, some, List, [], ◌∷◌, arith, ltb,
  Bool-cases, Option-cases,
}
use minidist.Base.Text.{Text, text_eq, text_eq_iff}
use minidist.Base.Assoc.{text_eq_inst}
use minidist.Base.Sets.{contains}
use minidist.Chunk.{
  ChunkErr, invalid_id_length, invalid_id, chunk_not_found, chunk_checksum_mismatch, chunk_io_error,
  ChunkRead, read, read_error, chunk_id, get,
}
use minidist.Chunk.Content.{get-read}
use minidist.Node.Gc.{Stores}
use minidist.Node.Quorum.{acknowledged}
use minidist.Node.Chunks.{
  ChunkNet, read_status, answer_read, bytes_of, put_chunk_replica, download,
  handle_internal_chunk_get, get_chunk_replica, repair_replica, repair_chunk,
}
use minidist.Node.Chunks.Replica.{
  Hashes, put_chunk_replica_keeps, put_chunk_replica-Reads, put_chunk_replica-works,
}
use minidist.Node.Chunks.Reads.{is_read, read_of, Kept}

failed_status : (e : ChunkErr) → ltb (read_status e) 300 ≡ false
failed_status (invalid_id_length n) = refl
failed_status invalid_id = refl
failed_status chunk_not_found = refl
failed_status (chunk_checksum_mismatch id) = refl
failed_status chunk_io_error = refl

module _ (sha256 : List ℕ → List ℕ) where
  download_failed :
      (id : Text) (e : ChunkErr) (o : Option (List ℕ))
      → download sha256 id (answer_read (read_error e)) o ≡ none
  unfolding download
  download_failed id e none = refl
  download_failed id e (some x) = rw (failed_status e) refl

  local_read : (r : ChunkRead) (x : List ℕ) → bytes_of r ≡ some x → is_read r ≡ true
  local_read (read y) x h = refl
  local_read (read_error e) x h = cc

  remote_read :
      (id : Text) (r : ChunkRead) (o : Option (List ℕ)) (x : List ℕ)
      → download sha256 id (answer_read r) o ≡ some x
      → is_read r ≡ true
  remote_read id (read y) o x h = refl
  remote_read id (read_error e) o x h = absurd (ground (arith, download_failed id e o, h))

  -- A download succeeds only from a replica that reads the chunk.
  pub get_chunk_replica-some :
      (net : ChunkNet) (addr r id : Text) (s : Stores) (x : List ℕ)
      → get_chunk_replica sha256 net addr r id s ≡ some x
      → is_read (get sha256 id (s r)) ≡ true
  get_chunk_replica-some net addr r id s x h = elim (Bool-cases (text_eq r addr)) [
    | inl e ↦
        let reply : get_chunk_replica sha256 net addr r id s ≡ bytes_of (get sha256 id (s r)) =
          unfold get_chunk_replica in rw (e, get_chunk_replica) refl in
        local_read (get sha256 id (s r)) x (sym reply ∙ h)
    | inr e ↦
        let answer = answer_read (get sha256 id (s r)) in
        let reply : get_chunk_replica sha256 net addr r id s
            ≡ download sha256 id answer (net.arrives r answer.1) =
          unfold get_chunk_replica handle_internal_chunk_get in rw (e, get_chunk_replica) refl in
        remote_read id (get sha256 id (s r)) (net.arrives r answer.1) x (sym reply ∙ h)
  ]

  module _ (net : ChunkNet) (addr id : Text) (bytes : List ℕ) (source : Text) where
    repair_replica-source :
        (r : Text) (s : Stores)
        → text_eq r source ≡ true
        → repair_replica sha256 net addr id bytes source r s ≡ s
    repair_replica-source r s e = unfold repair_replica in rw (e, repair_replica) refl

    repair_replica-there :
        (r : Text) (s : Stores) (x : List ℕ)
        → text_eq r source ≡ false
        → get_chunk_replica sha256 net addr r id s ≡ some x
        → repair_replica sha256 net addr id bytes source r s ≡ s
    repair_replica-there r s x e f = unfold repair_replica in rw (e, f, repair_replica) refl

    repair_replica-missing :
        (r : Text) (s : Stores)
        → text_eq r source ≡ false
        → get_chunk_replica sha256 net addr r id s ≡ none
        → repair_replica sha256 net addr id bytes source r s
          ≡ (put_chunk_replica sha256 net addr r id bytes s).1
    repair_replica-missing r s e f = unfold repair_replica in rw (e, f, repair_replica) refl

    repair_replica_keeps :
        (r : Text) (s : Stores) → Kept sha256 s (repair_replica sha256 net addr id bytes source r s)
    repair_replica_keeps r s b k x g = elim (Bool-cases (text_eq r source)) [
      | inl e ↦ rw (repair_replica-source r s e) g
      | inr e ↦ elim (Option-cases (get_chunk_replica sha256 net addr r id s)) [
        | inr (y, f) ↦ rw (repair_replica-there r s y e f) g
        | inl f ↦
            rw (repair_replica-missing r s e f)
              (put_chunk_replica_keeps sha256 net addr r id bytes s b k x g)
      ]
    ]

    -- A repair takes no readable chunk away from any node, whatever becomes of its requests.
    pub repair_chunk_keeps :
        (rs : List Text) (s : Stores)
        → Kept sha256 s (repair_chunk sha256 net addr id bytes source rs s)
    unfolding repair_chunk
    repair_chunk_keeps [] s b k x g = g
    repair_chunk_keeps (r ∷ rs) s b k x g =
        repair_chunk_keeps rs (repair_replica sha256 net addr id bytes source r s) b k x
          (repair_replica_keeps r s b k x g)

    module _ (h : Hashes sha256 bytes) (named : chunk_id sha256 bytes ≡ id)
        (answered : (r : Text) → net.uploads r ≡ acknowledged)
        (works : (r : Text) → net.works r ≡ true) where
      right_read :
          (r : Text) (s : Stores)
          → is_read (get sha256 id (s r)) ≡ true
          → get sha256 id (s r) ≡ read bytes
      right_read r s has =
          let (x, stored) = read_of (get sha256 id (s r)) has in
          let there = get-read sha256 id (s r) x stored in
          stored
          ∙ ap read (
              h.unique x (
                ap (chunk_id sha256) (sym there.1.1.1.0)
                ∙ (text_eq_iff (chunk_id sha256 there.0.bytes) id).0 there.1.1.0
                ∙ sym named))

      repair_replica-Reads :
          (r : Text) (s : Stores)
          → get sha256 id (s source) ≡ read bytes
          → get sha256 id (repair_replica sha256 net addr id bytes source r s r) ≡ read bytes
      repair_replica-Reads r s g = elim (Bool-cases (text_eq r source)) [
        | inl e ↦
            rw (repair_replica-source r s e)
              (ap (λ k. get sha256 id (s k)) ((text_eq_iff r source).0 e) ∙ g)
        | inr e ↦ elim (Option-cases (get_chunk_replica sha256 net addr r id s)) [
          | inr (y, f) ↦
              rw (repair_replica-there r s y e f)
                (right_read r s (get_chunk_replica-some net addr r id s y f))
          | inl f ↦ rw (repair_replica-missing r s e f) (
              put_chunk_replica-Reads sha256 net addr r id bytes s h
                (put_chunk_replica-works sha256 net addr r id bytes s named (answered r) (works r)))
        ]
      ]

      -- After repairChunk with the content of a chunk that its source reads, when every upload is
      -- acknowledged and every file system works, every replica reads the chunk, whatever it had
      -- before and whatever arrives of the downloads, if SHA-256 gives 32 bytes for the content
      -- and no other content has its id.
      pub repair_chunk-Reads :
          (rs : List Text) (s : Stores) (r : Text)
          → get sha256 id (s source) ≡ read bytes
          → contains rs r ≡ true
          → get sha256 id (repair_chunk sha256 net addr id bytes source rs s r) ≡ read bytes
      unfolding repair_chunk
      repair_chunk-Reads [] s r g c = absurd (unfold contains in ground (arith, c))
      repair_chunk-Reads (q ∷ rs) s r g c =
          let t = repair_replica sha256 net addr id bytes source q s in
          elim (Bool-cases (text_eq q r)) [
            | inr e ↦
                repair_chunk-Reads rs t r (repair_replica_keeps q s source id bytes g)
                  (unfold contains in ground (arith, c, e))
            | inl e ↦ repair_chunk_keeps rs t r id bytes (
                ap (λ k. get sha256 id (t k)) (sym ((text_eq_iff q r).0 e))
                ∙ repair_replica-Reads q s g)
          ]
