-- ===== src/Node/Chunks/Objects.antt =====
-- node.go: the node as the chunk store of its objects, `object.New(n, n)`: `PutChunk` and `GetChunk` fill
-- the interface that internal/object is written against.
use minidist.Base.{
  ℕ, ◌+◌, ◌<◌, ◌≡◌, ◌==◌, sym, ap, ◌∙◌, inl, inr, Bool, true, Option, none, some, List, length,
  Bool-cases, if◌then◌else◌,
}
use mathlib.Core.Option.{some-injective}
use minidist.Base.Text.{Text, text_eq, text_eq_iff}
use minidist.Object.{ChunkStore}
use minidist.Object.RoundTrip.{Keeps}
use minidist.Chunk.{chunk_id, get}
use minidist.Node.Gc.{Stores}
use minidist.Node.Quorum.Overlap.{count}
use minidist.Node.Chunks.{
  ChunkNet, bytes_of, answer_read, download, handle_internal_chunk_get, put_chunk,
  get_chunk_replica, get_chunk,
}
use minidist.Node.Chunks.Replica.{Hashes}
use minidist.Node.Chunks.Reads.{
  Kept, put_all_keeps, put_chunk-quorum, read_of, get_chunk-source, get_chunk-found,
  get_chunk-put_chunk, chunk_id-get_chunk,
}
use minidist.Node.Chunks.Repair.{get_chunk_replica-some}

abbrev content : Option (List ℕ × Text) → Option (List ℕ)
content none = none
content (some (bytes, source)) = some bytes

module _ (sha256 : List ℕ → List ℕ) (net : ChunkNet) (addr : Text) (write_quorum : ℕ)
    (replicas_for : Text → List Text) where
  -- The node's chunk store, for calls that the same network surrounds.
  unfoldable pub cluster_chunks : ChunkStore Stores
  unfolding put_chunk get_chunk
  cluster_chunks = record {
    put_chunk = λ bytes s.
        put_chunk sha256 net addr write_quorum (replicas_for (chunk_id sha256 bytes)) bytes s;
    get_chunk = λ id s. content (get_chunk sha256 net addr (replicas_for id) id s);
  }

  put_chunk_keeps :
      (rs : List Text) (bytes : List ℕ) (s : Stores)
      → Kept sha256 s (put_chunk sha256 net addr write_quorum rs bytes s).1
  put_chunk_keeps rs bytes s b k x g = elim (Bool-cases (length rs == 0)) [
    | inl e ↦ unfold put_chunk in rw (e, put_chunk) g
    | inr e ↦
        unfold put_chunk in
        rw (e, put_chunk)
          (put_all_keeps sha256 net addr (chunk_id sha256 bytes) bytes rs 0 s b k x g)
  ]

  -- What a replica sends depends on what its store reads.
  same_reply :
      (r id : Text) (s t : Stores)
      → get sha256 id (s r) ≡ get sha256 id (t r)
      → get_chunk_replica sha256 net addr r id s ≡ get_chunk_replica sha256 net addr r id t
  unfolding get_chunk_replica handle_internal_chunk_get
  same_reply r id s t e =
      ap
        (λ c.
          if text_eq r addr
          then bytes_of c
          else download sha256 id (answer_read c) (net.arrives r (answer_read c).1))
        e

  content-some :
      (o : Option (List ℕ × Text)) (x : List ℕ)
      → content o ≡ some x
      → (r : Text) × (o ≡ some (x, r))
  content-some none x e = cc
  content-some (some (y, r)) x e = (r, ap (λ z. some (z, r)) (some-injective y x e))

  module _ (sound : Text → Bool)
      (arrive : (r : Text) (bytes : List ℕ) → sound r ≡ true → net.arrives r bytes ≡ some bytes)
      (meet : (id : Text)
        → length (replicas_for id) < write_quorum + count sound (replicas_for id)) where
    got_lem :
        (d : List ℕ) (s : Stores) (id : Text)
        → Hashes sha256 d
        → (put_chunk sha256 net addr write_quorum (replicas_for (chunk_id sha256 d)) d s).0
          ≡ some id
        → content (
            get_chunk sha256 net addr
              (replicas_for id)
              id
              (put_chunk sha256 net addr write_quorum (replicas_for (chunk_id sha256 d)) d s).1)
          ≡ some d
    got_lem d s id h p =
        let rs = replicas_for (chunk_id sha256 d) in
        let t = (put_chunk sha256 net addr write_quorum rs d s).1 in
        let named = (put_chunk-quorum sha256 net addr write_quorum rs d s id h p).0 in
        let (source, found) =
          get_chunk-put_chunk sha256 net net addr addr write_quorum rs d s t id sound h p
            (λ b k x g. g) (λ r e. arrive r d e) (meet (chunk_id sha256 d)) in
        ap (λ k. content (get_chunk sha256 net addr (replicas_for k) id t)) (sym named)
        ∙ ap content found

    kept_lem :
        (d : List ℕ) (s : Stores) (id : Text) (x : List ℕ)
        → Hashes sha256 x
        → content (get_chunk sha256 net addr (replicas_for id) id s) ≡ some x
        → content (
            get_chunk sha256 net addr
              (replicas_for id)
              id
              (put_chunk sha256 net addr write_quorum (replicas_for (chunk_id sha256 d)) d s).1)
          ≡ some x
    kept_lem d s id x h g =
        let t = (put_chunk sha256 net addr write_quorum (replicas_for (chunk_id sha256 d)) d s).1 in
        let rs = replicas_for id in
        let (r, first) = content-some (get_chunk sha256 net addr rs id s) x g in
        let from = get_chunk-source sha256 net addr rs id s x r first in
        let (y, stored) =
          read_of (get sha256 id (s r)) (get_chunk_replica-some sha256 net addr r id s x from.2) in
        let later = put_chunk_keeps (replicas_for (chunk_id sha256 d)) d s r id y stored in
        let reply = same_reply r id s t (stored ∙ sym later) in
        let (z, q, found) =
          get_chunk-found sha256 net addr rs id r t x from.1 (sym reply ∙ from.2)
            ((text_eq_iff (chunk_id sha256 x) id).1 from.0) in
        let right = chunk_id-get_chunk sha256 net addr rs id t z q found in
        ap content found ∙ ap (λ b. some b) (h.unique z (right.0 ∙ sym from.0))

    -- The node's PutChunk and GetChunk keep what is put, as the object store relies on it, for the
    -- contents of which SHA-256 gives 32 bytes and whose id no other content has, if for every id
    -- the downloads arrive as they were sent from more than N - W of its N replicas.
    pub cluster_chunks-Keeps : Keeps cluster_chunks (Hashes sha256)
    unfolding cluster_chunks
    cluster_chunks-Keeps = record { got = λ d s id h p. got_lem d s id h p; kept = kept_lem }
