-- ===== src/Node/Rebalance/Spread.antt =====
-- rebalance.go: what rebalanceChunks leaves in the chunk stores.
use minidist.Base.{
  ℕ, ◌+◌, ◌≤◌, ◌≡◌, refl, sym, ap, ◌∙◌, inl, inr, Bool, true, false, some, List, [], ◌∷◌, arith,
  if◌then◌else◌, Bool-cases,
}
use mathlib.Core.Path.{subst}
use minidist.Base.Text.{Text, text_eq, text_eq_iff}
use minidist.Base.Assoc.{text_eq_inst}
use minidist.Base.Sets.{contains}
use minidist.Chunk.{ChunkRead, read, read_error, get}
use minidist.Node.Gc.{Stores}
use minidist.Node.Chunks.{ChunkNet, put_chunk_replica}
use minidist.Node.Chunks.Replica.{Hashes, put_chunk_replica_keeps, put_chunk_replica-Reads}
use minidist.Node.Chunks.Reads.{Kept}
use minidist.Node.Rebalance.{Tally, copy_chunk, copy_read, rebalance_ids, rebalance_chunks}

module _ (sha256 : List ℕ → List ℕ) (net : ChunkNet) (addr : Text) where
  abbrev copies : Text → List ℕ → List Text → Tally → Stores → Tally × Stores
  copies = copy_chunk sha256 net addr

  module _ (id : Text) (bytes : List ℕ) (r : Text) (rs : List Text) (n : Tally) (s : Stores) where
    abbrev sent : Bool × Stores
    sent = put_chunk_replica sha256 net addr r id bytes s

    abbrev tally : Tally
    tally = if sent.0 then (n.0 + 1, n.1) else (n.0, n.1 + 1)

    skipped : text_eq r addr ≡ true → copies id bytes (r ∷ rs) n s ≡ copies id bytes rs n s
    skipped e = unfold copy_chunk in rw (e, copy_chunk) refl

    copied_on :
        text_eq r addr ≡ false → copies id bytes (r ∷ rs) n s ≡ copies id bytes rs tally sent.1
    copied_on e = unfold copy_chunk in rw (e, copy_chunk) refl

  copy_chunk_keeps :
      (id : Text) (bytes : List ℕ) (rs : List Text) (n : Tally) (s : Stores)
      → Kept sha256 s (copies id bytes rs n s).1
  copy_chunk_keeps id bytes [] n s b k x g = unfold copy_chunk in g
  copy_chunk_keeps id bytes (r ∷ rs) n s b k x g = elim (Bool-cases (text_eq r addr)) [
    | inl e ↦ rw (skipped id bytes r rs n s e) (copy_chunk_keeps id bytes rs n s b k x g)
    | inr e ↦ rw (copied_on id bytes r rs n s e) (
        copy_chunk_keeps id bytes rs (tally id bytes r rs n s) (sent id bytes r rs n s).1 b k x
          (put_chunk_replica_keeps sha256 net addr r id bytes s b k x g))
  ]

  failures_grow :
      (id : Text) (bytes : List ℕ) (rs : List Text) (n : Tally) (s : Stores)
      → n.1 ≤ (copies id bytes rs n s).0.1
  failures_grow id bytes [] n s = unfold copy_chunk in omega arith
  failures_grow id bytes (r ∷ rs) n s = elim (Bool-cases (text_eq r addr)) [
    | inl e ↦ rw (skipped id bytes r rs n s e) (failures_grow id bytes rs n s)
    | inr e ↦ rw (copied_on id bytes r rs n s e) (
        let more = failures_grow id bytes rs (tally id bytes r rs n s) (sent id bytes r rs n s).1 in
        ground (arith, more))
  ]

  copy_chunk-Reads :
      (id : Text) (bytes : List ℕ) (rs : List Text) (n : Tally) (s : Stores) (q : Text)
      → Hashes sha256 bytes
      → (copies id bytes rs n s).0.1 ≡ 0
      → contains rs q ≡ true
      → text_eq q addr ≡ false
      → get sha256 id ((copies id bytes rs n s).1 q) ≡ read bytes
  copy_chunk-Reads id bytes [] n s q h z c o = absurd (unfold contains in ground (arith, c))
  copy_chunk-Reads id bytes (r ∷ rs) n s q h z c o = elim (Bool-cases (text_eq r addr)) [
    | inl e ↦
        let other : text_eq r q ≡ false =
          ground (arith, e, o, text_eq_iff r q, text_eq_iff r addr, text_eq_iff q addr) in
        rw (skipped id bytes r rs n s e) (
          copy_chunk-Reads id bytes rs n s q h
            (ap (λ t. t.0.1) (sym (skipped id bytes r rs n s e)) ∙ z)
            (unfold contains in ground (arith, c, other)) o)
    | inr e ↦
        let put = sent id bytes r rs n s in
        let count = tally id bytes r rs n s in
        let none_failed : (copies id bytes rs count put.1).0.1 ≡ 0 =
          ap (λ t. t.0.1) (sym (copied_on id bytes r rs n s e)) ∙ z in
        let worked : put.0 ≡ true =
          ground (arith, none_failed, failures_grow id bytes rs count put.1) in
        rw (copied_on id bytes r rs n s e) (elim (Bool-cases (text_eq r q)) [
          | inr d ↦
              copy_chunk-Reads id bytes rs count put.1 q h none_failed
                (unfold contains in ground (arith, c, d)) o
          | inl d ↦ copy_chunk_keeps id bytes rs count put.1 q id bytes (
              ap (λ k. get sha256 id (put.1 k)) (sym ((text_eq_iff r q).0 d))
              ∙ put_chunk_replica-Reads sha256 net addr r id bytes s h worked)
        ])
  ]

  copy_read_keeps :
      (id : Text) (c : ChunkRead) (rs : List Text) (n : Tally) (s : Stores)
      → Kept sha256 s (copy_read sha256 net addr id c rs n s).1
  unfolding copy_read
  copy_read_keeps id (read bytes) rs n s = copy_chunk_keeps id bytes rs n s
  copy_read_keeps id (read_error e) rs n s = λ b k x g. g

  read_failures_grow :
      (id : Text) (c : ChunkRead) (rs : List Text) (n : Tally) (s : Stores)
      → n.1 ≤ (copy_read sha256 net addr id c rs n s).0.1
  unfolding copy_read
  read_failures_grow id (read bytes) rs n s = failures_grow id bytes rs n s
  read_failures_grow id (read_error e) rs n s = omega arith

  copy_read-Reads :
      (id : Text) (c : ChunkRead) (bytes : List ℕ) (rs : List Text) (n : Tally) (s : Stores)
      (q : Text)
      → c ≡ read bytes
      → Hashes sha256 bytes
      → (copy_read sha256 net addr id c rs n s).0.1 ≡ 0
      → contains rs q ≡ true
      → text_eq q addr ≡ false
      → get sha256 id ((copy_read sha256 net addr id c rs n s).1 q) ≡ read bytes
  copy_read-Reads id c bytes rs n s q e h z m o =
      let run : copy_read sha256 net addr id c rs n s ≡ copies id bytes rs n s =
        ap (λ d. copy_read sha256 net addr id d rs n s) e ∙ (unfold copy_read in refl) in
      rw run (copy_chunk-Reads id bytes rs n s q h (ap (λ t. t.0.1) (sym run) ∙ z) m o)

  module _ (replicas_for : Text → List Text) where
    abbrev all_ids : List Text → Tally → Stores → Tally × Stores
    all_ids = rebalance_ids sha256 net addr replicas_for

    abbrev done : Text → Tally → Stores → Tally × Stores
    done id n s = copy_read sha256 net addr id (get sha256 id (s addr)) (replicas_for id) n s

    rebalance_ids_keeps :
        (ids : List Text) (n : Tally) (s : Stores) → Kept sha256 s (all_ids ids n s).1
    unfolding rebalance_ids
    rebalance_ids_keeps [] n s b k x g = g
    rebalance_ids_keeps (id ∷ rest) n s b k x g =
        rebalance_ids_keeps rest (done id n s).0 (done id n s).1 b k x
          (copy_read_keeps id (get sha256 id (s addr)) (replicas_for id) n s b k x g)

    all_failures_grow : (ids : List Text) (n : Tally) (s : Stores) → n.1 ≤ (all_ids ids n s).0.1
    unfolding rebalance_ids
    all_failures_grow [] n s = omega arith
    all_failures_grow (id ∷ rest) n s = omega (
      arith,
      all_failures_grow rest (done id n s).0 (done id n s).1,
      read_failures_grow id (get sha256 id (s addr)) (replicas_for id) n s,
    )

    rebalance_ids-Reads :
        (ids : List Text) (n : Tally) (s : Stores) (id : Text) (bytes : List ℕ) (q : Text)
        → contains ids id ≡ true
        → get sha256 id (s addr) ≡ read bytes
        → Hashes sha256 bytes
        → (all_ids ids n s).0.1 ≡ 0
        → contains (replicas_for id) q ≡ true
        → text_eq q addr ≡ false
        → get sha256 id ((all_ids ids n s).1 q) ≡ read bytes
    unfolding rebalance_ids
    rebalance_ids-Reads [] n s id bytes q c g h z m o =
        absurd (unfold contains in ground (arith, c))
    rebalance_ids-Reads (k ∷ rest) n s id bytes q c g h z m o =
        let d = done k n s in
        elim (Bool-cases (text_eq k id)) [
          | inr e ↦
              rebalance_ids-Reads rest d.0 d.1 id bytes q (unfold contains in ground (arith, c, e))
                (copy_read_keeps k (get sha256 k (s addr)) (replicas_for k) n s addr id bytes g) h z
                m o
          | inl e ↦
              let same : k ≡ id = (text_eq_iff k id).0 e in
              let clean : d.0.1 ≡ 0 = omega (arith, z, all_failures_grow rest d.0 d.1) in
              rebalance_ids_keeps rest d.0 d.1 q id bytes (
                subst (λ j. get sha256 j (d.1 q) ≡ read bytes) same
                  (copy_read-Reads k (get sha256 k (s addr)) bytes (replicas_for k) n s q
                    (ap (λ j. get sha256 j (s addr)) same ∙ g) h clean
                    (ap (λ j. contains (replicas_for j) q) same ∙ m) o))
        ]

    -- After a rebalance that lists the chunks and counts no failure, every listed chunk that the node
    -- reads is read with the same content by each of its replicas, if SHA-256 gives 32 bytes for the
    -- content and no other content has its id.
    pub rebalance_chunks-Reads :
        (ids : List Text) (s : Stores) (id : Text) (bytes : List ℕ) (q : Text)
        → (rebalance_chunks sha256 net addr replicas_for (some ids) s).0.1.1 ≡ 0
        → contains ids id ≡ true
        → get sha256 id (s addr) ≡ read bytes
        → Hashes sha256 bytes
        → contains (replicas_for id) q ≡ true
        → get sha256 id ((rebalance_chunks sha256 net addr replicas_for (some ids) s).1 q)
          ≡ read bytes
    unfolding rebalance_chunks
    rebalance_chunks-Reads ids s id bytes q z c g h m = elim (Bool-cases (text_eq q addr)) [
      | inr o ↦ rebalance_ids-Reads ids (0, 0) s id bytes q c g h z m o
      | inl o ↦
          rebalance_ids_keeps ids (0, 0) s q id bytes
            (ap (λ k. get sha256 id (s k)) ((text_eq_iff q addr).0 o) ∙ g)
    ]
