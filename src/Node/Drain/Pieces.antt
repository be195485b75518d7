-- ===== src/Node/Drain/Pieces.antt =====
-- drain.go: the chunks that a drain copies.
use minidist.Base.{
  Option, none, some, ℕ, ◌≡◌, refl, sym, ap, ◌∙◌, inl, inr, Bool, true, false, List, [], ◌∷◌, arith,
  Bool-cases,
}
use mathlib.Core.Path.{subst}
use minidist.Base.Text.{Text, text_eq, text_eq_iff}
use minidist.Base.Assoc.{text_eq_inst}
use minidist.Base.Sets.{contains}
use minidist.Chunk.{ChunkRead, read, read_error, get}
use minidist.Node.Gc.{Stores}
use minidist.Node.Chunks.{ChunkNet, put_chunk_replica}
use minidist.Node.Chunks.Replica.{Hashes, put_chunk_replica_keeps, put_chunk_replica-Reads}
use minidist.Node.Chunks.Reads.{Kept}
use minidist.Node.Drain.{copy_chunk_to, drain_read, drain_ids}

module _ (sha256 : List ℕ → List ℕ) (net : ChunkNet) (addr : Text) where
  module _ (id : Text) (bytes : List ℕ) where
    abbrev chunk_sent : Text → Stores → Bool × Stores
    chunk_sent r s = put_chunk_replica sha256 net addr r id bytes s

    abbrev chunk_copies : List Text → Stores → Bool × Stores
    chunk_copies = copy_chunk_to sha256 net addr id bytes

    chunk-next :
        (r : Text) (rs : List Text) (s : Stores)
        → (chunk_sent r s).0 ≡ true
        → chunk_copies (r ∷ rs) s ≡ chunk_copies rs (chunk_sent r s).1
    chunk-next r rs s e = unfold copy_chunk_to in rw (e, copy_chunk_to) refl

    chunk-failed :
        (r : Text) (rs : List Text) (s : Stores)
        → (chunk_sent r s).0 ≡ false
        → chunk_copies (r ∷ rs) s ≡ (false, (chunk_sent r s).1)
    chunk-failed r rs s e = unfold copy_chunk_to in rw (e, copy_chunk_to) refl

    chunk_copies_keep : (rs : List Text) (s : Stores) → Kept sha256 s (chunk_copies rs s).1
    chunk_copies_keep [] s b k x g = unfold copy_chunk_to in g
    chunk_copies_keep (r ∷ rs) s b k x g =
        let here = put_chunk_replica_keeps sha256 net addr r id bytes s b k x g in
        elim (Bool-cases (chunk_sent r s).0) [
          | inl e ↦ rw (chunk-next r rs s e) (chunk_copies_keep rs (chunk_sent r s).1 b k x here)
          | inr e ↦ rw (chunk-failed r rs s e) here
        ]

    chunk_copies-Reads :
        (rs : List Text) (s : Stores) (q : Text)
        → Hashes sha256 bytes
        → (chunk_copies rs s).0 ≡ true
        → contains rs q ≡ true
        → get sha256 id ((chunk_copies rs s).1 q) ≡ read bytes
    chunk_copies-Reads [] s q h z m = absurd (unfold contains in ground (arith, m))
    chunk_copies-Reads (r ∷ rs) s q h z m = elim (Bool-cases (chunk_sent r s).0) [
      | inr e ↦ absurd (ground (arith, ap (λ t. t.0) (chunk-failed r rs s e), z))
      | inl e ↦
          let next = (chunk_sent r s).1 in
          let more = ap (λ t. t.0) (sym (chunk-next r rs s e)) ∙ z in
          rw (chunk-next r rs s e) (elim (Bool-cases (text_eq r q)) [
            | inr d ↦ chunk_copies-Reads rs next q h more (unfold contains in ground (arith, m, d))
            | inl d ↦ chunk_copies_keep rs next q id bytes (
                ap (λ k. get sha256 id (next k)) (sym ((text_eq_iff r q).0 d))
                ∙ put_chunk_replica-Reads sha256 net addr r id bytes s h e)
          ])
    ]

  drain_read_keeps :
      (id : Text) (c : ChunkRead) (o : Option (List Text)) (s : Stores)
      → Kept sha256 s (drain_read sha256 net addr id c o s).1
  unfolding drain_read
  drain_read_keeps id (read bytes) none s = λ b k x g. g
  drain_read_keeps id (read bytes) (some rs) s = chunk_copies_keep id bytes rs s
  drain_read_keeps id (read_error e) o s = λ b k x g. g

  drain_read-Reads :
      (id : Text) (c : ChunkRead) (bytes : List ℕ) (o : Option (List Text)) (rs : List Text)
      (s : Stores) (q : Text)
      → o ≡ some rs
      → c ≡ read bytes
      → Hashes sha256 bytes
      → (drain_read sha256 net addr id c o s).0 ≡ true
      → contains rs q ≡ true
      → get sha256 id ((drain_read sha256 net addr id c o s).1 q) ≡ read bytes
  drain_read-Reads id c bytes o rs s q found e h z m =
      let run : drain_read sha256 net addr id c o s ≡ chunk_copies id bytes rs s =
        ap (λ d. drain_read sha256 net addr id d o s) e
        ∙ ap (λ p. drain_read sha256 net addr id (read bytes) p s) found
        ∙ (unfold drain_read in refl) in
      rw run (chunk_copies-Reads id bytes rs s q h (ap (λ t. t.0) (sym run) ∙ z) m)

  module _ (replicas_for : Text → Option (List Text)) where
    abbrev all_ids : List Text → Stores → Bool × Stores
    all_ids = drain_ids sha256 net addr replicas_for

    abbrev done : Text → Stores → Bool × Stores
    done id s = drain_read sha256 net addr id (get sha256 id (s addr)) (replicas_for id) s

    ids-next :
        (id : Text) (rest : List Text) (s : Stores)
        → (done id s).0 ≡ true
        → all_ids (id ∷ rest) s ≡ all_ids rest (done id s).1
    ids-next id rest s e = unfold drain_ids in rw (e, drain_ids) refl

    ids-failed :
        (id : Text) (rest : List Text) (s : Stores)
        → (done id s).0 ≡ false
        → all_ids (id ∷ rest) s ≡ (false, (done id s).1)
    ids-failed id rest s e = unfold drain_ids in rw (e, drain_ids) refl

    drain_ids_keep : (ids : List Text) (s : Stores) → Kept sha256 s (all_ids ids s).1
    drain_ids_keep [] s b k x g = unfold drain_ids in g
    drain_ids_keep (id ∷ rest) s b k x g =
        let here = drain_read_keeps id (get sha256 id (s addr)) (replicas_for id) s b k x g in
        elim (Bool-cases (done id s).0) [
          | inl e ↦ rw (ids-next id rest s e) (drain_ids_keep rest (done id s).1 b k x here)
          | inr e ↦ rw (ids-failed id rest s e) here
        ]

    pub drain_ids-Reads :
        (ids : List Text) (s : Stores) (id : Text) (bytes : List ℕ) (rs : List Text) (q : Text)
        → (all_ids ids s).0 ≡ true
        → contains ids id ≡ true
        → get sha256 id (s addr) ≡ read bytes
        → Hashes sha256 bytes
        → replicas_for id ≡ some rs
        → contains rs q ≡ true
        → get sha256 id ((all_ids ids s).1 q) ≡ read bytes
    drain_ids-Reads [] s id bytes rs q z c g h f m = absurd (unfold contains in ground (arith, c))
    drain_ids-Reads (k ∷ rest) s id bytes rs q z c g h f m = elim (Bool-cases (done k s).0) [
      | inr e ↦ absurd (ground (arith, ap (λ t. t.0) (ids-failed k rest s e), z))
      | inl e ↦
          let next = (done k s).1 in
          let more = ap (λ t. t.0) (sym (ids-next k rest s e)) ∙ z in
          let here = drain_read_keeps k (get sha256 k (s addr)) (replicas_for k) s in
          rw (ids-next k rest s e) (elim (Bool-cases (text_eq k id)) [
            | inr d ↦
                drain_ids-Reads rest next id bytes rs q more
                  (unfold contains in ground (arith, c, d)) (here addr id bytes g) h f m
            | inl d ↦
                let same : k ≡ id = (text_eq_iff k id).0 d in
                drain_ids_keep rest next q id bytes (
                  subst (λ j. get sha256 j (next q) ≡ read bytes) same
                    (drain_read-Reads k (get sha256 k (s addr)) bytes (replicas_for k) rs s q
                      (ap replicas_for same ∙ f) (ap (λ j. get sha256 j (s addr)) same ∙ g) h e m))
          ])
    ]
