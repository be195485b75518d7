-- ===== src/Node/Chunks/Replica.antt =====
-- node/chunk.go: one upload and one download of a chunk.
use minidist.Base.{
  ℕ, ◌≡◌, refl, sym, ap, ◌∙◌, inl, inr, Bool, true, false, Option, none, some, List, arith, ltb,
  Bool-cases,
}
use mathlib.Core.Path.{subst}
use minidist.Base.Text.{Text, text_eq, text_eq_iff}
use minidist.Chunk.{Files, read, chunk_id, put, get}
use minidist.Chunk.Content.{IsDigest, lookup-put, get-put, put_keeps}
use minidist.Node.Gc.{Stores}
use minidist.Node.Quorum.{Delivery, acknowledged, unacknowledged, lost}
use minidist.Node.Chunks.{
  ChunkNet, set_files, stored_as, handle_internal_chunk_put, upload, put_chunk_replica,
}

-- What is relied on of SHA-256: it gives 32 bytes for a content, and no other content has its id.
pub record Hashes (sha256 : List ℕ → List ℕ) (bytes : List ℕ) : Type 0 where
  pub digest : IsDigest (sha256 bytes)
  pub unique : (other : List ℕ) → chunk_id sha256 other ≡ chunk_id sha256 bytes → other ≡ bytes

module _ (sha256 : List ℕ → List ℕ) where
  pub put_keeps_any :
      (now : ℕ) (works : Bool) (bytes : List ℕ) (files : Files) (k : Text) (x : List ℕ)
      → get sha256 k files ≡ read x
      → get sha256 k (put sha256 now works bytes files).1 ≡ read x
  put_keeps_any now true bytes files k x g = put_keeps sha256 now bytes files k x g
  put_keeps_any now false bytes files k x g =
      let same : put sha256 now false bytes files ≡ (none, files) = unfold put in refl in rw same g

  -- A `Put` that returns the id has worked, and the chunk is read back.
  put-stored :
      (now : ℕ) (works : Bool) (bytes : List ℕ) (files : Files) (id : Text)
      → Hashes sha256 bytes
      → stored_as id (put sha256 now works bytes files).0 ≡ true
      → (chunk_id sha256 bytes ≡ id)
        × (get sha256 id (put sha256 now works bytes files).1 ≡ read bytes)
  put-stored now false bytes files id h s =
      let failed : put sha256 now false bytes files ≡ (none, files) = unfold put in refl in
      absurd (ground (arith, ap (λ r. stored_as id r.0) failed, s))
  put-stored now true bytes files id h s =
      let (kept, (p, same)) = lookup-put sha256 now bytes files in
      let named : chunk_id sha256 bytes ≡ id =
        (text_eq_iff (chunk_id sha256 bytes) id).0 (sym (ap (λ r. stored_as id r.0) p) ∙ s) in
      (
        named,
        subst (λ k. get sha256 k (put sha256 now true bytes files).1 ≡ read bytes) named
            (get-put sha256 now bytes files h.digest h.unique),
      )

  pub put-own :
      (now : ℕ) (bytes : List ℕ) (files : Files)
      → stored_as (chunk_id sha256 bytes) (put sha256 now true bytes files).0 ≡ true
  put-own now bytes files =
      let (kept, (p, same)) = lookup-put sha256 now bytes files in
      ap (λ r. stored_as (chunk_id sha256 bytes) r.0) p
      ∙ (text_eq_iff (chunk_id sha256 bytes) (chunk_id sha256 bytes)).1 refl

  handle_put_keeps :
      (now : ℕ) (works : Bool) (id : Text) (bytes : List ℕ) (files : Files) (k : Text) (x : List ℕ)
      → get sha256 k files ≡ read x
      → get sha256 k (handle_internal_chunk_put sha256 now works id (some bytes) files).1 ≡ read x
  handle_put_keeps now works id bytes files k x g =
      elim (Bool-cases (text_eq (chunk_id sha256 bytes) id)) [
        | inr e ↦ unfold handle_internal_chunk_put in rw (e, handle_internal_chunk_put) g
        | inl e ↦
            unfold handle_internal_chunk_put in
            rw (e, handle_internal_chunk_put) (put_keeps_any now works bytes files k x g)
      ]

  handle_put-Reads :
      (now : ℕ) (works : Bool) (id : Text) (bytes : List ℕ) (files : Files)
      → Hashes sha256 bytes
      → ltb (handle_internal_chunk_put sha256 now works id (some bytes) files).0 300 ≡ true
      → get sha256 id (handle_internal_chunk_put sha256 now works id (some bytes) files).1
        ≡ read bytes
  handle_put-Reads now works id bytes files h ok =
      let run = handle_internal_chunk_put sha256 now works id (some bytes) files in
      let r = put sha256 now works bytes files in
      elim (Bool-cases (text_eq (chunk_id sha256 bytes) id)) [
        | inr e ↦
            let bad : run ≡ (400, files) =
              unfold handle_internal_chunk_put in rw (e, handle_internal_chunk_put) refl in
            absurd (ground (arith, ap (λ q. ltb q.0 300) bad, ok))
        | inl e ↦ elim (Bool-cases (stored_as id r.0)) [
          | inr s ↦
              let bad : run ≡ (500, r.1) =
                unfold handle_internal_chunk_put in rw (e, s, handle_internal_chunk_put) refl in
              absurd (ground (arith, ap (λ q. ltb q.0 300) bad, ok))
          | inl s ↦
              let good : run ≡ (204, r.1) =
                unfold handle_internal_chunk_put in rw (e, s, handle_internal_chunk_put) refl in
              rw good ((put-stored now works bytes files id h s).1)
        ]
      ]

  pub handle_put-own :
      (now : ℕ) (bytes : List ℕ) (files : Files)
      → (handle_internal_chunk_put sha256 now true (chunk_id sha256 bytes) (some bytes) files).0
        ≡ 204
  handle_put-own now bytes files =
      let own = (text_eq_iff (chunk_id sha256 bytes) (chunk_id sha256 bytes)).1 refl in
      unfold handle_internal_chunk_put in
      rw (own, put-own now bytes files, handle_internal_chunk_put) refl

  upload_keeps :
      (d : Delivery) (now : ℕ) (works : Bool) (id : Text) (bytes : List ℕ) (files : Files)
      (k : Text) (x : List ℕ)
      → get sha256 k files ≡ read x
      → get sha256 k (upload sha256 d now works id bytes files).1 ≡ read x
  unfolding upload
  upload_keeps acknowledged now works id bytes files k x g =
      handle_put_keeps now works id bytes files k x g
  upload_keeps unacknowledged now works id bytes files k x g =
      handle_put_keeps now works id bytes files k x g
  upload_keeps lost now works id bytes files k x g = g

  upload-Reads :
      (d : Delivery) (now : ℕ) (works : Bool) (id : Text) (bytes : List ℕ) (files : Files)
      → Hashes sha256 bytes
      → (upload sha256 d now works id bytes files).0 ≡ true
      → get sha256 id (upload sha256 d now works id bytes files).1 ≡ read bytes
  unfolding upload
  upload-Reads acknowledged now works id bytes files h ok =
      handle_put-Reads now works id bytes files h ok
  upload-Reads unacknowledged now works id bytes files h ok = absurd (ground arith)
  upload-Reads lost now works id bytes files h ok = absurd (ground arith)

  module _ (net : ChunkNet) (addr replica id : Text) (bytes : List ℕ) (stores : Stores) where
    abbrev pub result : Bool × Stores
    result = put_chunk_replica sha256 net addr replica id bytes stores

    abbrev pub own_put : Option Text × Files
    own_put = put sha256 (net.clock replica) (net.works replica) bytes (stores replica)

    abbrev pub sent : Bool × Files
    sent =
        upload sha256 (net.uploads replica) (net.clock replica) (net.works replica) id bytes
          (stores replica)

    pub at_self :
        text_eq replica addr ≡ true
        → result ≡ (stored_as id own_put.0, set_files replica own_put.1 stores)
    at_self e = unfold put_chunk_replica in rw (e, put_chunk_replica) refl

    pub at_other : text_eq replica addr ≡ false → result ≡ (sent.0, set_files replica sent.1 stores)
    at_other e = unfold put_chunk_replica in rw (e, put_chunk_replica) refl

    -- An upload takes no readable chunk away from any node.
    pub put_chunk_replica_keeps :
        (b k : Text) (x : List ℕ)
        → get sha256 k (stores b) ≡ read x
        → get sha256 k (result.1 b) ≡ read x
    put_chunk_replica_keeps b k x g = elim (Bool-cases (text_eq replica b)) [
      | inr o ↦ elim (Bool-cases (text_eq replica addr)) [
        | inl e ↦ rw (at_self e) (rw o g)
        | inr e ↦ rw (at_other e) (rw o g)
      ]
      | inl o ↦
          let here : get sha256 k (stores replica) ≡ read x =
            ap (λ c. get sha256 k (stores c)) ((text_eq_iff replica b).0 o) ∙ g in
          elim (Bool-cases (text_eq replica addr)) [
            | inl e ↦ rw (at_self e) (
                rw o (
                  put_keeps_any (net.clock replica) (net.works replica) bytes (stores replica) k x
                    here))
            | inr e ↦ rw (at_other e) (
                rw o (
                  upload_keeps (net.uploads replica) (net.clock replica) (net.works replica) id
                    bytes (stores replica) k x here))
          ]
    ]

    -- After a successful upload the replica reads the chunk.
    pub put_chunk_replica-Reads :
        Hashes sha256 bytes → result.0 ≡ true → get sha256 id (result.1 replica) ≡ read bytes
    put_chunk_replica-Reads h ok =
        let own = (text_eq_iff replica replica).1 refl in
        elim (Bool-cases (text_eq replica addr)) [
          | inl e ↦ rw (at_self e) (
              rw own
                (put-stored (net.clock replica) (net.works replica) bytes (stores replica) id h
                  (sym (ap (λ r. r.0) (at_self e)) ∙ ok)).1)
          | inr e ↦ rw (at_other e) (
              rw own (
                upload-Reads (net.uploads replica) (net.clock replica) (net.works replica) id bytes
                  (stores replica) h (sym (ap (λ r. r.0) (at_other e)) ∙ ok)))
        ]

    -- An upload of the right content to a replica that works and answers succeeds.
    pub put_chunk_replica-works :
        chunk_id sha256 bytes ≡ id
        → net.uploads replica ≡ acknowledged
        → net.works replica ≡ true
        → result.0 ≡ true
    put_chunk_replica-works named up works =
        let now = net.clock replica in
        elim (Bool-cases (text_eq replica addr)) [
          | inl e ↦
              ap (λ r. r.0) (at_self e)
              ∙ ap (λ w. stored_as id (put sha256 now w bytes (stores replica)).0) works
              ∙ ap (λ k. stored_as k (put sha256 now true bytes (stores replica)).0) (sym named)
              ∙ put-own now bytes (stores replica)
          | inr e ↦
              ap (λ r. r.0) (at_other e)
              ∙ ap (λ d. (upload sha256 d now (net.works replica) id bytes (stores replica)).0) up
              ∙ ap (λ w. (upload sha256 acknowledged now w id bytes (stores replica)).0) works
              ∙ ap (λ k. (upload sha256 acknowledged now true k bytes (stores replica)).0)
                  (sym named)
              ∙ (unfold upload in ap (λ n. ltb n 300) (handle_put-own now bytes (stores replica)))
        ]
