-- ===== src/Object/Stored.antt =====
-- object/store.go: `Put`, then `Get`.
use minidist.Base.{
  ℕ, suc, ◌<◌, ◌≡◌, ◌≢◌, refl, sym, inl, inr, true, false, Option, none, some, List, arith, ◌==◌,
  length, take, drop, Bool-cases,
}
use mathlib.Core.Path.{subst}
use minidist.Base.Text.{Text}
use minidist.Store.Snapshot.{Codec}
use minidist.Object.{
  ChunkInfo, Metadata, ChunkStore, MetadataStore, write_loop, write_chunks, write_to, sum_sizes,
  object_metadata, put, put_written, put_metadata, read_metadata, get, metadata_key,
}
use minidist.Object.RoundTrip.{Keeps, Pieces, Wrote, loop-Wrote, loop_ends}

written-Wrote :
    {S : Type 0} (chunks : ChunkStore S) (Of : List ℕ → Type 0) (laws : Keeps chunks Of)
    (chunk_size : ℕ) (p : 0 < chunk_size) (bytes : List ℕ) (s : S)
    → Pieces chunks Of laws chunk_size p bytes
    → Wrote chunks Of laws chunk_size p bytes s (write_chunks chunks chunk_size bytes s)
written-Wrote chunks Of laws chunk_size p bytes s all =
    let e : (chunk_size == 0) ≡ false = ground arith in
    let loop : write_chunks chunks chunk_size bytes s
        ≡ write_loop chunks (suc (length bytes)) chunk_size bytes s =
      unfold write_chunks in rw (e, write_chunks) refl in
    subst (Wrote chunks Of laws chunk_size p bytes s) (sym loop)
      (loop-Wrote chunks Of laws chunk_size p (suc (length bytes)) bytes s all)

module _ {S M : Type 0} (chunks : ChunkStore S) (Of : List ℕ → Type 0) (laws : Keeps chunks Of)
    (store : MetadataStore M) (codec : Codec Metadata) (sha256 : List ℕ → List ℕ) where
  written_ends :
      (name : Text) (chunk_size : ℕ) (m : M) (result : Option (Option (List ChunkInfo) × S))
      → result ≢ none
      → put_written chunks store codec sha256 name chunk_size m result ≢ none
  unfolding put_written
  written_ends name chunk_size m none h = λ e. h refl
  written_ends name chunk_size m (some (none, s)) h = λ e. cc
  written_ends name chunk_size m (some (some infos, s)) h = λ e. cc

  -- Over a chunk store that keeps what is put, the object store's Put ends for every name, content
  -- and chunk size, within the fuel of one round for each byte and one more.
  pub put_ends :
      (name : Text) (bytes : List ℕ) (chunk_size : ℕ) (s : S) (m : M)
      → put chunks store codec sha256 name bytes chunk_size s m ≢ none
  put_ends name bytes chunk_size s m = elim (Bool-cases (length name == 0)) [
    | inl e ↦ unfold put in rw (e, put) (λ q. cc)
    | inr e ↦
        unfold put in
        rw (e, put)
          (written_ends name chunk_size m (write_chunks chunks chunk_size bytes s)
            (elim (Bool-cases (chunk_size == 0)) [
              | inl z ↦ unfold write_chunks in rw (z, write_chunks) (λ q. cc)
              | inr z ↦
                  unfold write_chunks in
                  rw (z, write_chunks)
                    (loop_ends chunks Of laws chunk_size (ground arith) (suc (length bytes)) bytes s
                      (omega arith))
            ]))
  ]

  put-written :
      (name : Text) (bytes : List ℕ) (chunk_size : ℕ) (s s' : S) (m m' : M) (infos : List ChunkInfo)
      (encoded : List ℕ)
      → 0 < length name
      → write_chunks chunks chunk_size bytes s ≡ some (some infos, s')
      → codec.marshal (object_metadata name chunk_size infos) ≡ some encoded
      → store.put_value (metadata_key sha256 name) encoded m ≡ (true, m')
      → put chunks store codec sha256 name bytes chunk_size s m
        ≡ some (some (object_metadata name chunk_size infos), (s', m'))
  put-written name bytes chunk_size s s' m m' infos encoded p w c k =
      let e : (length name == 0) ≡ false = ground arith in
      unfold put put_written put_metadata in rw (e, w, c, k, put, put_metadata) refl

  -- For a named object, a positive chunk size and a chunk store that keeps what is put, if
  -- writeChunks, the encoding of the metadata and the metadata store succeed, and the metadata
  -- store and the codec give back what they got, then Put succeeds and Get afterwards gives the
  -- object's bytes.
  pub get-put_object :
      (name : Text) (bytes : List ℕ) (chunk_size : ℕ) (s s' : S) (m m' : M) (infos : List ChunkInfo)
      (encoded : List ℕ)
      → 0 < length name
      → 0 < chunk_size
      → ((k : ℕ) → Of (take chunk_size (drop k bytes)))
      → write_chunks chunks chunk_size bytes s ≡ some (some infos, s')
      → codec.marshal (object_metadata name chunk_size infos) ≡ some encoded
      → codec.unmarshal encoded ≡ some (object_metadata name chunk_size infos)
      → store.put_value (metadata_key sha256 name) encoded m ≡ (true, m')
      → store.get_value (metadata_key sha256 name) m' ≡ some (some encoded)
      → (put chunks store codec sha256 name bytes chunk_size s m
          ≡ some (some (object_metadata name chunk_size infos), (s', m')))
        × (get chunks store codec sha256 name s' m' ≡ some (some bytes))
  get-put_object name bytes chunk_size s s' m m' infos encoded p q all w c u k g =
      let ((r, n), kept) =
        subst (Wrote chunks Of laws chunk_size q bytes s) w
          (written-Wrote chunks Of laws chunk_size q bytes s all) in
      let sizes : (length bytes == sum_sizes infos) ≡ true = ground (arith, n) in
      let out : write_to chunks (object_metadata name chunk_size infos) s' ≡ some bytes =
        unfold write_to in rw (r, sizes, write_to) refl in
      (
        put-written name bytes chunk_size s s' m m' infos encoded p w c k,
        unfold get read_metadata in rw (g, u, out, get, read_metadata) refl,
      )
