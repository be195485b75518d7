-- ===== src/Object.antt =====
-- internal/object: logical objects over chunks and metadata (store.go, metadata.go). The two interfaces
-- that the store is given, ChunkStore and MetadataStore, are records of operations on a state of
-- their own; SHA-256 and encoding/json are parameters. A reader is the bytes it gives.
pub mod RoundTrip
pub mod Stored
mod Witnesses
use minidist.Base.{
  ℕ, zero, suc, ◌+◌, Bool, true, false, not, ◌&&◌, Option, none, some, List, [], ◌∷◌, ◌++◌, ltb,
  leb, ◌==◌, length, take, drop, if◌then◌else◌,
}
use minidist.Base.Text.{Text, codes}
use minidist.Store.Snapshot.{Codec}
use minidist.Chunk.{hex}

pub record ChunkInfo : Type 0 where
  pub id : Text
  pub size : ℕ

pub record Metadata : Type 0 where
  pub name : Text
  pub size : ℕ
  pub chunk_size : ℕ
  pub chunks : List ChunkInfo

abbrev pub metadata_key_prefix : Text
metadata_key_prefix = codes "object:meta:"

-- A failed `GetChunk` or `PutChunk` gives `none`.
pub record ChunkStore (S : Type 0) : Type 0 where
  pub put_chunk : List ℕ → S → Option Text × S
  pub get_chunk : Text → S → Option (List ℕ)

-- Whether the call succeeds; a failed `Get` gives `none`, a missing key `some none`.
pub record MetadataStore (M : Type 0) : Type 0 where
  pub put_value : Text → List ℕ → M → Bool × M
  pub get_value : Text → M → Option (Option (List ℕ))
  pub delete_value : Text → M → Bool × M

unfoldable pub metadata_key : (List ℕ → List ℕ) → Text → Text
metadata_key sha256 name = metadata_key_prefix ++ hex (sha256 name)

unfoldable pub sum_sizes : List ChunkInfo → ℕ
sum_sizes [] = 0
sum_sizes (info ∷ rest) = info.size + sum_sizes rest

abbrev pub cons_chunk :
    {S : Type 0}
    → ChunkInfo
    → Option (Option (List ChunkInfo) × S)
    → Option (Option (List ChunkInfo) × S)
cons_chunk info none = none
cons_chunk info (some (none, s)) = some (none, s)
cons_chunk info (some (some infos, s)) = some (some (info ∷ infos), s)

module _ {S : Type 0} (chunks : ChunkStore S) where
  -- The loop of `writeChunks` on fuel (`none`: it is used up): the infos of the chunks, or the failure
  -- of a `PutChunk`. `io.ReadFull` gives a full buffer, a short last one, or the end.
  unfoldable pub write_loop : ℕ → ℕ → List ℕ → S → Option (Option (List ChunkInfo) × S)
  write_loop zero chunk_size rest s = none
  write_loop (suc fuel) chunk_size rest s =
      if length rest == 0
      then some (some [], s)
      else let piece = take chunk_size rest in
        let result = chunks.put_chunk piece s in
        elim result.0 [
          | none ↦ some (none, result.1)
          | some id ↦
              let info : ChunkInfo = record { id = id; size = length piece } in
              let more = write_loop fuel chunk_size (drop chunk_size rest) result.1 in
              if ltb (length rest) chunk_size
              then some (some (info ∷ []), result.1)
              else cons_chunk info more
        ]

  unfoldable pub write_chunks : ℕ → List ℕ → S → Option (Option (List ChunkInfo) × S)
  write_chunks chunk_size bytes s =
      if chunk_size == 0 then some (none, s) else write_loop (suc (length bytes)) chunk_size bytes s

  -- The loop of `WriteTo`: what is written in all, or an error.
  unfoldable pub read_chunks : List ChunkInfo → S → Option (List ℕ)
  read_chunks [] s = some []
  read_chunks (info ∷ rest) s =
      let more = read_chunks rest s in
      elim (chunks.get_chunk info.id s) [
        | none ↦ none
        | some bytes ↦
            if length bytes == info.size
            then elim more [ none ↦ none | some out ↦ some (bytes ++ out) ]
            else none
      ]

  unfoldable pub write_to : Metadata → S → Option (List ℕ)
  write_to metadata s = elim (read_chunks metadata.chunks s) [
    | none ↦ none
    | some out ↦ if length out == metadata.size then some out else none
  ]

abbrev pub object_metadata : Text → ℕ → List ChunkInfo → Metadata
object_metadata name chunk_size infos = record {
  name = name;
  size = sum_sizes infos;
  chunk_size = chunk_size;
  chunks = infos;
}

module _ {S M : Type 0} (chunks : ChunkStore S) (store : MetadataStore M) (codec : Codec Metadata)
    (sha256 : List ℕ → List ℕ) where
  -- The end of `Put`, with the chunks written.
  unfoldable pub put_metadata : Metadata → S → M → Option Metadata × (S × M)
  put_metadata metadata s m = elim (codec.marshal metadata) [
    | none ↦ (none, (s, m))
    | some bytes ↦
        let result = store.put_value (metadata_key sha256 metadata.name) bytes m in
        (if result.0 then some metadata else none, (s, result.1))
  ]

  unfoldable pub put_written :
      Text → ℕ → M → Option (Option (List ChunkInfo) × S) → Option (Option Metadata × (S × M))
  unfolding put_metadata
  put_written name chunk_size m none = none
  put_written name chunk_size m (some (none, s)) = some (none, (s, m))
  put_written name chunk_size m (some (some infos, s)) =
      some (put_metadata (object_metadata name chunk_size infos) s m)

  unfoldable pub put : Text → List ℕ → ℕ → S → M → Option (Option Metadata × (S × M))
  put name bytes chunk_size s m =
      if length name == 0
      then some (none, (s, m))
      else put_written name chunk_size m (write_chunks chunks chunk_size bytes s)

  -- `Metadata`: `none` is an error, `some none` a missing object.
  unfoldable pub read_metadata : Text → M → Option (Option Metadata)
  read_metadata name m = elim (store.get_value (metadata_key sha256 name) m) [
    | none ↦ none
    | some none ↦ some none
    | some (some bytes) ↦ elim (codec.unmarshal bytes) [
      | none ↦ none
      | some metadata ↦ some (some metadata)
    ]
  ]

  -- `Get`: `none` is an error, `some none` a missing object.
  unfoldable pub get : Text → S → M → Option (Option (List ℕ))
  get name s m = elim (read_metadata name m) [
    | none ↦ none
    | some none ↦ some none
    | some (some metadata) ↦ elim (write_to chunks metadata s) [
      | none ↦ none
      | some out ↦ some (some out)
    ]
  ]

  unfoldable pub delete : Text → M → Bool × M
  delete name m =
      if length name == 0 then (false, m) else store.delete_value (metadata_key sha256 name) m
