-- ===== src/Node/Chunks.antt =====
-- node/chunk.go: chunks on the replicas that the ring gives for their id, passed as a list. `Stores`
-- holds the chunk store of each node. The network is a parameter. The requests to different replicas
-- touch different stores and run in the order of the list.
pub mod Replica
pub mod Reads
pub mod Repair
pub mod Objects
mod Witnesses
use minidist.Base.{
  ℕ, zero, suc, ◌+◌, Bool, true, false, not, Option, none, some, List, [], ◌∷◌, ltb, leb, ◌==◌,
  length, if◌then◌else◌,
}
use minidist.Base.Text.{Text, text_eq}
use minidist.Base.Assoc.{text_eq_inst}
use minidist.Chunk.{
  Files, ChunkErr, invalid_id_length, invalid_id, chunk_not_found, chunk_checksum_mismatch,
  chunk_io_error, ChunkRead, read, read_error, chunk_id, put, get,
}
use minidist.Node.Gc.{Stores}
use minidist.Node.Http.{
  method_get, method_put, status_ok, status_no_content, status_bad_request, status_not_found,
  status_method_not_allowed, status_internal_server_error,
}
use minidist.Node.Quorum.{Delivery, acknowledged, unacknowledged, lost}

-- What surrounds one operation: what becomes of each upload, whether the file system of a node works,
-- its clock, and what arrives of a download: the bytes may be others than those that were sent.
pub record ChunkNet : Type 0 where
  pub uploads : Text → Delivery
  pub works : Text → Bool
  pub clock : Text → ℕ
  pub arrives : Text → List ℕ → Option (List ℕ)

abbrev pub set_files : Text → Files → Stores → Stores
set_files a files stores = λ b. if text_eq a b then files else stores b

-- The status of a failed `Get`.
abbrev pub read_status : ChunkErr → ℕ
read_status (invalid_id_length n) = status_internal_server_error
read_status invalid_id = status_internal_server_error
read_status chunk_not_found = status_not_found
read_status (chunk_checksum_mismatch id) = status_internal_server_error
read_status chunk_io_error = status_internal_server_error

abbrev pub answer_read : ChunkRead → ℕ × List ℕ
answer_read (read bytes) = (status_ok, bytes)
answer_read (read_error e) = (read_status e, [])

-- What `putChunkReplica` and the handler make of the id that `Put` returns.
abbrev pub stored_as : Text → Option Text → Bool
stored_as id none = false
stored_as id (some stored) = text_eq stored id

abbrev pub bytes_of : ChunkRead → Option (List ℕ)
bytes_of (read bytes) = some bytes
bytes_of (read_error e) = none

module _ (sha256 : List ℕ → List ℕ) where
  -- `handleInternalChunkPut`; `none` is a body that cannot be read.
  unfoldable pub handle_internal_chunk_put : ℕ → Bool → Text → Option (List ℕ) → Files → ℕ × Files
  handle_internal_chunk_put now works id none files = (status_bad_request, files)
  handle_internal_chunk_put now works id (some bytes) files =
      if not (text_eq (chunk_id sha256 bytes) id)
      then (status_bad_request, files)
      else let r = put sha256 now works bytes files in
        (if stored_as id r.0 then status_no_content else status_internal_server_error, r.1)

  -- `handleInternalChunkGet`: the status and the body.
  unfoldable pub handle_internal_chunk_get : Text → Files → ℕ × List ℕ
  handle_internal_chunk_get id files = answer_read (get sha256 id files)

  -- `handleInternalChunk`; the id is the path behind the prefix.
  unfoldable pub handle_internal_chunk :
      ℕ → Bool → Text → Text → Option (List ℕ) → Files → (ℕ × List ℕ) × Files
  unfolding handle_internal_chunk_put handle_internal_chunk_get
  handle_internal_chunk now works method id body files =
      if length id == 0
      then ((status_bad_request, []), files)
      else if text_eq method method_put
      then (let r = handle_internal_chunk_put now works id body files in ((r.0, []), r.1))
      else if text_eq method method_get
      then (handle_internal_chunk_get id files, files)
      else ((status_method_not_allowed, []), files)

  -- An upload to another node: whether it is acknowledged, and the node's files.
  unfoldable pub upload : Delivery → ℕ → Bool → Text → List ℕ → Files → Bool × Files
  unfolding handle_internal_chunk_put
  upload acknowledged now works id bytes files =
      let r = handle_internal_chunk_put now works id (some bytes) files in (ltb r.0 300, r.1)
  upload unacknowledged now works id bytes files =
      (false, (handle_internal_chunk_put now works id (some bytes) files).1)
  upload lost now works id bytes files = (false, files)

  -- `putChunkReplica` by the node `addr`: whether it returns without an error, and the stores.
  unfoldable pub put_chunk_replica : ChunkNet → Text → Text → Text → List ℕ → Stores → Bool × Stores
  unfolding upload
  put_chunk_replica net addr replica id bytes stores =
      if text_eq replica addr
      then (let r = put sha256 (net.clock replica) (net.works replica) bytes (stores replica) in
          (stored_as id r.0, set_files replica r.1 stores))
      else let r =
          upload (net.uploads replica) (net.clock replica) (net.works replica) id bytes
            (stores replica) in
        (r.0, set_files replica r.1 stores)

  -- The loops of `PutChunk`: the number of successes, and the stores.
  unfoldable pub put_all : ChunkNet → Text → Text → List ℕ → List Text → ℕ → Stores → ℕ × Stores
  unfolding put_chunk_replica
  put_all net addr id bytes [] success stores = (success, stores)
  put_all net addr id bytes (replica ∷ rest) success stores =
      let r = put_chunk_replica net addr replica id bytes stores in
      put_all net addr id bytes rest (if r.0 then success + 1 else success) r.1

  -- `PutChunk`: `none` is an error.
  unfoldable pub put_chunk :
      ChunkNet → Text → ℕ → List Text → List ℕ → Stores → Option Text × Stores
  unfolding put_all
  put_chunk net addr write_quorum replicas bytes stores =
      if length replicas == 0
      then (none, stores)
      else let r = put_all net addr (chunk_id sha256 bytes) bytes replicas 0 stores in
        (if ltb r.0 write_quorum then none else some (chunk_id sha256 bytes), r.1)

  -- What a download makes of the answer and of the bytes that arrive.
  unfoldable pub download : Text → ℕ × List ℕ → Option (List ℕ) → Option (List ℕ)
  download id answer none = none
  download id answer (some bytes) =
      if not (ltb answer.0 300)
      then none
      else if not (text_eq (chunk_id sha256 bytes) id)
      then none
      else some bytes

  -- `getChunkReplica` by the node `addr`; `none` is an error.
  unfoldable pub get_chunk_replica : ChunkNet → Text → Text → Text → Stores → Option (List ℕ)
  unfolding download handle_internal_chunk_get
  get_chunk_replica net addr replica id stores =
      if text_eq replica addr
      then bytes_of (get sha256 id (stores replica))
      else let answer = handle_internal_chunk_get id (stores replica) in
        download id answer (net.arrives replica answer.1)

  -- `GetChunk`: the bytes, and the replica that they come from. It starts `repairChunk`.
  unfoldable pub get_chunk : ChunkNet → Text → List Text → Text → Stores → Option (List ℕ × Text)
  unfolding get_chunk_replica
  get_chunk net addr [] id stores = none
  get_chunk net addr (replica ∷ rest) id stores =
      elim (get_chunk_replica net addr replica id stores) [
        | none ↦ get_chunk net addr rest id stores
        | some bytes ↦
            let more = get_chunk net addr rest id stores in
            if text_eq (chunk_id sha256 bytes) id then some (bytes, replica) else more
      ]

  -- One round of `repairChunk`.
  unfoldable pub repair_replica : ChunkNet → Text → Text → List ℕ → Text → Text → Stores → Stores
  unfolding get_chunk_replica put_chunk_replica
  repair_replica net addr id bytes source replica stores =
      if text_eq replica source
      then stores
      else elim (get_chunk_replica net addr replica id stores) [
        | some found ↦ stores
        | none ↦ (put_chunk_replica net addr replica id bytes stores).1
      ]

  unfoldable pub repair_chunk : ChunkNet → Text → Text → List ℕ → Text → List Text → Stores → Stores
  unfolding repair_replica
  repair_chunk net addr id bytes source [] stores = stores
  repair_chunk net addr id bytes source (replica ∷ rest) stores =
      repair_chunk net addr id bytes source rest
        (repair_replica net addr id bytes source replica stores)
