-- ===== src/Node/Drain.antt =====
-- drain.go: copying all that a node holds to the replicas of a future ring, before it leaves.
pub mod Keys
pub mod Pieces
pub mod Drained
mod Witnesses
use minidist.Base.{ℕ, Bool, true, false, Option, none, some, List, [], ◌∷◌, if◌then◌else◌}
use minidist.Base.Text.{Text, text_eq}
use minidist.Base.Assoc.{Assoc, text_eq_inst}
use minidist.Store.Version.{Value}
use minidist.HashRing.{new}
use minidist.Chunk.{ChunkRead, read, read_error, get}
use minidist.Node.Gc.{Stores}
use minidist.Node.Quorum.{Cluster, Delivery, put_replica}
use minidist.Node.Chunks.{ChunkNet, put_chunk_replica}
use minidist.Node.Rebalance.{Values, set_cluster}
use minidist.Node.Replicas.{replicas_for_ring}

-- The copies of one key, until one fails.
unfoldable pub copy_to : (Text → Delivery) → Value → List Text → Cluster → Bool × Cluster
unfolding put_replica
copy_to network value [] c = (true, c)
copy_to network value (replica ∷ rest) c =
    let r = put_replica (network replica) replica value c in
    elim r.0 [ true ↦ copy_to network value rest r.1 | false ↦ (false, r.1) ]

-- A walk of the ring that does not end gives no success.
unfoldable pub copy_key : (Text → Delivery) → Value → Option (List Text) → Cluster → Bool × Cluster
unfolding copy_to
copy_key network value none c = (false, c)
copy_key network value (some replicas) c = copy_to network value replicas c

-- Whether the first loop of `drain` ends without an error, and the values.
unfoldable pub drain_keys :
    (Text → Text → Delivery)
    → (Text → Option (List Text))
    → Assoc Text Value
    → Values
    → Bool × Values
unfolding copy_key
drain_keys networks replicas_for [] values = (true, values)
drain_keys networks replicas_for ((key, value) ∷ rest) values =
    let r = copy_key (networks key) value (replicas_for key) (values key) in
    elim r.0 [
      | true ↦ drain_keys networks replicas_for rest (set_cluster key r.1 values)
      | false ↦ (false, set_cluster key r.1 values)
    ]

module _ (sha256 : List ℕ → List ℕ) (net : ChunkNet) (addr : Text) where
  unfoldable pub copy_chunk_to : Text → List ℕ → List Text → Stores → Bool × Stores
  unfolding put_chunk_replica
  copy_chunk_to id bytes [] stores = (true, stores)
  copy_chunk_to id bytes (replica ∷ rest) stores =
      let r = put_chunk_replica sha256 net addr replica id bytes stores in
      elim r.0 [ true ↦ copy_chunk_to id bytes rest r.1 | false ↦ (false, r.1) ]

  unfoldable pub drain_read : Text → ChunkRead → Option (List Text) → Stores → Bool × Stores
  unfolding copy_chunk_to
  drain_read id (read bytes) none stores = (false, stores)
  drain_read id (read bytes) (some replicas) stores = copy_chunk_to id bytes replicas stores
  drain_read id (read_error e) replicas stores = (false, stores)

  unfoldable pub drain_ids : (Text → Option (List Text)) → List Text → Stores → Bool × Stores
  unfolding drain_read
  drain_ids replicas_for [] stores = (true, stores)
  drain_ids replicas_for (id ∷ rest) stores =
      let r = drain_read id (get sha256 id (stores addr)) (replicas_for id) stores in
      elim r.0 [ true ↦ drain_ids replicas_for rest r.1 | false ↦ (false, r.1) ]

  -- The second half of `drain`; `none` is a failed listing of the chunks.
  unfoldable pub drain_chunks :
      (Text → Option (List Text)) → Option (List Text) → Stores → Bool × Stores
  unfolding drain_ids
  drain_chunks replicas_for none stores = (false, stores)
  drain_chunks replicas_for (some ids) stores = drain_ids replicas_for ids stores

  -- `drain` by the node `addr`: whether it returns without an error, and the values and chunks. It is for `replicas` copies on the ring of the future members.
  unfoldable pub drain :
      (Text → Text → Delivery)
      → List Text
      → ℕ
      → ℕ
      → Assoc Text Value
      → Option (List Text)
      → Values
      → Stores
      → Bool × (Values × Stores)
  unfolding drain_keys drain_chunks
  drain networks future_members virtual_nodes replicas snapshot ids values stores =
      let replicas_for = replicas_for_ring (new future_members virtual_nodes) replicas in
      let k = drain_keys networks replicas_for snapshot values in
      let c = drain_chunks replicas_for ids stores in
      if k.0 then (c.0, (k.1, c.1)) else (false, (k.1, stores))
