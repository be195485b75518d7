-- ===== src/Node/Rebalance.antt =====
-- rebalance.go: copying what a node holds to the replicas that its ring gives, and dropping what it is no
-- replica of. `Values` holds the value of each key at each node, with `Set` and `DeleteIfMatch` on one
-- key; the chunks are in `Stores`. The network is a parameter, and so is what other calls do to a key
-- between the copies of its value and the deletion.
pub mod Copies
pub mod Safe
pub mod Covered
pub mod Empty
mod Witnesses
pub mod Spread
use minidist.Base.{
  ℕ, zero, suc, ◌+◌, Bool, true, false, not, Option, none, some, List, [], ◌∷◌, length,
  if◌then◌else◌,
}
use minidist.Base.Text.{Text, text_eq}
use minidist.Base.Assoc.{Assoc, text_eq_inst}
use minidist.Base.Sets.{contains}
use minidist.Store.Version.{Version, Value, is_same}
use minidist.Chunk.{ChunkRead, read, read_error, get}
use minidist.Node.Gc.{Stores}
use minidist.Node.Hints.{HintStore, add_hint}
use minidist.Node.Quorum.{Cluster, Delivery, put_replica}
use minidist.Node.Chunks.{ChunkNet, put_chunk_replica}

pub record RebalanceResult : Type 0 where
  pub scanned : ℕ
  pub copied : ℕ
  pub failed : ℕ
  pub hinted : ℕ
  pub cleaned : ℕ
  pub chunk_scanned : ℕ
  pub chunk_copied : ℕ
  pub chunk_failed : ℕ

abbrev pub Values : Type 0
Values = Text → Cluster

abbrev pub set_cluster : Text → Cluster → Values → Values
set_cluster key c values = λ k. if text_eq key k then c else values k

-- `DeleteIfMatch` of one key at a node; `works` tells whether the entry gets to the log. `none` is an
-- error.
unfoldable pub delete_at : Bool → Text → Version → Cluster → Option Bool × Cluster
delete_at works addr version c = elim (c addr) [
  | none ↦ (some false, c)
  | some current ↦
      if not (is_same current.version version)
      then (some false, c)
      else if works
      then (some true, λ r. if text_eq addr r then none else c r)
      else (none, c)
]

-- The copies of one key.
pub record Copying : Type 0 where
  pub all_copied : Bool
  pub cluster : Cluster
  pub hints : HintStore
  pub result : RebalanceResult

unfoldable pub copy_result : Text → Text → Value → Bool × Cluster → Copying → Copying
copy_result replica key value (true, c) s =
    let r = s.result in record s { cluster = c; result = record r { copied = r.copied + 1 } }
copy_result replica key value (false, c) s =
    let r = s.result in
    record {
      all_copied = false;
      cluster = c;
      hints = add_hint replica key value s.hints;
      result = record r { failed = r.failed + 1; hinted = r.hinted + 1 };
    }

unfoldable pub copy_all : (Text → Delivery) → Text → Text → Value → List Text → Copying → Copying
unfolding copy_result put_replica
copy_all network addr key value [] s = s
copy_all network addr key value (replica ∷ rest) s = copy_all network addr key value rest (
    if text_eq replica addr
    then s
    else copy_result replica key value (put_replica (network replica) replica value s.cluster) s)

-- What surrounds the round of a key: what becomes of each copy, what other calls do before the
-- deletion, and whether the deletion gets to the log.
pub record Round : Type 0 where
  pub copies : Text → Delivery
  pub writes : Cluster → Cluster
  pub works : Bool

unfoldable pub count_delete : Option Bool → RebalanceResult → RebalanceResult
count_delete none r = record r { failed = r.failed + 1 }
count_delete (some false) r = r
count_delete (some true) r = record r { cleaned = r.cleaned + 1 }

-- The round of a key: the replicas' values, the hints and the counts after it.
unfoldable pub rebalance_key :
    Round
    → Text
    → List Text
    → Text
    → Value
    → Cluster
    → HintStore
    → RebalanceResult
    → Cluster × (HintStore × RebalanceResult)
unfolding copy_all delete_at count_delete
rebalance_key round addr replicas key value c hints result =
    let s =
      copy_all round.copies addr key value replicas
        (record { all_copied = true; cluster = c; hints = hints; result = result }) in
    let later = round.writes s.cluster in
    if contains replicas addr
    then (later, (s.hints, s.result))
    else if not s.all_copied
    then (later, (s.hints, s.result))
    else let d = delete_at round.works addr value.version later in
      (d.1, (s.hints, count_delete d.0 s.result))

-- The loop of `rebalance` over the snapshot of the store.
unfoldable pub rebalance_keys :
    (Text → Round)
    → Text
    → (Text → List Text)
    → Assoc Text Value
    → Values
    → HintStore
    → RebalanceResult
    → Values × (HintStore × RebalanceResult)
unfolding rebalance_key
rebalance_keys rounds addr replicas_for [] values hints result = (values, (hints, result))
rebalance_keys rounds addr replicas_for ((key, value) ∷ rest) values hints result =
    let r =
      rebalance_key (rounds key) addr (replicas_for key) key value (values key) hints result in
    rebalance_keys rounds addr replicas_for rest (set_cluster key r.0 values) r.1.0 r.1.1

-- The number of successful copies and of failures.
abbrev pub Tally : Type 0
Tally = ℕ × ℕ

module _ (sha256 : List ℕ → List ℕ) (net : ChunkNet) (addr : Text) where
  unfoldable pub copy_chunk : Text → List ℕ → List Text → Tally → Stores → Tally × Stores
  unfolding put_chunk_replica
  copy_chunk id bytes [] n stores = (n, stores)
  copy_chunk id bytes (replica ∷ rest) n stores =
      let r = put_chunk_replica sha256 net addr replica id bytes stores in
      let sent = copy_chunk id bytes rest (if r.0 then (n.0 + 1, n.1) else (n.0, n.1 + 1)) r.1 in
      let own = copy_chunk id bytes rest n stores in if text_eq replica addr then own else sent

  -- One round of `rebalanceChunks`.
  unfoldable pub copy_read : Text → ChunkRead → List Text → Tally → Stores → Tally × Stores
  unfolding copy_chunk
  copy_read id (read bytes) replicas n stores = copy_chunk id bytes replicas n stores
  copy_read id (read_error e) replicas n stores = ((n.0, n.1 + 1), stores)

  -- The loop of `rebalanceChunks` over the listed ids.
  unfoldable pub rebalance_ids : (Text → List Text) → List Text → Tally → Stores → Tally × Stores
  unfolding copy_read
  rebalance_ids replicas_for [] n stores = (n, stores)
  rebalance_ids replicas_for (id ∷ rest) n stores =
      let r = copy_read id (get sha256 id (stores addr)) (replicas_for id) n stores in
      rebalance_ids replicas_for rest r.0 r.1

  -- `rebalanceChunks`: scanned, copied and failed, and the stores; `none` is a failed listing.
  unfoldable pub rebalance_chunks :
      (Text → List Text) → Option (List Text) → Stores → (ℕ × Tally) × Stores
  unfolding rebalance_ids
  rebalance_chunks replicas_for none stores = ((0, (0, 1)), stores)
  rebalance_chunks replicas_for (some ids) stores =
      let r = rebalance_ids replicas_for ids (0, 0) stores in ((length ids, r.0), r.1)

  -- `rebalance`: the values, the hints, the stores and the result.
  unfoldable pub rebalance :
      (Text → Round)
      → (Text → List Text)
      → Assoc Text Value
      → Option (List Text)
      → Values
      → HintStore
      → Stores
      → (Values × HintStore) × (Stores × RebalanceResult)
  unfolding rebalance_keys rebalance_chunks
  rebalance rounds replicas_for snapshot ids values hints stores =
      let k = rebalance_keys rounds addr replicas_for snapshot values hints (record {
        scanned = length snapshot;
        copied = 0;
        failed = 0;
        hinted = 0;
        cleaned = 0;
        chunk_scanned = 0;
        chunk_copied = 0;
        chunk_failed = 0;
      }) in
      let c = rebalance_chunks replicas_for ids stores in
      let r = k.1.1 in
      (
        (k.0, k.1.0),
        (c.1, record r { chunk_scanned = c.0.0; chunk_copied = c.0.1.0; chunk_failed = c.0.1.1 }),
      )
