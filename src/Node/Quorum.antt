-- ===== src/Node/Quorum.antt =====
-- replication.go and version.go: replicated writes and reads of one key. `Cluster` holds the key's
-- value at each replica, where `Set` keeps the newest. The network is a parameter: what becomes of
-- each write, and which replicas answer a read. The answers are taken in the order of the list.
pub mod Overlap
pub mod Reads
pub mod Versions
use minidist.Base.{
  ℕ, zero, suc, ◌+◌, ◌≡◌, max, Bool, true, false, ◌&&◌, ◌||◌, Option, none, some, List, [], ◌∷◌,
  ◌++◌, ltb, leb, length, if◌then◌else◌, ◌==◌,
}
use minidist.Base.Text.{Text, text_eq}
use minidist.Base.Words.{u64}
use minidist.Store.Version.{Version, Value, is_newer}
use minidist.Store.Convergence.{newest}
use minidist.Node.Hints.{HintStore, add_hint, newer}

abbrev pub Cluster : Type 0
Cluster = Text → Option Value

-- What becomes of one `putReplica`: stored and acknowledged, stored but reported as failed, or lost.
pub data Delivery : Type 0 where
  acknowledged : Delivery
  unacknowledged : Delivery
  lost : Delivery

abbrev pub store_at : Text → Value → Cluster → Cluster
store_at replica value c = λ r. if text_eq replica r then some (newest value (c r)) else c r

-- Whether `putReplica` returns without an error, and the replicas after it.
unfoldable pub put_replica : Delivery → Text → Value → Cluster → Bool × Cluster
put_replica acknowledged replica value c = (true, store_at replica value c)
put_replica unacknowledged replica value c = (false, store_at replica value c)
put_replica lost replica value c = (false, c)

pub record Written : Type 0 where
  pub success : ℕ
  pub cluster : Cluster
  pub hints : HintStore

-- One result of the loop of `replicateValue`.
unfoldable pub write_result : Text → Text → Value → Bool × Cluster → Written → Written
write_result replica key value (true, c) w = record w { success = w.success + 1; cluster = c }
write_result replica key value (false, c) w = record w {
  cluster = c;
  hints = add_hint replica key value w.hints;
}

unfoldable pub write_all : (Text → Delivery) → Text → Value → List Text → Written → Written
unfolding put_replica write_result
write_all network key value [] w = w
write_all network key value (replica ∷ rest) w =
    write_all network key value rest
      (write_result replica key value (put_replica (network replica) replica value w.cluster) w)

-- `replicateValue` to the replicas that the ring gives.
unfoldable pub replicate_value :
    (Text → Delivery) → ℕ → List Text → Text → Value → Cluster → HintStore → Bool × Written
unfolding write_all
replicate_value network write_quorum replicas key value c h =
    let w = write_all network key value replicas (record { success = 0; cluster = c; hints = h }) in
    (leb write_quorum w.success, w)

-- What `Get` has gathered: the latest value, the number of answers and the answers.
pub record Gathered : Type 0 where
  pub latest : Option Value
  pub success : ℕ
  pub successful : List (Text × Option Value)

unfoldable pub read_result : Text → Option Value → Gathered → Gathered
read_result replica none g = record g {
  success = g.success + 1;
  successful = g.successful ++ (replica, none) ∷ [];
}
read_result replica (some value) g = record {
  latest = some (newest value g.latest);
  success = g.success + 1;
  successful = g.successful ++ (replica, some value) ∷ [];
}

unfoldable pub gather : (Text → Bool) → Cluster → List Text → Gathered → Gathered
unfolding read_result
gather answers c [] g = g
gather answers c (replica ∷ rest) g =
    gather answers c rest (if answers replica then read_result replica (c replica) g else g)

unfoldable pub repairs : (Text → Delivery) → Value → List (Text × Option Value) → Cluster → Cluster
unfolding put_replica
repairs network latest [] c = c
repairs network latest ((replica, none) ∷ rest) c =
    repairs network latest rest (put_replica (network replica) replica latest c).1
repairs network latest ((replica, some value) ∷ rest) c =
    repairs network latest rest
      (if newer latest value then (put_replica (network replica) replica latest c).1 else c)

pub data GetResult : Type 0 where
  no_replicas : GetResult
  read_quorum_not_reached : GetResult
  not_found : GetResult
  found : List ℕ → GetResult

-- The value that `Get` answers with, and the replicas after the repair.
unfoldable pub get_latest :
    (Text → Delivery) → Option Value → List (Text × Option Value) → Cluster → GetResult × Cluster
unfolding repairs
get_latest network none successful c = (not_found, c)
get_latest network (some latest) successful c =
    (if latest.deleted then not_found else found latest.bytes, repairs network latest successful c)

abbrev pub gathered : (Text → Bool) → Cluster → List Text → Gathered
gathered answers c replicas =
    gather answers c replicas (record { latest = none; success = 0; successful = [] })

unfoldable pub get :
    (Text → Bool) → (Text → Delivery) → ℕ → List Text → Cluster → GetResult × Cluster
unfolding get_latest gather
get answers network read_quorum replicas c =
    if length replicas == 0
    then (no_replicas, c)
    else let g = gathered answers c replicas in
      if ltb g.success read_quorum
      then (read_quorum_not_reached, c)
      else get_latest network g.latest g.successful c

-- One result of `nextVersion`: the number of answers, and the largest counter.
unfoldable pub version_result : Bool → Option Value → ℕ × ℕ → ℕ × ℕ
version_result false o g = g
version_result true none g = (g.0 + 1, g.1)
version_result true (some value) g =
    (g.0 + 1, if ltb g.1 value.version.counter then value.version.counter else g.1)

unfoldable pub read_counters : (Text → Bool) → Cluster → List Text → ℕ × ℕ → ℕ × ℕ
unfolding version_result
read_counters answers c [] g = g
read_counters answers c (replica ∷ rest) g =
    read_counters answers c rest (version_result (answers replica) (c replica) g)

-- `nextVersion` without a concurrent call: the compare-and-swap succeeds. The counter of the node is
-- the new version's.
unfoldable pub next_version : (Text → Bool) → ℕ → List Text → Cluster → Text → ℕ → Option Version
unfolding read_counters
next_version answers read_quorum replicas c addr current =
    if ltb (length replicas) read_quorum
    then none
    else let g = read_counters answers c replicas (0, 0) in
      if ltb g.0 read_quorum
      then none
      else some (record {
        counter = u64 ((if ltb g.1 current then current else g.1) + 1);
        node_id = addr;
      })

pub data PutResult : Type 0 where
  version_failed : PutResult
  write_quorum_not_reached : PutResult
  done : PutResult

-- The end of `Put` and `Delete`: the result, the version counter of the node, and the replicas.
unfoldable pub write_version :
    (Text → Delivery)
    → ℕ
    → List Text
    → Text
    → List ℕ
    → Bool
    → ℕ
    → Cluster
    → HintStore
    → Option Version
    → PutResult × (ℕ × Written)
unfolding replicate_value
write_version network write_quorum replicas key bytes deleted current c h none =
    (version_failed, (current, record { success = 0; cluster = c; hints = h }))
write_version network write_quorum replicas key bytes deleted current c h (some version) =
    let value : Value = record { bytes = bytes; version = version; deleted = deleted } in
    let result = replicate_value network write_quorum replicas key value c h in
    (if result.0 then done else write_quorum_not_reached, (version.counter, result.1))

unfoldable pub put :
    (Text → Bool)
    → (Text → Delivery)
    → ℕ
    → ℕ
    → List Text
    → Text
    → Text
    → List ℕ
    → ℕ
    → Cluster
    → HintStore
    → PutResult × (ℕ × Written)
unfolding next_version write_version
put answers network read_quorum write_quorum replicas addr key bytes current c h =
    write_version network write_quorum replicas key bytes false current c h
      (next_version answers read_quorum replicas c addr current)

-- A tombstone.
unfoldable pub delete :
    (Text → Bool)
    → (Text → Delivery)
    → ℕ
    → ℕ
    → List Text
    → Text
    → Text
    → ℕ
    → Cluster
    → HintStore
    → PutResult × (ℕ × Written)
unfolding next_version write_version
delete answers network read_quorum write_quorum replicas addr key current c h =
    write_version network write_quorum replicas key [] true current c h
      (next_version answers read_quorum replicas c addr current)
