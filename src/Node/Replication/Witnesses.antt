-- ===== src/Node/Replication/Witnesses.antt =====
-- replication.go: writes between two nodes whose stores have no log.
use minidist.Base.{true, ◌≡◌, refl, Bool, false, none, some, [], ◌∷◌, if◌then◌else◌}
use minidist.Base.Text.{Text, text_eq}
use minidist.Store.Version.{Value}
use minidist.Store.Snapshot.{Codec, SnapshotData, no_fault}
use minidist.Store.Wal.{healthy, no_truncate_fault}
use minidist.Store.Memory.{Entry, Env, new_memory}
use minidist.Node.Quorum.{Delivery, unacknowledged, put_replica}
use minidist.Node.Replication.{Memories, Routing, read_as, put_replica_at}
use minidist.Node.Replication.Refines.{is_plain, cluster_of, put_replica_at-put_replica}

abbrev a : Text
a = 97 ∷ []

abbrev b : Text
b = 98 ∷ []

abbrev key : Text
key = 107 ∷ []

abbrev value : Value
value = record { bytes = 1 ∷ []; version = record { counter = 3; node_id = a }; deleted = false }

-- Codecs that know one value, and no entry and no snapshot.
abbrev value_codec : Codec Value
value_codec = record { marshal = λ v. some (1 ∷ []); unmarshal = λ body. some value }

abbrev no_entries : Codec Entry
no_entries = record { marshal = λ e. none; unmarshal = λ body. none }

abbrev no_snapshots : Codec SnapshotData
no_snapshots = record { marshal = λ s. none; unmarshal = λ body. none }

abbrev envs : Text → Env
envs = λ r. record {
  disk = healthy;
  fault = no_fault;
  truncation = no_truncate_fault;
  snapshot_busy = false;
}

abbrev memories : Memories
memories = λ r. new_memory

abbrev routing : Routing
routing = record { put_route = λ k. read_as k; get_route = λ k. some k }

abbrev after : Bool × Memories
after =
    put_replica_at routing no_entries no_snapshots value_codec unacknowledged envs a b key value
      memories

plain : is_plain key ≡ true
unfolding text_eq
plain = refl

put_replica_at-put_replica_example :
    (d' : Delivery) × (after.0 ≡ (put_replica d' b value (cluster_of key memories)).0)
    × ((j q : Text)
        → cluster_of j after.1 q ≡ (
            if text_eq key j
            then (put_replica d' b value (cluster_of key memories)).1 q
            else cluster_of j memories q))
put_replica_at-put_replica_example =
    put_replica_at-put_replica no_entries no_snapshots value_codec routing unacknowledged envs a b
      key value (1 ∷ []) memories (refl, refl) (λ k p. refl) plain
