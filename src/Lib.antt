-- ===== src/Lib.antt =====
-- minidist: a Dynamo-style key-value store with an object store on top, and the first part of a
-- Raft module. Each Go method that changes its receiver under the mutex is a function that returns
-- the new record; an `error` is an Option or a result type; a loop that the code does not bound
-- runs on fuel.
--
-- Base and Base/: names of the libraries passed on, and what the parts share: texts as code points
-- with Go's order (Text), maps as association lists (Assoc), sets as lists (Sets), sort.Search and
-- sort.Slice (Sort), sort.Strings (TextSort), encoding/binary (BigEndian), hash/crc32 computed bit
-- by bit (Crc), fmt's %d (Decimal) and the wrap of uint32 and uint64 (Words).
--
-- Raft (internal/raft/raft.go, vote.go, election.go): the node, its log, votes and elections.
-- Ballot and Log are about single operations. System interleaves the operations with the applier,
-- whose loop holds the lock only while it takes the next entry. Safety is about votes and
-- Consistent and Applied about the order of the applied entries. The fuel of apply_committed is
-- the number of waiting entries.
--
-- HashRing (internal/hashring/ring.go): the ring. Members is about the listing of the members.
-- Points, Valid and Churn are about Add and Remove, Successor and Placement about Get, and Walk,
-- Preference, Replicas and Stall about the loop of GetN, whose fuel is the number of points: after
-- one turn every owner has been seen.
--
-- Store (internal/store): Version (memory.go) has the order of the versions. Wal (wal.go) has the
-- log, with Wal/Records, Wal/Replay and Wal/Torn; each round of the replay loop reads at least
-- four bytes, so the length of the file is fuel enough. A disk fails where the caller says: in
-- either write, or in the sync. Snapshot (snapshot.go) has the snapshot file, whose failures are
-- those before the rename and those after it, and the truncation of the log fails where the caller
-- says. Memory (memory.go) has the store itself; encoding/json is a parameter, a Codec, and a
-- theorem that needs it to read back a value says so. Recovery relates the calls to OpenMemory.
-- Stored says what Set makes of the values when the log may fail. Convergence is about the order
-- of writes.
--
-- Node (internal/node): Detector (membership.go, gossip.go) has the failure detector, with
-- Detector/Merge, Detector/Again and Detector/Latest about gossip and Detector/Probes about the
-- node itself and its probes; times are numbers. Hints (hint.go) has the hinted handoff. Quorum
-- (replication.go, version.go) has Put, Get, Delete and nextVersion for one key: a Cluster is the
-- value at each replica, where a write is what Store's Set does to one key, the network is a
-- parameter, the answers come in the order of the list of replicas, and no other call runs between
-- the answers. The replicas are those that HashRing's GetN gives, passed as a list. The compare-
-- and-swap of nextVersion succeeds at once there; Counter has its loop with any number of calls at
-- once, as a list of steps. Gc (gc.go) has a round of garbage collection over the members' stores,
-- with Gc/Marks about the marks and Gc/Kept about the round; the network is a parameter there too.
--
-- Node/Cluster (cluster_membership.go, and the handlers of syncs and of gossip in handler.go) has
-- the members that a node believes in, and how a coordinator changes them on all nodes. Requests,
-- Agreement and Reached are about one node under any sequence of requests and probes, Syncs,
-- Changes, Outcome, Members and Unanswered about a change of the whole cluster. For each request
-- the caller says whether it is lost, or acknowledged, or takes effect without an answer.
--
-- Node/Chunks (chunk.go) has the chunks on the replicas of their id: a Stores is the chunk store
-- of each node, and a ChunkNet says what becomes of the requests. Reads is about PutChunk and
-- GetChunk, Repair about repairChunk, and Objects fills the object store's interface ChunkStore
-- with them.
--
-- Node/Rebalance (rebalance.go) and Node/Drain (drain.go) copy what a node holds to the replicas
-- that the ring gives (Node/Replicas). A Values is the cluster of each key. What other calls do to
-- a key between its copies and its deletion is a parameter of the round of the key.
--
-- Node/Probe (probe.go, gossip.go, and the ping handlers of handler.go) has the choice of random
-- members, and direct and indirect probes; the shuffle is a parameter. Node/Replication
-- (replication.go and the handlers of /internal/kv/) has putReplica and getReplica over the stores
-- of Store/Memory, and Refines relates them to the outcomes that Quorum takes for granted. What
-- net/url and net/http make of a key in a URL is a parameter, a Routing. A GetN that does not end
-- gives no replicas, and a drain that needs them does not succeed. Node/Http has the methods and
-- the statuses of net/http.
--
-- Chunk (internal/chunk/store.go): the content-addressed chunk store as files by name, with
-- Content about Put and Get, Sweep about the garbage collector's local step and Ids about the
-- listing. SHA-256 is a parameter.
--
-- Object (internal/object): objects over the interfaces ChunkStore and MetadataStore, which are
-- records of operations on their own state. RoundTrip and Stored follow an object through Put and
-- Get. Each round of the writing loop takes at least one byte, so the length of the content is
-- fuel enough. An output that WriteTo has partly written before an error is not kept.
--
-- Not modelled: gRPC, net/http beyond methods, statuses and what becomes of a request, JSON text,
-- logging, timers and goroutine scheduling except where the parts above say so, the handlers of
-- client and debug requests, which turn the results of the parts into statuses, and cmd/node.
pub mod Base
pub mod Chunk
pub mod HashRing
pub mod Node
pub mod Object
pub mod Raft
pub mod Store
