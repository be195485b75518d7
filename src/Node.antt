-- ===== src/Node.antt =====
-- internal/node: failure detection, probes, hints, versions and replicated reads and writes, chunk
-- replication, cluster membership, rebalance and drain, and garbage collection.
pub mod Detector
pub mod Hints
pub mod Quorum
pub mod Gc
pub mod Http
pub mod Cluster
pub mod Chunks
pub mod Replicas
pub mod Rebalance
pub mod Drain
pub mod Probe
pub mod Replication
pub mod Counter
mod Witnesses
