-- ===== src/Store.antt =====
-- internal/store: versions (memory.go), the write-ahead log (wal.go), snapshots (snapshot.go) and
-- the in-memory store that they make durable (memory.go).
pub mod Version
pub mod Wal
pub mod Snapshot
pub mod Memory
pub mod Convergence
pub mod Stored
pub mod Recovery
mod Witnesses
