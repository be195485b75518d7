-- ===== src/Store/Recovery.antt =====
-- memory.go: what `OpenMemory` rebuilds from the snapshot and the log.
pub mod Effects
pub mod Replays
pub mod Durable
pub mod Reopen
pub mod Header
