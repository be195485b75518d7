-- ===== src/Store/Recovery/Header.antt =====
-- memory.go and wal.go: a truncation of the log that stops in the middle of the new header.
use minidist.Base.{
  ℕ, ◌<◌, ◌≤◌, ◌≡◌, refl, sym, ◌∙◌, inl, inr, true, false, none, some, List, ◌++◌, arith, ltb,
  length, take, length-take, ◌==◌,
}
use mathlib.Core.Path.{subst}
use minidist.Base.Text.{Text}
use minidist.Base.BigEndian.{put_u32, put_u16}
use minidist.Store.Version.{Value}
use minidist.Store.Wal.{
  Wal, append, truncate, header_cut, wal_header, header_incomplete, detect_wal_header, open_wal,
  open_error, size,
}
use minidist.Store.Wal.Records.{encode, Fits}
use minidist.Store.Snapshot.{
  Codec, SnapshotData, RoundTrips, no_fault, loaded, load_snapshot, save_snapshot, saved,
  save_snapshot-saved, save_snapshot-Atomic, Atomic, max_snapshot_size, snapshot_header,
}
use minidist.Store.Memory.{
  Contents, Memory, Entry, Env, wal_error, get, set, force_set, commit, log_entry, after_log,
  maybe_snapshot, save_memory, after_save, not_ready, open_memory,
}
use minidist.Store.Recovery.Durable.{snapshot_of, commit-done}
use minidist.Store.Recovery.Reopen.{set_entry}

open_wal-cut : (n : ℕ) → 0 < n → n < 8 → open_wal (take n wal_header) ≡ open_error header_incomplete
open_wal-cut n some_bytes few =
    let eight : length wal_header ≡ 8 = unfold wal_header put_u32 put_u16 in refl in
    let size : length (take n wal_header) ≡ n = omega (arith, length-take n wal_header, eight) in
    let not_empty : (length (take n wal_header) == 0) ≡ false = ground (arith, size) in
    let short : ltb (length (take n wal_header)) 8 ≡ true = ground (arith, size) in
    unfold open_wal detect_wal_header in rw (not_empty, short, open_wal, detect_wal_header) refl

module _ (entries : Codec Entry) (snapshots : Codec SnapshotData) (env : Env) (n : ℕ)
    (some_bytes : 0 < n) (few : n < 8) (cut : env.truncation ≡ header_cut n) where
  -- `OpenMemory` refuses the files of the store.
  abbrev pub Unreadable : Memory → Type 0
  Unreadable m =
      (left : Wal) × (m.wal ≡ some left)
      × (open_memory entries snapshots m.snapshot_file left.file
          ≡ some (not_ready (wal_error header_incomplete)))

  cut_off-Unreadable :
      (w : Wal) (m : Memory) (payload : List ℕ)
      → env.fault ≡ no_fault
      → RoundTrips snapshots (snapshot_of m.contents) payload
      → length payload ≤ max_snapshot_size
      → Unreadable (save_memory snapshots env.fault env.truncation w m).1
  cut_off-Unreadable w m payload fine trips small =
      let file = some (snapshot_header payload ++ payload) in
      let saves : save_snapshot snapshots no_fault (snapshot_of m.contents) m.snapshot_file
          ≡ (none, file) =
        save_snapshot-saved snapshots no_fault (snapshot_of m.contents) payload m.snapshot_file
          trips.0 (ground arith)
        ∙ (unfold saved in refl) in
      let loads : load_snapshot snapshots file ≡ loaded (snapshot_of m.contents) =
        elim (subst (Atomic snapshots (snapshot_of m.contents) m.snapshot_file) saves (
          save_snapshot-Atomic snapshots no_fault (snapshot_of m.contents) payload m.snapshot_file
            trips)) [ inl l ↦ l | inr (e, u) ↦ absurd (e refl) ] in
      let left : Wal = record w { file = take n wal_header } in
      let run : (save_memory snapshots no_fault (header_cut n) w m).1
          ≡ record m { snapshot_file = file; wal = some left } =
        unfold save_memory after_save truncate in rw saves refl in
      subst (λ f. Unreadable (save_memory snapshots f env.truncation w m).1) (sym fine)
        (subst (λ t. Unreadable (save_memory snapshots no_fault t w m).1) (sym cut)
          (subst Unreadable (sym run) (
            left,
            refl,
            unfold open_memory in rw (loads, open_wal-cut n some_bytes few, open_memory) refl,
          )))

  -- If the truncation after a Set of a new key cuts the log off and only one to seven bytes of the
  -- new header get to it, when the append worked, the log is large enough for a snapshot and the
  -- snapshot is saved, then the Set returns no error, and OpenMemory on the two files fails with
  -- an incomplete header.
  pub set_cuts_header :
      (key : Text) (value : Value) (m : Memory) (w : Wal) (bytes payload : List ℕ)
      → get key m ≡ none
      → m.wal ≡ some w
      → entries.marshal (set_entry key value) ≡ some bytes
      → Fits bytes
      → (append env.disk bytes w).0 ≡ none
      → env.snapshot_busy ≡ false
      → ltb
          (size (record { file = w.file ++ encode w.has_header bytes; has_header = w.has_header }))
          m.snapshot_threshold
        ≡ false
      → env.fault ≡ no_fault
      → RoundTrips snapshots (snapshot_of (force_set key value m.contents)) payload
      → length payload ≤ max_snapshot_size
      → let r = set entries snapshots env key value m in (r.0 ≡ none) × Unreadable r.1
  set_cuts_header key value m w bytes payload new at encoded f done free large fine trips small =
      let entry = set_entry key value in
      let change : Contents → Contents = force_set key value in
      let w' : Wal = record {
        file = w.file ++ encode w.has_header bytes;
        has_header = w.has_header;
      } in
      let m' : Memory = record m { contents = change m.contents; wal = some w' } in
      let logged : set entries snapshots env key value m
          ≡ commit entries snapshots env entry change m =
        unfold set in rw (new, set) refl in
      let no_error : (commit entries snapshots env entry change m).0 ≡ none =
        unfold commit log_entry after_log in rw (at, encoded, done, commit, log_entry) refl in
      let snapshot : (maybe_snapshot snapshots env m').1
          ≡ (save_memory snapshots env.fault env.truncation w' m').1 =
        unfold maybe_snapshot in rw (free, large, maybe_snapshot) refl in
      rw logged (
        no_error,
        subst Unreadable
            (sym (
              commit-done entries snapshots env entry change m w bytes at encoded done f
              ∙ snapshot))
            (cut_off-Unreadable w' m' payload fine trips small),
      )
