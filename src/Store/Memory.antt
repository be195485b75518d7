-- ===== src/Store/Memory.antt =====
-- memory.go: the in-memory store with its log and its snapshots, under its mutex. `encoding/json` is
-- a parameter.
use minidist.Base.{ℕ, Bool, true, false, Option, none, some, List, [], ltb, if◌then◌else◌}
use minidist.Base.Text.{Text, codes, text_eq}
use minidist.Base.Assoc.{Assoc, lookup, insert, remove, text_eq_inst}
use minidist.Store.Version.{Version, Value, is_newer, is_same}
use minidist.Store.Wal.{
  Wal, Err, Disk, append, TruncateFault, truncate, size, replay, opened, open_error, open_wal,
}
use minidist.Store.Snapshot.{
  SnapshotData, Codec, SnapshotErr, Fault, save_snapshot, loaded, load_error, load_snapshot,
}

abbrev pub default_snapshot_threshold : ℕ
default_snapshot_threshold = 67108864

-- The fields that the log and the snapshots make durable.
pub record Contents : Type 0 where
  pub values : Assoc Text Value
  pub max_version_counter : ℕ

-- The store, with the snapshot file as it is on disk.
pub record Memory : Type 0 where
  pub contents : Contents
  pub wal : Option Wal
  pub snapshot_file : Option (List ℕ)
  pub snapshot_threshold : ℕ

abbrev pub wal_op_set : Text
wal_op_set = codes "set"

abbrev pub wal_op_delete : Text
wal_op_delete = codes "delete"

pub record Entry : Type 0 where
  pub op : Text
  pub key : Text
  pub value : Value
  pub version : Version

abbrev pub zero_version : Version
zero_version = record { counter = 0; node_id = [] }

abbrev pub zero_value : Value
zero_value = record { bytes = []; version = zero_version; deleted = false }

-- What surrounds one call: the disk under the log, the steps of a snapshot and of the truncation of
-- the log, and whether another
-- goroutine holds the snapshot lock.
pub record Env : Type 0 where
  pub disk : Disk
  pub fault : Fault
  pub truncation : TruncateFault
  pub snapshot_busy : Bool

pub data StoreErr : Type 0 where
  entry_error : StoreErr
  wal_error : Err → StoreErr
  snapshot_error : SnapshotErr → StoreErr
  replay_error : Err → StoreErr

abbrev pub new_memory : Memory
new_memory = record {
  contents = record { values = []; max_version_counter = 0 };
  wal = none;
  snapshot_file = none;
  snapshot_threshold = 0;
}

unfoldable pub force_set : Text → Value → Contents → Contents
force_set key value c = record {
  values = insert key value c.values;
  max_version_counter =
      if ltb c.max_version_counter value.version.counter
      then value.version.counter
      else c.max_version_counter;
}

unfoldable pub force_delete : Text → Contents → Contents
force_delete key c = record c { values = remove key c.values }

abbrev pub get : Text → Memory → Option Value
get key m = lookup key m.contents.values

-- The `switch` of `OpenMemory`.
unfoldable pub apply_entry : Entry → Contents → Option Contents
apply_entry entry c =
    if text_eq entry.op wal_op_set
    then some (force_set entry.key entry.value c)
    else if text_eq entry.op wal_op_delete
    then elim (lookup entry.key c.values) [
      | none ↦ some c
      | some current ↦
          if is_same current.version entry.version then some (force_delete entry.key c) else some c
    ]
    else none

unfoldable pub apply_bytes : Codec Entry → List ℕ → Contents → Option Contents
apply_bytes entries bytes c = elim (entries.unmarshal bytes) [
  | none ↦ none
  | some entry ↦ apply_entry entry c
]

-- The entry of a change goes to the log, if there is one.
unfoldable pub log_entry : Codec Entry → Disk → Entry → Option Wal → Option StoreErr × Option Wal
log_entry entries disk entry none = (none, none)
log_entry entries disk entry (some w) = elim (entries.marshal entry) [
  | none ↦ (some entry_error, some w)
  | some bytes ↦
      let (err, w') = append disk bytes w in
      elim err [ none ↦ (none, some w') | some e ↦ (some (wal_error e), some w') ]
]

pub data OpenedMemory : Type 0 where
  ready : Memory → OpenedMemory
  not_ready : StoreErr → OpenedMemory

abbrev wal_failure : Option Err → Option StoreErr
wal_failure none = none
wal_failure (some e) = some (wal_error e)

-- The end of `Memory.saveSnapshot`: the log is cut off when the snapshot is saved.
unfoldable pub after_save :
    TruncateFault → Wal → Memory → Option SnapshotErr → Option (List ℕ) → Option StoreErr × Memory
unfolding truncate
after_save truncation w m (some e) file =
    (some (snapshot_error e), record m { snapshot_file = file })
after_save truncation w m none file =
    let r = truncate truncation w in
    (wal_failure r.0, record m { snapshot_file = file; wal = some r.1 })

module _ (snapshots : Codec SnapshotData) where
  -- `Memory.saveSnapshot` of a store with a log.
  unfoldable pub save_memory : Fault → TruncateFault → Wal → Memory → Option StoreErr × Memory
  unfolding after_save
  save_memory fault truncation w m =
      let snapshot : SnapshotData = record {
        values = m.contents.values;
        max_version_counter = m.contents.max_version_counter;
      } in
      let result = save_snapshot snapshots fault snapshot m.snapshot_file in
      after_save truncation w m result.0 result.1

  unfoldable pub maybe_snapshot : Env → Memory → Option StoreErr × Memory
  maybe_snapshot env m = elim m.wal [
    | none ↦ (none, m)
    | some w ↦
        if env.snapshot_busy
        then (none, m)
        else if ltb (size w) m.snapshot_threshold
        then (none, m)
        else save_memory env.fault env.truncation w m
  ]

unfoldable pub deleted : Option StoreErr × Memory → Bool × (Option StoreErr × Memory)
deleted (none, m) = (true, (none, m))
deleted (some e, m) = (false, (some e, m))

module _ (entries : Codec Entry) (snapshots : Codec SnapshotData) where
  -- A change that is logged, and then a snapshot if the log is large. The error of the snapshot is
  -- only printed.
  unfoldable pub after_log :
      Env → (Contents → Contents) → Memory → Option StoreErr → Option Wal → Option StoreErr × Memory
  after_log env change m (some e) wal = (some e, record m { wal = wal })
  after_log env change m none wal = (
    none,
    (maybe_snapshot snapshots env (record m { wal = wal; contents = change m.contents })).1,
  )

  unfoldable pub commit : Env → Entry → (Contents → Contents) → Memory → Option StoreErr × Memory
  unfolding after_log
  commit env entry change m =
      let result = log_entry entries env.disk entry m.wal in
      after_log env change m result.0 result.1

  unfoldable pub set : Env → Text → Value → Memory → Option StoreErr × Memory
  set env key value m =
      let entry : Entry = record {
        op = wal_op_set;
        key = key;
        value = value;
        version = zero_version;
      } in
      elim (get key m) [
        | none ↦ commit env entry (force_set key value) m
        | some current ↦
            if is_newer value.version current.version
            then commit env entry (force_set key value) m
            else (none, m)
      ]

  -- `DeleteIfMatch`: whether the key was deleted, the error, and the store.
  unfoldable pub delete_if_match : Env → Text → Version → Memory → Bool × (Option StoreErr × Memory)
  delete_if_match env key version m =
      let entry : Entry = record {
        op = wal_op_delete;
        key = key;
        value = zero_value;
        version = version;
      } in
      elim (get key m) [
        | none ↦ (false, (none, m))
        | some current ↦
            if is_same current.version version
            then deleted (commit env entry (force_delete key) m)
            else (false, (none, m))
      ]

  unfoldable pub replay_memory : Option (List ℕ) → SnapshotData → Wal → Option OpenedMemory
  replay_memory snapshot_file snapshot w =
      let base : Contents = record {
        values = snapshot.values;
        max_version_counter = snapshot.max_version_counter;
      } in
      elim (replay (apply_bytes entries) w base) [
        | none ↦ none
        | some r ↦ elim r.error [
          | some e ↦ some (not_ready (replay_error e))
          | none ↦ some (
              ready (record {
                contents = r.state;
                wal = some (record w { file = r.file });
                snapshot_file = snapshot_file;
                snapshot_threshold = default_snapshot_threshold;
              }))
        ]
      ]

  -- `OpenMemory` on the two files; `none` only if the loop of the replay ran out of fuel.
  unfoldable pub open_memory : Option (List ℕ) → List ℕ → Option OpenedMemory
  open_memory snapshot_file wal_file = elim (load_snapshot snapshots snapshot_file) [
    | load_error e ↦ some (not_ready (snapshot_error e))
    | loaded snapshot ↦ elim (open_wal wal_file) [
      | open_error e ↦ some (not_ready (wal_error e))
      | opened w ↦ replay_memory snapshot_file snapshot w
    ]
  ]
