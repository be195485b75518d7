-- ===== src/Store/Recovery/Reopen.antt =====
-- memory.go: `Set`, `DeleteIfMatch` and `SaveSnapshot` against `OpenMemory`.
use minidist.Base.{
  ℕ, ◌≡◌, refl, sym, ap, ◌∙◌, inl, inr, ◌⊎◌, true, false, Option, none, some, List, ◌++◌, arith,
  length-append, Bool-cases, Option-cases,
}
use minidist.Base.Text.{Text, text_eq}
use minidist.Base.Assoc.{text_eq_inst}
use minidist.Base.BigEndian.{put_u32, put_u16, get_u32, get_u16}
use mathlib.Core.Path.{subst}
use mathlib.Core.Option.{some-injective}
use minidist.Store.Version.{Version, Value, is_same}
use minidist.Store.Wal.{Wal, wal_header, open_wal, detect_wal_header, validate_wal_header, opened}
use minidist.Store.Wal.Records.{encode_all, Fits}
use minidist.Store.Wal.Replay.{replay-encode_all}
use minidist.Store.Memory.{
  Memory, Entry, Env, StoreErr, wal_op_set, wal_op_delete, zero_version, zero_value, force_set,
  force_delete, apply_entry, apply_bytes, commit, set, get, deleted, delete_if_match, ready,
  replay_memory, open_memory, default_snapshot_threshold,
}
use minidist.Store.Snapshot.{Codec, SnapshotData, RoundTrips}
use minidist.Store.Recovery.Effects.{Same}
use minidist.Store.Recovery.Durable.{
  Durable, LeavesHeader, snapshot_of, contents_of, commit-Durable,
}

abbrev pub set_entry : Text → Value → Entry
set_entry key value = record { op = wal_op_set; key = key; value = value; version = zero_version }

abbrev pub delete_entry : Text → Version → Entry
delete_entry key version = record {
  op = wal_op_delete;
  key = key;
  value = zero_value;
  version = version;
}

store-deleted : (result : Option StoreErr × Memory) → (deleted result).1.1 ≡ result.1
unfolding deleted
store-deleted (none, m) = refl
store-deleted (some e, m) = refl

error-deleted : (result : Option StoreErr × Memory) → (deleted result).1.0 ≡ result.0
unfolding deleted
error-deleted (none, m) = refl
error-deleted (some e, m) = refl

module _ (entries : Codec Entry) (snapshots : Codec SnapshotData) where
  pub set-cases :
      (env : Env) (key : Text) (value : Value) (m : Memory)
      → (set entries snapshots env key value m ≡ (none, m))
        ⊎ (set entries snapshots env key value m
            ≡ commit entries snapshots env (set_entry key value) (force_set key value) m)
  set-cases env key value m = unfold set in ground arith

  -- A Set that returns no error leaves a durable store durable, whatever happens in the snapshot
  -- that may follow and in the truncation of the log, except for a truncation that cuts the log
  -- off without writing its whole new header, if the codec reads back the entry and the new
  -- contents and the entry fits a record.
  pub set-Durable :
      (env : Env) (key : Text) (value : Value) (m : Memory) (bytes payload : List ℕ)
      → LeavesHeader env.truncation
      → Durable entries snapshots m
      → RoundTrips entries (set_entry key value) bytes
      → Fits bytes
      → RoundTrips snapshots (snapshot_of (force_set key value m.contents)) payload
      → (set entries snapshots env key value m).0 ≡ none
      → Durable entries snapshots (set entries snapshots env key value m).1
  unfolding text_eq
  set-Durable env key value m bytes payload t d r f p e = elim (set-cases env key value m) [
    | inl h ↦ subst (λ t. Durable entries snapshots t.1) (sym h) d
    | inr h ↦
        subst (λ t. Durable entries snapshots t.1) (sym h)
          (commit-Durable entries snapshots env (set_entry key value) (force_set key value) m bytes
            payload t d r f (unfold apply_entry in refl) p (sym (ap (λ t. t.0) h) ∙ e))
  ]

  delete-cases :
      (env : Env) (key : Text) (version : Version) (m : Memory)
      → (delete_if_match entries snapshots env key version m ≡ (false, (none, m)))
        ⊎ ((delete_if_match entries snapshots env key version m
              ≡ deleted
                  (commit entries snapshots env (delete_entry key version) (force_delete key) m))
            × (apply_entry (delete_entry key version) m.contents
                ≡ some (force_delete key m.contents)))
  delete-cases env key version m = elim (Option-cases (get key m)) [
    | inl e ↦ inl (unfold delete_if_match in rw (e, delete_if_match) refl)
    | inr (current, e) ↦ elim (Bool-cases (is_same current.version version)) [
      | inr h ↦ inl (unfold delete_if_match in rw (e, h, delete_if_match) refl)
      | inl h ↦ inr (
        unfold delete_if_match in rw (e, h, delete_if_match) refl,
        unfold apply_entry text_eq in rw (e, h, apply_entry) refl,
      )
    ]
  ]

  -- A `DeleteIfMatch` without an error leaves its store durable.
  pub delete_if_match-Durable :
      (env : Env) (key : Text) (version : Version) (m : Memory) (bytes payload : List ℕ)
      → LeavesHeader env.truncation
      → Durable entries snapshots m
      → RoundTrips entries (delete_entry key version) bytes
      → Fits bytes
      → RoundTrips snapshots (snapshot_of (force_delete key m.contents)) payload
      → (delete_if_match entries snapshots env key version m).1.0 ≡ none
      → Durable entries snapshots (delete_if_match entries snapshots env key version m).1.1
  delete_if_match-Durable env key version m bytes payload t d r f p e =
      elim (delete-cases env key version m) [
        | inl h ↦ subst (λ t. Durable entries snapshots t.1.1) (sym h) d
        | inr (h, a) ↦
            let result =
              commit entries snapshots env (delete_entry key version) (force_delete key) m in
            subst (λ t. Durable entries snapshots t.1.1) (sym h)
              (subst (Durable entries snapshots) (sym (store-deleted result)) (
                commit-Durable entries snapshots env (delete_entry key version) (force_delete key) m
                  bytes payload t d r f a p
                  (sym (error-deleted result) ∙ sym (ap (λ t. t.1.0) h) ∙ e)))
      ]

  open_wal-written :
      (logged : List (List ℕ))
      → open_wal (wal_header ++ encode_all true logged)
        ≡ opened (record { file = wal_header ++ encode_all true logged; has_header = true })
  open_wal-written logged =
      let n = length-append wal_header (encode_all true logged) in
      unfold open_wal detect_wal_header validate_wal_header wal_header put_u32 put_u16 get_u32
        get_u16 in
      ground arith

  -- OpenMemory on the two files of a durable store (its snapshot loads, its log is whole records
  -- that replay to its contents) succeeds, within the fuel, with contents that no read tells apart
  -- from the store's.
  pub open_memory-Durable :
      (m : Memory) (w : Wal)
      → Durable entries snapshots m
      → m.wal ≡ some w
      → (m' : Memory) × ((open_memory entries snapshots m.snapshot_file w.file ≡ some (ready m'))
          × Same m'.contents m.contents)
  open_memory-Durable m w d e =
      let w' : Wal = record { file = wal_header ++ encode_all true d.logged; has_header = true } in
      let same_wal : w ≡ w' = some-injective w w' (sym e ∙ d.log_file) in
      let r =
        replay-encode_all (apply_bytes entries) w' wal_header d.logged (contents_of d.base)
          d.rebuilt refl (unfold wal_header put_u32 put_u16 in refl) d.fit d.replays in
      (
        record {
          contents = d.rebuilt;
          wal = some w';
          snapshot_file = m.snapshot_file;
          snapshot_threshold = default_snapshot_threshold;
        },
        (
          ap (λ v. open_memory entries snapshots m.snapshot_file v.file) same_wal
              ∙ (unfold open_memory replay_memory in
                  rw (d.loads, open_wal-written d.logged, r, open_memory, replay_memory) refl),
          d.same,
        ),
      )
