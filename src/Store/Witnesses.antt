-- ===== src/Store/Witnesses.antt =====
-- internal/store at concrete inputs.
use minidist.Base.{
  ℕ, sym, ap, ◌≡◌, ◌≢◌, refl, true, false, none, some, [], ◌∷◌, ◌++◌, ltb, arith, get_or,
}
use minidist.Base.Text.{Text, codes}
use minidist.Base.Assoc.{lookup, insert, text_eq_inst}
use minidist.Base.BigEndian.{put_u32, put_u16}
use minidist.Store.Version.{Value}
use minidist.Store.Wal.{
  healthy, before_cut, header_cut, size, record_header, wal_header, append, write_record, write,
}
use minidist.Store.Wal.Records.{encode}
use minidist.Store.Wal.Replay.{apply_all}
use minidist.Store.Snapshot.{SnapshotData, Codec, no_fault, at_sync_dir, load_snapshot}
use minidist.Store.Memory.{
  Contents, Memory, Entry, Env, new_memory, set, get, force_set, open_memory, ready, commit,
  log_entry, after_log,
}
use minidist.Store.Recovery.Effects.{Same}
use minidist.Store.Recovery.Durable.{Durable, snapshot_of}
use minidist.Store.Recovery.Header.{Unreadable, set_cuts_header}
use minidist.Store.Recovery.Reopen.{set_entry, set-Durable, open_memory-Durable}
use minidist.Store.Convergence.{set_commutes}

abbrev hello : Value
hello = record {
  bytes = codes "hello";
  version = record { counter = 4; node_id = codes "n1" };
  deleted = false;
}

abbrev later : Value
later = record {
  bytes = codes "later";
  version = record { counter = 4; node_id = codes "n2" };
  deleted = false;
}

abbrev greeting : Text
greeting = codes "greeting"

abbrev empty_contents : Contents
empty_contents = record { values = []; max_version_counter = 0 }

-- A codec for one entry and one for one snapshot.
abbrev one_entry : Codec Entry
one_entry = record {
  marshal = λ e. some (1 ∷ 2 ∷ []);
  unmarshal = λ b. some (set_entry greeting hello);
}

abbrev one_snapshot : Contents → Codec SnapshotData
one_snapshot c = record { marshal = λ s. some (3 ∷ []); unmarshal = λ b. some (snapshot_of c) }

abbrev full_contents : Contents
full_contents = record { values = (greeting, hello) ∷ []; max_version_counter = 4 }

abbrev store : Memory
store = record {
  contents = empty_contents;
  wal = some (record { file = wal_header; has_header = true });
  snapshot_file = none;
  snapshot_threshold = 10;
}

abbrev failing : Env
failing = record {
  disk = healthy;
  fault = at_sync_dir;
  truncation = before_cut;
  snapshot_busy = false;
}

store-Durable : (c : Contents) → Durable one_entry (one_snapshot c) store
unfolding wal_header put_u32 put_u16 apply_all load_snapshot
store-Durable c = record {
  base = snapshot_of empty_contents;
  logged = [];
  rebuilt = empty_contents;
  loads = refl;
  log_file = refl;
  fit = tt;
  replays = refl;
  same = (λ k. refl, refl);
}

set-no_error : (set one_entry (one_snapshot full_contents) failing greeting hello store).0 ≡ none
unfolding set lookup commit log_entry after_log append write_record write
set-no_error = refl

set-greeting : force_set greeting hello empty_contents ≡ full_contents
unfolding force_set insert
set-greeting = refl

-- The log passes the threshold, and the snapshot that follows fails after its rename.
set-Durable_example :
    Durable one_entry
      (one_snapshot full_contents)
      (set one_entry (one_snapshot full_contents) failing greeting hello store).1
set-Durable_example =
    set-Durable one_entry (one_snapshot full_contents) failing greeting hello store (1 ∷ 2 ∷ [])
      (3 ∷ []) tt (store-Durable full_contents) (refl, refl) (omega arith)
      (refl, ap (λ c. some (snapshot_of c)) (sym set-greeting)) set-no_error

-- The snapshot is saved, and three bytes of the new header reach the log.
abbrev cutting : Env
cutting = record {
  disk = healthy;
  fault = no_fault;
  truncation = header_cut 3;
  snapshot_busy = false;
}

is_new : get greeting store ≡ none
unfolding lookup
is_new = refl

appends : (append healthy (1 ∷ 2 ∷ []) (record { file = wal_header; has_header = true })).0 ≡ none
unfolding append write_record write
appends = refl

is_large :
    ltb
      (size (record { file = wal_header ++ encode true (1 ∷ 2 ∷ []); has_header = true }))
      store.snapshot_threshold
    ≡ false
unfolding size wal_header put_u32 put_u16 record_header
is_large = refl

set_cuts_header_example :
    ((set one_entry (one_snapshot full_contents) cutting greeting hello store).0 ≡ none)
    × Unreadable one_entry
        (one_snapshot full_contents)
        cutting
        3
        (omega arith)
        (omega arith)
        refl
        (set one_entry (one_snapshot full_contents) cutting greeting hello store).1
set_cuts_header_example =
    set_cuts_header one_entry (one_snapshot full_contents) cutting 3 (omega arith) (omega arith)
      refl greeting hello store (record { file = wal_header; has_header = true }) (1 ∷ 2 ∷ [])
      (3 ∷ []) is_new refl refl (omega arith) appends refl is_large refl
      (refl, ap (λ c. some (snapshot_of c)) (sym set-greeting)) (omega arith)

open_memory-Durable_example :
    (m : Memory) × ((open_memory one_entry (one_snapshot full_contents) none wal_header
        ≡ some (ready m))
      × Same m.contents empty_contents)
open_memory-Durable_example =
    open_memory-Durable one_entry (one_snapshot full_contents) store
      (record { file = wal_header; has_header = true }) (store-Durable full_contents) refl

versions_differ : hello.version ≢ later.version
versions_differ e = let d : ◌≡◌ {A = ℕ} 49 50 = ap (λ v. get_or v.node_id 1 0) e in omega arith

set_commutes_example :
    get greeting
      (set one_entry
        (one_snapshot full_contents)
        failing
        greeting
        later
        (set one_entry (one_snapshot full_contents) failing greeting hello new_memory).1).1
    ≡ get greeting
        (set one_entry
          (one_snapshot full_contents)
          failing
          greeting
          hello
          (set one_entry (one_snapshot full_contents) failing greeting later new_memory).1).1
set_commutes_example =
    set_commutes one_entry (one_snapshot full_contents) failing greeting greeting greeting hello
      later new_memory refl (λ e v. absurd (versions_differ v))
