-- ===== src/Node/Gc.antt =====
-- gc.go: marking the chunks that object metadata refers to, on every member, and sweeping the others.
-- The network is a parameter: what each member answers to the mark, and which sweeps arrive. The
-- chunk stores of the members are a function from members to files.
pub mod Marks
pub mod Kept
use minidist.Base.{
  ℕ, zero, suc, ◌+◌, ◌-◌, Bool, true, false, not, ◌&&◌, Option, none, some, List, [], ◌∷◌, ◌++◌,
  ltb, leb, ◌==◌, length, if◌then◌else◌,
}
use minidist.Base.Text.{Text, text_eq}
use minidist.Base.Assoc.{Assoc, text_eq_inst}
use minidist.Base.Sets.{contains}
use minidist.Store.Version.{Value}
use minidist.Store.Snapshot.{Codec}
use minidist.Object.{ChunkInfo, Metadata, metadata_key_prefix}
use minidist.Chunk.{Files, SweepResult, sweep}

pub record GcMark : Type 0 where
  pub config_version : ℕ
  pub live_chunks : List Text

pub record GcResult : Type 0 where
  pub config_version : ℕ
  pub live_chunks : ℕ
  pub nodes : ℕ
  pub scanned : ℕ
  pub deleted : ℕ
  pub kept : ℕ

unfoldable pub has_prefix : Text → Text → Bool
has_prefix [] s = true
has_prefix (c ∷ cs) [] = false
has_prefix (c ∷ cs) (d ∷ ds) = c == d && has_prefix cs ds

-- `live[id] = struct{}{}` for each id.
unfoldable pub add_id : Text → List Text → List Text
add_id id live = if contains live id then live else id ∷ live

unfoldable pub add_infos : List ChunkInfo → List Text → List Text
unfolding add_id
add_infos [] live = live
add_infos (info ∷ rest) live = add_infos rest (add_id info.id live)

-- The loop of `markLiveChunks`; `none` if a metadata value does not decode.
unfoldable pub mark_live_chunks : Codec Metadata → Assoc Text Value → List Text → Option (List Text)
mark_live_chunks codec [] live = some live
mark_live_chunks codec ((key, value) ∷ rest) live =
    if not (has_prefix metadata_key_prefix key)
    then mark_live_chunks codec rest live
    else if value.deleted
    then mark_live_chunks codec rest live
    else elim (codec.unmarshal value.bytes) [
      | none ↦ none
      | some metadata ↦ mark_live_chunks codec rest (add_infos metadata.chunks live)
    ]

-- `localGCMark`; the order of the ids has no meaning.
unfoldable pub local_gc_mark : Codec Metadata → ℕ → Assoc Text Value → Option GcMark
local_gc_mark codec config_version values = elim (mark_live_chunks codec values []) [
  | none ↦ none
  | some live ↦ some (record { config_version = config_version; live_chunks = live })
]

unfoldable pub add_ids : List Text → List Text → List Text
unfolding add_id
add_ids [] live = live
add_ids (id ∷ rest) live = add_ids rest (add_id id live)

-- The loop of `collectLiveChunks`: any failure fails the round.
unfoldable pub collect_marks :
    ℕ → (Text → Option GcMark) → List Text → List Text → Option (List Text)
collect_marks expected marks [] live = some live
collect_marks expected marks (member ∷ rest) live = elim (marks member) [
  | none ↦ none
  | some mark ↦
      if not (mark.config_version == expected)
      then none
      else collect_marks expected marks rest (add_ids mark.live_chunks live)
]

-- `later` is the node's own configuration version after the marks.
unfoldable pub collect_live_chunks : ℕ → ℕ → (Text → Option GcMark) → List Text → Option (List Text)
collect_live_chunks expected later marks members =
    if length members == 0 then none else elim (collect_marks expected marks members []) [
      | none ↦ none
      | some live ↦ if not (later == expected) then none else some live
    ]

abbrev pub Stores : Type 0
Stores = Text → Files

-- One `localGCSweep` that may not arrive; `versions` are the members' configuration versions.
unfoldable pub sweep_member :
    (Text → Bool) → (Text → ℕ) → ℕ → List Text → ℕ → Text → Stores → Option SweepResult × Stores
sweep_member arrives versions config_version live cutoff member stores =
    if not (arrives member)
    then (none, stores)
    else if not (versions member == config_version)
    then (none, stores)
    else let swept = sweep live cutoff (stores member) in
      (some swept.0, λ y. if text_eq member y then swept.1 else stores y)

unfoldable pub add_sweep : SweepResult → GcResult → GcResult
add_sweep s r = record r {
  scanned = r.scanned + s.scanned;
  deleted = r.deleted + s.deleted;
  kept = r.kept + s.kept;
}

-- The loop of `RunGC` over the members.
unfoldable pub sweep_all :
    (Text → Bool)
    → (Text → ℕ)
    → List Text
    → ℕ
    → List Text
    → GcResult
    → Stores
    → Option GcResult × Stores
unfolding add_sweep
sweep_all arrives versions live cutoff [] r stores = (some r, stores)
sweep_all arrives versions live cutoff (member ∷ rest) r stores =
    let swept = sweep_member arrives versions r.config_version live cutoff member stores in
    elim swept.0 [
      | none ↦ (none, swept.1)
      | some s ↦ sweep_all arrives versions live cutoff rest (add_sweep s r) swept.1
    ]

-- `RunGC` at time `start`, with a grace period that is not negative. The ring's members and the
-- node's own configuration version are those that `collectLiveChunks` saw.
unfoldable pub run_gc :
    (Text → Option GcMark)
    → (Text → Bool)
    → (Text → ℕ)
    → ℕ
    → ℕ
    → ℕ
    → List Text
    → Stores
    → Option GcResult × Stores
run_gc marks arrives versions config_version start grace members stores =
    elim (collect_live_chunks config_version config_version marks members) [
      | none ↦ (none, stores)
      | some live ↦
          sweep_all arrives versions live (start - grace) members
            (record {
              config_version = config_version;
              live_chunks = length live;
              nodes = length members;
              scanned = 0;
              deleted = 0;
              kept = 0;
            })
            stores
    ]
