-- ===== src/Node/Gc/Kept.antt =====
-- gc.go: what a round of garbage collection leaves.
use minidist.Base.{
  ℕ, ◌-◌, ◌≡◌, refl, ap, ◌∙◌, inl, inr, Bool, true, false, Option, none, some, List, [], ◌∷◌, arith,
  ◌==◌, length, Bool-cases, Option-cases,
}
use mathlib.Core.Path.{subst}
use minidist.Base.Text.{Text, text_eq, text_eq_iff}
use minidist.Base.Assoc.{Assoc, lookup, text_eq_inst}
use minidist.Base.Sets.{contains}
use minidist.Store.Version.{Value}
use minidist.Store.Snapshot.{Codec}
use minidist.Object.{Metadata, metadata_key_prefix}
use minidist.Chunk.{read, get}
use minidist.Chunk.Sweep.{get-sweep}
use minidist.Node.Gc.Marks.{Mentions, Holds, mark-finds, collect-finds, collect_stops}
use minidist.Node.Gc.{
  GcMark, GcResult, has_prefix, mark_live_chunks, local_gc_mark, collect_marks, collect_live_chunks,
  Stores, sweep_member, add_sweep, sweep_all, run_gc,
}

-- `get` of every chunk in `live` is the same before and after.
module _ (sha256 : List ℕ → List ℕ) (id : Text) (live : List Text)
    (is_live : contains live id ≡ true) where
  sweep_member-keeps :
      (arrives : Text → Bool) (versions : Text → ℕ) (config_version cutoff : ℕ) (member y : Text)
      (stores : Stores) (bytes : List ℕ)
      → get sha256 id (stores y) ≡ read bytes
      → get sha256 id ((sweep_member arrives versions config_version live cutoff member stores).1 y)
        ≡ read bytes
  sweep_member-keeps arrives versions config_version cutoff member y stores bytes g =
      elim (Bool-cases (arrives member)) [
        | inr e ↦ unfold sweep_member in rw (e, sweep_member) g
        | inl e ↦ elim (Bool-cases (versions member == config_version)) [
          | inr v ↦ unfold sweep_member in rw (e, v, sweep_member) g
          | inl v ↦ elim (Bool-cases (text_eq member y)) [
            | inr o ↦ unfold sweep_member in rw (e, v, o, sweep_member) g
            | inl o ↦
                let same = (text_eq_iff member y).0 o in
                let there : get sha256 id (stores member) ≡ read bytes =
                  ap (λ k. get sha256 id (stores k)) same ∙ g in
                unfold sweep_member in
                rw (e, v, o, sweep_member)
                  (get-sweep sha256 live cutoff (stores member) id bytes is_live there)
          ]
        ]
      ]

  sweep_all-keeps :
      (arrives : Text → Bool) (versions : Text → ℕ) (cutoff : ℕ) (members : List Text)
      (r : GcResult) (stores : Stores) (y : Text) (bytes : List ℕ)
      → get sha256 id (stores y) ≡ read bytes
      → get sha256 id ((sweep_all arrives versions live cutoff members r stores).1 y) ≡ read bytes
  unfolding sweep_all
  sweep_all-keeps arrives versions cutoff [] r stores y bytes g = g
  sweep_all-keeps arrives versions cutoff (member ∷ rest) r stores y bytes g =
      let swept = sweep_member arrives versions r.config_version live cutoff member stores in
      let kept =
        sweep_member-keeps arrives versions r.config_version cutoff member y stores bytes g in
      elim (Option-cases swept.0) [
        | inl e ↦ rw (e, sweep_all) kept
        | inr (s, e) ↦
            rw (e, sweep_all)
              (sweep_all-keeps arrives versions cutoff rest (add_sweep s r) swept.1 y bytes kept)
      ]

module _ (sha256 : List ℕ → List ℕ) (id : Text) where
  run_gc-Holds :
      (marks : Text → Option GcMark) (arrives : Text → Bool) (versions : Text → ℕ)
      (config_version start grace : ℕ) (members : List Text) (stores : Stores) (y : Text)
      (bytes : List ℕ)
      → Holds id (collect_live_chunks config_version config_version marks members)
      → get sha256 id (stores y) ≡ read bytes
      → get sha256 id
          ((run_gc marks arrives versions config_version start grace members stores).1 y)
        ≡ read bytes
  run_gc-Holds marks arrives versions config_version start grace members stores y bytes h g =
      elim (Option-cases (collect_live_chunks config_version config_version marks members)) [
        | inl e ↦ unfold run_gc in rw (e, run_gc) g
        | inr (live, e) ↦
            unfold run_gc in
            rw (e, run_gc)
              (sweep_all-keeps sha256 id live (subst (Holds id) e h) arrives versions
                (start - grace) members _ stores y bytes g)
      ]

  collected :
      (marks : Text → Option GcMark) (config_version : ℕ) (members : List Text)
      → Holds id (collect_marks config_version marks members [])
      → Holds id (collect_live_chunks config_version config_version marks members)
  collected marks config_version members h = elim (Bool-cases (length members == 0)) [
    | inl e ↦ unfold collect_live_chunks in rw (e, collect_live_chunks) tt
    | inr e ↦ elim (Option-cases (collect_marks config_version marks members [])) [
      | inl c ↦ unfold collect_live_chunks in rw (e, c, collect_live_chunks) tt
      | inr (live, c) ↦
          let same : (config_version == config_version) ≡ true = ground arith in
          unfold collect_live_chunks in rw (e, c, same, collect_live_chunks) (subst (Holds id) c h)
    ]
  ]

  marked :
      (codec : Codec Metadata) (marks : Text → Option GcMark) (config_version version : ℕ)
      (members : List Text) (x : Text) (values : Assoc Text Value)
      → contains members x ≡ true
      → marks x ≡ local_gc_mark codec version values
      → Holds id (mark_live_chunks codec values [])
      → Holds id (collect_marks config_version marks members [])
  marked codec marks config_version version members x values i m h =
      elim (Option-cases (mark_live_chunks codec values [])) [
        | inl e ↦
            let failed : local_gc_mark codec version values ≡ none =
              unfold local_gc_mark in rw (e, local_gc_mark) refl in
            collect_stops id config_version marks members [] x i (m ∙ failed)
        | inr (live, e) ↦
            let mark : GcMark = record { config_version = version; live_chunks = live } in
            let answer : local_gc_mark codec version values ≡ some mark =
              unfold local_gc_mark in rw (e, local_gc_mark) refl in
            collect-finds id config_version marks members [] x mark i (m ∙ answer)
              (subst (Holds id) e h)
      ]

  -- If a member answers a mark with what its own store holds, and that store has an undeleted
  -- value under a metadata key that decodes to an object that mentions a chunk, then a readable
  -- copy of the chunk on any node reads the same after RunGC, whether the round succeeds or fails
  -- on the way.
  pub get-run_gc :
      (codec : Codec Metadata) (marks : Text → Option GcMark) (arrives : Text → Bool)
      (versions : Text → ℕ) (config_version version start grace : ℕ) (members : List Text)
      (stores : Stores) (x : Text) (values : Assoc Text Value) (key : Text) (value : Value)
      (metadata : Metadata) (y : Text) (bytes : List ℕ)
      → contains members x ≡ true
      → marks x ≡ local_gc_mark codec version values
      → lookup key values ≡ some value
      → has_prefix metadata_key_prefix key ≡ true
      → value.deleted ≡ false
      → codec.unmarshal value.bytes ≡ some metadata
      → Mentions id metadata.chunks
      → get sha256 id (stores y) ≡ read bytes
      → get sha256 id
          ((run_gc marks arrives versions config_version start grace members stores).1 y)
        ≡ read bytes
  get-run_gc codec marks arrives versions config_version version start grace members stores x values
        key value metadata y bytes i m e p d u h g =
      run_gc-Holds marks arrives versions config_version start grace members stores y bytes
        (collected marks config_version members (
          marked codec marks config_version version members x values i m
            (mark-finds id codec values [] key value metadata e p d u h)))
        g
