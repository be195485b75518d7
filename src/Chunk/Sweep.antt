-- ===== src/Chunk/Sweep.antt =====
-- store.go: what `Sweep` removes and what it keeps.
use minidist.Base.{
  ℕ, ◌+◌, ◌≤◌, ◌≡◌, ◌≢◌, refl, sym, ap, ◌∙◌, inl, inr, true, false, some, List, [], ◌∷◌, arith,
  Bool-cases,
}
use mathlib.Core.Option.{some-injective}
use minidist.Base.Text.{Text, text_eq, text_eq_iff}
use minidist.Base.Assoc.{lookup, text_eq_inst, lookup-insert}
use minidist.Base.Sets.{contains}
use minidist.Chunk.{
  File, Files, read, chunk_id, put, get, SweepResult, is_garbage, count_file, sweep_files, sweep,
}
use minidist.Chunk.Content.{
  IsDigest, validate_id-hex, lookup-put, self-text_eq, get-lookup, get-read,
}

found_first :
    (k id : Text) (f : File) (rest : Files)
    → text_eq k id ≡ true
    → lookup id ((k, f) ∷ rest) ≡ some f
unfolding lookup
found_first k id f rest s = rw s refl

passed_over :
    (k id : Text) (f : File) (rest : Files)
    → text_eq k id ≡ false
    → lookup id ((k, f) ∷ rest) ≡ lookup id rest
unfolding lookup
passed_over k id f rest s = rw s refl

no_files : (id : Text) (file : File) → lookup id [] ≢ some file
unfolding lookup
no_files id file e = cc

counted :
    (live : List Text) (cutoff : ℕ) (k : Text) (f : File) (r : SweepResult)
    → r.scanned ≡ r.deleted + r.kept
    → (count_file live cutoff k f r).scanned
      ≡ (count_file live cutoff k f r).deleted + (count_file live cutoff k f r).kept
unfolding count_file
counted live cutoff k f r e = ground arith

survives :
    (live : List Text) (cutoff : ℕ) (files : Files) (r : SweepResult) (id : Text) (file : File)
    → lookup id files ≡ some file
    → is_garbage live cutoff id file ≡ false
    → lookup id (sweep_files live cutoff files r).1 ≡ some file
unfolding sweep_files
survives live cutoff [] r id file e g = absurd (no_files id file e)
survives live cutoff ((k, f) ∷ rest) r id file e g =
    let next = count_file live cutoff k f r in
    elim (Bool-cases (text_eq k id)) [
      | inl s ↦
          let same : f ≡ file = some-injective f file (sym (found_first k id f rest s) ∙ e) in
          let clean : is_garbage live cutoff k f ≡ false =
            ap (λ n. is_garbage live cutoff n f) ((text_eq_iff k id).0 s)
            ∙ ap (is_garbage live cutoff id) same
            ∙ g in
          rw clean
            (found_first k id f (sweep_files live cutoff rest next).1 s ∙ ap (λ x. some x) same)
      | inr s ↦
          let later =
            survives live cutoff rest next id file (sym (passed_over k id f rest s) ∙ e) g in
          elim (Bool-cases (is_garbage live cutoff k f)) [
            | inl c ↦ rw c later
            | inr c ↦ rw c (passed_over k id f (sweep_files live cutoff rest next).1 s ∙ later)
          ]
    ]

counts :
    (live : List Text) (cutoff : ℕ) (files : Files) (r : SweepResult)
    → r.scanned ≡ r.deleted + r.kept
    → (sweep_files live cutoff files r).0.scanned
      ≡ (sweep_files live cutoff files r).0.deleted + (sweep_files live cutoff files r).0.kept
unfolding sweep_files
counts live cutoff [] r e = e
counts live cutoff ((k, f) ∷ rest) r e =
    let next = count_file live cutoff k f r in
    let there = counts live cutoff rest next (counted live cutoff k f r e) in
    elim (Bool-cases (is_garbage live cutoff k f)) [ inl c ↦ rw c there | inr c ↦ rw c there ]

-- Of the files that a Sweep has scanned, each was deleted or kept.
pub counts_sweep :
    (live : List Text) (cutoff : ℕ) (files : Files)
    → (sweep live cutoff files).0.scanned
      ≡ (sweep live cutoff files).0.deleted + (sweep live cutoff files).0.kept
counts_sweep live cutoff files = unfold sweep in counts live cutoff files _ (omega arith)

module _ (sha256 : List ℕ → List ℕ) where
  -- A live chunk that could be read before a Sweep is read the same after it, whatever the cutoff.
  pub get-sweep :
      (live : List Text) (cutoff : ℕ) (files : Files) (id : Text) (bytes : List ℕ)
      → contains live id ≡ true
      → get sha256 id files ≡ read bytes
      → get sha256 id (sweep live cutoff files).1 ≡ read bytes
  get-sweep live cutoff files id bytes l g =
      let (file, (at, (good, (same, valid)))) = get-read sha256 id files bytes g in
      get-lookup sha256 id (sweep live cutoff files).1 file valid
        (unfold sweep in
          survives live cutoff files _ id file at (unfold is_garbage in ground arith))
        good
      ∙ ap read same

  -- A chunk that was put at or after the cutoff is read back after a Sweep, live or not, and
  -- whether or not it was there before, if SHA-256 gives 32 bytes for it and no other content has
  -- its id.
  pub sweep-put :
      (live : List Text) (cutoff now : ℕ) (bytes : List ℕ) (files : Files)
      → cutoff ≤ now
      → IsDigest (sha256 bytes)
      → ((other : List ℕ) → chunk_id sha256 other ≡ chunk_id sha256 bytes → other ≡ bytes)
      → get sha256 (chunk_id sha256 bytes) (sweep live cutoff (put sha256 now true bytes files).1).1
        ≡ read bytes
  sweep-put live cutoff now bytes files recent d unique =
      let id = chunk_id sha256 bytes in
      let (kept, (p, same)) = lookup-put sha256 now bytes files in
      let fresh : File = record { bytes = kept; mtime = now } in
      let there : lookup id (put sha256 now true bytes files).1 ≡ some fresh =
        ap (λ q. lookup id q.1) p ∙ lookup-insert id id fresh files ∙ rw (self-text_eq id) refl in
      get-lookup sha256 id (sweep live cutoff (put sha256 now true bytes files).1).1 fresh
        (unfold chunk_id in validate_id-hex (sha256 bytes) d)
        (unfold sweep in
          survives live cutoff (put sha256 now true bytes files).1 _ id fresh there
            (unfold is_garbage in ground arith))
        (ap (λ k. text_eq k id) same ∙ self-text_eq id)
      ∙ ap read (unique kept same)
