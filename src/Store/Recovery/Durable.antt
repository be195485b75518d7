-- ===== src/Store/Recovery/Durable.antt =====
-- memory.go: what the calls keep: the snapshot and the log hold the contents of the store.
use minidist.Base.{
  ℕ, zero, suc, ◌≤◌, length, take, ◌≡◌, ◌≢◌, refl, sym, ap, ◌∙◌, inl, inr, ◌⊎◌, true, Option, none,
  some, List, [], ◌∷◌, ◌++◌, arith, Option-cases, All, All-append,
}
use minidist.Base.Assoc.{text_eq_inst}
use mathlib.Core.List.{append_assoc, append-nil}
use mathlib.Core.Path.{subst}
use minidist.Store.Wal.{
  Wal, Err, append, truncate, TruncateFault, no_truncate_fault, before_cut, header_cut,
  header_not_synced, wal_header, wal_header_size,
}
use minidist.Base.BigEndian.{put_u32, put_u16}
use mathlib.Core.Option.{some-injective}
use minidist.Store.Wal.Records.{encode, encode_all, Fits, append-done}
use minidist.Store.Wal.Replay.{
  apply_all, apply_all-nil, apply_all-cons, apply_all-append, encode_all-append,
}
use minidist.Store.Memory.{
  Contents, Memory, Entry, Env, apply_entry, apply_bytes, log_entry, save_memory, after_save,
  after_log, maybe_snapshot, commit,
}
use minidist.Store.Snapshot.{
  Codec, SnapshotData, SnapshotErr, Fault, loaded, load_snapshot, save_snapshot,
  save_snapshot-Atomic, Atomic, RoundTrips,
}
use minidist.Store.Recovery.Effects.{Same}
use minidist.Store.Recovery.Replays.{apply_all-any, apply_all-Same, replay_again}

abbrev pub snapshot_of : Contents → SnapshotData
snapshot_of c = record { values = c.values; max_version_counter = c.max_version_counter }

abbrev pub contents_of : SnapshotData → Contents
contents_of d = record { values = d.values; max_version_counter = d.max_version_counter }

take_all : (n : ℕ) (xs : List ℕ) → length xs ≤ n → take n xs ≡ xs
take_all zero [] h = refl
take_all zero (x ∷ xs) h = absurd (omega arith)
take_all (suc n) [] h = refl
take_all (suc n) (x ∷ xs) h = ap (λ t. x ∷ t) (take_all n xs (omega arith))

-- A truncation that fails leaves the log as it was, or with its whole header.
abbrev pub LeavesHeader : TruncateFault → Type 0
LeavesHeader no_truncate_fault = Unit
LeavesHeader before_cut = Unit
LeavesHeader (header_cut n) = wal_header_size ≤ n
LeavesHeader header_not_synced = Unit

module _ (entries : Codec Entry) (snapshots : Codec SnapshotData) where
  -- The snapshot file loads, the log is whole records, and replaying them on the snapshot gives the
  -- contents.
  pub record Durable (m : Memory) : Type 0 where
    pub base : SnapshotData
    pub logged : List (List ℕ)
    pub rebuilt : Contents
    pub loads : load_snapshot snapshots m.snapshot_file ≡ loaded base
    pub log_file :
        m.wal ≡ some (record { file = wal_header ++ encode_all true logged; has_header = true })
    pub fit : All Fits logged
    pub replays : apply_all (apply_bytes entries) logged (contents_of base) ≡ some rebuilt
    pub same : Same rebuilt m.contents

  saved_over :
      (m : Memory) (file : Option (List ℕ))
      → Durable m
      → load_snapshot snapshots file ≡ loaded (snapshot_of m.contents)
      → Durable (record m { snapshot_file = file })
  saved_over m file d e =
      let (c, a) =
        apply_all-any entries d.logged (contents_of d.base) d.rebuilt m.contents d.replays in
      let (c', (a', (s, n))) =
        replay_again entries d.logged (contents_of d.base) d.rebuilt d.replays in
      let (s', n') = apply_all-Same entries d.logged d.rebuilt m.contents c' c d.same a' a in
      record {
        base = snapshot_of m.contents;
        logged = d.logged;
        rebuilt = c;
        loads = e;
        log_file = d.log_file;
        fit = d.fit;
        replays = a;
        same = (λ k. sym (s' k) ∙ s k ∙ d.same.0 k, sym n' ∙ n ∙ d.same.1);
      }

  truncated :
      (m : Memory) (file : Option (List ℕ))
      → load_snapshot snapshots file ≡ loaded (snapshot_of m.contents)
      → Durable (record m {
        snapshot_file = file;
        wal = some (record { file = wal_header; has_header = true });
      })
  truncated m file e = record {
    base = snapshot_of m.contents;
    logged = [];
    rebuilt = m.contents;
    loads = e;
    log_file =
        ap (λ f. some (record { file = f; has_header = true })) (sym (append-nil wal_header));
    fit = tt;
    replays = apply_all-nil (apply_bytes entries) m.contents;
    same = (λ k. refl, refl);
  }

  after_save-Durable :
      (t : TruncateFault) (m : Memory) (w : Wal) (err : Option SnapshotErr) (file : Option (List ℕ))
      → LeavesHeader t
      → m.wal ≡ some w
      → Durable m
      → Atomic snapshots (snapshot_of m.contents) m.snapshot_file (err, file)
      → Durable (after_save t w m err file).1
  unfolding after_save truncate
  after_save-Durable t m w (some e) file h at d (inl l) = saved_over m file d l
  after_save-Durable t m w (some e) file h at d (inr (n, u)) =
      subst (λ f. Durable (record m { snapshot_file = f })) (sym u) d
  after_save-Durable no_truncate_fault m w none file h at d (inl l) = truncated m file l
  after_save-Durable header_not_synced m w none file h at d (inl l) = truncated m file l
  after_save-Durable before_cut m w none file h at d (inl l) =
      subst (λ x. Durable (record m { snapshot_file = file; wal = x })) at (saved_over m file d l)
  after_save-Durable (header_cut n) m w none file h at d (inl l) =
      let whole : take n wal_header ≡ wal_header =
        take_all n wal_header (unfold wal_header put_u32 put_u16 in omega (arith, h)) in
      let marked : w.has_header ≡ true =
        ap (λ v. v.has_header) (some-injective w _ (sym at ∙ d.log_file)) in
      let left : Wal = record w { file = take n wal_header } in
      let same : left ≡ record { file = wal_header; has_header = true } =
        ap (λ f. record w { file = f }) whole
        ∙ ap (λ b. record { file = wal_header; has_header = b }) marked in
      subst (λ v. Durable (record m { snapshot_file = file; wal = some v })) (sym same)
        (truncated m file l)
  after_save-Durable t m w none file h at d (inr (n, u)) = absurd (n refl)

  -- saveSnapshot leaves a durable store durable, whether it succeeds, fails before the rename, fails
  -- after it with the log not yet cut off, or fails with the log's new header written, if the codec
  -- reads back the contents.
  pub save_memory-Durable :
      (fault : Fault) (t : TruncateFault) (w : Wal) (m : Memory) (payload : List ℕ)
      → LeavesHeader t
      → m.wal ≡ some w
      → Durable m
      → RoundTrips snapshots (snapshot_of m.contents) payload
      → Durable (save_memory snapshots fault t w m).1
  save_memory-Durable fault t w m payload h at d r =
      let result = save_snapshot snapshots fault (snapshot_of m.contents) m.snapshot_file in
      unfold save_memory in
      after_save-Durable t m w result.0 result.1 h at d
        (save_snapshot-Atomic snapshots fault (snapshot_of m.contents) payload m.snapshot_file r)

  maybe_snapshot-cases :
      (env : Env) (m : Memory) (w : Wal)
      → m.wal ≡ some w
      → ((maybe_snapshot snapshots env m).1 ≡ m)
        ⊎ ((maybe_snapshot snapshots env m).1
            ≡ (save_memory snapshots env.fault env.truncation w m).1)
  maybe_snapshot-cases env m w e = unfold maybe_snapshot in rw (e, maybe_snapshot) (ground arith)

  maybe_snapshot-Durable :
      (env : Env) (m : Memory) (payload : List ℕ)
      → LeavesHeader env.truncation
      → Durable m
      → RoundTrips snapshots (snapshot_of m.contents) payload
      → Durable (maybe_snapshot snapshots env m).1
  maybe_snapshot-Durable env m payload h d r =
      let w : Wal = record { file = wal_header ++ encode_all true d.logged; has_header = true } in
      elim (maybe_snapshot-cases env m w d.log_file) [
        | inl e ↦ subst Durable (sym e) d
        | inr e ↦
            subst Durable (sym e)
              (save_memory-Durable env.fault env.truncation w m payload h d.log_file d r)
      ]

  logged_more :
      (m : Memory) (bytes : List ℕ) (c : Contents)
      → (d : Durable m) → Fits bytes
      → apply_bytes entries bytes m.contents ≡ some c
      → Durable (record m {
        contents = c;
        wal = some (record {
          file = (wal_header ++ encode_all true d.logged) ++ encode true bytes;
          has_header = true;
        });
      })
  logged_more m bytes c d f a =
      let one : apply_all (apply_bytes entries) (bytes ∷ []) m.contents ≡ some c =
        apply_all-cons (apply_bytes entries) bytes [] m.contents c a
        ∙ apply_all-nil (apply_bytes entries) c in
      let (c', a') = apply_all-any entries (bytes ∷ []) m.contents c d.rebuilt one in
      record {
        base = d.base;
        logged = d.logged ++ bytes ∷ [];
        rebuilt = c';
        loads = d.loads;
        log_file =
            ap (λ f. some (record { file = f; has_header = true }))
              (append_assoc wal_header (encode_all true d.logged) (encode true bytes)
                ∙ ap (λ t. wal_header ++ t) (sym (encode_all-append true d.logged bytes)));
        fit = All-append Fits d.logged (bytes ∷ []) d.fit (f, tt);
        replays =
            apply_all-append (apply_bytes entries) d.logged (bytes ∷ []) (contents_of d.base)
              d.rebuilt d.replays
            ∙ a';
        same = apply_all-Same entries (bytes ∷ []) d.rebuilt m.contents c' c d.same a' one;
      }

  commit_fails :
      (env : Env) (entry : Entry) (change : Contents → Contents) (m : Memory) (w : Wal)
      (bytes : List ℕ) (x : Err)
      → m.wal ≡ some w
      → entries.marshal entry ≡ some bytes
      → (append env.disk bytes w).0 ≡ some x
      → (commit entries snapshots env entry change m).0 ≢ none
  commit_fails env entry change m w bytes x e r h =
      unfold commit log_entry after_log in rw (e, r, h, commit, log_entry) (λ q. cc)

  pub commit-done :
      (env : Env) (entry : Entry) (change : Contents → Contents) (m : Memory) (w : Wal)
      (bytes : List ℕ)
      → m.wal ≡ some w
      → entries.marshal entry ≡ some bytes
      → (append env.disk bytes w).0 ≡ none
      → Fits bytes
      → (commit entries snapshots env entry change m).1
        ≡ (maybe_snapshot snapshots env (record m {
          contents = change m.contents;
          wal =
              some
                (record { file = w.file ++ encode w.has_header bytes; has_header = w.has_header });
        })).1
  commit-done env entry change m w bytes e r h f =
      unfold commit log_entry after_log in
      rw (e, r, h, append-done env.disk w bytes f h, commit, log_entry) refl

  -- A change is durable once it is logged without an error, snapshot or not.
  pub commit-Durable :
      (env : Env) (entry : Entry) (change : Contents → Contents) (m : Memory)
      (bytes payload : List ℕ)
      → LeavesHeader env.truncation
      → Durable m
      → RoundTrips entries entry bytes
      → Fits bytes
      → apply_entry entry m.contents ≡ some (change m.contents)
      → RoundTrips snapshots (snapshot_of (change m.contents)) payload
      → (commit entries snapshots env entry change m).0 ≡ none
      → Durable (commit entries snapshots env entry change m).1
  commit-Durable env entry change m bytes payload t d r f a p e =
      let w : Wal = record { file = wal_header ++ encode_all true d.logged; has_header = true } in
      let b : apply_bytes entries bytes m.contents ≡ some (change m.contents) =
        unfold apply_bytes in rw (r.1, apply_bytes) a in
      elim (Option-cases (append env.disk bytes w).0) [
        | inr (x, h) ↦ absurd (commit_fails env entry change m w bytes x d.log_file r.0 h e)
        | inl h ↦ subst Durable (sym (commit-done env entry change m w bytes d.log_file r.0 h f)) (
            maybe_snapshot-Durable env _ payload t (logged_more m bytes (change m.contents) d f b)
              p)
      ]
