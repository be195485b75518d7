-- ===== src/Store/Stored.antt =====
-- memory.go: what `Set` makes of the value of each key, with a log that may fail.
use minidist.Base.{
  ℕ, ◌≡◌, refl, sym, ap, ◌∙◌, ◌⊎◌, inl, inr, Bool, true, false, Option, none, some, List, ltb,
  if◌then◌else◌, Bool-cases, Option-cases,
}
use minidist.Base.Text.{Text, text_eq, text_eq_iff}
use minidist.Base.Assoc.{lookup, text_eq_inst, lookup-insert}
use minidist.Store.Version.{Value, is_newer}
use minidist.Store.Convergence.{newest}
use minidist.Store.Snapshot.{Codec, SnapshotData, SnapshotErr, Fault}
use minidist.Store.Wal.{Wal, TruncateFault, size}
use minidist.Store.Memory.{
  Contents, Memory, Entry, Env, StoreErr, get, set, commit, after_log, log_entry, maybe_snapshot,
  save_memory, after_save, force_set,
}
use minidist.Store.Recovery.Reopen.{set_entry}

abbrev pub failed : Option StoreErr → Bool
failed none = false
failed (some e) = true

contents-after_save :
    (t : TruncateFault) (w : Wal) (m : Memory) (e : Option SnapshotErr) (file : Option (List ℕ))
    → (after_save t w m e file).1.contents ≡ m.contents
unfolding after_save
contents-after_save t w m none file = refl
contents-after_save t w m (some e) file = refl

lookup-force_set :
    (key j : Text) (v : Value) (c : Contents)
    → lookup j (force_set key v c).values ≡ (if text_eq key j then some v else lookup j c.values)
unfolding force_set
lookup-force_set key j v c = lookup-insert key j v c.values

module _ (entries : Codec Entry) (snapshots : Codec SnapshotData) where
  contents-save_memory :
      (fault : Fault) (t : TruncateFault) (w : Wal) (m : Memory)
      → (save_memory snapshots fault t w m).1.contents ≡ m.contents
  unfolding save_memory
  contents-save_memory fault t w m = contents-after_save t w m _ _

  contents-maybe_snapshot :
      (env : Env) (m : Memory) → (maybe_snapshot snapshots env m).1.contents ≡ m.contents
  contents-maybe_snapshot env m = elim (Option-cases m.wal) [
    | inl e ↦ unfold maybe_snapshot in rw (e, maybe_snapshot) refl
    | inr (w, e) ↦ elim (Bool-cases env.snapshot_busy) [
      | inl b ↦ unfold maybe_snapshot in rw (e, b, maybe_snapshot) refl
      | inr b ↦ elim (Bool-cases (ltb (size w) m.snapshot_threshold)) [
        | inl t ↦ unfold maybe_snapshot in rw (e, b, t, maybe_snapshot) refl
        | inr t ↦
            unfold maybe_snapshot in
            rw (e, b, t, maybe_snapshot) (contents-save_memory env.fault env.truncation w m)
      ]
    ]
  ]

  -- A change is made, or refused with an error.
  abbrev Changed : (Contents → Contents) → Memory → Option StoreErr × Memory → Type 0
  Changed change m r =
      ((r.0 ≡ none) × (r.1.contents ≡ change m.contents))
      ⊎ ((failed r.0 ≡ true) × (r.1.contents ≡ m.contents))

  after_log-Changed :
      (env : Env) (change : Contents → Contents) (m : Memory) (e : Option StoreErr) (w : Option Wal)
      → Changed change m (after_log entries snapshots env change m e w)
  unfolding after_log
  after_log-Changed env change m none w = inl (refl, contents-maybe_snapshot env _)
  after_log-Changed env change m (some e) w = inr (refl, refl)

  commit-Changed :
      (env : Env) (entry : Entry) (change : Contents → Contents) (m : Memory)
      → Changed change m (commit entries snapshots env entry change m)
  unfolding commit
  commit-Changed env entry change m =
      let r = log_entry entries env.disk entry m.wal in after_log-Changed env change m r.0 r.1

  -- What `Set` makes of the value of each key, and what it returns.
  abbrev pub Stored : Text → Value → Memory → Option StoreErr × Memory → Type 0
  Stored key v m r =
      ((r.0 ≡ none)
        × ((j : Text)
            → get j r.1 ≡ (if text_eq key j then some (newest v (get key m)) else get j m)))
      ⊎ ((failed r.0 ≡ true) × ((j : Text) → get j r.1 ≡ get j m))

  Stored-change :
      (key : Text) (v : Value) (m : Memory) (r : Option StoreErr × Memory)
      → newest v (get key m) ≡ v
      → Changed (force_set key v) m r
      → Stored key v m r
  Stored-change key v m r n (inr (e, c)) = inr (e, λ j. ap (λ x. lookup j x.values) c)
  Stored-change key v m r n (inl (e, c)) = inl (
    e,
    λ j.
        ap (λ x. lookup j x.values) c
        ∙ lookup-force_set key j v m.contents
        ∙ ap (λ w. if text_eq key j then some w else get j m) (sym n),
  )

  pub set-Stored :
      (env : Env) (key : Text) (v : Value) (m : Memory)
      → Stored key v m (set entries snapshots env key v m)
  set-Stored env key v m =
      let change = commit-Changed env (set_entry key v) (force_set key v) m in
      let committed = commit entries snapshots env (set_entry key v) (force_set key v) m in
      elim (Option-cases (get key m)) [
        | inl e ↦
            let done : set entries snapshots env key v m
                ≡ commit entries snapshots env (set_entry key v) (force_set key v) m =
              unfold set in rw (e, set) refl in
            let n : newest v (get key m) ≡ v = unfold newest in rw (e, newest) refl in
            rw done (Stored-change key v m committed n change)
        | inr (c, e) ↦ elim (Bool-cases (is_newer v.version c.version)) [
          | inl f ↦
              let done : set entries snapshots env key v m
                  ≡ commit entries snapshots env (set_entry key v) (force_set key v) m =
                unfold set in rw (e, f, set) refl in
              let n : newest v (get key m) ≡ v = unfold newest in rw (e, f, newest) refl in
              rw done (Stored-change key v m committed n change)
          | inr f ↦
              let done : set entries snapshots env key v m ≡ (none, m) =
                unfold set in rw (e, f, set) refl in
              let n : newest v (get key m) ≡ c = unfold newest in rw (e, f, newest) refl in
              rw done (inl (refl, λ j. unchanged key j c m n e))
        ]
      ]
    where
      unchanged :
          (key j : Text) (c : Value) (m : Memory)
          → newest v (get key m) ≡ c
          → get key m ≡ some c
          → get j m ≡ (if text_eq key j then some (newest v (get key m)) else get j m)
      unchanged key j c m n e = elim (Bool-cases (text_eq key j)) [
        | inl s ↦ rw (s, n) (ap (λ k. get k m) (sym ((text_eq_iff key j).0 s)) ∙ e)
        | inr s ↦ rw s refl
      ]
