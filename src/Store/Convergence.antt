-- ===== src/Store/Convergence.antt =====
-- memory.go: `Set` under different orders of the versions. Stated of a store without a log,
-- `NewMemory`, whose writes cannot fail.
use minidist.Base.{
  ◌≡◌, refl, sym, ap, ◌∙◌, inl, inr, Option, none, some, arith, if◌then◌else◌, Bool-cases,
  Option-cases,
}
use minidist.Base.Text.{Text, text_eq, text_eq_iff}
use minidist.Base.Assoc.{text_eq_inst, lookup-insert}
use minidist.Store.Version.{Value, is_newer, is_newer_trans, is_newer_total, is_newer_asymm}
use minidist.Store.Memory.{
  Memory, Entry, Env, force_set, log_entry, after_log, maybe_snapshot, commit, set, get,
}
use minidist.Store.Recovery.Reopen.{set_entry, set-cases}
use minidist.Store.Snapshot.{Codec, SnapshotData}

-- Of two values the one that `Set` keeps.
unfoldable pub newest : Value → Option Value → Value
newest v none = v
newest v (some current) = if is_newer v.version current.version then v else current

newest_comm :
    (v v' : Value) (o : Option Value)
    → (v.version ≡ v'.version → v ≡ v')
    → newest v (some (newest v' o)) ≡ newest v' (some (newest v o))
unfolding newest
newest_comm v v' none h =
    ground (arith, is_newer_total v.version v'.version, is_newer_asymm v.version v'.version)
newest_comm v v' (some c) h = ground (
  arith,
  is_newer_total v.version v'.version,
  is_newer_asymm v.version v'.version,
  is_newer_trans v.version v'.version c.version,
  is_newer_trans v'.version v.version c.version,
  is_newer_total v.version c.version,
  is_newer_total v'.version c.version,
  is_newer_asymm v.version c.version,
  is_newer_asymm v'.version c.version,
)

module _ (entries : Codec Entry) (snapshots : Codec SnapshotData) where
  stored :
      (env : Env) (key j : Text) (v : Value) (m : Memory)
      → m.wal ≡ none
      → get j (commit entries snapshots env (set_entry key v) (force_set key v) m).1
        ≡ (if text_eq key j then some v else get j m)
  stored env key j v m e =
      unfold commit log_entry after_log maybe_snapshot force_set in
      rw (e, commit, log_entry, maybe_snapshot) (lookup-insert key j v m.contents.values)

  kept :
      (key j : Text) (c : Value) (m : Memory)
      → get key m ≡ some c
      → get j m ≡ (if text_eq key j then some c else get j m)
  kept key j c m h = elim (Bool-cases (text_eq key j)) [
    | inl e ↦ rw e (ap (λ k. get k m) (sym ((text_eq_iff key j).0 e)) ∙ h)
    | inr e ↦ rw e refl
  ]

  pub get-set :
      (env : Env) (key j : Text) (v : Value) (m : Memory)
      → m.wal ≡ none
      → get j (set entries snapshots env key v m).1
        ≡ (if text_eq key j then some (newest v (get key m)) else get j m)
  get-set env key j v m e = elim (Option-cases (get key m)) [
    | inl h ↦ unfold set newest in rw (h, stored env key j v m e, set, newest) refl
    | inr (c, h) ↦ elim (Bool-cases (is_newer v.version c.version)) [
      | inl n ↦ unfold set newest in rw (h, n, stored env key j v m e, set, newest) refl
      | inr n ↦ unfold set newest in rw (h, n, set, newest) (kept key j c m h)
    ]
  ]

  wal-set :
      (env : Env) (key : Text) (v : Value) (m : Memory)
      → m.wal ≡ none
      → (set entries snapshots env key v m).1.wal ≡ none
  wal-set env key v m e = elim (set-cases entries snapshots env key v m) [
    | inl h ↦ ap (λ t. t.1.wal) h ∙ e
    | inr h ↦
        ap (λ t. t.1.wal) h
        ∙ (unfold commit log_entry after_log maybe_snapshot in
            rw (e, commit, log_entry, maybe_snapshot) refl)
  ]

  both :
      (key key' j : Text) (v v' : Value) (m : Memory)
      → (key ≡ key' → v.version ≡ v'.version → v ≡ v')
      → (if text_eq key' j
          then some
              (newest v' (if text_eq key key' then some (newest v (get key m)) else get key' m))
          else if text_eq key j
          then some (newest v (get key m))
          else get j m)
        ≡ (if text_eq key j
            then some
                (newest v (if text_eq key' key then some (newest v' (get key' m)) else get key m))
            else if text_eq key' j
            then some (newest v' (get key' m))
            else get j m)
  both key key' j v v' m h = ground (
    arith,
    text_eq_iff key key',
    text_eq_iff key' key,
    text_eq_iff key j,
    text_eq_iff key' j,
    newest_comm v v' (get key m),
  )

  -- Two Sets on a store without a log, in either order, leave every key with the same value, if
  -- equal versions of the same key carry equal values.
  pub set_commutes :
      (env : Env) (key key' j : Text) (v v' : Value) (m : Memory)
      → m.wal ≡ none
      → (key ≡ key' → v.version ≡ v'.version → v ≡ v')
      → get j (set entries snapshots env key' v' (set entries snapshots env key v m).1).1
        ≡ get j (set entries snapshots env key v (set entries snapshots env key' v' m).1).1
  set_commutes env key key' j v v' m e h =
      let m1 = (set entries snapshots env key v m).1 in
      let m2 = (set entries snapshots env key' v' m).1 in
      get-set env key' j v' m1 (wal-set env key v m e)
      ∙ rw
          (
            get-set env key key' v m e,
            get-set env key j v m e,
            get-set env key' key v' m e,
            get-set env key' j v' m e,
          )
          (both key key' j v v' m h)
      ∙ sym (get-set env key j v m2 (wal-set env key' v' m e))
