-- ===== src/Node/Replication/Refines.antt =====
-- replication.go: putReplica over HTTP and a store, against the model of the quorums.
use minidist.Base.{
  leb, ◌&&◌, ◌==◌, ◌∷◌, ℕ, ◌<◌, ◌≡◌, refl, sym, ap, ◌∙◌, inl, inr, Bool, true, false, not, ◌==◌,
  Option, some, List, [], arith, length, if◌then◌else◌, Bool-cases,
}
use minidist.Base.Text.{Text, text_eq, text_eq_iff}
use minidist.Base.Assoc.{text_eq_inst}
use minidist.Store.Version.{Value}
use minidist.Store.Convergence.{newest}
use minidist.Store.Snapshot.{Codec, SnapshotData, RoundTrips}
use minidist.Store.Memory.{Memory, Entry, Env, StoreErr, get, set}
use minidist.Node.Quorum.{
  Cluster, Delivery, acknowledged, unacknowledged, lost, store_at, put_replica,
}
use minidist.Node.Quorum.Overlap.{is_acked}
use minidist.Node.Http.{method_put}
use minidist.Node.Replication.{
  Memories, Routing, read_as, set_memory, handle_internal_put, handle_internal_kv, send_value,
  put_replica_at,
}
use minidist.Store.Stored.{failed, set-Stored}

-- A byte that stands for itself in the path of a URL, and is not '/'.
abbrev pub is_plain_byte : ℕ → Bool
is_plain_byte c =
    leb 33 c && leb c 126 && not (c == 37) && not (c == 63) && not (c == 35) && not (c == 47)

abbrev pub are_plain : Text → Bool
are_plain [] = true
are_plain (c ∷ cs) = is_plain_byte c && are_plain cs

-- One segment of a path that net/http does not clean: not empty, '.' or '..'.
abbrev pub is_plain : Text → Bool
is_plain key =
    are_plain key
    && not (length key == 0)
    && not (text_eq key (46 ∷ []))
    && not (text_eq key (46 ∷ 46 ∷ []))

-- What net/url and net/http document: such a key is read as it was written.
abbrev pub KeepsPlain : Routing → Type 0
KeepsPlain routing = (key : Text) → is_plain key ≡ true → routing.put_route key ≡ read_as key

-- The value of a key at every node.
abbrev pub cluster_of : Text → Memories → Cluster
cluster_of key mems = λ r. get key (mems r)

-- What a write that becomes `d` does to the store of the replica.
abbrev pub Did : Delivery → Text → Value → Memory → Memory → Type 0
Did acknowledged key v m m' =
    (j : Text) → get j m' ≡ (if text_eq key j then some (newest v (get key m)) else get j m)
Did unacknowledged key v m m' =
    (j : Text) → get j m' ≡ (if text_eq key j then some (newest v (get key m)) else get j m)
Did lost key v m m' = (j : Text) → get j m' ≡ get j m

abbrev pub Outcome : Text → Value → Memory → Bool × Memory → Type 0
Outcome key v m r = (d : Delivery) × (r.0 ≡ is_acked d) × Did d key v m r.1

module _ (entries : Codec Entry) (snapshots : Codec SnapshotData) (values : Codec Value) where
  abbrev set_at : Env → Text → Value → Memory → Option StoreErr × Memory
  set_at env key v m = set entries snapshots env key v m

  set-Outcome :
      (env : Env) (key : Text) (v : Value) (m : Memory)
      → Outcome key v m (not (failed (set_at env key v m).0), (set_at env key v m).1)
  set-Outcome env key v m = elim (set-Stored entries snapshots env key v m) [
    | inl (e, d) ↦ (acknowledged, ap (λ x. not (failed x)) e, d)
    | inr (e, d) ↦ (lost, ap not e, d)
  ]

  handle_put :
      (env : Env) (key : Text) (v : Value) (body : List ℕ) (m : Memory)
      → values.unmarshal body ≡ some v
      → 0 < length key
      → handle_internal_kv entries snapshots values env method_put key body m
        ≡ ((if not (failed (set_at env key v m).0) then 204 else 500, []), (set_at env key v m).1)
  handle_put env key v body m u p =
      let named : (length key == 0) ≡ false = ground arith in
      let own : text_eq method_put method_put ≡ true = (text_eq_iff method_put method_put).1 refl in
      let run : handle_internal_put entries snapshots values env key body m
          ≡ (if not (failed (set_at env key v m).0) then 204 else 500, (set_at env key v m).1) =
        unfold handle_internal_put in rw (u, handle_internal_put) refl in
      unfold handle_internal_kv in rw (named, own, run, handle_internal_kv) refl

  send_value-Outcome :
      (d : Delivery) (env : Env) (key : Text) (v : Value) (body : List ℕ) (m : Memory)
      → values.unmarshal body ≡ some v
      → 0 < length key
      → Outcome key v m (send_value entries snapshots values d env key body m)
  unfolding send_value
  send_value-Outcome lost env key v body m u p = (lost, refl, λ j. refl)
  send_value-Outcome acknowledged env key v body m u p =
      elim (set-Stored entries snapshots env key v m) [
        | inl (e, did) ↦ (
          acknowledged,
          rw (handle_put env key v body m u p) (rw e refl),
          rw (handle_put env key v body m u p) did,
        )
        | inr (e, did) ↦ (
          lost,
          rw (handle_put env key v body m u p) (rw e refl),
          rw (handle_put env key v body m u p) did,
        )
      ]
  send_value-Outcome unacknowledged env key v body m u p =
      elim (set-Stored entries snapshots env key v m) [
        | inl (e, did) ↦ (unacknowledged, refl, rw (handle_put env key v body m u p) did)
        | inr (e, did) ↦ (lost, refl, rw (handle_put env key v body m u p) did)
      ]

  stored_there :
      (replica key : Text) (v : Value) (mems : Memories) (m : Memory)
      → Did acknowledged key v (mems replica) m
      → (j r : Text)
      → cluster_of j (set_memory replica m mems) r ≡ (
          if text_eq key j then store_at replica v (cluster_of key mems) r else cluster_of j mems r)
  stored_there replica key v mems m did j r = elim (Bool-cases (text_eq replica r)) [
    | inr o ↦ elim (Bool-cases (text_eq key j)) [
      | inr k ↦ rw (o, k) refl
      | inl k ↦ rw (o, k) (ap (λ t. get t (mems r)) (sym ((text_eq_iff key j).0 k)))
    ]
    | inl o ↦
        let same : replica ≡ r = (text_eq_iff replica r).0 o in
        rw o (
          did j
          ∙ ap (λ q. if text_eq key j then some (newest v (get key (mems q))) else get j (mems q))
              same)
  ]

  unchanged_there :
      (replica key : Text) (mems : Memories) (m : Memory)
      → ((j : Text) → get j m ≡ get j (mems replica))
      → (j r : Text)
      → cluster_of j (set_memory replica m mems) r
        ≡ (if text_eq key j then cluster_of key mems r else cluster_of j mems r)
  unchanged_there replica key mems m did j r =
      let other : cluster_of j mems r
          ≡ (if text_eq key j then cluster_of key mems r else cluster_of j mems r) =
        elim (Bool-cases (text_eq key j)) [
          | inr k ↦ rw k refl
          | inl k ↦ rw k (ap (λ t. get t (mems r)) (sym ((text_eq_iff key j).0 k)))
        ] in
      elim (Bool-cases (text_eq replica r)) [
        | inr o ↦ rw o other
        | inl o ↦
            let same : replica ≡ r = (text_eq_iff replica r).0 o in
            rw o (did j ∙ ap (λ q. get j (mems q)) same ∙ other)
      ]

  -- The values of the keys after a write that becomes `d`.
  abbrev pub Written : Delivery → Text → Text → Value → Memories → Memories → Type 0
  Written d replica key v mems after =
      (j r : Text)
      → cluster_of j after r ≡ (
          if text_eq key j
          then (put_replica d replica v (cluster_of key mems)).1 r
          else cluster_of j mems r)

  lifted :
      (replica key : Text) (v : Value) (mems : Memories) (d : Delivery) (m : Memory)
      → Did d key v (mems replica) m
      → Written d replica key v mems (set_memory replica m mems)
  unfolding put_replica
  lifted replica key v mems acknowledged m did = stored_there replica key v mems m did
  lifted replica key v mems unacknowledged m did = stored_there replica key v mems m did
  lifted replica key v mems lost m did = unchanged_there replica key mems m did

  put_replica-acked :
      (d : Delivery) (replica : Text) (v : Value) (c : Cluster)
      → (put_replica d replica v c).0 ≡ is_acked d
  unfolding put_replica
  put_replica-acked acknowledged replica v c = refl
  put_replica-acked unacknowledged replica v c = refl
  put_replica-acked lost replica v c = refl

  -- Whatever becomes of the request, of the log and of the snapshot at the replica, putReplica of
  -- a value that the codec reads back, for a key of printable ASCII bytes without '%', '?', '#'
  -- and '/' that is not empty, '.' or '..', and that net/url and net/http therefore deliver as it
  -- was written, does to the values of the key at the nodes what the model of the quorums has for
  -- one of its three outcomes, returns without an error exactly for an acknowledged one, and
  -- leaves every other key as it was.
  pub put_replica_at-put_replica :
      (routing : Routing) (d : Delivery) (envs : Text → Env) (addr replica key : Text) (v : Value)
      (body : List ℕ) (mems : Memories)
      → RoundTrips values v body
      → KeepsPlain routing
      → is_plain key ≡ true
      → let r = put_replica_at routing entries snapshots values d envs addr replica key v mems in
        (d' : Delivery) × (r.0 ≡ (put_replica d' replica v (cluster_of key mems)).0)
        × ((j q : Text)
            → cluster_of j r.1 q ≡ (
                if text_eq key j
                then (put_replica d' replica v (cluster_of key mems)).1 q
                else cluster_of j mems q))
  put_replica_at-put_replica routing d envs addr replica key v body mems trips keeps plain =
      elim (Bool-cases (text_eq replica addr)) [
        | inl e ↦
            let same : replica ≡ addr = (text_eq_iff replica addr).0 e in
            let at : Text → Bool × Memories = λ a.
              let r = set_at (envs a) key v (mems a) in (not (failed r.0), set_memory a r.1 mems) in
            let run : put_replica_at routing entries snapshots values d envs addr replica key v mems
                ≡ at replica =
              unfold put_replica_at in rw (e, put_replica_at) (ap at (sym same)) in
            let (d', acked, did) = set-Outcome (envs replica) key v (mems replica) in
            rw run (
              d',
              acked ∙ sym (put_replica-acked d' replica v (cluster_of key mems)),
              lifted replica key v mems d' (set_at (envs replica) key v (mems replica)).1 did,
            )
        | inr e ↦
            let r = send_value entries snapshots values d (envs replica) key body (mems replica) in
            let run : put_replica_at routing entries snapshots values d envs addr replica key v mems
                ≡ (r.0, set_memory replica r.1 mems) =
              unfold put_replica_at in rw (e, trips.0, keeps key plain, put_replica_at) refl in
            let (d', acked, did) =
              send_value-Outcome d (envs replica) key v body (mems replica) trips.1
                (ground (arith, plain)) in
            rw run (
              d',
              acked ∙ sym (put_replica-acked d' replica v (cluster_of key mems)),
              lifted replica key v mems d' r.1 did,
            )
      ]
