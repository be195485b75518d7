-- ===== src/Node/Quorum/Overlap.antt =====
-- replication.go: the counts of the quorums, and why two quorums meet.
use minidist.Base.{
  ℕ, suc, ◌+◌, ◌<◌, ◌≡◌, refl, ap, ◌∙◌, inl, inr, Bool, true, false, ◌&&◌, Option, none, some, List,
  [], ◌∷◌, arith, length, if◌then◌else◌, Bool-cases,
}
use mathlib.Core.Path.{subst}
use minidist.Base.Text.{Text, text_eq, text_eq_iff}
use minidist.Base.Assoc.{text_eq_inst}
use minidist.Base.Sets.{contains}
use minidist.Store.Version.{Value, is_newer, is_newer_irrefl, is_newer_trans}
use minidist.Store.Convergence.{newest}
use minidist.Node.Quorum.{
  Cluster, Delivery, acknowledged, unacknowledged, lost, store_at, put_replica, Written,
  write_result, write_all,
}

abbrev pub count : (Text → Bool) → List Text → ℕ
count p [] = 0
count p (r ∷ rs) = if p r then suc (count p rs) else count p rs

-- Two sets that together have more than all replicas share one.
pub count_overlap :
    (p q : Text → Bool) (rs : List Text)
    → length rs < count p rs + count q rs
    → (r : Text) × ((contains rs r ≡ true) × ((p r ≡ true) × (q r ≡ true)))
unfolding contains
count_overlap p q [] h = absurd (omega arith)
count_overlap p q (r ∷ rs) h = elim (Bool-cases (p r && q r)) [
  | inl e ↦ (r, (ground (arith, text_eq_iff r r), (ground arith, ground arith)))
  | inr e ↦ let (x, (i, b)) = count_overlap p q rs (ground arith) in (x, (ground arith, b))
]

-- A value at a replica that is not older than `v`.
abbrev pub AtLeast : Value → Option Value → Type 0
AtLeast v o = (x : Value) × ((o ≡ some x) × (is_newer v.version x.version ≡ false))

pub newest_own : (v : Value) (o : Option Value) → AtLeast v (some (newest v o))
unfolding newest
newest_own v none = (v, (refl, is_newer_irrefl v.version))
newest_own v (some x) = elim (Bool-cases (is_newer v.version x.version)) [
  | inl e ↦ (v, (rw e refl, is_newer_irrefl v.version))
  | inr e ↦ (x, (rw e refl, e))
]

pub newest_keeps : (v w : Value) (o : Option Value) → AtLeast v o → AtLeast v (some (newest w o))
unfolding newest
newest_keeps v w o (x, (e, n)) = rw e (elim (Bool-cases (is_newer w.version x.version)) [
  | inl h ↦ (w, (rw h refl, ground (arith, is_newer_trans v.version w.version x.version)))
  | inr h ↦ (x, (rw h refl, n))
])

abbrev pub is_acked : Delivery → Bool
is_acked acknowledged = true
is_acked unacknowledged = false
is_acked lost = false

abbrev pub acked : (Text → Delivery) → Text → Bool
acked network r = is_acked (network r)

-- Every replica holds a value that is not older than the one it held.
abbrev pub Grows : Cluster → Cluster → Type 0
Grows c d = (r : Text) (v : Value) → AtLeast v (c r) → AtLeast v (d r)

pub store_at-Grows : (replica : Text) (w : Value) (c : Cluster) → Grows c (store_at replica w c)
store_at-Grows replica w c r v a = elim (Bool-cases (text_eq replica r)) [
  | inl e ↦ rw e (newest_keeps v w (c r) a)
  | inr e ↦ rw e a
]

pub put_replica-Grows :
    (d : Delivery) (replica : Text) (w : Value) (c : Cluster)
    → Grows c (put_replica d replica w c).1
unfolding put_replica
put_replica-Grows acknowledged replica w c = store_at-Grows replica w c
put_replica-Grows unacknowledged replica w c = store_at-Grows replica w c
put_replica-Grows lost replica w c = λ r v a. a

cluster-write_result :
    (replica key : Text) (v : Value) (result : Bool × Cluster) (w : Written)
    → (write_result replica key v result w).cluster ≡ result.1
unfolding write_result
cluster-write_result replica key v (true, c) w = refl
cluster-write_result replica key v (false, c) w = refl

write_all-Grows :
    (network : Text → Delivery) (key : Text) (v : Value) (rs : List Text) (w : Written)
    → Grows w.cluster (write_all network key v rs w).cluster
unfolding write_all
write_all-Grows network key v [] w r x a = a
write_all-Grows network key v (replica ∷ rest) w r x a =
    let result = put_replica (network replica) replica v w.cluster in
    write_all-Grows network key v rest (write_result replica key v result w) r x (
      rw (cluster-write_result replica key v result w)
        (put_replica-Grows (network replica) replica v w.cluster r x a))

-- A replica that acknowledges the write holds the value.
pub acked_holds :
    (d : Delivery) (replica : Text) (v : Value) (c : Cluster)
    → (put_replica d replica v c).0 ≡ true
    → AtLeast v ((put_replica d replica v c).1 replica)
unfolding put_replica
acked_holds acknowledged replica v c h =
    let same : text_eq replica replica ≡ true = ground (arith, text_eq_iff replica replica) in
    rw same (newest_own v (c replica))
acked_holds unacknowledged replica v c h = absurd (ground arith)
acked_holds lost replica v c h = absurd (ground arith)

put_replica-acked :
    (d : Delivery) (replica : Text) (v : Value) (c : Cluster)
    → (put_replica d replica v c).0 ≡ is_acked d
unfolding put_replica
put_replica-acked acknowledged replica v c = refl
put_replica-acked unacknowledged replica v c = refl
put_replica-acked lost replica v c = refl

success-write_result :
    (replica key : Text) (v : Value) (result : Bool × Cluster) (w : Written)
    → (write_result replica key v result w).success
      ≡ (if result.0 then suc w.success else w.success)
unfolding write_result
success-write_result replica key v (true, c) w = omega arith
success-write_result replica key v (false, c) w = refl

pub success-write_all :
    (network : Text → Delivery) (key : Text) (v : Value) (rs : List Text) (w : Written)
    → (write_all network key v rs w).success ≡ w.success + count (acked network) rs
unfolding write_all
success-write_all network key v [] w = omega arith
success-write_all network key v (replica ∷ rest) w =
    let result = put_replica (network replica) replica v w.cluster in
    ground (
      arith,
      success-write_all network key v rest (write_result replica key v result w),
      success-write_result replica key v result w,
      put_replica-acked (network replica) replica v w.cluster,
    )

pub write_all-holds :
    (network : Text → Delivery) (key : Text) (v : Value) (rs : List Text) (w : Written) (r : Text)
    → contains rs r ≡ true
    → acked network r ≡ true
    → AtLeast v ((write_all network key v rs w).cluster r)
unfolding write_all contains
write_all-holds network key v [] w r i a = absurd (ground arith)
write_all-holds network key v (replica ∷ rest) w r i a =
    let result = put_replica (network replica) replica v w.cluster in
    let next = write_result replica key v result w in
    elim (Bool-cases (text_eq replica r)) [
      | inr e ↦ write_all-holds network key v rest next r (ground arith) a
      | inl e ↦
          let same = (text_eq_iff replica r).0 e in
          let ack : result.0 ≡ true =
            put_replica-acked (network replica) replica v w.cluster ∙ ap (acked network) same ∙ a in
          let here : AtLeast v (next.cluster replica) =
            rw (cluster-write_result replica key v result w)
              (acked_holds (network replica) replica v w.cluster ack) in
          write_all-Grows network key v rest next r v
            (subst (λ k. AtLeast v (next.cluster k)) same here)
    ]
