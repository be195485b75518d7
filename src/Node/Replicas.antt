-- ===== src/Node/Replicas.antt =====
-- replication.go: the replicas that a ring gives for a key.
use minidist.Base.{ℕ, suc, ◌≡◌, Option, some, List, length, arith, min}
use minidist.Base.Text.{Text}
use minidist.Base.Assoc.{text_eq_inst}
use minidist.Base.Sets.{Distinct, Within}
use minidist.HashRing.{Ring, get_n}
use minidist.HashRing.Valid.{IsValid}
use minidist.HashRing.Preference.{Covers}
use minidist.HashRing.Replicas.{get_n_replicas}

-- `replicasForRing`: `GetN` with as much fuel as one turn of the ring takes; `none` is a walk that goes
-- on after that, for good.
unfoldable pub replicas_for_ring : Ring → ℕ → Text → Option (List Text)
unfolding get_n
replicas_for_ring ring replicas key = get_n (suc (length ring.hashes)) ring key replicas

-- On a valid ring where every member owns a point, the walk ends with distinct members of the ring, as
-- many as are asked for while there are enough.
pub replicas_for_ring_lem :
    (ring : Ring) (n : ℕ) (key : Text)
    → IsValid ring
    → Covers ring
    → (rs : List Text) × (replicas_for_ring ring n key ≡ some rs)
      × (length rs ≡ min n (length ring.members))
      × Distinct rs
      × Within rs ring.members
replicas_for_ring_lem ring n key v covers =
    let (rs, found, size, distinct, within) =
      get_n_replicas ring v covers (suc (length ring.hashes)) key n (omega arith) in
    unfold replicas_for_ring in (rs, found, size, distinct, within)
