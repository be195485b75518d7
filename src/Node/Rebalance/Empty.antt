-- ===== src/Node/Rebalance/Empty.antt =====
-- rebalance.go: a rebalance on a ring with no members.
use minidist.Base.{
  ℕ, suc, ◌<◌, ◌≡◌, refl, ap, ◌∙◌, inl, inr, true, false, none, some, List, [], ◌∷◌, ◌==◌, arith,
  length, if◌then◌else◌, Option-cases,
}
use minidist.Base.Text.{Text, text_eq}
use minidist.Base.Assoc.{lookup, text_eq_inst, nat_eq}
use minidist.Base.Sets.{contains, contains-cons_self}
use minidist.Store.Version.{Value, is_same, is_same_iff}
use minidist.HashRing.{Ring, get_n}
use minidist.HashRing.Valid.{IsValid}
use minidist.Node.Hints.{HintStore}
use minidist.Node.Quorum.{Cluster}
use minidist.Node.Replicas.{replicas_for_ring}
use minidist.Node.Cluster.{ClusterConfig, Membership, handle_membership_sync}
use minidist.Node.Cluster.Requests.{handle_membership_sync-Agrees}
use minidist.Node.Cluster.Syncs.{sync-Holds}
use minidist.Node.Cluster.Agreement.{Agrees}
use minidist.Node.Http.{method_put}
use minidist.Node.Rebalance.{
  RebalanceResult, delete_at, copy_all, Round, count_delete, rebalance_key,
}

no_points :
    (ring : Ring) (hs : List ℕ)
    → IsValid ring
    → ((m : Text) → contains ring.members m ≡ false)
    → ((h : ℕ) → contains hs h ≡ true → contains ring.hashes h ≡ true)
    → hs ≡ []
no_points ring [] v none' within = refl
no_points ring (h ∷ hs) v none' within =
    let listed = within h (contains-cons_self h hs) in
    elim (Option-cases (lookup h ring.nodes)) [
      | inl e ↦ absurd (ground (arith, v.listed h, e, listed))
      | inr (m, e) ↦ absurd (ground (arith, (v.owned h m e).0, none' m))
    ]

-- A valid ring without members gives no replicas.
no_replicas :
    (ring : Ring) (n : ℕ) (key : Text)
    → IsValid ring
    → ((m : Text) → contains ring.members m ≡ false)
    → replicas_for_ring ring n key ≡ some []
no_replicas ring n key v none' =
    let empty : (length ring.hashes == 0) ≡ true =
      ap (λ hs. length hs == 0) (no_points ring ring.hashes v none' (λ h c. c)) in
    let found : get_n (suc (length ring.hashes)) ring key n ≡ some [] =
      unfold get_n in rw (empty, get_n) refl in
    unfold replicas_for_ring in rw (found, replicas_for_ring) refl

-- With no replicas the node's value is dropped.
pub rebalance_key-no_replicas :
    (round : Round) (addr key : Text) (v : Value) (c : Cluster) (h : HintStore)
    (r : RebalanceResult)
    → (round.writes c) ≡ c
    → round.works ≡ true
    → c addr ≡ some v
    → (rebalance_key round addr [] key v c h r).0 ≡ (λ q. if text_eq addr q then none else c q)
rebalance_key-no_replicas round addr key v c h r quiet works e =
    let same : is_same v.version v.version ≡ true = (is_same_iff v.version v.version).1 refl in
    let dropped : delete_at true addr v.version c
        ≡ (some true, λ q. if text_eq addr q then none else c q) =
      unfold delete_at in rw (e, same, delete_at) refl in
    let run : rebalance_key round addr [] key v c h r ≡ (
      (delete_at round.works addr v.version (round.writes c)).1,
      (h, count_delete (delete_at round.works addr v.version (round.writes c)).0 r),
    ) =
      unfold rebalance_key copy_all contains in refl in
    ap (λ t. t.0) run
    ∙ ap (λ d. (delete_at round.works addr v.version d).1) quiet
    ∙ ap (λ w. (delete_at w addr v.version c).1) works
    ∙ ap (λ t. t.1) dropped

-- A sync of a newer configuration without members is accepted by a node whose ring is valid and
-- tracks its members; GetN on its ring then ends, and its next rebalance with what GetN gives
-- drops every value that it holds, without a copy anywhere, if nothing else happens to the key and
-- the deletion gets to the log.
pub empty_config_drops :
    (now : Text → ℕ) (config : ClusterConfig) (n : Membership) (replicas : ℕ) (round : Round)
    (addr key : Text) (v : Value) (c : Cluster) (h : HintStore) (r : RebalanceResult)
    → config.members ≡ []
    → n.config_version < config.version
    → Agrees n
    → round.writes c ≡ c
    → round.works ≡ true
    → c addr ≡ some v
    → let ring = (handle_membership_sync now method_put (some config) n).1.ring in
      (rs : List Text) × (replicas_for_ring ring replicas key ≡ some rs)
      × ((rebalance_key round addr rs key v c h r).0 ≡ (λ q. if text_eq addr q then none else c q))
empty_config_drops now config n replicas round addr key v c h r empty newer agrees quiet works e =
    let after = (handle_membership_sync now method_put (some config) n).1 in
    let holds = sync-Holds config (omega arith) now n (inl newer) in
    let valid : IsValid after.ring =
      (handle_membership_sync-Agrees now method_put (some config) n agrees).valid in
    let members : (m : Text) → contains after.ring.members m ≡ false =
      λ m. holds.members m ∙ ap (λ ms. contains ms m) empty ∙ (unfold contains in refl) in
    (
      [],
      no_replicas after.ring replicas key valid members,
      rebalance_key-no_replicas round addr key v c h r quiet works e,
    )
