-- ===== src/Node/Cluster.antt =====
-- cluster_membership.go, and handleMembershipSync and handleGossip of handler.go: the members that a
-- node believes in, and how a coordinator changes them on all nodes. `Nodes` holds the part of each
-- node that this is about. The network is a parameter: what becomes of each request. A
-- sync runs as one step, though its handler takes no lock around the ring and the detector.
pub mod Agreement
pub mod Requests
pub mod Reached
pub mod Syncs
pub mod Changes
pub mod Outcome
pub mod Members
pub mod Unanswered
mod Witnesses
use minidist.Base.{
  ℕ, zero, suc, ◌+◌, ◌%◌, ◌^◌, Bool, true, false, not, ◌&&◌, Option, none, some, List, [], ◌∷◌,
  ◌++◌, ltb, leb, ◌==◌, length, if◌then◌else◌,
}
use minidist.Base.Text.{Text, text_eq}
use minidist.Base.Assoc.{text_eq_inst}
use minidist.Base.Words.{u64}
use minidist.Base.Sets.{contains, without}
use minidist.HashRing.{Ring, add, remove_node}
use minidist.HashRing.Members.{members_of}
use minidist.Node.Detector.{FailureDetector, GossipMember, merge, track_member, untrack_member}
use minidist.Node.Http.{
  method_put, method_post, status_no_content, status_bad_request, status_method_not_allowed,
}
use minidist.Node.Quorum.{Delivery, acknowledged, unacknowledged, lost}

pub record ClusterConfig : Type 0 where
  pub version : ℕ  -- uint64
  pub members : List Text

-- What a node knows of the cluster.
pub record Membership : Type 0 where
  pub ring : Ring
  pub fd : FailureDetector
  pub config_version : ℕ

-- The loop of `handleMembershipSync` over the members of before.
unfoldable pub drop_member : Text → Membership → Membership
drop_member member n = record n {
  ring = remove_node n.ring member;
  fd = untrack_member member n.fd;
}

unfoldable pub drop_missing : List Text → List Text → Membership → Membership
unfolding drop_member
drop_missing members [] n = n
drop_missing members (member ∷ rest) n =
    drop_missing members rest (if contains members member then n else drop_member member n)

unfoldable pub join_member : ℕ → Text → Membership → Membership
join_member now member n = record n { ring = add n.ring member; fd = track_member now member n.fd }

-- The loop over the new members; `now` is the clock when a member is tracked.
unfoldable pub join_all : (Text → ℕ) → List Text → Membership → Membership
unfolding join_member
join_all now [] n = n
join_all now (member ∷ rest) n = join_all now rest (join_member (now member) member n)

-- The end of `handleMembershipSync`, for a configuration that is new.
unfoldable pub adopt_config : (Text → ℕ) → ClusterConfig → Membership → Membership
unfolding drop_missing join_all
adopt_config now config n =
    let joined = join_all now config.members (drop_missing config.members (members_of n.ring) n) in
    record joined { config_version = config.version }

-- `handleMembershipSync` on a body that decodes: the status, and the node.
unfoldable pub sync_config : (Text → ℕ) → ClusterConfig → Membership → ℕ × Membership
unfolding adopt_config
sync_config now config n =
    if config.version == 0
    then (status_bad_request, n)
    else if leb config.version n.config_version
    then (status_no_content, n)
    else (status_no_content, adopt_config now config n)

unfoldable pub handle_membership_sync :
    (Text → ℕ) → Text → Option ClusterConfig → Membership → ℕ × Membership
unfolding sync_config
handle_membership_sync now method none n =
    (if text_eq method method_put then status_bad_request else status_method_not_allowed, n)
handle_membership_sync now method (some config) n =
    if text_eq method method_put then sync_config now config n else (status_method_not_allowed, n)

-- The filter of `handleGossip`.
unfoldable pub keep_members : List Text → List GossipMember → List GossipMember
keep_members members [] = []
keep_members members (remote ∷ rest) =
    let kept = keep_members members rest in
    if contains members remote.node then remote ∷ kept else kept

-- `handleGossip`: `ring` is the ring of the node when its members are read, and `n` the node when the
-- gossip is merged. No lock is held from the one to the other.
unfoldable pub handle_gossip :
    ℕ → Text → Option (List GossipMember) → Ring → Membership → ℕ × Membership
unfolding keep_members
handle_gossip now method none ring n =
    (if text_eq method method_post then status_bad_request else status_method_not_allowed, n)
handle_gossip now method (some remotes) ring n =
    if text_eq method method_post
    then (
      status_no_content,
      record n { fd = merge now (keep_members (members_of ring) remotes) n.fd },
    )
    else (status_method_not_allowed, n)

abbrev pub Nodes : Type 0
Nodes = Text → Membership

abbrev pub set_node : Text → Membership → Nodes → Nodes
set_node a n nodes = λ b. if text_eq a b then n else nodes b

-- What surrounds the requests of one change: what becomes of each sync, by the configuration and the
-- target; whether the target of a `sendRebalance`, and of the `sendDrain`, answers with success;
-- and the clock of each target.
pub record Network : Type 0 where
  pub syncs : ClusterConfig → Text → Delivery
  pub rebalances : Text → Bool
  pub drains : Text → List Text → Bool
  pub clock : Text → Text → ℕ

-- `sendMembershipSync`: whether it returns without an error, and the nodes after it.
unfoldable pub deliver_sync : Delivery → (Text → ℕ) → Text → ClusterConfig → Nodes → Bool × Nodes
unfolding handle_membership_sync
deliver_sync acknowledged now target config nodes =
    let r = handle_membership_sync now method_put (some config) (nodes target) in
    (ltb r.0 300, set_node target r.1 nodes)
deliver_sync unacknowledged now target config nodes =
    let r = handle_membership_sync now method_put (some config) (nodes target) in
    (false, set_node target r.1 nodes)
deliver_sync lost now target config nodes = (false, nodes)

unfoldable pub send_membership_sync : Network → Text → ClusterConfig → Nodes → Bool × Nodes
unfolding deliver_sync
send_membership_sync net target config nodes =
    deliver_sync (net.syncs config target) (net.clock target) target config nodes

pub record Synced : Type 0 where
  pub complete : Bool
  pub applied : List Text
  pub nodes : Nodes

-- The first loop of `applyClusterConfig`.
unfoldable pub sync_all : Network → ClusterConfig → List Text → List Text → Nodes → Synced
sync_all net next [] applied nodes = record { complete = true; applied = applied; nodes = nodes }
sync_all net next (target ∷ rest) applied nodes =
    let r = send_membership_sync net target next nodes in
    elim r.0 [
      | false ↦ record { complete = false; applied = applied; nodes = r.1 }
      | true ↦ sync_all net next rest (applied ++ target ∷ []) r.1
    ]

-- The second loop of `applyClusterConfig`.
unfoldable pub rebalance_all : (Text → Bool) → List Text → Bool
rebalance_all rebalances [] = true
rebalance_all rebalances (target ∷ rest) =
    let more = rebalance_all rebalances rest in if rebalances target then more else false

unfoldable pub roll_back : Network → ClusterConfig → List Text → Nodes → Nodes
unfolding send_membership_sync
roll_back net config [] nodes = nodes
roll_back net config (target ∷ rest) nodes =
    roll_back net config rest (send_membership_sync net target config nodes).1

unfoldable pub compensate_cluster_config :
    Network → Text → List Text → ClusterConfig → ℕ → Nodes → Nodes
unfolding roll_back
compensate_cluster_config net addr targets previous version nodes =
    let rollback : ClusterConfig = record { version = version; members = previous.members } in
    let after = roll_back net rollback targets nodes in
    if contains targets addr
    then after
    else let own = after addr in set_node addr (record own { config_version = version }) after

unfoldable pub apply_cluster_config :
    Network → Text → List Text → ClusterConfig → ClusterConfig → Nodes → Bool × Nodes
unfolding sync_all rebalance_all compensate_cluster_config
apply_cluster_config net addr targets previous next nodes =
    let s = sync_all net next targets [] nodes in
    if s.complete && rebalance_all net.rebalances targets then (true, s.nodes) else (
      false,
      compensate_cluster_config net addr s.applied previous (u64 (next.version + 1)) s.nodes,
    )

-- `AddMember` by the node `addr`.
unfoldable pub add_member : Network → Text → Text → Nodes → Bool × Nodes
unfolding apply_cluster_config
add_member net addr member nodes =
    let current = members_of (nodes addr).ring in
    if contains current member
    then (true, nodes)
    else let all_members = current ++ member ∷ [] in
      let version = (nodes addr).config_version in
      apply_cluster_config net addr all_members (record { version = version; members = current })
        (record { version = u64 (version + 1); members = all_members }) nodes

-- `RemoveMember` by the node `addr`; `removeMember` is `without`.
unfoldable pub remove_member : Network → Text → Text → Nodes → Bool × Nodes
unfolding apply_cluster_config
remove_member net addr member nodes =
    let current = members_of (nodes addr).ring in
    if not (contains current member)
    then (false, nodes)
    else if leb (length current) 1
    then (false, nodes)
    else let future_members = without member current in
      if not (net.drains member future_members)
      then (false, nodes)
      else let version = (nodes addr).config_version in
        apply_cluster_config net addr future_members
          (record { version = version; members = current })
          (record { version = u64 (version + 1); members = future_members }) nodes
