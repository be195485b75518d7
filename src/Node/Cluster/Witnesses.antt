-- ===== src/Node/Cluster/Witnesses.antt =====
-- The theorems about membership, at concrete nodes.
use minidist.Base.{
  ℕ, ◌≡◌, refl, inl, true, false, not, ◌||◌, some, List, [], ◌∷◌, arith, if◌then◌else◌,
}
use minidist.Base.Text.{Text, text_eq, text_lt}
use minidist.Base.TextSort.{sort_texts}
use minidist.Base.Assoc.{text_eq_inst}
use minidist.Base.Sets.{contains}
use minidist.HashRing.Valid.{IsValid}
use minidist.HashRing.Members.{members_of}
use minidist.Node.Http.{method_put}
use minidist.Node.Detector.{mark_failure}
use minidist.Node.Quorum.{acknowledged, unacknowledged}
use minidist.Node.Cluster.{
  ClusterConfig, Membership, Nodes, Network, sync_config, handle_membership_sync, deliver_sync,
  send_membership_sync, sync_all, rebalance_all, apply_cluster_config, add_member,
}
use minidist.Node.Cluster.Agreement.{tracks}
use minidist.Node.Cluster.Syncs.{Holds}
use minidist.Node.Cluster.Reached.{
  start_node, start, later, synced, Reach-start_node, late_probe_tracks_removed,
}
use minidist.Node.Cluster.Outcome.{Restored, apply_cluster_config-Restored}
use minidist.Node.Cluster.Members.{add_member-done}
use minidist.Node.Cluster.Unanswered.{unanswered_keeps_next}

abbrev a : Text
a = 97 ∷ []

abbrev b : Text
b = 98 ∷ []

abbrev c : Text
c = 99 ∷ []

abbrev node_of : List Text → Membership
node_of members = record {
  ring = record { virtual_nodes = 1; nodes = []; hashes = []; members = members };
  fd = record { self = a; members = [] };
  config_version = 0;
}

abbrev nodes : Nodes
nodes = λ k. node_of (a ∷ b ∷ [])

-- Every request is answered, but for the rebalance of one node.
abbrev net : Text → Network
net failing = record {
  syncs = λ config t. acknowledged;
  rebalances = λ t. not (text_eq failing t);
  drains = λ t members. true;
  clock = λ t k. 0;
}

abbrev config : ℕ → List Text → ClusterConfig
config v members = record { version = v; members = members }

abbrev started : Membership
started = start_node 0 0 a (a ∷ b ∷ []) 1

abbrev moved : Membership
moved = (handle_membership_sync (λ k. 0) method_put (some (config 1 (c ∷ []))) started).1

a_in_nodes : contains (a ∷ b ∷ []) a ≡ true
unfolding contains text_eq
a_in_nodes = refl

Reach-start_node_example :
    IsValid moved.ring × ((m : Text) → tracks moved.fd m ≡ contains moved.ring.members m)
Reach-start_node_example =
    Reach-start_node 0 0 a (a ∷ b ∷ []) 1 moved a_in_nodes
      (later start (synced (λ k. 0) method_put (some (config 1 (c ∷ [])))))

c_not_in : contains (a ∷ b ∷ []) c ≡ false
unfolding contains text_eq
c_not_in = refl

c_not_alone : contains (a ∷ []) c ≡ false
unfolding contains text_eq
c_not_alone = refl

abbrev late : Membership
late = let n = node_of (a ∷ b ∷ []) in record n { fd = mark_failure 5 c n.fd }

abbrev after_late : Membership
after_late = (handle_membership_sync (λ k. 0) method_put (some (config 1 (a ∷ []))) late).1

late_probe_tracks_removed_example :
    (tracks late.fd c ≡ true)
    × (tracks after_late.fd c ≡ true)
    × (contains after_late.ring.members c ≡ false)
late_probe_tracks_removed_example =
    late_probe_tracks_removed 5 (λ k. 0) c (config 1 (a ∷ [])) (node_of (a ∷ b ∷ [])) c_not_in
      c_not_alone

added : (add_member (net []) a c nodes).0 ≡ true
unfolding add_member apply_cluster_config sync_all rebalance_all send_membership_sync deliver_sync
    handle_membership_sync sync_config members_of sort_texts contains text_eq text_lt
added = refl

add_member-done_example :
    (((add_member (net []) a c nodes).1 b).config_version ≡ 1)
    × ((m : Text)
        → contains ((add_member (net []) a c nodes).1 b).ring.members m
          ≡ (contains (a ∷ b ∷ []) m || text_eq c m))
unfolding contains text_eq
add_member-done_example =
    add_member-done (net []) a c nodes c_not_in (omega arith) (λ k. omega arith) added b refl

abbrev members : List Text
members = a ∷ b ∷ c ∷ []

failed :
    (apply_cluster_config (net c) a members (config 0 (a ∷ b ∷ [])) (config 1 members) nodes).0
    ≡ false
unfolding apply_cluster_config sync_all rebalance_all send_membership_sync deliver_sync
    handle_membership_sync sync_config contains text_eq
failed = refl

apply_cluster_config-Restored_example :
    ((k : Text)
      → Restored (net c) a members (config 0 (a ∷ b ∷ [])) (config 1 members) nodes (nodes k) (
          (apply_cluster_config
              (net c)
              a
              members
              (config 0 (a ∷ b ∷ []))
              (config 1 members)
              nodes).1
            k))
    × (((apply_cluster_config (net c) a members (config 0 (a ∷ b ∷ [])) (config 1 members) nodes).1
          a).config_version
        ≡ 2)
apply_cluster_config-Restored_example =
    apply_cluster_config-Restored (net c) a members (config 0 (a ∷ b ∷ [])) (config 1 members) nodes
      (omega arith) (omega arith) (λ k h. inl (omega arith)) (λ t e. cc) (λ t e. cc) failed

-- The answer of one node is lost.
abbrev silent_net : Network
silent_net = record (net []) {
  syncs = λ config t. if text_eq t c then unacknowledged else acknowledged;
}

c_in_members : contains members c ≡ true
unfolding contains text_eq
c_in_members = refl

a_is_not_c : text_eq a c ≡ false
unfolding text_eq
a_is_not_c = refl

silent : silent_net.syncs (config 1 members) c ≡ unacknowledged
unfolding text_eq
silent = refl

unanswered_keeps_next_example :
    ((apply_cluster_config silent_net a members (config 0 (a ∷ b ∷ [])) (config 1 members) nodes).0
      ≡ false)
    × Holds (config 1 members) (
        (apply_cluster_config silent_net a members
            (config 0 (a ∷ b ∷ []))
            (config 1 members)
            nodes).1
          c)
unanswered_keeps_next_example =
    unanswered_keeps_next silent_net (config 1 members) (omega arith) c silent (λ u e. rw e refl) a
      members (config 0 (a ∷ b ∷ [])) nodes (λ k h. inl (omega arith)) c_in_members a_is_not_c
