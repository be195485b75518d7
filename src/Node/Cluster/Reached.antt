-- ===== src/Node/Cluster/Reached.antt =====
-- What a node can become by syncs, gossip and probes, in any order (handler.go, probe.go), from the
-- node that `New` of node.go makes.
use minidist.Base.{
  ℕ, ◌≡◌, refl, ap, ◌∙◌, inl, inr, true, false, ◌||◌, Option, some, List, [], ◌∷◌, arith,
  Option-cases,
}
use minidist.Base.Text.{Text, text_eq, text_eq_iff}
use minidist.Base.Assoc.{lookup, text_eq_inst}
use minidist.Base.Sets.{contains}
use minidist.HashRing.{Ring, new, add, add_all}
use minidist.HashRing.Valid.{IsValid, new-IsValid}
use minidist.HashRing.Members.{members_of, contains-add, contains-members_of}
use minidist.Node.Http.{method_put, method_post}
use minidist.Node.Detector.{
  FailureDetector, MemberState, GossipMember, zero_state, state_of, put_state, track_all,
  new_failure_detector, mark_success, mark_failure, merge, merge_member, adopt,
}
use minidist.Node.Cluster.{
  ClusterConfig, Membership, handle_membership_sync, keep_members, handle_gossip,
}
use minidist.Node.Cluster.Agreement.{
  tracks, Agrees, tracks-put_state, members-adopt_config, tracks-adopt_config,
}
use minidist.Node.Cluster.Requests.{
  handle_membership_sync-Agrees, handle_membership_sync-unchanged, handle_gossip-Agrees,
  tracks-mark_success, tracks-mark_failure, tracks-merge_member,
}
use minidist.Base.Words.{u64}

-- A node as `New` makes it, with the addresses that it is given.
unfoldable pub start_node : ℕ → ℕ → Text → List Text → ℕ → Membership
unfolding new_failure_detector new
start_node now nanos addr nodes virtual_nodes = record {
  ring = new nodes virtual_nodes;
  fd = new_failure_detector now nanos nodes addr;
  config_version = 0;
}

-- What a sync, a merge of gossip or the end of a probe makes of a node. The members that a gossip's
-- handler has read from the ring, at any time before, are still in the ring when it merges, and a probe
-- ends while its target is tracked.
pub data Step (n : Membership) : Membership → Type 0 where
  synced :
      (now : Text → ℕ) (method : Text) (body : Option ClusterConfig)
      → Step n (handle_membership_sync now method body n).1
  gossiped :
      (now : ℕ) (method : Text) (body : Option (List GossipMember)) (ring : Ring)
      → ((m : Text) → contains ring.members m ≡ true → contains n.ring.members m ≡ true)
      → Step n (handle_gossip now method body ring n).1
  reached :
      (now : ℕ) (target : Text)
      → tracks n.fd target ≡ true
      → Step n (record n { fd = mark_success now target n.fd })
  missed :
      (now : ℕ) (target : Text)
      → tracks n.fd target ≡ true
      → Step n (record n { fd = mark_failure now target n.fd })

pub data Reach (n : Membership) : Membership → Type 0 where
  start : Reach n n
  later : {s t : Membership} → Reach n s → Step s t → Reach n t

Step-Agrees : {s t : Membership} → Step s t → Agrees s → Agrees t
Step-Agrees {s} (synced now method body) a = handle_membership_sync-Agrees now method body s a
Step-Agrees {s} (gossiped now method body ring still) a =
    handle_gossip-Agrees now method body ring s still a
Step-Agrees {s} (reached now target t) a = record {
  valid = a.valid;
  same = λ m. ground (arith, tracks-mark_success now target s.fd m, text_eq_iff target m, a.same m);
}
Step-Agrees {s} (missed now target t) a = record {
  valid = a.valid;
  same = λ m. ground (arith, tracks-mark_failure now target s.fd m, text_eq_iff target m, a.same m);
}

Reach-Agrees : {s t : Membership} → Reach s t → Agrees s → Agrees t
Reach-Agrees start a = a
Reach-Agrees (later r st) a = Step-Agrees st (Reach-Agrees r a)

tracks-track_all :
    (now : ℕ) (nodes : List Text) (f : FailureDetector) (m : Text)
    → tracks (track_all now nodes f) m ≡ (tracks f m || contains nodes m)
unfolding track_all contains
tracks-track_all now [] f m = ground arith
tracks-track_all now (k ∷ rest) f m =
    let s : MemberState = record zero_state { last_success = now } in
    ground (arith, tracks-track_all now rest (put_state k s f) m, tracks-put_state k s f m)

members-add_all :
    (r : Ring) (nodes : List Text) (m : Text)
    → contains (add_all r nodes).members m ≡ (contains r.members m || contains nodes m)
unfolding add_all contains
members-add_all r [] m = ground arith
members-add_all r (k ∷ rest) m =
    ground (arith, members-add_all (add r k) rest m, contains-add r k m)

tracks-new_failure_detector :
    (now nanos : ℕ) (nodes : List Text) (addr m : Text)
    → tracks (new_failure_detector now nanos nodes addr) m ≡ (contains nodes m || text_eq addr m)
tracks-new_failure_detector now nanos nodes addr m =
    let empty : FailureDetector = record { self = addr; members = [] } in
    let all = track_all now nodes empty in
    let own : MemberState = record (state_of all addr) { incarnation = u64 nanos; version = 1 } in
    let old : tracks all m ≡ contains nodes m =
      tracks-track_all now nodes empty m ∙ (unfold tracks lookup in refl) in
    unfold new_failure_detector in
    (tracks-put_state addr own all m ∙ ap (λ b. b || text_eq addr m) old)

members-new :
    (nodes : List Text) (virtual_nodes : ℕ) (m : Text)
    → contains (new nodes virtual_nodes).members m ≡ contains nodes m
members-new nodes virtual_nodes m =
    let empty : Ring = record {
      virtual_nodes = virtual_nodes;
      nodes = [];
      hashes = [];
      members = [];
    } in
    unfold new contains in members-add_all empty nodes m

pub start_node-Agrees :
    (now nanos : ℕ) (addr : Text) (nodes : List Text) (virtual_nodes : ℕ)
    → contains nodes addr ≡ true
    → Agrees (start_node now nanos addr nodes virtual_nodes)
unfolding start_node
start_node-Agrees now nanos addr nodes virtual_nodes h = record {
  valid = new-IsValid nodes virtual_nodes;
  same = λ m. ground (
    arith,
    tracks-new_failure_detector now nanos nodes addr m,
    members-new nodes virtual_nodes m,
    text_eq_iff addr m,
  );
}

-- From a new node whose own address is among its nodes, after syncs that run one after another,
-- gossip that is merged while the ring still has the members that its handler has read from it, at
-- any time before, and probes that end while their target is tracked, the ring is valid and the
-- failure detector tracks exactly the ring's members.
pub Reach-start_node :
    (now nanos : ℕ) (addr : Text) (nodes : List Text) (virtual_nodes : ℕ) (n : Membership)
    → contains nodes addr ≡ true
    → Reach (start_node now nanos addr nodes virtual_nodes) n
    → IsValid n.ring × ((m : Text) → tracks n.fd m ≡ contains n.ring.members m)
Reach-start_node now nanos addr nodes virtual_nodes n h r =
    let a = Reach-Agrees r (start_node-Agrees now nanos addr nodes virtual_nodes h) in
    (a.valid, a.same)

tracks_told :
    (now : ℕ) (remote : GossipMember) (f : FailureDetector)
    → text_eq remote.node f.self ≡ false
    → tracks (merge_member now remote f) remote.node ≡ true
tracks_told now remote f other = elim (Option-cases (lookup remote.node f.members)) [
  | inl e ↦
      unfold merge_member in
      rw (other, e, merge_member)
        (ground (
          arith,
          tracks-put_state remote.node (adopt remote zero_state) f remote.node,
          text_eq_iff remote.node remote.node,
        ))
  | inr (s, e) ↦
      let here : tracks f remote.node ≡ true = unfold tracks in rw e refl in
      tracks-merge_member now remote f here remote.node ∙ here
]

-- What the detector tracks and neither the ring nor a new configuration has, a sync leaves tracked.
stays_tracked :
    (clock : Text → ℕ) (target : Text) (config : ClusterConfig) (n : Membership)
    → tracks n.fd target ≡ true
    → contains n.ring.members target ≡ false
    → contains config.members target ≡ false
    → let r = (handle_membership_sync clock method_put (some config) n).1 in
      (tracks r.fd target ≡ true) × (contains r.ring.members target ≡ false)
stays_tracked clock target config n here out gone =
    elim (handle_membership_sync-unchanged clock config n) [
      | inl same ↦ rw same (here, out)
      | inr done ↦ rw done (
        ground (arith, tracks-adopt_config clock config n target, here, out, gone),
        members-adopt_config clock config n target ∙ gone,
      )
    ]

-- A failed probe that ends when its target is no longer in the ring makes the failure detector
-- track the target, and after any later sync whose members do not include the target, it still
-- does, with the target not in the ring.
pub late_probe_tracks_removed :
    (now : ℕ) (clock : Text → ℕ) (target : Text) (config : ClusterConfig) (n : Membership)
    → contains n.ring.members target ≡ false
    → contains config.members target ≡ false
    → let late : Membership = record n { fd = mark_failure now target n.fd } in
      let r = (handle_membership_sync clock method_put (some config) late).1 in
      (tracks late.fd target ≡ true)
      × (tracks r.fd target ≡ true)
      × (contains r.ring.members target ≡ false)
late_probe_tracks_removed now clock target config n out gone =
    let late : Membership = record n { fd = mark_failure now target n.fd } in
    let here : tracks late.fd target ≡ true =
      ground (arith, tracks-mark_failure now target n.fd target, text_eq_iff target target) in
    let (still, absent) = stays_tracked clock target config late here out gone in
    (here, still, absent)

-- Gossip about a node that its handler has read in the ring, merged when that node is no longer in the
-- ring, makes the failure detector track the node, also after a later sync without it.
late_gossip_tracks_removed :
    (now : ℕ) (clock : Text → ℕ) (remote : GossipMember) (ring : Ring) (config : ClusterConfig)
    (n : Membership)
    → contains ring.members remote.node ≡ true
    → text_eq remote.node n.fd.self ≡ false
    → contains n.ring.members remote.node ≡ false
    → contains config.members remote.node ≡ false
    → let late = (handle_gossip now method_post (some (remote ∷ [])) ring n).1 in
      let r = (handle_membership_sync clock method_put (some config) late).1 in
      (tracks late.fd remote.node ≡ true)
      × (tracks r.fd remote.node ≡ true)
      × (contains r.ring.members remote.node ≡ false)
late_gossip_tracks_removed now clock remote ring config n read other out gone =
    let late = (handle_gossip now method_post (some (remote ∷ [])) ring n).1 in
    let own : text_eq method_post method_post ≡ true =
      ground (arith, text_eq_iff method_post method_post) in
    let kept : contains (members_of ring) remote.node ≡ true =
      contains-members_of ring remote.node ∙ read in
    let run : late ≡ record n { fd = merge_member now remote n.fd } =
      unfold handle_gossip keep_members merge in rw (own, kept, handle_gossip) refl in
    let here : tracks (merge_member now remote n.fd) remote.node ≡ true =
      tracks_told now remote n.fd other in
    let (still, absent) =
      stays_tracked clock remote.node config (record n { fd = merge_member now remote n.fd }) here
        out gone in
    rw run (here, still, absent)
