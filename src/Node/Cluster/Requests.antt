-- ===== src/Node/Cluster/Requests.antt =====
-- handleMembershipSync and handleGossip: what a request makes of a node.
use minidist.Base.{
  ℕ, ◌<◌, ◌≡◌, refl, sym, ap, ◌∙◌, ◌⊎◌, inl, inr, Bool, true, false, ◌||◌, Option, none, some, List,
  [], ◌∷◌, arith, if◌then◌else◌, ltb, leb, ◌==◌, Bool-cases, Option-cases,
}
use minidist.Base.Text.{Text, text_eq, text_eq_iff}
use minidist.Base.Assoc.{lookup, text_eq_inst}
use minidist.Base.Sets.{contains}
use minidist.HashRing.{Ring}
use minidist.HashRing.Members.{members_of, contains-members_of}
use minidist.Node.Http.{method_put, method_post, status_no_content}
use minidist.Node.Detector.{
  FailureDetector, MemberState, GossipMember, state_of, put_state, merge, merge_member, refute_self,
  adopt, newer_member_state, mark_success, mark_failure,
}
use minidist.Node.Cluster.{
  ClusterConfig, Membership, adopt_config, sync_config, handle_membership_sync, keep_members,
  handle_gossip,
}
use minidist.Node.Cluster.Agreement.{
  tracks, Agrees, tracks-put_state, members-adopt_config, adopt_config-Agrees, version-adopt_config,
}

-- A sync that changes the node: the configuration is newer, the status is 204, and the ring has
-- exactly its members.
pub record Adopted (config : ClusterConfig) (n : Membership) (status : ℕ) (r : Membership)
    : Type 0 where
  pub newer : n.config_version < config.version
  pub no_content : status ≡ status_no_content
  pub version : r.config_version ≡ config.version
  pub members : (m : Text) → contains r.ring.members m ≡ contains config.members m
  pub agrees : Agrees n → Agrees r

sync_config-cases :
    (now : Text → ℕ) (config : ClusterConfig) (n : Membership)
    → ((sync_config now config n).1 ≡ n)
      ⊎ Adopted config n (sync_config now config n).0 (sync_config now config n).1
sync_config-cases now config n = elim (Bool-cases (config.version == 0)) [
  | inl e ↦ inl (unfold sync_config in rw (e, sync_config) refl)
  | inr e ↦ elim (Bool-cases (leb config.version n.config_version)) [
    | inl f ↦ inl (unfold sync_config in rw (e, f, sync_config) refl)
    | inr f ↦
        let done : sync_config now config n ≡ (status_no_content, adopt_config now config n) =
          unfold sync_config in rw (e, f, sync_config) refl in
        inr (
          rw done (record {
            newer = ground arith;
            no_content = refl;
            version = version-adopt_config now config n;
            members = members-adopt_config now config n;
            agrees = adopt_config-Agrees now config n;
          }))
  ]
]

sync_config-either :
    (now : Text → ℕ) (config : ClusterConfig) (n : Membership)
    → ((sync_config now config n).1 ≡ n)
      ⊎ ((sync_config now config n).1 ≡ adopt_config now config n)
sync_config-either now config n = elim (Bool-cases (config.version == 0)) [
  | inl e ↦ inl (unfold sync_config in rw (e, sync_config) refl)
  | inr e ↦ elim (Bool-cases (leb config.version n.config_version)) [
    | inl f ↦ inl (unfold sync_config in rw (e, f, sync_config) refl)
    | inr f ↦ inr (unfold sync_config in rw (e, f, sync_config) refl)
  ]
]

-- A request to /internal/members/sync leaves the node as it is, or it is a PUT of a configuration
-- with a larger version than the node's: then the status is 204, the node has the version, its ring
-- has exactly the members of the configuration, and if the failure detector tracked exactly the
-- members of a valid ring before, it does so after.
pub handle_membership_sync-cases :
    (now : Text → ℕ) (method : Text) (body : Option ClusterConfig) (n : Membership)
    → ((handle_membership_sync now method body n).1 ≡ n)
      ⊎ ((config : ClusterConfig) × (body ≡ some config)
          × (method ≡ method_put)
          × Adopted config n
              (handle_membership_sync now method body n).0
              (handle_membership_sync now method body n).1)
handle_membership_sync-cases now method none n = inl (unfold handle_membership_sync in refl)
handle_membership_sync-cases now method (some config) n =
    elim (Bool-cases (text_eq method method_put)) [
      | inr e ↦ inl (unfold handle_membership_sync in rw (e, handle_membership_sync) refl)
      | inl e ↦
          let run : handle_membership_sync now method (some config) n ≡ sync_config now config n =
            unfold handle_membership_sync in rw (e, handle_membership_sync) refl in
          elim (sync_config-cases now config n) [
            | inl same ↦ inl (ap (λ r. r.1) run ∙ same)
            | inr done ↦ inr (config, refl, (text_eq_iff method method_put).0 e, rw run done)
          ]
    ]

pub handle_membership_sync-Agrees :
    (now : Text → ℕ) (method : Text) (body : Option ClusterConfig) (n : Membership)
    → Agrees n
    → Agrees (handle_membership_sync now method body n).1
handle_membership_sync-Agrees now method body n a =
    elim (handle_membership_sync-cases now method body n) [
      | inl same ↦ rw same a
      | inr (config, e, p, done) ↦ done.agrees a
    ]

tracks_state :
    (k : Text) (s : MemberState) (f : FailureDetector)
    → tracks f k ≡ true
    → (m : Text) → tracks (put_state k s f) m ≡ tracks f m
tracks_state k s f t m = ground (arith, tracks-put_state k s f m, text_eq_iff k m)

pub tracks-mark_success :
    (now : ℕ) (k : Text) (f : FailureDetector) (m : Text)
    → tracks (mark_success now k f) m ≡ (tracks f m || text_eq k m)
unfolding mark_success
tracks-mark_success now k f m = tracks-put_state k _ f m

pub tracks-mark_failure :
    (now : ℕ) (k : Text) (f : FailureDetector) (m : Text)
    → tracks (mark_failure now k f) m ≡ (tracks f m || text_eq k m)
unfolding mark_failure
tracks-mark_failure now k f m = tracks-put_state k _ f m

tracks-refute_self :
    (now : ℕ) (remote : GossipMember) (f : FailureDetector)
    → tracks f f.self ≡ true
    → (m : Text) → tracks (refute_self now remote f) m ≡ tracks f m
tracks-refute_self now remote f t m =
    elim (Bool-cases (ltb remote.incarnation (state_of f f.self).incarnation)) [
      | inl e ↦ unfold refute_self in rw (e, refute_self) refl
      | inr e ↦ unfold refute_self in rw (e, refute_self) (tracks_state f.self _ f t m)
    ]

tracks_either :
    (b : Bool) (g f : FailureDetector) (m : Text)
    → tracks g m ≡ tracks f m
    → tracks (if b then g else f) m ≡ tracks f m
tracks_either true g f m e = e
tracks_either false g f m e = refl

tracked_state :
    (f : FailureDetector) (k : Text)
    → tracks f k ≡ true
    → (s : MemberState) × (lookup k f.members ≡ some s)
tracked_state f k t = elim (Option-cases (lookup k f.members)) [
  | inl e ↦ absurd (unfold tracks in ground (arith, e, t))
  | inr found ↦ found
]

pub tracks-merge_member :
    (now : ℕ) (remote : GossipMember) (f : FailureDetector)
    → tracks f remote.node ≡ true
    → (m : Text) → tracks (merge_member now remote f) m ≡ tracks f m
tracks-merge_member now remote f t m = elim (Bool-cases (text_eq remote.node f.self)) [
  | inl e ↦
      let own : tracks f f.self ≡ true =
        ap (tracks f) (sym ((text_eq_iff remote.node f.self).0 e)) ∙ t in
      unfold merge_member in
      rw (e, merge_member)
        (tracks_either _ (refute_self now remote f) f m (tracks-refute_self now remote f own m))
  | inr e ↦
      let (s, found) = tracked_state f remote.node t in
      unfold merge_member in
      rw (e, found, merge_member)
        (tracks_either (newer_member_state remote s) (put_state remote.node (adopt remote s) f) f m
          (tracks_state remote.node (adopt remote s) f t m))
]

-- Gossip that is kept for members that are all tracked tracks nobody new.
tracks-merge :
    (now : ℕ) (members : List Text) (remotes : List GossipMember) (f : FailureDetector)
    → ((m : Text) → contains members m ≡ true → tracks f m ≡ true)
    → (m : Text) → tracks (merge now (keep_members members remotes) f) m ≡ tracks f m
unfolding merge keep_members
tracks-merge now members [] f t m = refl
tracks-merge now members (remote ∷ rest) f t m = elim (Bool-cases (contains members remote.node)) [
  | inl e ↦
      let one = tracks-merge_member now remote f (t remote.node e) in
      rw e
        (tracks-merge now members rest (merge_member now remote f) (λ k c. one k ∙ t k c) m ∙ one m)
  | inr e ↦ rw e (tracks-merge now members rest f t m)
]

pub handle_gossip-Agrees :
    (now : ℕ) (method : Text) (body : Option (List GossipMember)) (ring : Ring) (n : Membership)
    → ((m : Text) → contains ring.members m ≡ true → contains n.ring.members m ≡ true)
    → Agrees n
    → Agrees (handle_gossip now method body ring n).1
handle_gossip-Agrees now method none ring n still a = unfold handle_gossip in a
handle_gossip-Agrees now method (some remotes) ring n still a =
    elim (Bool-cases (text_eq method method_post)) [
      | inr e ↦ unfold handle_gossip in rw (e, handle_gossip) a
      | inl e ↦
          unfold handle_gossip in
          rw (e, handle_gossip)
            (record {
              valid = a.valid;
              same = λ m.
                  tracks-merge now (members_of ring) remotes n.fd
                    (λ k c. a.same k ∙ still k (sym (contains-members_of ring k) ∙ c)) m
                  ∙ a.same m;
            })
    ]

pub handle_membership_sync-unchanged :
    (now : Text → ℕ) (config : ClusterConfig) (n : Membership)
    → ((handle_membership_sync now method_put (some config) n).1 ≡ n)
      ⊎ ((handle_membership_sync now method_put (some config) n).1 ≡ adopt_config now config n)
handle_membership_sync-unchanged now config n =
    let own : text_eq method_put method_put ≡ true =
      ground (arith, text_eq_iff method_put method_put) in
    unfold handle_membership_sync in
    rw (own, handle_membership_sync) (sync_config-either now config n)
