-- ===== src/Node/Cluster/Agreement.antt =====
-- handleMembershipSync: what it makes of the ring and of the failure detector.
use minidist.Base.{
  ℕ, ◌≡◌, refl, inl, inr, Bool, true, false, not, ◌&&◌, ◌||◌, Option, none, some, List, [], ◌∷◌,
  arith, if◌then◌else◌, Option-cases,
}
use minidist.Base.Text.{Text, text_eq, text_eq_iff}
use minidist.Base.Assoc.{lookup, text_eq_inst, lookup-insert, lookup-remove}
use minidist.Base.Sets.{contains}
use minidist.HashRing.Valid.{IsValid, add-IsValid, remove_node-IsValid}
use minidist.HashRing.Members.{members_of, contains-members_of, contains-add, contains-remove_node}
use minidist.Node.Detector.{
  FailureDetector, MemberState, zero_state, put_state, track_member, untrack_member,
}
use minidist.Node.Cluster.{
  ClusterConfig, Membership, drop_member, drop_missing, join_member, join_all, adopt_config,
}

abbrev pub is_tracked : Option MemberState → Bool
is_tracked none = false
is_tracked (some s) = true

-- Whether the failure detector has a state for a node.
unfoldable pub tracks : FailureDetector → Text → Bool
tracks f m = is_tracked (lookup m f.members)

-- The ring is valid, and the failure detector tracks exactly its members.
pub record Agrees (n : Membership) : Type 0 where
  pub valid : IsValid n.ring
  pub same : (m : Text) → tracks n.fd m ≡ contains n.ring.members m

pub tracks-put_state :
    (k : Text) (s : MemberState) (f : FailureDetector) (m : Text)
    → tracks (put_state k s f) m ≡ (tracks f m || text_eq k m)
unfolding tracks put_state
tracks-put_state k s f m = ground (arith, lookup-insert k m s f.members)

pub tracks-untrack_member :
    (k : Text) (f : FailureDetector) (m : Text)
    → tracks (untrack_member k f) m ≡ (tracks f m && not (text_eq k m))
unfolding tracks untrack_member
tracks-untrack_member k f m = ground (arith, lookup-remove k m f.members)

pub tracks-track_member :
    (now : ℕ) (k : Text) (f : FailureDetector) (m : Text)
    → tracks (track_member now k f) m ≡ (tracks f m || text_eq k m)
tracks-track_member now k f m = elim (Option-cases (lookup k f.members)) [
  | inl e ↦
      unfold track_member in
      rw (e, track_member) (tracks-put_state k (record zero_state { last_success = now }) f m)
  | inr (s, e) ↦
      unfold track_member tracks in rw (e, track_member) (ground (arith, text_eq_iff k m))
]

ring-drop_missing :
    (members rest : List Text) (n : Membership) (m : Text)
    → contains (drop_missing members rest n).ring.members m
      ≡ (contains n.ring.members m && (contains members m || not (contains rest m)))
unfolding drop_missing contains drop_member
ring-drop_missing members [] n m = ground arith
ring-drop_missing members (k ∷ rest) n m = ground (
  arith,
  ring-drop_missing members rest (if contains members k then n else drop_member k n) m,
  contains-remove_node n.ring k m,
  text_eq_iff k m,
)

tracks-drop_missing :
    (members rest : List Text) (n : Membership) (m : Text)
    → tracks (drop_missing members rest n).fd m
      ≡ (tracks n.fd m && (contains members m || not (contains rest m)))
unfolding drop_missing contains drop_member
tracks-drop_missing members [] n m = ground arith
tracks-drop_missing members (k ∷ rest) n m = ground (
  arith,
  tracks-drop_missing members rest (if contains members k then n else drop_member k n) m,
  tracks-untrack_member k n.fd m,
  text_eq_iff k m,
)

keep_or_drop-IsValid :
    (b : Bool) (k : Text) (n : Membership)
    → IsValid n.ring
    → IsValid (if b then n else drop_member k n).ring
unfolding drop_member
keep_or_drop-IsValid true k n v = v
keep_or_drop-IsValid false k n v = remove_node-IsValid n.ring k v

drop_missing-IsValid :
    (members rest : List Text) (n : Membership)
    → IsValid n.ring
    → IsValid (drop_missing members rest n).ring
unfolding drop_missing
drop_missing-IsValid members [] n v = v
drop_missing-IsValid members (k ∷ rest) n v =
    drop_missing-IsValid members rest (if contains members k then n else drop_member k n)
      (keep_or_drop-IsValid (contains members k) k n v)

ring-join_all :
    (now : Text → ℕ) (members : List Text) (n : Membership) (m : Text)
    → contains (join_all now members n).ring.members m
      ≡ (contains n.ring.members m || contains members m)
unfolding join_all contains join_member
ring-join_all now [] n m = ground arith
ring-join_all now (k ∷ rest) n m =
    ground (arith, ring-join_all now rest (join_member (now k) k n) m, contains-add n.ring k m)

tracks-join_all :
    (now : Text → ℕ) (members : List Text) (n : Membership) (m : Text)
    → tracks (join_all now members n).fd m ≡ (tracks n.fd m || contains members m)
unfolding join_all contains join_member
tracks-join_all now [] n m = ground arith
tracks-join_all now (k ∷ rest) n m = ground (
  arith,
  tracks-join_all now rest (join_member (now k) k n) m,
  tracks-track_member (now k) k n.fd m,
)

join_all-IsValid :
    (now : Text → ℕ) (members : List Text) (n : Membership)
    → IsValid n.ring
    → IsValid (join_all now members n).ring
unfolding join_all join_member
join_all-IsValid now [] n v = v
join_all-IsValid now (k ∷ rest) n v =
    join_all-IsValid now rest (join_member (now k) k n) (add-IsValid n.ring k v)

module _ (now : Text → ℕ) (config : ClusterConfig) (n : Membership) where
  pub members-adopt_config :
      (m : Text) → contains (adopt_config now config n).ring.members m ≡ contains config.members m
  unfolding adopt_config
  members-adopt_config m = ground (
    arith,
    ring-join_all now config.members (drop_missing config.members (members_of n.ring) n) m,
    ring-drop_missing config.members (members_of n.ring) n m,
    contains-members_of n.ring m,
  )

  -- A node that is tracked but not in the ring stays so.
  pub tracks-adopt_config :
      (m : Text)
      → tracks (adopt_config now config n).fd m
        ≡ (tracks n.fd m && not (contains n.ring.members m) || contains config.members m)
  unfolding adopt_config
  tracks-adopt_config m = ground (
    arith,
    tracks-join_all now config.members (drop_missing config.members (members_of n.ring) n) m,
    tracks-drop_missing config.members (members_of n.ring) n m,
    contains-members_of n.ring m,
  )

  adopt_config-IsValid : IsValid n.ring → IsValid (adopt_config now config n).ring
  unfolding adopt_config
  adopt_config-IsValid v =
      join_all-IsValid now config.members (drop_missing config.members (members_of n.ring) n)
        (drop_missing-IsValid config.members (members_of n.ring) n v)

  pub adopt_config-Agrees : Agrees n → Agrees (adopt_config now config n)
  adopt_config-Agrees a = record {
    valid = adopt_config-IsValid a.valid;
    same = λ m. ground (arith, tracks-adopt_config m, members-adopt_config m, a.same m);
  }

  pub version-adopt_config : (adopt_config now config n).config_version ≡ config.version
  unfolding adopt_config
  version-adopt_config = refl
