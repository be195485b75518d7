-- ===== src/Node/Detector.antt =====
-- membership.go: the failure detector, a map from nodes to states under its mutex. `now` is the time
-- that a call reads from the clock.
pub mod Merge
pub mod Again
pub mod Latest
pub mod Probes
use minidist.Base.{
  ℕ, zero, suc, ◌+◌, ◌%◌, ◌^◌, Bool, true, false, not, ◌&&◌, Option, none, some, List, [], ◌∷◌, ltb,
  leb, if◌then◌else◌,
}
use minidist.Base.Text.{Text, codes, text_eq}
use minidist.Base.Assoc.{Assoc, lookup, insert, remove, text_eq_inst}
use minidist.Base.Words.{u64}

pub data NodeStatus : Type 0 where
  status_alive : NodeStatus
  status_suspect : NodeStatus
  status_dead : NodeStatus

pub record MemberState : Type 0 where
  pub status : NodeStatus
  pub last_success : ℕ
  pub last_failure : ℕ
  pub failure_count : ℕ
  pub incarnation : ℕ
  pub version : ℕ

-- Go's zero value: the status is alive, and the times are the zero time.
abbrev pub zero_state : MemberState
zero_state = record {
  status = status_alive;
  last_success = 0;
  last_failure = 0;
  failure_count = 0;
  incarnation = 0;
  version = 0;
}

pub record FailureDetector : Type 0 where
  pub self : Text
  pub members : Assoc Text MemberState

pub record GossipMember : Type 0 where
  pub node : Text
  pub status : Text
  pub version : ℕ
  pub incarnation : ℕ

-- `f.members[node]`, with the zero value for a node that is not tracked.
abbrev pub state_or_zero : Option MemberState → MemberState
state_or_zero none = zero_state
state_or_zero (some s) = s

unfoldable pub state_of : FailureDetector → Text → MemberState
state_of f node = state_or_zero (lookup node f.members)

unfoldable pub put_state : Text → MemberState → FailureDetector → FailureDetector
put_state node s f = record f { members = insert node s f.members }

unfoldable pub track_all : ℕ → List Text → FailureDetector → FailureDetector
unfolding put_state
track_all now [] f = f
track_all now (node ∷ rest) f =
    track_all now rest (put_state node (record zero_state { last_success = now }) f)

unfoldable pub new_failure_detector : ℕ → ℕ → List Text → Text → FailureDetector
unfolding track_all state_of
new_failure_detector now nanos nodes self =
    let f = track_all now nodes (record { self = self; members = [] }) in
    put_state self (record (state_of f self) { incarnation = u64 nanos; version = 1 }) f

unfoldable pub mark_success : ℕ → Text → FailureDetector → FailureDetector
unfolding put_state state_of
mark_success now node f =
    let s = state_of f node in
    put_state node
      (record s {
        status = status_alive;
        last_success = now;
        failure_count = 0;
        version = u64 (s.version + 1);
      })
      f

unfoldable pub mark_failure : ℕ → Text → FailureDetector → FailureDetector
unfolding put_state state_of
mark_failure now node f =
    let s = state_of f node in
    put_state node
      (record s {
        failure_count = s.failure_count + 1;
        last_failure = now;
        version = u64 (s.version + 1);
        status = if leb 3 (s.failure_count + 1) then status_dead else status_suspect;
      })
      f

unfoldable pub status_string : NodeStatus → Text
status_string status_alive = codes "alive"
status_string status_suspect = codes "suspect"
status_string status_dead = codes "dead"

unfoldable pub parse_node_status : Text → NodeStatus
parse_node_status s =
    if text_eq s (codes "alive")
    then status_alive
    else if text_eq s (codes "suspect")
    then status_suspect
    else if text_eq s (codes "dead")
    then status_dead
    else status_suspect

unfoldable pub gossip_of : Assoc Text MemberState → List GossipMember
unfolding status_string
gossip_of [] = []
gossip_of ((node, s) ∷ rest) =
    record {
      node = node;
      status = status_string s.status;
      version = s.version;
      incarnation = s.incarnation;
    }
    ∷ gossip_of rest

unfoldable pub gossip_snapshot : FailureDetector → List GossipMember
unfolding gossip_of
gossip_snapshot f = gossip_of f.members

unfoldable pub newer_member_state : GossipMember → MemberState → Bool
newer_member_state remote local =
    if ltb local.incarnation remote.incarnation
    then true
    else if ltb remote.incarnation local.incarnation
    then false
    else ltb local.version remote.version

unfoldable pub is_alive : NodeStatus → Bool
is_alive status_alive = true
is_alive status_suspect = false
is_alive status_dead = false

-- `refuteSelf` on the state of the node itself.
unfoldable pub refute : ℕ → GossipMember → MemberState → MemberState
refute now remote local = if ltb remote.incarnation local.incarnation then local else record local {
  incarnation = u64 (remote.incarnation + 1);
  version = 1;
  status = status_alive;
  failure_count = 0;
  last_success = now;
}

unfoldable pub refute_self : ℕ → GossipMember → FailureDetector → FailureDetector
unfolding refute put_state state_of
refute_self now remote f =
    if ltb remote.incarnation (state_of f f.self).incarnation
    then f
    else put_state f.self (refute now remote (state_of f f.self)) f

-- What `Merge` makes of a tracked node's state.
unfoldable pub adopt : GossipMember → MemberState → MemberState
adopt remote local = record local {
  status = parse_node_status remote.status;
  incarnation = remote.incarnation;
  version = remote.version;
}

unfoldable pub merge_member : ℕ → GossipMember → FailureDetector → FailureDetector
unfolding refute_self adopt
merge_member now remote f =
    if text_eq remote.node f.self
    then (if not (is_alive (parse_node_status remote.status))
          && newer_member_state remote (state_of f f.self)
        then refute_self now remote f
        else f)
    else elim (lookup remote.node f.members) [
      | none ↦ put_state remote.node (adopt remote zero_state) f
      | some local ↦
          if newer_member_state remote local
          then put_state remote.node (adopt remote local) f
          else f
    ]

unfoldable pub merge : ℕ → List GossipMember → FailureDetector → FailureDetector
unfolding merge_member
merge now [] f = f
merge now (remote ∷ rest) f = merge now rest (merge_member now remote f)

unfoldable pub track_member : ℕ → Text → FailureDetector → FailureDetector
unfolding put_state
track_member now node f = elim (lookup node f.members) [
  | some s ↦ f
  | none ↦ put_state node (record zero_state { last_success = now }) f
]

unfoldable pub untrack_member : Text → FailureDetector → FailureDetector
untrack_member member f = record f { members = remove member f.members }
