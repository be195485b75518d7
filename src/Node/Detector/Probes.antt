-- ===== src/Node/Detector/Probes.antt =====
-- membership.go: the node's own state under gossip, and the outcomes of probes.
use minidist.Base.{
  ℕ, ◌+◌, ◌<◌, ◌≡◌, refl, ap, ◌∙◌, inl, inr, true, false, List, [], ◌∷◌, arith, leb, length,
  if◌then◌else◌, Bool-cases, All,
}
use mathlib.Core.Path.{subst}
use minidist.Base.Text.{Text, text_eq, text_eq_iff}
use minidist.Base.Assoc.{text_eq_inst, lookup-insert}
use minidist.Base.Words.{u64_mod}
use minidist.Node.Detector.{
  NodeStatus, status_alive, status_suspect, status_dead, MemberState, FailureDetector, GossipMember,
  state_of, put_state, parse_node_status, status_string, newer_member_state, is_alive, refute,
  merge_member, merge, mark_failure, mark_success,
}
use minidist.Node.Detector.Merge.{answered, own-merge_member, self-merge_member}

pub parse_node_status-status_string : (s : NodeStatus) → parse_node_status (status_string s) ≡ s
unfolding parse_node_status status_string text_eq
parse_node_status-status_string status_alive = refl
parse_node_status-status_string status_suspect = refl
parse_node_status-status_string status_dead = refl

-- `n` failed probes of one node, one after the other, at the given times.
abbrev pub failures : List ℕ → Text → FailureDetector → FailureDetector
failures [] node f = f
failures (now ∷ rest) node f = failures rest node (mark_failure now node f)

abbrev pub verdict : ℕ → NodeStatus
verdict n = if leb 3 n then status_dead else status_suspect

put_state-state_of :
    (node : Text) (f : FailureDetector) (s : MemberState) → state_of (put_state node s f) node ≡ s
unfolding state_of put_state
put_state-state_of node f s =
    rw (lookup-insert node node s f.members) (ground (arith, text_eq_iff node node))

state_of-mark_failure :
    (now : ℕ) (node : Text) (f : FailureDetector)
    → ((state_of (mark_failure now node f) node).failure_count
        ≡ (state_of f node).failure_count + 1)
      × ((state_of (mark_failure now node f) node).status
          ≡ verdict ((state_of f node).failure_count + 1))
state_of-mark_failure now node f =
    let s = state_of f node in
    let after = put_state-state_of node f in
    (
      unfold mark_failure in ap (λ t. t.failure_count) (after _),
      unfold mark_failure in ap (λ t. t.status) (after _),
    )

-- After one success and then `n` failures in a row.
pub failures-verdict :
    (times : List ℕ) (node : Text) (f : FailureDetector) (m : ℕ)
    → (state_of f node).failure_count ≡ m
    → 0 < length times
    → (state_of (failures times node f) node).status ≡ verdict (m + length times)
failures-verdict [] node f m e p = absurd (omega arith)
failures-verdict (now ∷ []) node f m e p =
    (state_of-mark_failure now node f).1 ∙ ap (λ k. verdict (k + 1)) e
failures-verdict (now ∷ next ∷ rest) node f m e p =
    let k : m + 1 + length (next ∷ rest) ≡ m + length (now ∷ next ∷ rest) = omega arith in
    failures-verdict (next ∷ rest) node (mark_failure now node f) (m + 1)
      ((state_of-mark_failure now node f).0 ∙ ap (λ k. k + 1) e) (omega arith)
    ∙ ap verdict k

-- After a success and then one or more failures in a row of a node, its status is dead if the
-- failures are three or more, and suspect otherwise.
pub mark_success-failures :
    (now : ℕ) (times : List ℕ) (node : Text) (f : FailureDetector)
    → 0 < length times
    → (state_of (failures times node (mark_success now node f)) node).status
      ≡ (if leb 3 (length times) then status_dead else status_suspect)
mark_success-failures now times node f p =
    let z : 0 + length times ≡ length times = omega arith in
    failures-verdict times node (mark_success now node f) 0
      (unfold mark_success in ap (λ t. t.failure_count) (put_state-state_of node f _)) p
    ∙ ap verdict z

-- The own state answers to an accusation: it is alive and no older than what was said.
abbrev pub Answered : GossipMember → MemberState → Type 0
Answered remote s =
    is_alive (parse_node_status remote.status) ≡ false → newer_member_state remote s ≡ false

answered-Answered :
    (now : ℕ) (remote : GossipMember) (s : MemberState)
    → remote.incarnation + 1 < u64_mod
    → Answered remote (answered now remote s)
unfolding answered refute newer_member_state
answered-Answered now remote s p a = ground arith

still-Answered :
    (now : ℕ) (remote next : GossipMember) (s : MemberState)
    → next.incarnation + 1 < u64_mod
    → Answered remote s
    → Answered remote (answered now next s)
unfolding answered refute newer_member_state
still-Answered now remote next s p h a = ground arith

answered_alive :
    (now : ℕ) (remote : GossipMember) (s : MemberState)
    → s.status ≡ status_alive
    → (answered now remote s).status ≡ status_alive
unfolding answered refute
answered_alive now remote s h = ground arith

-- A node with fewer than two failures on record, whatever its status, has status suspect after one
-- more failure.
pub dead_becomes_suspect :
    (now : ℕ) (node : Text) (f : FailureDetector)
    → (state_of f node).failure_count < 2
    → (state_of (mark_failure now node f) node).status ≡ status_suspect
dead_becomes_suspect now node f p = (state_of-mark_failure now node f).1 ∙ ground arith

abbrev pub InRange : GossipMember → Type 0
InRange remote = remote.incarnation + 1 < u64_mod

module _ (own : Text) where
  own_step :
      (now : ℕ) (next : GossipMember) (f : FailureDetector)
      → f.self ≡ own
      → state_of (merge_member now next f) own
        ≡ (if text_eq next.node own then answered now next (state_of f own) else state_of f own)
  own_step now next f e =
      subst
        (λ k.
          state_of (merge_member now next f) k
          ≡ (if text_eq next.node k then answered now next (state_of f k) else state_of f k))
        e (own-merge_member now next f)

  own_status :
      (now : ℕ) (ms : List GossipMember) (f : FailureDetector)
      → f.self ≡ own
      → (state_of f own).status ≡ status_alive
      → (state_of (merge now ms f) own).status ≡ status_alive
  unfolding merge
  own_status now [] f e h = h
  own_status now (next ∷ ms) f e h =
      own_status now ms (merge_member now next f) (self-merge_member now next f ∙ e)
        (rw (own_step now next f e) (ground (arith, answered_alive now next (state_of f own) h)))

  own-Answered :
      (now : ℕ) (ms : List GossipMember) (f : FailureDetector) (remote : GossipMember)
      → f.self ≡ own
      → All InRange ms
      → Answered remote (state_of f own)
      → Answered remote (state_of (merge now ms f) own)
  unfolding merge
  own-Answered now [] f remote e r h = h
  own-Answered now (next ∷ ms) f remote e r h =
      own-Answered now ms (merge_member now next f) remote (self-merge_member now next f ∙ e) r.1
        (elim (Bool-cases (text_eq next.node own)) [
          | inl q ↦
              rw (own_step now next f e, q) (still-Answered now remote next (state_of f own) r.0 h)
          | inr q ↦ rw (own_step now next f e, q) h
        ])

  -- Every accusation of the node itself in the gossip is answered.
  All-Answered :
      (now : ℕ) (ms : List GossipMember) (f : FailureDetector)
      → f.self ≡ own
      → All InRange ms
      → All
          (λ remote.
            text_eq remote.node own ≡ true → Answered remote (state_of (merge now ms f) own))
          ms
  unfolding merge
  All-Answered now [] f e r = tt
  All-Answered now (next ∷ ms) f e r = (
    λ q.
        own-Answered now ms (merge_member now next f) next (self-merge_member now next f ∙ e) r.1
          (rw (own_step now next f e, q) (answered-Answered now next (state_of f own) r.0)),
    All-Answered now ms (merge_member now next f) (self-merge_member now next f ∙ e) r.1,
  )

-- A node that holds itself for alive still does after Merge, and every member of the gossip that
-- accuses the node is then not newer than its own state, if no incarnation in the gossip reaches
-- 2^64 - 1.
pub merge_refutes :
    (now : ℕ) (ms : List GossipMember) (f : FailureDetector)
    → (state_of f f.self).status ≡ status_alive
    → All InRange ms
    → ((state_of (merge now ms f) f.self).status ≡ status_alive)
      × All
          (λ remote.
            text_eq remote.node f.self ≡ true → Answered remote (state_of (merge now ms f) f.self))
          ms
merge_refutes now ms f h r =
    (own_status f.self now ms f refl h, All-Answered f.self now ms f refl r)
