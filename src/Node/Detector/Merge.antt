-- ===== src/Node/Detector/Merge.antt =====
-- membership.go: `Merge`, one member and then a list of them.
use minidist.Base.{
  ℕ, ◌≡◌, refl, sym, ap, ◌∙◌, inl, inr, ◌⊎◌, false, not, ◌&&◌, Option, none, some, List, [], ◌∷◌,
  arith, ltb, if◌then◌else◌, Bool-cases, Option-cases,
}
use minidist.Base.Text.{Text, text_eq, text_eq_iff}
use minidist.Base.Assoc.{lookup, text_eq_inst, lookup-insert}
use minidist.Node.Detector.{
  MemberState, FailureDetector, GossipMember, zero_state, state_or_zero, state_of, put_state,
  parse_node_status, newer_member_state, is_alive, refute, refute_self, adopt, merge_member, merge,
}

-- What a tracked or untracked node other than the own one becomes.
unfoldable pub heard : GossipMember → Option MemberState → Option MemberState
heard remote none = some (adopt remote zero_state)
heard remote (some local) =
    if newer_member_state remote local then some (adopt remote local) else some local

pub self-merge_member :
    (now : ℕ) (remote : GossipMember) (f : FailureDetector)
    → (merge_member now remote f).self ≡ f.self
unfolding merge_member refute_self put_state
self-merge_member now remote f = ground arith

-- Only the node that the member names can change.
merge_member-cases :
    (now : ℕ) (remote : GossipMember) (f : FailureDetector)
    → (merge_member now remote f ≡ f)
      ⊎ ((s : MemberState) × (merge_member now remote f ≡ put_state remote.node s f))
merge_member-cases now remote f = elim (Bool-cases (text_eq remote.node f.self)) [
  | inl e ↦
      elim (Bool-cases (
        not (is_alive (parse_node_status remote.status))
        && newer_member_state remote (state_of f f.self))) [
          | inr a ↦ inl (unfold merge_member in rw (e, a) refl)
          | inl a ↦ elim (Bool-cases (ltb remote.incarnation (state_of f f.self).incarnation)) [
            | inl b ↦ inl (unfold merge_member refute_self in rw (e, a, b) refl)
            | inr b ↦
                let own : merge_member now remote f
                    ≡ put_state f.self (refute now remote (state_of f f.self)) f =
                  unfold merge_member refute_self in rw (e, a, b) refl in
                inr (
                  refute now remote (state_of f f.self),
                  own
                      ∙ ap (λ n. put_state n (refute now remote (state_of f f.self)) f)
                          (sym ((text_eq_iff remote.node f.self).0 e)),
                )
          ]
        ]
  | inr e ↦ elim (Option-cases (lookup remote.node f.members)) [
    | inl h ↦ inr (adopt remote zero_state, unfold merge_member in rw (e, h) refl)
    | inr (local, h) ↦ elim (Bool-cases (newer_member_state remote local)) [
      | inl n ↦ inr (adopt remote local, unfold merge_member in rw (e, h, n) refl)
      | inr n ↦ inl (unfold merge_member in rw (e, h, n) refl)
    ]
  ]
]

pub self-merge :
    (now : ℕ) (ms : List GossipMember) (f : FailureDetector) → (merge now ms f).self ≡ f.self
unfolding merge
self-merge now [] f = refl
self-merge now (m ∷ ms) f = self-merge now ms (merge_member now m f) ∙ self-merge_member now m f

pub lookup-elsewhere :
    (now : ℕ) (remote : GossipMember) (f : FailureDetector) (k : Text)
    → text_eq remote.node k ≡ false
    → lookup k (merge_member now remote f).members ≡ lookup k f.members
lookup-elsewhere now remote f k e = elim (merge_member-cases now remote f) [
  | inl h ↦ ap (λ g. lookup k g.members) h
  | inr (s, h) ↦
      ap (λ g. lookup k g.members) h
      ∙ (unfold put_state in lookup-insert remote.node k s f.members ∙ rw e refl)
]

pub lookup-merge_member :
    (now : ℕ) (remote : GossipMember) (f : FailureDetector) (k : Text)
    → text_eq k f.self ≡ false
    → lookup k (merge_member now remote f).members
      ≡ (if text_eq remote.node k then heard remote (lookup k f.members) else lookup k f.members)
unfolding merge_member refute_self put_state heard
lookup-merge_member now remote f k other = elim (Bool-cases (text_eq remote.node k)) [
  | inl e ↦
      let same = (text_eq_iff remote.node k).0 e in
      let at : lookup k f.members ≡ lookup remote.node f.members =
        ap (λ n. lookup n f.members) (sym same) in
      let away : text_eq remote.node f.self ≡ false = ap (λ n. text_eq n f.self) same ∙ other in
      rw (e, at)
        (elim (Option-cases (lookup remote.node f.members)) [
          | inl h ↦
              rw (away, h)
                (lookup-insert remote.node k (adopt remote zero_state) f.members ∙ rw e refl)
          | inr (local, h) ↦ elim (Bool-cases (newer_member_state remote local)) [
            | inl n ↦
                rw (away, h, n)
                  (lookup-insert remote.node k (adopt remote local) f.members ∙ rw e refl)
            | inr n ↦ rw (away, h, n) (at ∙ h)
          ]
        ])
  | inr e ↦ rw e (lookup-elsewhere now remote f k e)
]

-- The state of the node itself, before and after.
unfoldable pub answered : ℕ → GossipMember → MemberState → MemberState
answered now remote s =
    if not (is_alive (parse_node_status remote.status)) && newer_member_state remote s
    then refute now remote s
    else s

pub own-merge_member :
    (now : ℕ) (remote : GossipMember) (f : FailureDetector)
    → state_of (merge_member now remote f) f.self ≡ (
        if text_eq remote.node f.self
        then answered now remote (state_of f f.self)
        else state_of f f.self)
unfolding answered state_of
own-merge_member now remote f = elim (Bool-cases (text_eq remote.node f.self)) [
  | inl e ↦ rw e (
      unfold merge_member refute_self put_state state_of refute in
      ground (
        arith,
        e,
        lookup-insert f.self f.self (refute now remote (state_of f f.self)) f.members,
        text_eq_iff f.self f.self,
      ))
  | inr e ↦ rw e (ap state_or_zero (lookup-elsewhere now remote f f.self e))
]
