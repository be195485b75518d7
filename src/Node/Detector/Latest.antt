-- ===== src/Node/Detector/Latest.antt =====
-- membership.go: `Merge` against the latest state that anyone knows of a node.
use minidist.Base.{
  ℕ, ◌≤◌, ◌<◌, ◌≡◌, ◌⊎◌, refl, sym, ◌∙◌, inl, inr, true, false, Option, none, some, List, [], ◌∷◌,
  arith, Bool-cases, All,
}
use mathlib.Core.Path.{subst}
use minidist.Base.Text.{Text, text_eq}
use minidist.Base.Assoc.{lookup, text_eq_inst}
use minidist.Node.Detector.{
  MemberState, FailureDetector, GossipMember, parse_node_status, newer_member_state, adopt,
  merge_member, merge,
}
use minidist.Node.Detector.Merge.{heard, self-merge_member, lookup-merge_member}

-- An incarnation and version that a state is not behind, in lexicographic order.
abbrev pub UpTo : ℕ → ℕ → Option MemberState → Type 0
UpTo incarnation version o =
    (s : MemberState) × (o ≡ some s)
    × ((incarnation < s.incarnation) ⊎ ((incarnation ≡ s.incarnation) × (version ≤ s.version)))

-- The state is the one that a member of the gossip tells of the node.
abbrev pub Told : Text → Option MemberState → List GossipMember → Type 0
Told k o [] = ⊥
Told k o (remote ∷ rest) =
    ((text_eq remote.node k ≡ true)
      × ((s : MemberState) × (o ≡ some s)
          × (s.status ≡ parse_node_status remote.status)
          × (s.incarnation ≡ remote.incarnation)
          × (s.version ≡ remote.version)))
    ⊎ Told k o rest

newer_iff :
    (remote : GossipMember) (s : MemberState)
    → ((newer_member_state remote s ≡ true)
        × ((s.incarnation < remote.incarnation)
            ⊎ ((s.incarnation ≡ remote.incarnation) × (s.version < remote.version))))
      ⊎ ((newer_member_state remote s ≡ false)
          × ((remote.incarnation < s.incarnation)
              ⊎ ((remote.incarnation ≡ s.incarnation) × (remote.version ≤ s.version))))
unfolding newer_member_state
newer_iff remote s = ground arith

heard-UpTo :
    (remote : GossipMember) (o : Option MemberState)
    → UpTo remote.incarnation remote.version (heard remote o)
unfolding heard adopt
heard-UpTo remote none = (_, refl, inr (refl, omega arith))
heard-UpTo remote (some local) = elim (newer_iff remote local) [
  | inl (e, h) ↦ (adopt remote local, rw e refl, inr (refl, omega arith))
  | inr (e, h) ↦ (local, rw e refl, h)
]

heard-keeps :
    (remote : GossipMember) (o : Option MemberState) (i v : ℕ)
    → UpTo i v o
    → UpTo i v (heard remote o)
unfolding heard adopt
heard-keeps remote o i v (s, at, h) = elim (newer_iff remote s) [
  | inl (e, l) ↦ (adopt remote s, rw (at, e) refl, ground (arith, h, l))
  | inr (e, l) ↦ (s, rw (at, e) refl, h)
]

-- Either nothing was heard of the node, or its state is what the member tells.
heard-Told :
    (k : Text) (remote : GossipMember) (o : Option MemberState) (rest : List GossipMember)
    → text_eq remote.node k ≡ true
    → (heard remote o ≡ o) ⊎ Told k (heard remote o) (remote ∷ rest)
unfolding heard adopt
heard-Told k remote none rest n = inr (inl (n, (_, refl, refl, refl, refl)))
heard-Told k remote (some local) rest n = elim (newer_iff remote local) [
  | inr (e, h) ↦ inl (rw e refl)
  | inl (e, h) ↦ inr (inl (n, (adopt remote local, rw e refl, refl, refl, refl)))
]

module _ (k : Text) where
  step :
      (now : ℕ) (next : GossipMember) (f : FailureDetector)
      → text_eq k f.self ≡ false
      → ((text_eq next.node k ≡ true)
          × (lookup k (merge_member now next f).members ≡ heard next (lookup k f.members)))
        ⊎ ((text_eq next.node k ≡ false)
            × (lookup k (merge_member now next f).members ≡ lookup k f.members))
  step now next f other = elim (Bool-cases (text_eq next.node k)) [
    | inl e ↦ inl (e, rw (lookup-merge_member now next f k other, e) refl)
    | inr e ↦ inr (e, rw (lookup-merge_member now next f k other, e) refl)
  ]

  pub merge-keeps :
      (now : ℕ) (ms : List GossipMember) (f : FailureDetector) (i v : ℕ)
      → text_eq k f.self ≡ false
      → UpTo i v (lookup k f.members)
      → UpTo i v (lookup k (merge now ms f).members)
  unfolding merge
  merge-keeps now [] f i v other h = h
  merge-keeps now (next ∷ ms) f i v other h =
      merge-keeps now ms (merge_member now next f) i v (rw (self-merge_member now next f) other)
        (elim (step now next f other) [
          | inl (n, e) ↦ subst (UpTo i v) (sym e) (heard-keeps next (lookup k f.members) i v h)
          | inr (n, e) ↦ subst (UpTo i v) (sym e) h
        ])

  All-UpTo :
      (now : ℕ) (ms : List GossipMember) (f : FailureDetector)
      → text_eq k f.self ≡ false
      → All
          (λ (remote : GossipMember).
            text_eq remote.node k ≡ true
            → UpTo remote.incarnation remote.version (lookup k (merge now ms f).members))
          ms
  unfolding merge
  All-UpTo now [] f other = tt
  All-UpTo now (next ∷ ms) f other =
      let other' : text_eq k (merge_member now next f).self ≡ false =
        rw (self-merge_member now next f) other in
      (
        λ n.
            merge-keeps now ms (merge_member now next f) next.incarnation next.version other'
              (elim (step now next f other) [
                | inl (m, e) ↦
                    subst (UpTo next.incarnation next.version) (sym e)
                      (heard-UpTo next (lookup k f.members))
                | inr (m, e) ↦ absurd (ground (arith, n, m))
              ]),
        All-UpTo now ms (merge_member now next f) other',
      )

  merge-Told :
      (now : ℕ) (ms : List GossipMember) (f : FailureDetector)
      → text_eq k f.self ≡ false
      → (lookup k (merge now ms f).members ≡ lookup k f.members)
        ⊎ Told k (lookup k (merge now ms f).members) ms
  unfolding merge
  merge-Told now [] f other = inl refl
  merge-Told now (next ∷ ms) f other =
      let g = merge_member now next f in
      elim (merge-Told now ms g (rw (self-merge_member now next f) other)) [
        | inr h ↦ inr (inr h)
        | inl same ↦ elim (step now next f other) [
          | inr (n, e) ↦ inl (same ∙ e)
          | inl (n, e) ↦ elim (heard-Told k next (lookup k f.members) ms n) [
            | inl old ↦ inl (same ∙ e ∙ old)
            | inr told ↦ inr (subst (λ o. Told k o (next ∷ ms)) (sym (same ∙ e)) told)
          ]
        ]
      ]

  -- After Merge, a node other than the own one that the gossip or the detector knew is tracked
  -- with a state that, in the lexicographic order of incarnation and version, is not behind any
  -- member of the gossip about it nor behind its state before; and this state is the one before,
  -- or has the status, the incarnation and the version of one of these members.
  pub merge-UpTo :
      (now : ℕ) (ms : List GossipMember) (f : FailureDetector)
      → text_eq k f.self ≡ false
      → All
          (λ (remote : GossipMember).
            text_eq remote.node k ≡ true
            → UpTo remote.incarnation remote.version (lookup k (merge now ms f).members))
          ms
        × ((old : MemberState)
            → lookup k f.members ≡ some old
            → UpTo old.incarnation old.version (lookup k (merge now ms f).members))
        × ((lookup k (merge now ms f).members ≡ lookup k f.members)
            ⊎ Told k (lookup k (merge now ms f).members) ms)
  merge-UpTo now ms f other = (
    All-UpTo now ms f other,
    λ old e.
        merge-keeps now ms f old.incarnation old.version other (old, e, inr (refl, omega arith)),
    merge-Told now ms f other,
  )
