-- ===== src/Node/Detector/Again.antt =====
-- membership.go: gossip that was merged, and merged again.
use minidist.Base.{
  ℕ, ◌≡◌, refl, sym, ◌∙◌, inl, inr, true, false, Option, none, some, List, [], ◌∷◌, arith,
  Bool-cases, All,
}
use mathlib.Core.Path.{subst}
use minidist.Base.Text.{Text, text_eq}
use minidist.Base.Assoc.{lookup, text_eq_inst}
use minidist.Node.Detector.{
  MemberState, FailureDetector, GossipMember, zero_state, newer_member_state, adopt, merge_member,
  merge,
}
use minidist.Node.Detector.Merge.{
  heard, self-merge_member, self-merge, lookup-merge_member, lookup-elsewhere,
}

-- The state `o` of node `k` is not older than what `remote` says of it.
abbrev pub Heard : Text → Option MemberState → GossipMember → Type 0
Heard k o remote =
    text_eq remote.node k ≡ true
    → (local : MemberState) × ((o ≡ some local) × (newer_member_state remote local ≡ false))

heard-Heard :
    (k : Text) (remote : GossipMember) (o : Option MemberState) → Heard k (heard remote o) remote
unfolding heard newer_member_state adopt
heard-Heard k remote none e = (adopt remote zero_state, (refl, ground arith))
heard-Heard k remote (some local) e = elim (Bool-cases (newer_member_state remote local)) [
  | inl n ↦ (adopt remote local, (rw n refl, ground arith))
  | inr n ↦ (local, (rw n refl, n))
]

still-Heard :
    (k : Text) (remote next : GossipMember) (o : Option MemberState)
    → Heard k o remote
    → Heard k (heard next o) remote
unfolding heard newer_member_state adopt
still-Heard k remote next o h e =
    let (local, (at, known)) = h e in
    rw at (elim (Bool-cases (newer_member_state next local)) [
      | inl n ↦ (adopt next local, (rw n refl, ground arith))
      | inr n ↦ (local, (rw n refl, known))
    ])

module _ (k : Text) where
  step-Heard :
      (now : ℕ) (next : GossipMember) (f : FailureDetector) (remote : GossipMember)
      → text_eq k f.self ≡ false
      → Heard k (lookup k f.members) remote
      → Heard k (lookup k (merge_member now next f).members) remote
  step-Heard now next f remote other h = elim (Bool-cases (text_eq next.node k)) [
    | inl e ↦
        rw (lookup-merge_member now next f k other, e)
          (still-Heard k remote next (lookup k f.members) h)
    | inr e ↦ rw (lookup-merge_member now next f k other, e) h
  ]

  first-Heard :
      (now : ℕ) (remote : GossipMember) (f : FailureDetector)
      → text_eq k f.self ≡ false
      → Heard k (lookup k (merge_member now remote f).members) remote
  first-Heard now remote f other e =
      rw (lookup-merge_member now remote f k other, e) (heard-Heard k remote (lookup k f.members) e)

  merge-Heard :
      (now : ℕ) (ms : List GossipMember) (f : FailureDetector) (remote : GossipMember)
      → text_eq k f.self ≡ false
      → Heard k (lookup k f.members) remote
      → Heard k (lookup k (merge now ms f).members) remote
  unfolding merge
  merge-Heard now [] f remote other h = h
  merge-Heard now (next ∷ ms) f remote other h =
      merge-Heard now ms (merge_member now next f) remote (rw (self-merge_member now next f) other)
        (step-Heard now next f remote other h)

  -- After Merge, every member of the gossip about a given other node is known: that node is
  -- tracked with a state that the member is not newer than.
  pub All-Heard :
      (now : ℕ) (ms : List GossipMember) (f : FailureDetector)
      → text_eq k f.self ≡ false
      → All (Heard k (lookup k (merge now ms f).members)) ms
  unfolding merge
  All-Heard now [] f other = tt
  All-Heard now (next ∷ ms) f other =
      let other' : text_eq k (merge_member now next f).self ≡ false =
        rw (self-merge_member now next f) other in
      (
        merge-Heard now ms (merge_member now next f) next other' (first-Heard now next f other),
        All-Heard now ms (merge_member now next f) other',
      )

  known_step :
      (now : ℕ) (next : GossipMember) (f : FailureDetector)
      → text_eq k f.self ≡ false
      → Heard k (lookup k f.members) next
      → lookup k (merge_member now next f).members ≡ lookup k f.members
  known_step now next f other h = elim (Bool-cases (text_eq next.node k)) [
    | inr e ↦ lookup-elsewhere now next f k e
    | inl e ↦
        let (local, (at, known)) = h e in
        let kept : heard next (some local) ≡ some local = unfold heard in rw known refl in
        rw (lookup-merge_member now next f k other, e, at) kept
  ]

  known_kept :
      (now : ℕ) (ms : List GossipMember) (f : FailureDetector)
      → text_eq k f.self ≡ false
      → All (Heard k (lookup k f.members)) ms
      → lookup k (merge now ms f).members ≡ lookup k f.members
  unfolding merge
  known_kept now [] f other h = refl
  known_kept now (next ∷ ms) f other h =
      let same = known_step now next f other h.0 in
      known_kept now ms (merge_member now next f) (rw (self-merge_member now next f) other)
        (subst (λ o. All (Heard k o) ms) (sym same) h.1)
      ∙ same

  -- Merging the same gossip a second time, at any time, changes the state of no node other than
  -- the own one.
  pub merge_again :
      (now now' : ℕ) (ms : List GossipMember) (f : FailureDetector)
      → text_eq k f.self ≡ false
      → lookup k (merge now' ms (merge now ms f)).members ≡ lookup k (merge now ms f).members
  merge_again now now' ms f other =
      known_kept now' ms (merge now ms f) (rw (self-merge now ms f) other)
        (All-Heard now ms f other)
