-- ===== src/Node/Cluster/Members.antt =====
-- cluster_membership.go: AddMember and RemoveMember, seen from every node.
use minidist.Base.{
  ℕ, ◌+◌, ◌^◌, ◌≤◌, ◌<◌, ◌≡◌, refl, sym, ap, ◌∙◌, inl, inr, true, false, not, ◌&&◌, ◌||◌, List, [],
  ◌∷◌, ◌++◌, arith, leb, length, Bool-cases,
}
use minidist.Base.Text.{Text, text_eq}
use minidist.Base.TextSort.{length-sort_texts}
use minidist.Base.Words.{u64}
use minidist.Base.Assoc.{text_eq_inst}
use minidist.Base.Sets.{contains, contains-append, without, contains-without}
use minidist.HashRing.Members.{members_of, contains-members_of}
use minidist.Node.Cluster.{
  ClusterConfig, Nodes, Network, apply_cluster_config, add_member, remove_member,
}
use minidist.Node.Cluster.Outcome.{apply_cluster_config-Holds}

module _ (net : Network) (addr member : Text) (nodes : Nodes) where
  abbrev current : List Text
  current = members_of (nodes addr).ring

  abbrev version : ℕ
  version = (nodes addr).config_version

  abbrev config : ℕ → List Text → ClusterConfig
  config v members = record { version = v; members = members }

  add_member-change :
      contains (nodes addr).ring.members member ≡ false
      → add_member net addr member nodes
        ≡ apply_cluster_config net addr
            (current ++ member ∷ [])
            (config version current)
            (config (u64 (version + 1)) (current ++ member ∷ []))
            nodes
  add_member-change new =
      let absent : contains current member ≡ false =
        contains-members_of (nodes addr).ring member ∙ new in
      unfold add_member in rw (absent, add_member) refl

  -- If AddMember of a node that is not in the coordinator's ring succeeds, and no node was ahead
  -- of the coordinator's configuration version and that version is below 2^64 - 1, then every
  -- member of the coordinator's ring and the new member have the next version, and a ring whose
  -- members are those of the coordinator's ring before and the new one.
  pub add_member-done :
      contains (nodes addr).ring.members member ≡ false
      → version + 1 < 2 ^ 64
      → ((b : Text) → (nodes b).config_version ≤ version)
      → (add_member net addr member nodes).0 ≡ true
      → (b : Text) → (contains (nodes addr).ring.members b || text_eq member b) ≡ true
      → (((add_member net addr member nodes).1 b).config_version ≡ version + 1)
        × ((m : Text)
            → contains ((add_member net addr member nodes).1 b).ring.members m
              ≡ (contains (nodes addr).ring.members m || text_eq member m))
  add_member-done new fits behind done b target =
      let all_members = current ++ member ∷ [] in
      let in_all : (m : Text)
          → contains all_members m ≡ (contains (nodes addr).ring.members m || text_eq member m) =
        λ m. ground (
          arith,
          contains-append current (member ∷ []) m,
          contains-members_of (nodes addr).ring m,
          single m,
        ) in
      let h =
        apply_cluster_config-Holds net addr all_members (config version current)
          (config (u64 (version + 1)) all_members) nodes (omega arith)
          (λ t c. inl (omega (arith, behind t)))
          (ap (λ r. r.0) (sym (add_member-change new)) ∙ done) b (in_all b ∙ target) in
      rw (add_member-change new) (h.version ∙ omega arith, λ m. h.members m ∙ in_all m)
    where
      single : (m : Text) → contains (member ∷ []) m ≡ text_eq member m
      single m = unfold contains in ground arith

  abbrev future : List Text
  future = without member current

  -- The guards of RemoveMember, when it succeeds.
  remove_member-change :
      (remove_member net addr member nodes).0 ≡ true
      → (contains current member ≡ true)
        × (1 < length current)
        × (net.drains member future ≡ true)
        × (remove_member net addr member nodes
            ≡ apply_cluster_config net addr future
                (config version current)
                (config (u64 (version + 1)) future)
                nodes)
  remove_member-change done = elim (Bool-cases (contains current member)) [
    | inr e ↦
        let no : (remove_member net addr member nodes).0 ≡ false =
          unfold remove_member in rw (e, remove_member) refl in
        absurd (ground (arith, no, done))
    | inl e ↦ elim (Bool-cases (leb (length current) 1)) [
      | inl f ↦
          let no : (remove_member net addr member nodes).0 ≡ false =
            unfold remove_member in rw (e, f, remove_member) refl in
          absurd (ground (arith, no, done))
      | inr f ↦ elim (Bool-cases (net.drains member future)) [
        | inr g ↦
            let no : (remove_member net addr member nodes).0 ≡ false =
              unfold remove_member in rw (e, f, g, remove_member) refl in
            absurd (ground (arith, no, done))
        | inl g ↦ (e, ground arith, g, unfold remove_member in rw (e, f, g, remove_member) refl)
      ]
    ]
  ]

  -- If RemoveMember succeeds, then the node was in the coordinator's ring and not its last member and
  -- was drained towards the others; and if no node was ahead of the coordinator's configuration
  -- version and that version is below 2^64 - 1, every other member of the coordinator's ring has the
  -- next version, and a ring whose members are those of the coordinator's ring before without the
  -- removed node.
  pub remove_member-done :
      (remove_member net addr member nodes).0 ≡ true
      → version + 1 < 2 ^ 64
      → ((b : Text) → (nodes b).config_version ≤ version)
      → (contains (nodes addr).ring.members member ≡ true)
        × (1 < length (nodes addr).ring.members)
        × (net.drains member (without member (members_of (nodes addr).ring)) ≡ true)
        × ((b : Text)
            → (contains (nodes addr).ring.members b && not (text_eq member b)) ≡ true
            → (((remove_member net addr member nodes).1 b).config_version ≡ version + 1)
              × ((m : Text)
                  → contains ((remove_member net addr member nodes).1 b).ring.members m
                    ≡ (contains (nodes addr).ring.members m && not (text_eq member m))))
  remove_member-done done fits behind =
      let (old, several, drained, change) = remove_member-change done in
      let ring = (nodes addr).ring in
      let in_future : (m : Text)
          → contains future m ≡ (contains ring.members m && not (text_eq member m)) =
        λ m.
          contains-without member current m
          ∙ ap (λ b. b && not (text_eq member m)) (contains-members_of ring m) in
      let holds =
        λ (b : Text) (target : (contains ring.members b && not (text_eq member b)) ≡ true).
          apply_cluster_config-Holds net addr future (config version current)
            (config (u64 (version + 1)) future) nodes (omega arith)
            (λ t c. inl (omega (arith, behind t))) (ap (λ r. r.0) (sym change) ∙ done) b
            (in_future b ∙ target) in
      (
        sym (contains-members_of ring member) ∙ old,
        unfold members_of in omega (arith, several, length-sort_texts ring.members),
        drained,
        λ b target.
            rw change (
              (holds b target).version ∙ omega arith,
              λ m. (holds b target).members m ∙ in_future m,
            ),
      )

  -- A refused RemoveMember, of a node that is not in the coordinator's ring, of its last member or of
  -- one that could not be drained, changes no node.
  pub remove_member-refused :
      (not (contains (nodes addr).ring.members member)
          || leb (length (nodes addr).ring.members) 1
          || not (net.drains member (without member (members_of (nodes addr).ring))))
        ≡ true
      → remove_member net addr member nodes ≡ (false, nodes)
  remove_member-refused h =
      let ring = (nodes addr).ring in
      let old = contains-members_of ring member in
      let size : length current ≡ length ring.members =
        unfold members_of in length-sort_texts ring.members in
      elim (Bool-cases (contains current member)) [
        | inr e ↦ unfold remove_member in rw (e, remove_member) refl
        | inl e ↦ elim (Bool-cases (leb (length current) 1)) [
          | inl f ↦ unfold remove_member in rw (e, f, remove_member) refl
          | inr f ↦
              let g : net.drains member future ≡ false = ground (arith, old, size, e, f, h) in
              unfold remove_member in rw (e, f, g, remove_member) refl
        ]
      ]
