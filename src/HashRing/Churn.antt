-- ===== src/HashRing/Churn.antt =====
-- ring.go: adding and removing nodes whose points do not clash.
use minidist.Base.{
  ℕ, ◌<◌, ◌≡◌, ap, ◌∙◌, inl, inr, true, false, none, some, List, ◌∷◌, arith, Bool-cases,
}
use minidist.Base.Text.{Text, text_eq, text_eq_iff}
use minidist.Base.Assoc.{nat_eq, text_eq_inst, lookup}
use minidist.Base.Sets.{contains, without, without_absent, contains-without, contains-cons_self}
use minidist.HashRing.{Ring, point, add, remove_node}
use minidist.HashRing.Points.{points, points_from-index, contains-points_from}
use minidist.HashRing.Valid.{
  IsValid, is_some, lookup-add, members-add, hashes-add, lookup-remove_node, members-remove_node,
  hashes-remove_node,
}
use minidist.HashRing.Preference.{Covers}

-- No point of the node's virtual nodes is taken.
abbrev pub IsFree : Ring → Text → Type 0
IsFree r node = (k : ℕ) → k < r.virtual_nodes → lookup (point node k) r.nodes ≡ none

-- The node owns the points of all its virtual nodes.
abbrev pub OwnsAll : Ring → Text → Type 0
OwnsAll r node = (k : ℕ) → k < r.virtual_nodes → lookup (point node k) r.nodes ≡ some node

module _ (r : Ring) (node : Text) where
  without_self : (a : Text) (xs : List Text) → contains xs a ≡ false → without a (a ∷ xs) ≡ xs
  without_self a xs h = unfold without in ground (arith, text_eq_iff a a, without_absent a xs h)

  free_point :
      IsFree r node
      → (h : ℕ) → contains (points r.virtual_nodes node) h ≡ true
      → lookup h r.nodes ≡ none
  free_point free h c =
      let (k, b, e) = points_from-index node r.virtual_nodes 0 h c in
      ap (λ x. lookup x r.nodes) e ∙ free k (omega arith)

  present : contains r.members node ≡ false → contains (add r node).members node ≡ true
  present absent = rw ((members-add r node absent).0) (contains-cons_self node r.members)

  same_points :
      contains r.members node ≡ false
      → (h : ℕ)
      → contains (points (add r node).virtual_nodes node) h
        ≡ contains (points r.virtual_nodes node) h
  same_points absent h = ap (λ n. contains (points n node) h) ((members-add r node absent).1)

  lookup-remove_node-add :
      contains r.members node ≡ false
      → IsFree r node
      → (h : ℕ) → lookup h (remove_node (add r node) node).nodes ≡ lookup h r.nodes
  lookup-remove_node-add absent free h =
      let removed = lookup-remove_node (add r node) node (present absent) h in
      let same = same_points absent h in
      elim (Bool-cases (contains (points r.virtual_nodes node) h)) [
        | inl c ↦ ground (arith, removed, same, free_point free h c)
        | inr c ↦ ground (arith, removed, same, lookup-add r node absent h)
      ]

  hashes-remove_node-add :
      contains r.members node ≡ false
      → IsFree r node
      → IsValid r
      → (h : ℕ) → contains (remove_node (add r node) node).hashes h ≡ contains r.hashes h
  hashes-remove_node-add absent free v h =
      let removed = hashes-remove_node (add r node) node (present absent) h in
      let same = same_points absent h in
      elim (Bool-cases (contains (points r.virtual_nodes node) h)) [
        | inl c ↦ ground (arith, removed, same, v.listed h, ap is_some (free_point free h c))
        | inr c ↦ ground (arith, removed, same, hashes-add r node absent h)
      ]

  -- On a valid ring, adding a node that is not a member and whose points are all free, and
  -- removing it again, restores the owner of every point, the set of points and the members.
  pub remove_node-add :
      contains r.members node ≡ false
      → IsFree r node
      → IsValid r
      → ((h : ℕ) → lookup h (remove_node (add r node) node).nodes ≡ lookup h r.nodes)
        × ((h : ℕ) → contains (remove_node (add r node) node).hashes h ≡ contains r.hashes h)
        × ((remove_node (add r node) node).members ≡ r.members)
  remove_node-add absent free v = (
    lookup-remove_node-add absent free,
    hashes-remove_node-add absent free v,
    (members-remove_node (add r node) node (present absent)).0
        ∙ rw ((members-add r node absent).0) (without_self node r.members absent),
  )

  -- A member keeps a point: the ring still covers its members after an addition …
  pub add-Covers :
      contains r.members node ≡ false
      → 0 < r.virtual_nodes
      → IsFree r node
      → Covers r
      → Covers (add r node)
  add-Covers absent p free covers m c = elim (Bool-cases (text_eq node m)) [
    | inl e ↦
        let own = contains-points_from node r.virtual_nodes 0 0 (omega arith) (omega arith) in
        (point node 0, ground (arith, lookup-add r node absent (point node 0), text_eq_iff node m))
    | inr e ↦
        let c' : contains (node ∷ r.members) m ≡ true = rw (← (members-add r node absent).0) c in
        let (h, o) = covers m (unfold contains in ground arith) in (h, kept h m o)
  ]
    where
      kept : (h : ℕ) (m : Text) → lookup h r.nodes ≡ some m → lookup h (add r node).nodes ≡ some m
      kept h m o = elim (Bool-cases (contains (points r.virtual_nodes node) h)) [
        | inl q ↦ cc (free_point free h q, o)
        | inr q ↦ ground (arith, lookup-add r node absent h)
      ]

  -- … and after the removal of a node that owns its points.
  pub remove_node-Covers :
      contains r.members node ≡ true → OwnsAll r node → Covers r → Covers (remove_node r node)
  remove_node-Covers there owns covers m c =
      let c' : contains (without node r.members) m ≡ true =
        rw (← (members-remove_node r node there).0) c in
      let (h, o) = covers m (ground (arith, contains-without node r.members m)) in
      (h, kept h o (ground (arith, contains-without node r.members m)))
    where
      kept :
          (h : ℕ)
          → lookup h r.nodes ≡ some m
          → text_eq node m ≡ false
          → lookup h (remove_node r node).nodes ≡ some m
      kept h o other = elim (Bool-cases (contains (points r.virtual_nodes node) h)) [
        | inr q ↦ ground (arith, lookup-remove_node r node there h)
        | inl q ↦
            let (k, b, e) = points_from-index node r.virtual_nodes 0 h q in
            let own : lookup h r.nodes ≡ some node =
              ap (λ x. lookup x r.nodes) e ∙ owns k (omega arith) in
            absurd (ground (arith, text_eq_iff node m))
      ]
