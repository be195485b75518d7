-- ===== src/HashRing/Valid.antt =====
-- ring.go: the invariant of the ring, kept by `New`, `Add` and `Remove`.
use minidist.Base.{
  ℕ, ◌<◌, ◌≡◌, refl, sym, ap, ◌∙◌, inl, inr, Bool, true, false, ◌||◌, ◌&&◌, not, Option, none, some,
  List, [], ◌∷◌, if◌then◌else◌, arith, Bool-cases,
}
use minidist.Base.Text.{Text, text_eq, text_eq_iff}
use minidist.Base.Assoc.{nat_eq, text_eq_inst, lookup}
use minidist.Base.Sets.{contains, without, contains-without, Distinct, without-Distinct}
use minidist.Base.Sort.{IsSorted, sort-IsSorted, contains-sort}
use minidist.HashRing.{Ring, point, add_points, remove_points, add, add_all, new, remove_node}
use minidist.HashRing.Points.{
  points, add_points-lookup, add_points-hashes, add_points-members, remove_points-lookup,
  remove_points-removed, points_from-index, contains-points_from, keep_others_lem,
  keep_others-IsSorted,
}

abbrev pub is_some : Option Text → Bool
is_some none = false
is_some (some _) = true

-- The points are in order and are exactly those with an owner; an owner is a member, and the point
-- is that of one of its virtual nodes; no member is listed twice.
pub record IsValid (r : Ring) : Type 0 where
  pub sorted : IsSorted r.hashes
  pub listed : (h : ℕ) → contains r.hashes h ≡ is_some (lookup h r.nodes)
  pub owned :
      (h : ℕ) (m : Text)
      → lookup h r.nodes ≡ some m
      → (contains r.members m ≡ true) × (k : ℕ) × (k < r.virtual_nodes) × (h ≡ point m k)
  pub distinct : Distinct r.members

module _ (r : Ring) (node : Text) where
  -- The owner of a point after `Add`.
  pub lookup-add :
      contains r.members node ≡ false
      → (h : ℕ)
      → lookup h (add r node).nodes
        ≡ (if contains (points r.virtual_nodes node) h then some node else lookup h r.nodes)
  unfolding add
  lookup-add new' h =
      rw new' (add_points-lookup node r.virtual_nodes 0 (record r { members = node ∷ r.members }) h)

  pub members-add :
      contains r.members node ≡ false
      → ((add r node).members ≡ node ∷ r.members) × ((add r node).virtual_nodes ≡ r.virtual_nodes)
  unfolding add
  members-add new' =
      rw new' (add_points-members node r.virtual_nodes 0 (record r { members = node ∷ r.members }))

  pub hashes-add :
      contains r.members node ≡ false
      → (h : ℕ)
      → contains (add r node).hashes h
        ≡ (contains r.hashes h || contains (points r.virtual_nodes node) h)
  unfolding add
  hashes-add new' h = rw new' (
      contains-sort
        (add_points r.virtual_nodes 0 node (record r { members = node ∷ r.members })).hashes h
      ∙ add_points-hashes node r.virtual_nodes 0 (record r { members = node ∷ r.members }) h)

  IsSorted-add : contains r.members node ≡ false → IsSorted (add r node).hashes
  unfolding add
  IsSorted-add new' = rw new' (sort-IsSorted _)

  owned-add :
      contains r.members node ≡ false
      → IsValid r
      → (h : ℕ) (m : Text) → lookup h (add r node).nodes ≡ some m
      → (contains (node ∷ r.members) m ≡ true) × (k : ℕ) × (k < r.virtual_nodes) × (h ≡ point m k)
  owned-add new' v h m e = elim (Bool-cases (contains (points r.virtual_nodes node) h)) [
    | inl c ↦
        let (k, b, p) = points_from-index node r.virtual_nodes 0 h c in
        let q : node ≡ m = ground (arith, lookup-add new' h) in
        (
          rw q (unfold contains in ground (arith, text_eq_iff m m)),
          k,
          omega arith,
          p ∙ ap (λ t. point t k) q,
        )
    | inr c ↦
        let old = v.owned h m (ground (arith, lookup-add new' h)) in
        (unfold contains in ground (arith, old.0), old.1, old.2, old.3)
  ]

  pub add-IsValid : IsValid r → IsValid (add r node)
  add-IsValid v = elim (Bool-cases (contains r.members node)) [
    | inl old ↦ unfold add in rw old v
    | inr new' ↦ record {
      sorted = IsSorted-add new';
      listed = λ h. ground (arith, hashes-add new' h, lookup-add new' h, v.listed h);
      owned = λ h m e. rw ((members-add new').0, (members-add new').1) (owned-add new' v h m e);
      distinct = rw ((members-add new').0) (new', v.distinct);
    }
  ]

  -- The owner of a point after `Remove`.
  pub lookup-remove_node :
      contains r.members node ≡ true
      → (h : ℕ)
      → lookup h (remove_node r node).nodes
        ≡ (if contains (points r.virtual_nodes node) h then none else lookup h r.nodes)
  unfolding remove_node
  lookup-remove_node old h = rw old (remove_points-lookup node r.virtual_nodes 0 r.nodes [] h)

  pub members-remove_node :
      contains r.members node ≡ true
      → ((remove_node r node).members ≡ without node r.members)
        × ((remove_node r node).virtual_nodes ≡ r.virtual_nodes)
  unfolding remove_node
  members-remove_node old = rw old (refl, refl)

  pub hashes-remove_node :
      contains r.members node ≡ true
      → (h : ℕ)
      → contains (remove_node r node).hashes h
        ≡ (contains r.hashes h && not (contains (points r.virtual_nodes node) h))
  unfolding remove_node contains
  hashes-remove_node old h =
      let removed = (remove_points r.virtual_nodes 0 node r.nodes []).1 in
      rw old (
        keep_others_lem removed r.hashes h
        ∙ ap (λ b. contains r.hashes h && not b)
            (remove_points-removed node r.virtual_nodes 0 r.nodes [] h))

  -- A point that is none of the node's belongs to another member.
  other_point :
      (h : ℕ) (m : Text) (k : ℕ)
      → contains (points r.virtual_nodes node) h ≡ false
      → k < r.virtual_nodes
      → h ≡ point m k
      → text_eq node m ≡ false
  other_point h m k c b p = elim (Bool-cases (text_eq node m)) [
    | inr no' ↦ no'
    | inl q ↦
        let same : node ≡ m = (text_eq_iff node m).0 q in
        let own : h ≡ point node k = p ∙ sym (ap (λ t. point t k) same) in
        cc (contains-points_from node r.virtual_nodes 0 k (omega arith) (omega arith), own)
  ]

  owned-remove_node :
      contains r.members node ≡ true
      → IsValid r
      → (h : ℕ) (m : Text) → lookup h (remove_node r node).nodes ≡ some m
      → (contains (without node r.members) m ≡ true)
        × (k : ℕ) × (k < r.virtual_nodes)
        × (h ≡ point m k)
  owned-remove_node old v h m e = elim (Bool-cases (contains (points r.virtual_nodes node) h)) [
    | inl c ↦ absurd (ground (arith, lookup-remove_node old h))
    | inr c ↦
        let o = v.owned h m (ground (arith, lookup-remove_node old h)) in
        (
          ground (arith, contains-without node r.members m, other_point h m o.1 c o.2 o.3, o.0),
          o.1,
          o.2,
          o.3,
        )
  ]

  pub remove_node-IsValid : IsValid r → IsValid (remove_node r node)
  remove_node-IsValid v = elim (Bool-cases (contains r.members node)) [
    | inr absent ↦ unfold remove_node in rw absent v
    | inl old ↦ record {
      sorted = unfold remove_node in rw old (keep_others-IsSorted _ r.hashes v.sorted);
      listed = λ h. ground (arith, hashes-remove_node old h, lookup-remove_node old h, v.listed h);
      owned = λ h m e.
          rw ((members-remove_node old).0, (members-remove_node old).1)
            (owned-remove_node old v h m e);
      distinct = rw ((members-remove_node old).0) (without-Distinct node r.members v.distinct);
    }
  ]

add_all-IsValid : (r : Ring) (nodes : List Text) → IsValid r → IsValid (add_all r nodes)
unfolding add_all
add_all-IsValid r [] v = v
add_all-IsValid r (n ∷ ns) v = add_all-IsValid (add r n) ns (add-IsValid r n v)

-- The ring that New builds is valid: the points are sorted and are the keys of the map, every
-- owner is a member whose virtual node has that point, and no member is listed twice.
pub new-IsValid : (nodes : List Text) (virtual_nodes : ℕ) → IsValid (new nodes virtual_nodes)
unfolding new lookup contains
new-IsValid nodes virtual_nodes =
    add_all-IsValid _ nodes
      (record { sorted = tt; listed = λ h. refl; owned = λ h m e. cc; distinct = tt })
