-- ===== src/HashRing/Points.antt =====
-- ring.go: what the loops of `Add` and `Remove` do to the points.
use minidist.Base.{
  ℕ, zero, suc, ◌+◌, ◌≤◌, ◌<◌, ◌≡◌, refl, inl, inr, true, ◌||◌, ◌&&◌, not, none, some, List, [],
  ◌∷◌, ◌++◌, ◌==◌, if◌then◌else◌, arith, Bool-cases, All,
}
use minidist.Base.Text.{Text}
use minidist.Base.Assoc.{
  nat_eq, text_eq_inst, Assoc, lookup, insert, remove, lookup-insert, lookup-remove,
}
use minidist.Base.Sets.{contains, contains-append}
use minidist.Base.Sort.{IsSorted}
use minidist.HashRing.{Ring, point, add_points, remove_points, keep_others}

-- The points of the virtual nodes `i`, `i + 1`, … of a node.
unfoldable pub points_from : ℕ → ℕ → Text → List ℕ
points_from zero i node = []
points_from (suc left) i node = point node i ∷ points_from left (i + 1) node

abbrev pub points : ℕ → Text → List ℕ
points virtual_nodes node = points_from virtual_nodes 0 node

module _ (node : Text) where
  -- One round of `Add`.
  abbrev step : ℕ → Ring → Ring
  step i r = record r {
    nodes = insert (point node i) node r.nodes;
    hashes = r.hashes ++ point node i ∷ [];
  }

  pub add_points-lookup :
      (left i : ℕ) (r : Ring) (h : ℕ)
      → lookup h (add_points left i node r).nodes
        ≡ (if contains (points_from left i node) h then some node else lookup h r.nodes)
  unfolding add_points points_from contains
  add_points-lookup zero i r h = refl
  add_points-lookup (suc left) i r h = ground (
    arith,
    add_points-lookup left (i + 1) (step i r) h,
    lookup-insert (point node i) h node r.nodes,
  )

  pub add_points-hashes :
      (left i : ℕ) (r : Ring) (h : ℕ)
      → contains (add_points left i node r).hashes h
        ≡ (contains r.hashes h || contains (points_from left i node) h)
  unfolding add_points points_from contains
  add_points-hashes zero i r h = ground arith
  add_points-hashes (suc left) i r h = ground (
    arith,
    add_points-hashes left (i + 1) (step i r) h,
    contains-append r.hashes (point node i ∷ []) h,
  )

  pub add_points-members :
      (left i : ℕ) (r : Ring)
      → ((add_points left i node r).members ≡ r.members)
        × ((add_points left i node r).virtual_nodes ≡ r.virtual_nodes)
  unfolding add_points
  add_points-members zero i r = (refl, refl)
  add_points-members (suc left) i r = add_points-members left (i + 1) _

  pub remove_points-lookup :
      (left i : ℕ) (nodes : Assoc ℕ Text) (removed : List ℕ) (h : ℕ)
      → lookup h (remove_points left i node nodes removed).0
        ≡ (if contains (points_from left i node) h then none else lookup h nodes)
  unfolding remove_points points_from contains
  remove_points-lookup zero i nodes removed h = refl
  remove_points-lookup (suc left) i nodes removed h = ground (
    arith,
    remove_points-lookup left (i + 1) (remove (point node i) nodes) (point node i ∷ removed) h,
    lookup-remove (point node i) h nodes,
  )

  pub remove_points-removed :
      (left i : ℕ) (nodes : Assoc ℕ Text) (removed : List ℕ) (h : ℕ)
      → contains (remove_points left i node nodes removed).1 h
        ≡ (contains removed h || contains (points_from left i node) h)
  unfolding remove_points points_from contains
  remove_points-removed zero i nodes removed h = ground arith
  remove_points-removed (suc left) i nodes removed h = ground (
    arith,
    remove_points-removed left (i + 1) (remove (point node i) nodes) (point node i ∷ removed) h,
  )

  -- Every point of the list is that of a virtual node in range.
  pub points_from-index :
      (left i h : ℕ)
      → contains (points_from left i node) h ≡ true
      → (k : ℕ) × (k < i + left) × (h ≡ point node k)
  unfolding points_from contains
  points_from-index zero i h c = cc
  points_from-index (suc left) i h c = elim (Bool-cases (point node i == h)) [
    | inl e ↦ (i, omega arith, ground arith)
    | inr e ↦ let (k, b, p) = points_from-index left (i + 1) h (ground arith) in (k, omega arith, p)
  ]

  pub contains-points_from :
      (left i k : ℕ)
      → i ≤ k
      → k < i + left
      → contains (points_from left i node) (point node k) ≡ true
  unfolding points_from contains
  contains-points_from zero i k a b = absurd (omega arith)
  contains-points_from (suc left) i k a b = elim (Bool-cases (i == k)) [
    | inl e ↦ let p : i ≡ k = ground arith in rw p (ground arith)
    | inr e ↦ ground (arith, contains-points_from left (i + 1) k)
  ]

pub keep_others_lem :
    (removed hs : List ℕ) (h : ℕ)
    → contains (keep_others removed hs) h ≡ (contains hs h && not (contains removed h))
unfolding keep_others contains
keep_others_lem removed [] h = refl
keep_others_lem removed (x ∷ hs) h = elim (Bool-cases (x == h)) [
  | inl e ↦ let p : x ≡ h = ground arith in ground (arith, keep_others_lem removed hs h)
  | inr e ↦ ground (arith, keep_others_lem removed hs h)
]

keep_others-All :
    (a : ℕ) (removed hs : List ℕ) → All (λ y. a ≤ y) hs → All (λ y. a ≤ y) (keep_others removed hs)
unfolding keep_others
keep_others-All a removed [] k = tt
keep_others-All a removed (x ∷ hs) k = ground (arith, keep_others-All a removed hs)

pub keep_others-IsSorted : (removed hs : List ℕ) → IsSorted hs → IsSorted (keep_others removed hs)
unfolding keep_others
keep_others-IsSorted removed [] s = tt
keep_others-IsSorted removed (x ∷ hs) s =
    ground (arith, keep_others-All x removed hs, keep_others-IsSorted removed hs)
