-- ===== src/HashRing/Placement.antt =====
-- ring.go: which keys move when a node comes or goes.
use minidist.Base.{
  ℕ, ◌≤◌, ◌<◌, ◌≡◌, ◌≢◌, refl, sym, ap, ◌∙◌, ◌⊎◌, inl, inr, Bool, true, false, List, [], ◌∷◌, arith,
  Bool-cases, ltb, length, get_or,
}
use minidist.Base.Text.{Text}
use minidist.Base.Assoc.{nat_eq, text_eq_inst}
use minidist.Base.Sets.{contains}
use minidist.Base.Sort.{IsSorted}
use minidist.HashRing.{Ring, hash, owner, first_index, get, add, remove_node}
use minidist.HashRing.Points.{points, points_from-index}
use minidist.HashRing.Valid.{
  IsValid, lookup-add, hashes-add, lookup-remove_node, hashes-remove_node, add-IsValid,
  remove_node-IsValid,
}
use minidist.HashRing.Churn.{OwnsAll}
use minidist.HashRing.Successor.{IsSuccessor, first_index-IsSuccessor, get_or-IsSorted}
use minidist.HashRing.Preference.{index_of, listed_index}

-- `s` is the point that comes first from `h` on, clockwise, among those of the list.
record IsNearest (hs : List ℕ) (h s : ℕ) : Type 0 where
  listed : contains hs s ≡ true
  nearest :
      (x : ℕ)
      → contains hs x ≡ true
      → ((h ≤ s) × ((x < h) ⊎ (s ≤ x))) ⊎ ((s < h) × (x < h) × (s ≤ x))

IsNearest-unique :
    (hs ks : List ℕ) (h s t : ℕ)
    → IsNearest hs h s
    → IsNearest ks h t
    → contains ks s ≡ true
    → contains hs t ≡ true
    → s ≡ t
IsNearest-unique hs ks h s t a b c d = ground (arith, a.nearest t d, b.nearest s c)

chosen : Ring → Text → ℕ
chosen r key = get_or r.hashes (first_index r.hashes (hash key)) 0

nearest_index :
    (hs : List ℕ) (h i j : ℕ)
    → IsSorted hs
    → IsSuccessor hs h i
    → j < length hs
    → let s = get_or hs i 0 in
      let x = get_or hs j 0 in ((h ≤ s) × ((x < h) ⊎ (s ≤ x))) ⊎ ((s < h) × (x < h) × (s ≤ x))
nearest_index hs h i j s at b = elim (at.clockwise) [
  | inl (ge, before) ↦ elim (Bool-cases (ltb j i)) [
    | inl e ↦ inl (ge, inl (before j (ground arith)))
    | inr e ↦ inl (ge, inr (get_or-IsSorted hs i j s (ground arith) b))
  ]
  | inr (first, all) ↦ inr (all i at.in_range, all j b, get_or-IsSorted hs i j s (omega arith) b)
]

chosen-IsNearest :
    (r : Ring) (key : Text)
    → IsSorted r.hashes
    → 0 < length r.hashes
    → IsNearest r.hashes (hash key) (chosen r key)
unfolding chosen
chosen-IsNearest r key s p =
    let at = first_index-IsSuccessor r.hashes (hash key) s p in
    record {
      listed = listed_index (first_index r.hashes (hash key)) r.hashes at.in_range;
      nearest = λ x c.
          let (j, b, e) = index_of r.hashes x c in
          rw (← e) (nearest_index r.hashes (hash key) (first_index r.hashes (hash key)) j s at b);
    }

get-chosen :
    (r : Ring) (key : Text) → 0 < length r.hashes → get r key ≡ (owner r (chosen r key), true)
unfolding get chosen
get-chosen r key p = ground arith

pos_of_contains : (hs : List ℕ) (x : ℕ) → contains hs x ≡ true → 0 < length hs
unfolding contains
pos_of_contains [] x c = cc
pos_of_contains (y ∷ hs) x c = omega arith

module _ (r : Ring) (node key : Text) (v : IsValid r) where
  owner-add_old :
      contains r.members node ≡ false
      → (h : ℕ) → contains (points r.virtual_nodes node) h ≡ false
      → owner (add r node) h ≡ owner r h
  unfolding owner
  owner-add_old absent h c = ground (arith, lookup-add r node absent h)

  owner-add_new :
      contains r.members node ≡ false
      → (h : ℕ) → contains (points r.virtual_nodes node) h ≡ true
      → owner (add r node) h ≡ node
  unfolding owner
  owner-add_new absent h c = ground (arith, lookup-add r node absent h)

  owner-remove_node_old :
      contains r.members node ≡ true
      → (h : ℕ) → contains (points r.virtual_nodes node) h ≡ false
      → owner (remove_node r node) h ≡ owner r h
  unfolding owner
  owner-remove_node_old present h c = ground (arith, lookup-remove_node r node present h)

  -- Adding a node that is not a member to a valid ring with at least one point either leaves a key
  -- with its node or moves it to the new node.
  pub get-add :
      contains r.members node ≡ false
      → 0 < length r.hashes
      → ((get (add r node) key).0 ≡ (get r key).0) ⊎ ((get (add r node) key).0 ≡ node)
  get-add absent p =
      let s = chosen r key in
      let t = chosen (add r node) key in
      let near = chosen-IsNearest r key v.sorted p in
      let still : contains (add r node).hashes s ≡ true =
        ground (arith, hashes-add r node absent s, near.listed) in
      let p' : 0 < length (add r node).hashes = pos_of_contains (add r node).hashes s still in
      let near' = chosen-IsNearest (add r node) key (add-IsValid r node v).sorted p' in
      rw (get-chosen r key p, get-chosen (add r node) key p')
        (elim (Bool-cases (contains (points r.virtual_nodes node) t)) [
          | inl c ↦ inr (owner-add_new absent t c)
          | inr c ↦
              let old : contains r.hashes t ≡ true =
                ground (arith, hashes-add r node absent t, near'.listed) in
              let same : s ≡ t =
                IsNearest-unique r.hashes (add r node).hashes (hash key) s t near near' still old in
              inl (owner-add_old absent t c ∙ ap (owner r) (sym same))
        ])

  get_found : (get r key).1 ≡ true → 0 < length r.hashes
  unfolding get
  get_found e = ground arith

  chosen-other :
      OwnsAll r node
      → 0 < length r.hashes
      → (get r key).0 ≢ node
      → contains (points r.virtual_nodes node) (chosen r key) ≡ false
  chosen-other owns p other =
      elim (Bool-cases (contains (points r.virtual_nodes node) (chosen r key))) [
        | inr c ↦ c
        | inl c ↦
            let (k, b, e) = points_from-index node r.virtual_nodes 0 (chosen r key) c in
            let own : owner r (chosen r key) ≡ node =
              unfold owner in rw (e, owns k (omega arith)) refl in
            absurd (other (ap (λ (q : Text × Bool). q.0) (get-chosen r key p) ∙ own))
      ]

  -- Removing a member that owns all its points from a valid ring changes the result of Get for no
  -- key that another node owns.
  pub get-remove_node :
      contains r.members node ≡ true
      → OwnsAll r node
      → (get r key).1 ≡ true
      → (get r key).0 ≢ node
      → get (remove_node r node) key ≡ get r key
  get-remove_node present owns found other =
      let p = get_found found in
      let s = chosen r key in
      let t = chosen (remove_node r node) key in
      let near = chosen-IsNearest r key v.sorted p in
      let away = chosen-other owns p other in
      let still : contains (remove_node r node).hashes s ≡ true =
        ground (arith, hashes-remove_node r node present s, near.listed) in
      let p' = pos_of_contains (remove_node r node).hashes s still in
      let near' =
        chosen-IsNearest (remove_node r node) key (remove_node-IsValid r node v).sorted p' in
      let old : contains r.hashes t ≡ true =
        ground (arith, hashes-remove_node r node present t, near'.listed) in
      let same : s ≡ t =
        IsNearest-unique r.hashes (remove_node r node).hashes (hash key) s t near near' still old in
      get-chosen (remove_node r node) key p'
      ∙ rw (← same) (ap (λ o. (o, true)) (owner-remove_node_old present s away))
      ∙ sym (get-chosen r key p)
