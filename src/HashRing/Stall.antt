-- ===== src/HashRing/Stall.antt =====
-- ring.go: `GetN` on a ring with a member that owns no point, and how such a ring comes about.
use minidist.Base.{
  ℕ, zero, suc, ◌+◌, ◌≤◌, ◌<◌, ◌≡◌, ◌≢◌, refl, sym, ap, ◌∙◌, inl, inr, true, false, none, some,
  List, [], ◌∷◌, if◌then◌else◌, arith, Bool-cases, length, get_or, min, ◌==◌, lt→ltb,
}
use minidist.Base.Text.{Text, text_eq, text_eq_iff}
use minidist.Base.Assoc.{nat_eq, text_eq_inst, lookup}
use minidist.Base.Decimal.{decimal}
use minidist.Base.Crc.{crc_register, crc32-append_twins}
use minidist.Base.Sets.{
  contains, contains-append, Distinct, Within, append-Distinct, length-le-Within,
}
use minidist.HashRing.{Ring, point, hash, virtual_node, add, collect, get_n, first_index}
use minidist.HashRing.Points.{points, points_from}
use minidist.HashRing.Valid.{IsValid, lookup-add, members-add, add-IsValid}
use minidist.HashRing.Walk.{owner_at, next_index, with_owner, collect_goes_on}
use minidist.HashRing.Preference.{owner_at_owned}
use minidist.HashRing.Successor.{first_index-IsSuccessor}

module _ (r : Ring) (n : ℕ) (own : List Text)
    (owners : (j : ℕ) → j < length r.hashes → contains own (owner_at r j) ≡ true)
    (few : length own < n) (spread : length own < length r.nodes) where
  -- Only owners in `own` are met, so the loop never has enough, and never ends.
  collect_stalls :
      (fuel i : ℕ) (acc : List Text)
      → i < length r.hashes
      → Distinct acc
      → Within acc own
      → collect fuel r n i acc acc ≡ none
  collect_stalls zero i acc b d w = unfold collect in refl
  collect_stalls (suc fuel) i acc b d w =
      let small = length-le-Within acc own d w in
      collect_goes_on fuel r n i acc (lt→ltb _ _ (omega arith)) (omega arith)
      ∙ collect_stalls fuel (next_index r i) (with_owner acc (owner_at r i)) (ground arith)
          (grown-Distinct acc (owner_at r i) d) (grown-Within acc (owner_at r i) w (owners i b))
    where
      grown-Distinct : (acc : List Text) (w : Text) → Distinct acc → Distinct (with_owner acc w)
      grown-Distinct acc w d = elim (Bool-cases (contains acc w)) [
        | inl e ↦ rw e d
        | inr e ↦ rw e (append-Distinct acc w e d)
      ]

      grown-Within :
          (acc : List Text) (w : Text)
          → Within acc own
          → contains own w ≡ true
          → Within (with_owner acc w) own
      grown-Within acc w k c a m = elim (Bool-cases (contains acc w)) [
        | inl e ↦ k a (rw e at m)
        | inr e ↦ elim (Bool-cases (text_eq w a)) [
          | inl q ↦ rw (← (text_eq_iff w a).0 q) c
          | inr q ↦ k a (unfold contains in ground (arith, contains-append acc (w ∷ []) a))
        ]
      ]

  -- `GetN` is then still running, whatever the fuel.
  pub get_n_stalls :
      (fuel : ℕ) (key : Text)
      → IsValid r
      → 0 < length r.hashes
      → n ≤ length r.members
      → get_n fuel r key n ≡ none
  unfolding get_n contains
  get_n_stalls fuel key v p q =
      let all : min n (length r.members) ≡ n = omega arith in
      let at = first_index-IsSuccessor r.hashes (hash key) v.sorted p in
      elim (Bool-cases (length r.hashes == 0)) [
        | inl e ↦ absurd (ground arith)
        | inr e ↦ elim (Bool-cases (n == 0)) [
          | inl z ↦ absurd (ground arith)
          | inr z ↦
              rw (e, z, all)
                (collect_stalls fuel (first_index r.hashes (hash key)) [] at.in_range tt
                  (λ a c. cc))
        ]
      ]

twin_points :
    (left i : ℕ) (a b : Text)
    → crc_register a ≡ crc_register b
    → points_from left i a ≡ points_from left i b
unfolding points_from hash virtual_node
twin_points zero i a b e = refl
twin_points (suc left) i a b e =
    let p : point a i ≡ point b i = crc32-append_twins a b (35 ∷ decimal i) e in
    cc (p, twin_points left (i + 1) a b e)

-- Two nodes whose names leave the same CRC register share the points of all their virtual nodes:
-- the one that is added second takes every point of the first, which keeps none.
module _ (r : Ring) (v : IsValid r) (a b : Text) (e : crc_register a ≡ crc_register b)
    (a-new : contains r.members a ≡ false) (b-new : contains r.members b ≡ false)
    (a-b : a ≢ b) where
  b-absent : contains (add r a).members b ≡ false
  b-absent = rw ((members-add r a a-new).0) (unfold contains in ground (arith, text_eq_iff a b))

  abbrev twins : Ring
  twins = add (add r a) b

  members-twins : twins.members ≡ b ∷ a ∷ r.members
  members-twins = (members-add (add r a) b b-absent).0 ∙ ap (λ l. b ∷ l) ((members-add r a a-new).0)

  lookup-twins :
      (h : ℕ)
      → lookup h twins.nodes
        ≡ (if contains (points r.virtual_nodes b) h then some b else lookup h (add r a).nodes)
  lookup-twins h =
      lookup-add (add r a) b b-absent h
      ∙ ap (λ n. if contains (points n b) h then some b else lookup h (add r a).nodes)
          ((members-add r a a-new).1)

  pub twin_owns_nothing : (h : ℕ) → lookup h twins.nodes ≢ some a
  twin_owns_nothing h q =
      let same : contains (points r.virtual_nodes a) h ≡ contains (points r.virtual_nodes b) h =
        ap (λ l. contains l h) (twin_points r.virtual_nodes 0 a b e) in
      elim (Bool-cases (contains (points r.virtual_nodes b) h)) [
        | inl c ↦ a-b (ground (arith, lookup-twins h))
        | inr c ↦
            let old : lookup h r.nodes ≡ some a =
              ground (arith, lookup-twins h, lookup-add r a a-new h) in
            cc ((v.owned h a old).0, a-new)
      ]

  -- If two nodes whose addresses leave the same CRC register are added to a valid ring that has
  -- neither, and the ring then has more points than members other than the first of the two, GetN
  -- for as many replicas as there are members is still running after any number of rounds.
  pub twins_stall_get_n :
      (fuel : ℕ) (key : Text) (n : ℕ)
      → n ≡ suc (suc (length r.members))
      → suc (length r.members) < length twins.nodes
      → 0 < length twins.hashes
      → get_n fuel twins key n ≡ none
  twins_stall_get_n fuel key n k spread some_point =
      let v' = add-IsValid (add r a) b (add-IsValid r a v) in
      let size = ap length members-twins in
      get_n_stalls twins n (b ∷ r.members) (λ j p. other_owner j p) (omega arith) spread fuel key v'
        some_point (omega arith)
    where
      other_owner :
          (j : ℕ) → j < length twins.hashes → contains (b ∷ r.members) (owner_at twins j) ≡ true
      other_owner j p =
          let valid = add-IsValid (add r a) b (add-IsValid r a v) in
          let (m, q, o) = owner_at_owned twins valid j p in
          let there : contains (b ∷ a ∷ r.members) m ≡ true =
            rw (← members-twins) ((valid.owned (get_or twins.hashes j 0) m q).0) in
          rw o (elim (Bool-cases (text_eq a m)) [
            | inl same ↦ absurd (
                twin_owns_nothing (get_or twins.hashes j 0)
                  (q ∙ ap (λ t. some t) (sym ((text_eq_iff a m).0 same))))
            | inr other ↦ unfold contains in ground arith
          ])
