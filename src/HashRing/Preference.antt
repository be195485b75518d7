-- ===== src/HashRing/Preference.antt =====
-- ring.go: the preference list of a key, and why one turn of the ring holds enough owners.
use minidist.Base.{
  ℕ, zero, suc, ◌≤◌, ◌<◌, ◌≡◌, refl, ap, ◌∙◌, ◌⊎◌, inl, inr, true, false, Option, none, some, List,
  [], ◌∷◌, arith, Bool-cases, ◌==◌, length, take, get_or,
}
use minidist.Base.Text.{Text, text_eq, text_eq_iff}
use minidist.Base.Assoc.{nat_eq, text_eq_inst, Assoc, lookup}
use minidist.Base.Sets.{contains, Distinct, Within, length-le-Within}
use minidist.HashRing.Successor.{first_index-IsSuccessor}
use minidist.HashRing.{Ring, owner, first_index, hash}
use minidist.HashRing.Valid.{IsValid, is_some}
use minidist.HashRing.Walk.{owner_at, next_index, visit, nub_onto, contains-nub_onto, visit_turn}

-- Every member owns a point of the ring.
abbrev pub Covers : Ring → Type 0
Covers r = (m : Text) → contains r.members m ≡ true → (h : ℕ) × (lookup h r.nodes ≡ some m)

-- The owners met on one turn, clockwise from the key, each once.
abbrev pub preference : Ring → Text → List Text
preference r key = nub_onto [] (visit r (length r.hashes) (first_index r.hashes (hash key)))

-- A listed point has an index.
pub index_of :
    (hs : List ℕ) (h : ℕ) → contains hs h ≡ true → (j : ℕ) × (j < length hs) × (get_or hs j 0 ≡ h)
unfolding contains
index_of [] h c = cc
index_of (x ∷ hs) h c = elim (Bool-cases (x == h)) [
  | inl e ↦ (0, omega arith, ground arith)
  | inr e ↦ let (j, b, p) = index_of hs h (ground arith) in (suc j, omega arith, p)
]

values : Assoc ℕ Text → List Text
values [] = []
values ((h, m) ∷ rest) = m ∷ values rest

length-values : (nodes : Assoc ℕ Text) → length (values nodes) ≡ length nodes
unfolding values
length-values [] = refl
length-values ((h, m) ∷ rest) = ap suc (length-values rest)

lookup-values :
    (nodes : Assoc ℕ Text) (h : ℕ) (m : Text)
    → lookup h nodes ≡ some m
    → contains (values nodes) m ≡ true
unfolding values lookup contains
lookup-values [] h m e = cc
lookup-values ((j, w) ∷ rest) h m e = ground (arith, text_eq_iff w m, lookup-values rest h m)

pub length-eq_zero : (ms : List Text) → ((m : Text) → contains ms m ≡ true → ⊥) → length ms ≡ 0
unfolding contains
length-eq_zero [] f = refl
length-eq_zero (m ∷ ms) f = absurd (f m (ground (arith, text_eq_iff m m)))

pub contains-take :
    (k : ℕ) (xs : List Text) (a : Text) → contains (take k xs) a ≡ true → contains xs a ≡ true
unfolding contains
contains-take zero xs a c = cc
contains-take (suc k) [] a c = c
contains-take (suc k) (x ∷ xs) a c = ground (arith, contains-take k xs a)

pub take-Distinct : (k : ℕ) (xs : List Text) → Distinct xs → Distinct (take k xs)
take-Distinct zero xs d = tt
take-Distinct (suc k) [] d = tt
take-Distinct (suc k) (x ∷ xs) d =
    (not_there (Bool-cases (contains (take k xs) x)), take-Distinct k xs d.1)
  where
    not_there :
        (contains (take k xs) x ≡ true) ⊎ (contains (take k xs) x ≡ false)
        → contains (take k xs) x ≡ false
    not_there (inl c) = cc (contains-take k xs x c, d.0)
    not_there (inr c) = c

pub listed_index : (j : ℕ) (hs : List ℕ) → j < length hs → contains hs (get_or hs j 0) ≡ true
unfolding contains
listed_index j [] b = absurd (omega arith)
listed_index zero (x ∷ hs) b = ground arith
listed_index (suc j) (x ∷ hs) b = ground (arith, listed_index j hs)

-- A valid ring answers every point with a member.
module _ (r : Ring) (v : IsValid r) where
  -- Every listed point has an owner.
  pub owner_at_owned :
      (j : ℕ)
      → j < length r.hashes
      → (m : Text) × (lookup (get_or r.hashes j 0) r.nodes ≡ some m) × (owner_at r j ≡ m)
  owner_at_owned j b = owner_of (lookup (get_or r.hashes j 0) r.nodes) refl
    where
      owner_of :
          (o : Option Text)
          → lookup (get_or r.hashes j 0) r.nodes ≡ o
          → (m : Text) × (lookup (get_or r.hashes j 0) r.nodes ≡ some m) × (owner_at r j ≡ m)
      owner_of none e = cc (listed_index j r.hashes b, v.listed (get_or r.hashes j 0), ap is_some e)
      owner_of (some m) e = (m, e, unfold owner in rw e refl)

  owner_at-member : (j : ℕ) → j < length r.hashes → contains r.members (owner_at r j) ≡ true
  owner_at-member j b =
      let (m, e, q) = owner_at_owned j b in rw q ((v.owned (get_or r.hashes j 0) m e).0)

  visit-Within : (k i : ℕ) → i < length r.hashes → Within (visit r k i) r.members
  unfolding visit contains
  visit-Within zero i b a c = cc
  visit-Within (suc k) i b a c = elim (Bool-cases (text_eq (owner_at r i) a)) [
    | inl e ↦ rw (← (text_eq_iff (owner_at r i) a).0 e) (owner_at-member i b)
    | inr e ↦ visit-Within k (next_index r i) (ground arith) a (ground arith)
  ]

  pub preference-Within : (key : Text) → 0 < length r.hashes → Within (preference r key) r.members
  preference-Within key p a c =
      visit-Within (length r.hashes) (first_index r.hashes (hash key))
        (first_index-IsSuccessor r.hashes (hash key) v.sorted p).in_range a
        (ground (
          arith,
          contains-nub_onto [] (visit r (length r.hashes) (first_index r.hashes (hash key))) a,
          contains_nil a,
        ))
    where
      contains_nil : (a : Text) → contains [] a ≡ false
      contains_nil a = unfold contains in refl

module _ (r : Ring) (v : IsValid r) (covers : Covers r) where
  pub members-le-nodes : length r.members ≤ length r.nodes
  members-le-nodes = omega (
    arith,
    length-values r.nodes,
    length-le-Within r.members (values r.nodes) v.distinct
        (λ m c. let (h, e) = covers m c in lookup-values r.nodes h m e),
  )

  -- A member owns a point, and one turn visits that point.
  member_met :
      (i : ℕ) (m : Text)
      → i < length r.hashes
      → contains r.members m ≡ true
      → contains (visit r (length r.hashes) i) m ≡ true
  member_met i m b c =
      let (h, e) = covers m c in
      let (j, b', p) = index_of r.hashes h (v.listed h ∙ ap is_some e) in
      let own : owner_at r j ≡ m = unfold owner in rw (p, e) refl in
      rw own at (visit_turn r i j b b')

  pub members-le-preference :
      (key : Text) → 0 < length r.hashes → length r.members ≤ length (preference r key)
  members-le-preference key p = length-le-Within r.members (preference r key) v.distinct (λ m c.
      ground (
        arith,
        contains-nub_onto [] (visit r (length r.hashes) (first_index r.hashes (hash key))) m,
        member_met (first_index r.hashes (hash key)) m
            (first_index-IsSuccessor r.hashes (hash key) v.sorted p).in_range c,
      ))
