-- ===== src/HashRing/Successor.antt =====
-- ring.go: `sort.Search` and the wrap to 0 find the first point clockwise from a hash.
use minidist.Base.{
  ℕ, zero, suc, ◌≤◌, ◌<◌, ◌≡◌, refl, ◌⊎◌, inl, inr, List, [], ◌∷◌, arith, Bool-cases, leb, ◌==◌,
  length, get_or, All,
}
use minidist.Base.Sort.{search_first, search_first-IsFirst, IsFirst, IsSorted}
use minidist.HashRing.{first_index}

get_or-All : (a : ℕ) (hs : List ℕ) (k : ℕ) → All (λ y. a ≤ y) hs → k < length hs → a ≤ get_or hs k 0
get_or-All a [] k p b = absurd (omega arith)
get_or-All a (x ∷ hs) zero p b = p.0
get_or-All a (x ∷ hs) (suc k) p b = get_or-All a hs k p.1 (omega arith)

pub get_or-IsSorted :
    (hs : List ℕ) (k l : ℕ) → IsSorted hs → k ≤ l → l < length hs → get_or hs k 0 ≤ get_or hs l 0
get_or-IsSorted [] k l s p b = absurd (omega arith)
get_or-IsSorted (x ∷ hs) zero zero s p b = omega arith
get_or-IsSorted (x ∷ hs) zero (suc l) s p b = get_or-All x hs l s.0 (omega arith)
get_or-IsSorted (x ∷ hs) (suc k) zero s p b = absurd (omega arith)
get_or-IsSorted (x ∷ hs) (suc k) (suc l) s p b =
    get_or-IsSorted hs k l s.1 (omega arith) (omega arith)

-- Point `i` is the first at or after `h`; or no point is, and `i` is the first of all.
pub record IsSuccessor (hs : List ℕ) (h i : ℕ) : Type 0 where
  pub in_range : i < length hs
  pub clockwise :
      ((h ≤ get_or hs i 0) × ((k : ℕ) → k < i → get_or hs k 0 < h))
      ⊎ ((i ≡ 0) × ((k : ℕ) → k < length hs → get_or hs k 0 < h))

found :
    (hs : List ℕ) (h : ℕ)
    → IsSorted hs
    → IsFirst
        (length hs)
        (λ i. leb h (get_or hs i 0))
        (search_first (length hs) (λ i. leb h (get_or hs i 0)))
found hs h s =
    search_first-IsFirst (length hs) (λ i. leb h (get_or hs i 0))
      (λ k l p b t. ground (arith, get_or-IsSorted hs k l s p b))

pub first_index-IsSuccessor :
    (hs : List ℕ) (h : ℕ) → IsSorted hs → 0 < length hs → IsSuccessor hs h (first_index hs h)
unfolding first_index
first_index-IsSuccessor hs h s p =
    let r = search_first (length hs) (λ i. leb h (get_or hs i 0)) in
    let f = found hs h s in
    elim (Bool-cases (r == length hs)) [
      | inl e ↦
          rw e (record { in_range = p; clockwise = inr (refl, λ k b. ground (arith, f.before k)) })
      | inr e ↦ rw e (record {
        in_range = ground (arith, f.in_range);
        clockwise = inl (ground (arith, f.in_range, f.from), λ k b. ground (arith, f.before k));
      })
    ]
