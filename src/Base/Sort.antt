-- ===== src/Base/Sort.antt =====
-- Go's `sort` on native numbers, and `sort.Search`. Equal numbers cannot be told apart, so the
-- result of a sort does not depend on the algorithm.
use Prim.Native.Nat.{ℕ, zero, suc, ◌+◌, ◌/◌, ◌≤◌, ◌<◌}
use mathlib.Core.Path.{◌≡◌, refl}
use mathlib.Core.Bool.{Bool, true, false, ◌||◌}
use mathlib.Core.List.{List, [], ◌∷◌}
use native.Mathlib.Omega.{arith}
use mathlib.Core.Logic.{inl, inr}
use minidist.Base.Tests.{ltb, leb, if◌then◌else◌, Bool-cases, ◌==◌}
use minidist.Base.Lists.{All}
use minidist.Base.Assoc.{nat_eq}
use minidist.Base.Sets.{contains}

insert_sorted : ℕ → List ℕ → List ℕ
insert_sorted x [] = x ∷ []
insert_sorted x (y ∷ ys) = let rest = insert_sorted x ys in if leb x y then x ∷ y ∷ ys else y ∷ rest

unfoldable pub sort : List ℕ → List ℕ
unfolding insert_sorted
sort [] = []
sort (x ∷ xs) = insert_sorted x (sort xs)

abbrev pub IsSorted : List ℕ → Type 0
IsSorted [] = Unit
IsSorted (x ∷ xs) = All (λ y. x ≤ y) xs × IsSorted xs

All-le_trans : (a b : ℕ) (xs : List ℕ) → a ≤ b → All (λ y. b ≤ y) xs → All (λ y. a ≤ y) xs
All-le_trans a b [] h k = tt
All-le_trans a b (x ∷ xs) h k = (omega arith, All-le_trans a b xs h k.1)

insert_sorted-All :
    (a x : ℕ) (xs : List ℕ) → a ≤ x → All (λ y. a ≤ y) xs → All (λ y. a ≤ y) (insert_sorted x xs)
unfolding insert_sorted
insert_sorted-All a x [] h k = (h, tt)
insert_sorted-All a x (y ∷ ys) h k = elim (Bool-cases (leb x y)) [
  | inl e ↦ rw e (h, k)
  | inr e ↦ rw e (k.0, insert_sorted-All a x ys h k.1)
]

insert_sorted-IsSorted : (x : ℕ) (xs : List ℕ) → IsSorted xs → IsSorted (insert_sorted x xs)
unfolding insert_sorted
insert_sorted-IsSorted x [] s = (tt, tt)
insert_sorted-IsSorted x (y ∷ ys) s = elim (Bool-cases (leb x y)) [
  | inl e ↦ rw e ((ground arith, All-le_trans x y ys (ground arith) s.0), s)
  | inr e ↦ rw e (insert_sorted-All y x ys (ground arith) s.0, insert_sorted-IsSorted x ys s.1)
]

pub sort-IsSorted : (xs : List ℕ) → IsSorted (sort xs)
unfolding sort
sort-IsSorted [] = tt
sort-IsSorted (x ∷ xs) = insert_sorted-IsSorted x (sort xs) (sort-IsSorted xs)

contains-insert_sorted :
    (x : ℕ) (xs : List ℕ) (a : ℕ) → contains (insert_sorted x xs) a ≡ ((x == a) || contains xs a)
unfolding insert_sorted contains
contains-insert_sorted x [] a = refl
contains-insert_sorted x (y ∷ ys) a = ground (arith, contains-insert_sorted x ys a)

pub contains-sort : (xs : List ℕ) (a : ℕ) → contains (sort xs) a ≡ contains xs a
unfolding sort contains
contains-sort [] a = refl
contains-sort (x ∷ xs) a = ground (arith, contains-insert_sorted x (sort xs) a, contains-sort xs a)

-- `sort.Search(n, f)`: `for i < j { h := (i+j)/2; if !f(h) { i = h+1 } else { j = h } }`. Each
-- round halves `j - i`, so `j - i + 1` rounds are enough.
search_loop : ℕ → ℕ → ℕ → (ℕ → Bool) → ℕ
search_loop zero i j f = i
search_loop (suc fuel) i j f = elim (ltb i j) [
  | false ↦ i
  | true ↦ elim (f ((i + j) / 2)) [
    | false ↦ search_loop fuel ((i + j) / 2 + 1) j f
    | true ↦ search_loop fuel i ((i + j) / 2) f
  ]
]

unfoldable pub search_first : ℕ → (ℕ → Bool) → ℕ
unfolding search_loop
search_first n f = search_loop (suc n) 0 n f

-- `r` is the first index below `n` at which `f` holds, and `n` if there is none.
pub record IsFirst (n : ℕ) (f : ℕ → Bool) (r : ℕ) : Type 0 where
  pub in_range : r ≤ n
  pub before : (k : ℕ) → k < r → f k ≡ false
  pub from : r < n → f r ≡ true

-- A predicate that stays true once it is true.
abbrev pub Monotone : ℕ → (ℕ → Bool) → Type 0
Monotone n f = (k l : ℕ) → k ≤ l → l < n → f k ≡ true → f l ≡ true

before_false : (f : ℕ → Bool) (k m n : ℕ) → Monotone n f → k ≤ m → m < n → f m ≡ false → f k ≡ false
before_false f k m n mono h l e = elim (Bool-cases (f k)) [
  | inr no' ↦ no'
  | inl yes' ↦ cc (mono k m h l yes')
]

-- Below `i` the predicate is false, and at `j` it is true.
search_loop-IsFirst :
    (fuel i j n : ℕ) (f : ℕ → Bool)
    → Monotone n f
    → (i ≤ j) × (j ≤ n) × (j < i + fuel)
    → ((k : ℕ) → k < i → f k ≡ false)
    → (j < n → f j ≡ true)
    → IsFirst n f (search_loop fuel i j f)
unfolding search_loop
search_loop-IsFirst zero i j n f mono b below above = absurd (omega arith)
search_loop-IsFirst (suc fuel) i j n f mono b below above = elim (Bool-cases (ltb i j)) [
  | inr done ↦
      let e : i ≡ j = ground arith in
      rw (done, search_loop)
        (record { in_range = omega arith; before = below; from = λ h. rw e (above (omega arith)) })
  | inl more ↦ elim (Bool-cases (f ((i + j) / 2))) [
    | inl yes' ↦
        rw (more, yes', search_loop)
          (search_loop-IsFirst fuel i ((i + j) / 2) n f mono (ground arith) below (λ _. yes'))
    | inr no' ↦
        rw (more, no', search_loop)
          (search_loop-IsFirst fuel ((i + j) / 2 + 1) j n f mono (ground arith)
            (λ k h. before_false f k ((i + j) / 2) n mono (omega arith) (ground arith) no') above)
  ]
]

pub search_first-IsFirst : (n : ℕ) (f : ℕ → Bool) → Monotone n f → IsFirst n f (search_first n f)
unfolding search_first
search_first-IsFirst n f mono =
    search_loop-IsFirst (suc n) 0 n n f mono (omega arith) (λ k h. absurd (omega arith))
      (λ h. absurd (omega arith))
