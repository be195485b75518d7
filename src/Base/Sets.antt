-- ===== src/Base/Sets.antt =====
-- Go's `map[K]struct{}` and `slices.Contains`: lists read through a Boolean membership test.
use Prim.Native.Nat.{suc, ◌≤◌}
use mathlib.Core.Path.{◌≡◌, refl, ap}
use mathlib.Core.Logic.{◌≢◌}
use mathlib.Core.Bool.{Bool, true, false, ◌||◌, not, ◌&&◌}
use mathlib.Core.List.{List, [], ◌∷◌, ◌++◌}
use native.Mathlib.Omega.{arith}
use minidist.Base.Tests.{if◌then◌else◌}
use minidist.Base.Lists.{length}
use minidist.Base.Assoc.{Eq}

module _ {ℓ} {A : Type ℓ} ⦃e : Eq A⦄ where
  unfoldable pub contains : List A → A → Bool
  contains [] a = false
  contains (x ∷ xs) a = e.beq x a || contains xs a

  -- `delete` from a set.
  unfoldable pub without : A → List A → List A
  without a [] = []
  without a (x ∷ xs) = let rest = without a xs in if e.beq x a then rest else x ∷ rest

  abbrev pub Distinct : List A → Type 0
  Distinct [] = Unit
  Distinct (x ∷ xs) = (contains xs x ≡ false) × Distinct xs

  abbrev pub Within : List A → List A → Type ℓ
  Within xs ys = (a : A) → contains xs a ≡ true → contains ys a ≡ true

  pub contains-append :
      (xs ys : List A) (a : A) → contains (xs ++ ys) a ≡ (contains xs a || contains ys a)
  unfolding contains
  contains-append [] ys a = refl
  contains-append (x ∷ xs) ys a = ground (arith, contains-append xs ys a)

  pub contains-without :
      (b : A) (xs : List A) (a : A) → contains (without b xs) a ≡ (contains xs a && not (e.beq b a))
  unfolding contains without
  contains-without b [] a = refl
  contains-without b (x ∷ xs) a =
      ground (arith, contains-without b xs a, e.beq_iff x b, e.beq_iff x a, e.beq_iff b a)

  pub without_absent : (a : A) (xs : List A) → contains xs a ≡ false → without a xs ≡ xs
  unfolding without contains
  without_absent a [] h = refl
  without_absent a (x ∷ xs) h = ground (arith, without_absent a xs)

  pub without-Distinct : (b : A) (xs : List A) → Distinct xs → Distinct (without b xs)
  unfolding without
  without-Distinct b [] d = tt
  without-Distinct b (x ∷ xs) d = ground (arith, contains-without b xs x, without-Distinct b xs)

  pub append-Distinct :
      (xs : List A) (a : A) → contains xs a ≡ false → Distinct xs → Distinct (xs ++ a ∷ [])
  unfolding contains
  append-Distinct [] a n d = (refl, tt)
  append-Distinct (x ∷ xs) a n d =
      ground
        (arith, contains-append xs (a ∷ []) x, append-Distinct xs a, e.beq_iff x a, e.beq_iff a x)

  -- Remove one occurrence.
  drop_one : A → List A → List A
  drop_one a [] = []
  drop_one a (x ∷ xs) = let rest = drop_one a xs in if e.beq x a then xs else x ∷ rest

  length-drop_one :
      (a : A) (xs : List A) → contains xs a ≡ true → length xs ≡ suc (length (drop_one a xs))
  unfolding drop_one contains
  length-drop_one a [] h = cc
  length-drop_one a (x ∷ xs) h = ground (arith, length-drop_one a xs)

  contains-drop_one :
      (b : A) (xs : List A) (a : A)
      → a ≢ b
      → contains xs a ≡ true
      → contains (drop_one b xs) a ≡ true
  unfolding drop_one contains
  contains-drop_one b [] a n h = cc
  contains-drop_one b (x ∷ xs) a n h =
      ground (arith, contains-drop_one b xs a, e.beq_iff x b, e.beq_iff x a)

  pub contains-cons_self : (x : A) (xs : List A) → contains (x ∷ xs) x ≡ true
  unfolding contains
  contains-cons_self x xs = ground (arith, e.beq_iff x x)

  pub contains-cons_of_tail :
      (x a : A) (xs : List A) → contains xs a ≡ true → contains (x ∷ xs) a ≡ true
  unfolding contains
  contains-cons_of_tail x a xs h = ground arith

  ne_of_contains : (x a : A) (xs : List A) → contains xs x ≡ false → contains xs a ≡ true → a ≢ x
  ne_of_contains x a xs n h p = cc (ap (contains xs) p)

  -- The pigeonhole principle.
  pub length-le-Within : (xs ys : List A) → Distinct xs → Within xs ys → length xs ≤ length ys
  length-le-Within [] ys d w = omega arith
  length-le-Within (x ∷ xs) ys d w =
      let here = w x (contains-cons_self x xs) in
      let rest = length-le-Within xs (drop_one x ys) d.1 (λ a h.
        contains-drop_one x ys a (ne_of_contains x a xs d.0 h)
          (w a (contains-cons_of_tail x a xs h))) in
      omega (arith, length-drop_one x ys here, rest)
