-- ===== src/Base/TextSort.antt =====
-- `sort.Strings`. Equal strings cannot be told apart, so the result does not depend on the algorithm.
use Prim.Native.Nat.{suc}
use mathlib.Core.Path.{◌≡◌, refl}
use mathlib.Core.Bool.{false, ◌||◌}
use mathlib.Core.List.{List, [], ◌∷◌}
use mathlib.Core.Logic.{inl, inr}
use native.Mathlib.Omega.{arith}
use minidist.Base.Tests.{if◌then◌else◌, Bool-cases}
use minidist.Base.Lists.{All, length}
use minidist.Base.Text.{
  Text, text_eq, text_eq_iff, text_lt, text_lt_trans, text_lt_irrefl, text_lt_total,
}
use minidist.Base.Assoc.{text_eq_inst}
use minidist.Base.Sets.{contains, Distinct}

insert_text : Text → List Text → List Text
insert_text x [] = x ∷ []
insert_text x (y ∷ ys) = let rest = insert_text x ys in if text_lt y x then y ∷ rest else x ∷ y ∷ ys

unfoldable pub sort_texts : List Text → List Text
unfolding insert_text
sort_texts [] = []
sort_texts (x ∷ xs) = insert_text x (sort_texts xs)

-- No text stands behind a larger one.
abbrev pub InOrder : List Text → Type 0
InOrder [] = Unit
InOrder (x ∷ xs) = All (λ y. text_lt y x ≡ false) xs × InOrder xs

contains-insert_text :
    (x : Text) (xs : List Text) (a : Text)
    → contains (insert_text x xs) a ≡ (text_eq x a || contains xs a)
unfolding insert_text contains
contains-insert_text x [] a = refl
contains-insert_text x (y ∷ ys) a = ground (arith, contains-insert_text x ys a)

pub contains-sort_texts : (xs : List Text) (a : Text) → contains (sort_texts xs) a ≡ contains xs a
unfolding sort_texts contains
contains-sort_texts [] a = refl
contains-sort_texts (x ∷ xs) a =
    ground (arith, contains-insert_text x (sort_texts xs) a, contains-sort_texts xs a)

length-insert_text : (x : Text) (xs : List Text) → length (insert_text x xs) ≡ suc (length xs)
unfolding insert_text
length-insert_text x [] = refl
length-insert_text x (y ∷ ys) = ground (arith, length-insert_text x ys)

pub length-sort_texts : (xs : List Text) → length (sort_texts xs) ≡ length xs
unfolding sort_texts
length-sort_texts [] = refl
length-sort_texts (x ∷ xs) =
    ground (arith, length-insert_text x (sort_texts xs), length-sort_texts xs)

insert_text-Distinct :
    (x : Text) (xs : List Text) → contains xs x ≡ false → Distinct xs → Distinct (insert_text x xs)
unfolding insert_text contains
insert_text-Distinct x [] n d = (refl, tt)
insert_text-Distinct x (y ∷ ys) n d = ground (
  arith,
  contains-insert_text x ys y,
  insert_text-Distinct x ys,
  text_eq_iff x y,
  text_eq_iff y x,
)

pub sort_texts-Distinct : (xs : List Text) → Distinct xs → Distinct (sort_texts xs)
unfolding sort_texts
sort_texts-Distinct [] d = tt
sort_texts-Distinct (x ∷ xs) d = ground (
  arith,
  contains-sort_texts xs x,
  insert_text-Distinct x (sort_texts xs),
  sort_texts-Distinct xs,
)

insert_text-All :
    (a x : Text) (xs : List Text)
    → text_lt x a ≡ false
    → All (λ y. text_lt y a ≡ false) xs
    → All (λ y. text_lt y a ≡ false) (insert_text x xs)
unfolding insert_text
insert_text-All a x [] h k = (h, tt)
insert_text-All a x (y ∷ ys) h k = elim (Bool-cases (text_lt y x)) [
  | inl e ↦ rw e (k.0, insert_text-All a x ys h k.1)
  | inr e ↦ rw e (h, k)
]

not_before : (a b c : Text) → text_lt b a ≡ false → text_lt c b ≡ false → text_lt c a ≡ false
not_before a b c h k = elim (Bool-cases (text_lt c a)) [
  | inr e ↦ e
  | inl e ↦ absurd (ground (arith, text_lt_total a b, text_lt_trans c a b))
]

behind :
    (x y : Text) (ys : List Text)
    → text_lt y x ≡ false
    → All (λ z. text_lt z y ≡ false) ys
    → All (λ z. text_lt z x ≡ false) ys
behind x y [] h k = tt
behind x y (z ∷ zs) h k = (not_before x y z h k.0, behind x y zs h k.1)

insert_text-InOrder : (x : Text) (xs : List Text) → InOrder xs → InOrder (insert_text x xs)
unfolding insert_text
insert_text-InOrder x [] s = (tt, tt)
insert_text-InOrder x (y ∷ ys) s = elim (Bool-cases (text_lt y x)) [
  | inr e ↦ rw e ((e, behind x y ys e s.0), s)
  | inl e ↦ rw e (
    insert_text-All y x ys
        (ground (arith, text_lt_trans x y x, text_lt_irrefl x, Bool-cases (text_lt x y))) s.0,
    insert_text-InOrder x ys s.1,
  )
]

pub sort_texts-InOrder : (xs : List Text) → InOrder (sort_texts xs)
unfolding sort_texts
sort_texts-InOrder [] = tt
sort_texts-InOrder (x ∷ xs) = insert_text-InOrder x (sort_texts xs) (sort_texts-InOrder xs)
