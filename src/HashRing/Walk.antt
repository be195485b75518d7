-- ===== src/HashRing/Walk.antt =====
-- ring.go: the walk of `GetN` against a reference: the owners met on one turn of the ring, each
-- once, in the order in which they are first met.
use minidist.Base.{
  ℕ, zero, suc, ◌+◌, ◌-◌, ◌≤◌, ◌<◌, ◌≡◌, refl, sym, ap, ◌∙◌, inl, inr, true, false, ◌||◌, some,
  List, [], ◌∷◌, ◌++◌, if◌then◌else◌, arith, Bool-cases, ltb, lt→ltb, ◌==◌, length, length-append,
  take, get_or,
}
use minidist.Base.Text.{Text, text_eq_iff}
use minidist.Base.Assoc.{nat_eq, text_eq_inst}
use minidist.Base.Sets.{contains, contains-append, Distinct, append-Distinct}
use minidist.HashRing.{Ring, owner, collect}

abbrev pub owner_at : Ring → ℕ → Text
owner_at r i = owner r (get_or r.hashes i 0)

abbrev pub next_index : Ring → ℕ → ℕ
next_index r i = if i + 1 == length r.hashes then 0 else i + 1

-- The owners of `k` points from index `i` on, clockwise.
unfoldable pub visit : Ring → ℕ → ℕ → List Text
visit r zero i = []
visit r (suc k) i = owner_at r i ∷ visit r k (next_index r i)

-- The first occurrences, behind those of `acc`.
unfoldable pub nub_onto : List Text → List Text → List Text
nub_onto acc [] = acc
nub_onto acc (w ∷ ws) = nub_onto (if contains acc w then acc else acc ++ w ∷ []) ws

pub contains-nub_onto :
    (acc ws : List Text) (a : Text)
    → contains (nub_onto acc ws) a ≡ (contains acc a || contains ws a)
unfolding nub_onto contains
contains-nub_onto acc [] a = ground arith
contains-nub_onto acc (w ∷ ws) a = elim (Bool-cases (contains acc w)) [
  | inl e ↦
      rw e (ground (arith, contains-nub_onto acc ws a, text_eq_iff w a, ap (λ t. contains acc t)))
  | inr e ↦
      rw e (ground (arith, contains-nub_onto (acc ++ w ∷ []) ws a, contains-append acc (w ∷ []) a))
]

pub nub_onto-Distinct : (acc ws : List Text) → Distinct acc → Distinct (nub_onto acc ws)
unfolding nub_onto
nub_onto-Distinct acc [] d = d
nub_onto-Distinct acc (w ∷ ws) d = elim (Bool-cases (contains acc w)) [
  | inl e ↦ rw e (nub_onto-Distinct acc ws d)
  | inr e ↦ rw e (nub_onto-Distinct (acc ++ w ∷ []) ws (append-Distinct acc w e d))
]

take_all : (xs : List Text) → take (length xs) xs ≡ xs
take_all [] = refl
take_all (x ∷ xs) = ap (λ l. x ∷ l) (take_all xs)

take_shorter : (a b xs : List Text) → take (length (a ++ b)) xs ≡ a ++ b → take (length a) xs ≡ a
take_shorter [] b xs h = refl
take_shorter (y ∷ a) b [] h = cc
take_shorter (y ∷ a) b (x ∷ xs) h = ground (arith, take_shorter a b xs)

-- What is collected stays in front.
pub take-nub_onto : (acc ws : List Text) → take (length acc) (nub_onto acc ws) ≡ acc
unfolding nub_onto
take-nub_onto acc [] = take_all acc
take-nub_onto acc (w ∷ ws) = elim (Bool-cases (contains acc w)) [
  | inl e ↦ rw e (take-nub_onto acc ws)
  | inr e ↦
      rw e
        (take_shorter acc (w ∷ []) (nub_onto (acc ++ w ∷ []) ws) (take-nub_onto (acc ++ w ∷ []) ws))
]

-- `acc` with one more owner, unless it is there.
abbrev pub with_owner : List Text → Text → List Text
with_owner acc w = if contains acc w then acc else acc ++ w ∷ []

length-with_owner : (acc : List Text) (w : Text) → length (with_owner acc w) ≤ suc (length acc)
length-with_owner acc w = ground (arith, length-append acc (w ∷ []))

collect_stops :
    (fuel : ℕ) (r : Ring) (n i : ℕ) (acc : List Text)
    → ltb (length acc) n ≡ false
    → collect (suc fuel) r n i acc acc ≡ some acc
unfolding collect
collect_stops fuel r n i acc h = rw h

pub collect_goes_on :
    (fuel : ℕ) (r : Ring) (n i : ℕ) (acc : List Text)
    → ltb (length acc) n ≡ true
    → length acc < length r.nodes
    → collect (suc fuel) r n i acc acc
      ≡ collect fuel r n
          (next_index r i)
          (with_owner acc (owner_at r i))
          (with_owner acc (owner_at r i))
unfolding collect
collect_goes_on fuel r n i acc h m = rw (h, lt→ltb _ _ m)

-- With room for `k` points that hold enough owners, the loop ends with the first `n` of them.
pub collect_lem :
    (fuel k : ℕ) (r : Ring) (n i : ℕ) (acc : List Text)
    → k < fuel
    → n ≤ length r.nodes
    → length acc ≤ n
    → n ≤ length (nub_onto acc (visit r k i))
    → collect fuel r n i acc acc ≡ some (take n (nub_onto acc (visit r k i)))
unfolding nub_onto visit
collect_lem zero k r n i acc f p a e = absurd (omega arith)
collect_lem (suc fuel) zero r n i acc f p a e =
    let q : n ≡ length acc = omega arith in
    collect_stops fuel r n i acc (ground arith) ∙ rw q (ap (λ l. some l) (sym (take_all acc)))
collect_lem (suc fuel) (suc k) r n i acc f p a e = elim (Bool-cases (ltb (length acc) n)) [
  | inr h ↦
      let q : n ≡ length acc = ground arith in
      collect_stops fuel r n i acc h
      ∙ rw q (ap (λ l. some l) (sym (take-nub_onto acc (visit r (suc k) i))))
  | inl h ↦
      let m : length acc < n = ground arith in
      collect_goes_on fuel r n i acc h (omega arith)
      ∙ collect_lem fuel k r n (next_index r i) (with_owner acc (owner_at r i)) (omega arith) p
          (omega (arith, length-with_owner acc (owner_at r i))) e
]

-- Every index ahead before the end is visited.
visit_ahead :
    (r : Ring) (d k i j : ℕ)
    → i + d ≡ j
    → d < k
    → j < length r.hashes
    → contains (visit r k i) (owner_at r j) ≡ true
unfolding visit contains
visit_ahead r d zero i j q h b = absurd (omega arith)
visit_ahead r zero (suc k) i j q h b =
    let q' : i ≡ j = omega arith in
    rw q' (ground (arith, text_eq_iff (owner_at r j) (owner_at r j)))
visit_ahead r (suc d) (suc k) i j q h b =
    let step : next_index r i ≡ i + 1 = ground arith in
    rw step (ground (arith, visit_ahead r d k (i + 1) j))

-- An index behind is visited after the wrap to 0.
visit_behind :
    (r : Ring) (d k i j : ℕ)
    → i < length r.hashes
    → i + d ≡ length r.hashes + j
    → d < k
    → j < length r.hashes
    → contains (visit r k i) (owner_at r j) ≡ true
unfolding visit contains
visit_behind r zero k i j a q h b = absurd (omega arith)
visit_behind r (suc d) zero i j a q h b = absurd (omega arith)
visit_behind r (suc d) (suc k) i j a q h b = elim (Bool-cases (i + 1 == length r.hashes)) [
  | inl e ↦ rw e (ground (arith, visit_ahead r j k 0 j))
  | inr e ↦ rw e (ground (arith, visit_behind r d k (i + 1) j))
]

-- One turn from any index visits the owner of every point.
pub visit_turn :
    (r : Ring) (i j : ℕ)
    → i < length r.hashes
    → j < length r.hashes
    → contains (visit r (length r.hashes) i) (owner_at r j) ≡ true
visit_turn r i j a b = elim (Bool-cases (ltb j i)) [
  | inl e ↦
      visit_behind r (length r.hashes + j - i) (length r.hashes) i j a (ground arith) (ground arith)
        b
  | inr e ↦ visit_ahead r (j - i) (length r.hashes) i j (ground arith) (ground arith) b
]
