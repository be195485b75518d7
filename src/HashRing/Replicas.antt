-- ===== src/HashRing/Replicas.antt =====
-- ring.go: `GetN` against the reference walk.
use minidist.Base.{
  ℕ, zero, suc, ◌≤◌, ◌<◌, ◌≡◌, refl, ap, ◌∙◌, inl, inr, true, false, Option, some, List, [], ◌∷◌,
  arith, Bool-cases, ◌==◌, length, take, length-take, min,
}
use minidist.Base.Text.{Text}
use minidist.Base.Assoc.{nat_eq, text_eq_inst}
use minidist.Base.Sets.{contains, Distinct, Within}
use minidist.HashRing.{Ring, collect, first_index, get_n, get, hash}
use minidist.HashRing.Valid.{IsValid, is_some}
use minidist.HashRing.Preference.{
  Covers, preference, members-le-nodes, members-le-preference, preference-Within, contains-take,
  take-Distinct, index_of, length-eq_zero,
}
use minidist.HashRing.Walk.{
  take-nub_onto, owner_at, next_index, visit, nub_onto, nub_onto-Distinct, collect_lem,
}

contains-nil : (a : Text) → contains [] a ≡ false
unfolding contains
contains-nil a = refl

head_take :
    (w : Text) (xs : List Text) (m : ℕ)
    → take 1 xs ≡ w ∷ []
    → 0 < m
    → (rest : List Text) × (take m xs ≡ w ∷ rest)
head_take w [] m h b = cc
head_take w (x ∷ xs) zero h b = absurd (omega arith)
head_take w (x ∷ xs) (suc m) h b = (take m xs, ground arith)

module _ (r : Ring) (v : IsValid r) (covers : Covers r) where
  preference_in_get_n :
      (fuel : ℕ) (key : Text) (n : ℕ)
      → 0 < length r.hashes
      → length r.hashes < fuel
      → collect fuel r (min n (length r.members)) (first_index r.hashes (hash key)) [] []
        ≡ some (take (min n (length r.members)) (preference r key))
  preference_in_get_n fuel key n p f =
      collect_lem fuel (length r.hashes) r (min n (length r.members))
        (first_index r.hashes (hash key)) [] f (omega (arith, members-le-nodes r v covers))
        (omega arith) (omega (arith, members-le-preference r v covers key p))

  no_members : length r.hashes ≡ 0 → length r.members ≡ 0
  no_members e = length-eq_zero r.members (λ m c.
      let (h, o) = covers m c in
      let (j, b, p) = index_of r.hashes h (v.listed h ∙ ap is_some o) in omega arith)

  none_asked :
      (key : Text) (n : ℕ)
      → min n (length r.members) ≡ 0
      → ◌≡◌ {A = Option (List Text)}
          (some [])
          (some (take (min n (length r.members)) (preference r key)))
  none_asked key n e = rw e refl

  -- On a valid ring where every member owns a point, GetN ends within one turn of the ring and
  -- returns the first min(n, members) nodes of the key's preference list.
  pub get_n_lem :
      (fuel : ℕ) (key : Text) (n : ℕ)
      → length r.hashes < fuel
      → get_n fuel r key n ≡ some (take (min n (length r.members)) (preference r key))
  unfolding get_n
  get_n_lem fuel key n f = elim (Bool-cases (length r.hashes == 0)) [
    | inl e ↦ rw e (none_asked key n (omega (arith, no_members (ground arith))))
    | inr e ↦ elim (Bool-cases (n == 0)) [
      | inl z ↦ rw (e, z) (none_asked key n (ground arith))
      | inr z ↦ rw (e, z) (preference_in_get_n fuel key n (ground arith) f)
    ]
  ]

  enough : (key : Text) (n : ℕ) → min n (length r.members) ≤ length (preference r key)
  enough key n = elim (Bool-cases (length r.hashes == 0)) [
    | inl e ↦ omega (arith, no_members (ground arith))
    | inr e ↦ omega (arith, members-le-preference r v covers key (ground arith))
  ]

  chosen-Within :
      (key : Text) (n : ℕ) → Within (take (min n (length r.members)) (preference r key)) r.members
  chosen-Within key n a c = elim (Bool-cases (length r.hashes == 0)) [
    | inl e ↦
        let z : min n (length r.members) ≡ 0 = omega (arith, no_members (ground arith)) in
        cc (rw z at c, contains-nil a)
    | inr e ↦
        preference-Within r v key (ground arith) a
          (contains-take (min n (length r.members)) (preference r key) a c)
  ]

  -- So the replicas are distinct members, as many as are asked for while there are enough.
  pub get_n_replicas :
      (fuel : ℕ) (key : Text) (n : ℕ)
      → length r.hashes < fuel
      → (replicas : List Text) × (get_n fuel r key n ≡ some replicas)
        × (length replicas ≡ min n (length r.members))
        × Distinct replicas
        × Within replicas r.members
  get_n_replicas fuel key n f =
      let k = min n (length r.members) in
      let chosen = take k (preference r key) in
      let size : length chosen ≡ k =
        omega (arith, length-take k (preference r key), enough key n) in
      let distinct = take-Distinct k (preference r key) (nub_onto-Distinct [] _ tt) in
      (chosen, get_n_lem fuel key n f, size, distinct, chosen-Within key n)

  -- The key's point is the first of the turn.
  preference_head :
      (key : Text) (k : ℕ)
      → 0 < length r.hashes
      → 0 < k
      → (rest : List Text) × (take k (preference r key)
          ≡ owner_at r (first_index r.hashes (hash key)) ∷ rest)
  preference_head key k p q = head_of (length r.hashes) k p q
    where
      i : ℕ
      i = first_index r.hashes (hash key)

      head_of :
          (len k : ℕ)
          → 0 < len
          → 0 < k
          → (rest : List Text) × (take k (nub_onto [] (visit r len i)) ≡ owner_at r i ∷ rest)
      head_of zero k p q = absurd (omega arith)
      head_of (suc len) k p q =
          unfold visit nub_onto contains in
          head_take (owner_at r i) _ k
            (take-nub_onto (owner_at r i ∷ []) (visit r len (next_index r i))) q

  -- The first replica is the node that `Get` returns.
  pub get_n-get :
      (fuel : ℕ) (key : Text) (n : ℕ)
      → length r.hashes < fuel
      → 0 < n
      → 0 < length r.members
      → (rest : List Text) × (get_n fuel r key n ≡ some ((get r key).0 ∷ rest))
        × ((get r key).1 ≡ true)
  get_n-get fuel key n f p q = elim (Bool-cases (length r.hashes == 0)) [
    | inl e ↦ absurd (omega (arith, no_members (ground arith)))
    | inr e ↦
        let (rest, h) =
          preference_head key (min n (length r.members)) (ground arith) (omega arith) in
        (
          rest,
          get_n_lem fuel key n f ∙ (unfold get in rw e (ap (λ l. some l) h)),
          unfold get in rw e refl,
        )
  ]
