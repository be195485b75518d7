-- ===== src/Node/Probe/Choice.antt =====
-- probe.go: which members randomMembers may choose.
use minidist.Base.{
  ℕ, ◌≤◌, ◌≡◌, refl, sym, ap, ◌∙◌, inl, inr, true, false, not, ◌&&◌, ◌||◌, some, List, [], ◌∷◌,
  arith, ltb, length, take, length-take, if◌then◌else◌, Bool-cases,
}
use minidist.Base.Text.{Text, text_eq, text_eq_iff}
use minidist.Base.Assoc.{Assoc, lookup, text_eq_inst}
use minidist.Base.Sets.{contains}
use minidist.HashRing.Preference.{contains-take}
use minidist.Node.Detector.{FailureDetector, MemberState}
use minidist.Node.Probe.{
  Shuffle, list_members, candidates, random_members, first_of, random_probe_target,
}
use minidist.Node.Cluster.Agreement.{tracks, is_tracked}

-- What is relied on of `rand.Shuffle`: it keeps the elements.
abbrev pub KeepsElements : Shuffle → Type 0
KeepsElements shuffle = (xs : List Text) (a : Text) → contains (shuffle xs) a ≡ contains xs a

contains-list_members :
    (m : Assoc Text MemberState) (a : Text) → contains (list_members m) a ≡ is_tracked (lookup a m)
unfolding list_members contains lookup
contains-list_members [] a = refl
contains-list_members ((k, s) ∷ rest) a = ground (arith, contains-list_members rest a)

contains-candidates :
    (excluded members : List Text) (a : Text)
    → contains (candidates excluded members) a ≡ (contains members a && not (contains excluded a))
unfolding candidates contains
contains-candidates excluded [] a = refl
contains-candidates excluded (m ∷ rest) a =
    ground (arith, contains-candidates excluded rest a, text_eq_iff m a)

contains-cut :
    (limit : ℕ) (xs : List Text) (a : Text)
    → contains (if ltb limit (length xs) then take limit xs else xs) a ≡ true
    → contains xs a ≡ true
contains-cut limit xs a h = elim (Bool-cases (ltb limit (length xs))) [
  | inl e ↦
      contains-take limit xs a (ap (λ b. contains (if b then take limit xs else xs) a) (sym e) ∙ h)
  | inr e ↦ ap (λ b. contains (if b then take limit xs else xs) a) (sym e) ∙ h
]

length-cut :
    (limit : ℕ) (xs : List Text)
    → length (if ltb limit (length xs) then take limit xs else xs) ≤ limit
length-cut limit xs = elim (Bool-cases (ltb limit (length xs))) [
  | inl e ↦ rw e (omega (arith, length-take limit xs))
  | inr e ↦ rw e (ground arith)
]

module _ (shuffle : Shuffle) (keeps : KeepsElements shuffle) (addr : Text)
    (fd : FailureDetector) where
  -- randomMembers gives at most as many members as are asked for, and each of them is tracked, is
  -- not the node itself and is not excluded, if the shuffle keeps the elements.
  pub random_members_bounds :
      (limit : ℕ) (exclude : List Text)
      → (length (random_members shuffle addr fd limit exclude) ≤ limit)
        × ((a : Text)
            → contains (random_members shuffle addr fd limit exclude) a ≡ true
            → (tracks fd a ≡ true) × (text_eq addr a ≡ false) × (contains exclude a ≡ false))
  random_members_bounds limit exclude =
      let chosen = candidates (addr ∷ exclude) (list_members fd.members) in
      (
        unfold random_members in length-cut limit (shuffle chosen),
        λ a c.
            let within : contains chosen a ≡ true =
              sym (keeps chosen a)
              ∙ contains-cut limit (shuffle chosen) a (unfold random_members in c) in
            let both = contains-candidates (addr ∷ exclude) (list_members fd.members) a in
            let outside : contains (addr ∷ exclude) a ≡ (text_eq addr a || contains exclude a) =
              unfold contains in refl in
            (
              unfold tracks in ground (arith, contains-list_members fd.members a, both, within),
              ground (arith, both, within, outside),
              ground (arith, both, within, outside),
            ),
      )

  head_in : (xs : List Text) (a : Text) → first_of xs ≡ some a → contains xs a ≡ true
  head_in [] a h = cc
  head_in (x ∷ xs) a h = unfold contains in ground (arith, text_eq_iff x a, h)

  -- The target of a probe is tracked and is not the node itself.
  pub random_probe_target_lem :
      (target : Text)
      → random_probe_target shuffle addr fd ≡ some target
      → (tracks fd target ≡ true) × (text_eq addr target ≡ false)
  random_probe_target_lem target h =
      let in' =
        head_in (random_members shuffle addr fd 1 []) target (unfold random_probe_target in h) in
      let b = (random_members_bounds 1 []).1 target in' in (b.0, b.1)
