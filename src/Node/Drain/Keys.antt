-- ===== src/Node/Drain/Keys.antt =====
-- drain.go: the values that a drain copies.
use minidist.Base.{
  Option, none, some, ◌≡◌, refl, sym, ap, ◌∙◌, inl, inr, Bool, true, false, some, List, [], ◌∷◌,
  arith, Bool-cases,
}
use mathlib.Core.Path.{subst}
use mathlib.Core.Option.{some-injective}
use minidist.Base.Text.{Text, text_eq, text_eq_iff}
use minidist.Base.Assoc.{Assoc, lookup, text_eq_inst}
use minidist.Base.Sets.{contains}
use minidist.Store.Version.{Value}
use minidist.Node.Quorum.{Cluster, Delivery, put_replica}
use minidist.Node.Quorum.Overlap.{AtLeast, Grows, put_replica-Grows, acked_holds}
use minidist.Node.Rebalance.{Values, set_cluster}
use minidist.Node.Drain.{copy_to, copy_key, drain_keys}

module _ (network : Text → Delivery) (v : Value) where
  abbrev sent : Text → Cluster → Bool × Cluster
  sent replica c = put_replica (network replica) replica v c

  copy_to-next :
      (replica : Text) (rs : List Text) (c : Cluster)
      → (sent replica c).0 ≡ true
      → copy_to network v (replica ∷ rs) c ≡ copy_to network v rs (sent replica c).1
  copy_to-next replica rs c e = unfold copy_to in rw (e, copy_to) refl

  copy_to-failed :
      (replica : Text) (rs : List Text) (c : Cluster)
      → (sent replica c).0 ≡ false
      → copy_to network v (replica ∷ rs) c ≡ (false, (sent replica c).1)
  copy_to-failed replica rs c e = unfold copy_to in rw (e, copy_to) refl

  copy_to-Grows : (rs : List Text) (c : Cluster) → Grows c (copy_to network v rs c).1
  copy_to-Grows [] c r x a = unfold copy_to in a
  copy_to-Grows (replica ∷ rs) c r x a =
      let here = put_replica-Grows (network replica) replica v c r x a in
      elim (Bool-cases (sent replica c).0) [
        | inl e ↦ rw (copy_to-next replica rs c e) (copy_to-Grows rs (sent replica c).1 r x here)
        | inr e ↦ rw (copy_to-failed replica rs c e) here
      ]

  copy_to-AtLeast :
      (rs : List Text) (c : Cluster) (r : Text)
      → (copy_to network v rs c).0 ≡ true
      → contains rs r ≡ true
      → AtLeast v ((copy_to network v rs c).1 r)
  copy_to-AtLeast [] c r h m = absurd (unfold contains in ground (arith, m))
  copy_to-AtLeast (replica ∷ rs) c r h m = elim (Bool-cases (sent replica c).0) [
    | inr e ↦ absurd (ground (arith, ap (λ t. t.0) (copy_to-failed replica rs c e), h))
    | inl e ↦
        let next = (sent replica c).1 in
        let more = ap (λ t. t.0) (sym (copy_to-next replica rs c e)) ∙ h in
        rw (copy_to-next replica rs c e) (elim (Bool-cases (text_eq replica r)) [
          | inr d ↦ copy_to-AtLeast rs next r more (unfold contains in ground (arith, m, d))
          | inl d ↦ copy_to-Grows rs next r v (
              subst (λ k. AtLeast v (next k)) ((text_eq_iff replica r).0 d)
                (acked_holds (network replica) replica v c e))
        ])
  ]

module _ (network : Text → Delivery) (v : Value) where
  copy_key-Grows : (o : Option (List Text)) (c : Cluster) → Grows c (copy_key network v o c).1
  unfolding copy_key
  copy_key-Grows none c r x a = a
  copy_key-Grows (some rs) c r x a = copy_to-Grows network v rs c r x a

  copy_key-AtLeast :
      (o : Option (List Text)) (rs : List Text) (c : Cluster) (r : Text)
      → o ≡ some rs
      → (copy_key network v o c).0 ≡ true
      → contains rs r ≡ true
      → AtLeast v ((copy_key network v o c).1 r)
  copy_key-AtLeast o rs c r e h m =
      let run : copy_key network v o c ≡ copy_to network v rs c =
        ap (λ p. copy_key network v p c) e ∙ (unfold copy_key in refl) in
      rw run (copy_to-AtLeast network v rs c r (ap (λ t. t.0) (sym run) ∙ h) m)

module _ (networks : Text → Text → Delivery) (replicas_for : Text → Option (List Text)) where
  abbrev all_keys : Assoc Text Value → Values → Bool × Values
  all_keys = drain_keys networks replicas_for

  abbrev copied : Text → Value → Values → Bool × Cluster
  copied key v values = copy_key (networks key) v (replicas_for key) (values key)

  keys-next :
      (key : Text) (v : Value) (rest : Assoc Text Value) (values : Values)
      → (copied key v values).0 ≡ true
      → all_keys ((key, v) ∷ rest) values
        ≡ all_keys rest (set_cluster key (copied key v values).1 values)
  keys-next key v rest values e = unfold drain_keys in rw (e, drain_keys) refl

  keys-failed :
      (key : Text) (v : Value) (rest : Assoc Text Value) (values : Values)
      → (copied key v values).0 ≡ false
      → all_keys ((key, v) ∷ rest) values ≡ (false, set_cluster key (copied key v values).1 values)
  keys-failed key v rest values e = unfold drain_keys in rw (e, drain_keys) refl

  round-Grows :
      (key : Text) (v : Value) (values : Values) (k : Text)
      → Grows (values k) (set_cluster key (copied key v values).1 values k)
  round-Grows key v values k r x a = elim (Bool-cases (text_eq key k)) [
    | inr o ↦ rw o a
    | inl o ↦ rw o (
        copy_key-Grows (networks key) v (replicas_for key) (values key) r x
          (subst (λ j. AtLeast x (values j r)) (sym ((text_eq_iff key k).0 o)) a))
  ]

  -- A drain makes no value older, whether it succeeds or not.
  pub drain_keys-Grows :
      (snapshot : Assoc Text Value) (values : Values) (k : Text)
      → Grows (values k) ((all_keys snapshot values).1 k)
  drain_keys-Grows [] values k r x a = unfold drain_keys in a
  drain_keys-Grows ((key, v) ∷ rest) values k r x a =
      let next = set_cluster key (copied key v values).1 values in
      let here = round-Grows key v values k r x a in
      elim (Bool-cases (copied key v values).0) [
        | inl e ↦ rw (keys-next key v rest values e) (drain_keys-Grows rest next k r x here)
        | inr e ↦ rw (keys-failed key v rest values e) here
      ]

  pub drain_keys-AtLeast :
      (snapshot : Assoc Text Value) (values : Values) (k : Text) (u : Value) (rs : List Text)
      (r : Text)
      → (all_keys snapshot values).0 ≡ true
      → lookup k snapshot ≡ some u
      → replicas_for k ≡ some rs
      → contains rs r ≡ true
      → AtLeast u ((all_keys snapshot values).1 k r)
  drain_keys-AtLeast [] values k u rs r h e g m = absurd (unfold lookup in ground (arith, e))
  drain_keys-AtLeast ((key, v) ∷ rest) values k u rs r h e g m =
      elim (Bool-cases (copied key v values).0) [
        | inr f ↦ absurd (ground (arith, ap (λ t. t.0) (keys-failed key v rest values f), h))
        | inl f ↦
            let next = set_cluster key (copied key v values).1 values in
            let more = ap (λ t. t.0) (sym (keys-next key v rest values f)) ∙ h in
            rw (keys-next key v rest values f) (elim (Bool-cases (text_eq key k)) [
              | inr d ↦
                  drain_keys-AtLeast rest next k u rs r more (unfold lookup in ground (arith, e, d))
                    g m
              | inl d ↦
                  let same : key ≡ k = (text_eq_iff key k).0 d in
                  let first : lookup k ((key, v) ∷ rest) ≡ some v = unfold lookup in rw d refl in
                  let value : v ≡ u = some-injective v u (sym first ∙ e) in
                  let there =
                    copy_key-AtLeast (networks key) v (replicas_for key) rs (values key) r
                      (ap replicas_for same ∙ g) f m in
                  drain_keys-Grows rest next k r u
                    (rw d (subst (λ w. AtLeast w ((copied key v values).1 r)) value there))
            ])
      ]
