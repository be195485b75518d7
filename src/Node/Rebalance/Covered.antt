-- ===== src/Node/Rebalance/Covered.antt =====
-- rebalance.go: the loop over the snapshot, seen from one key.
use minidist.Base.{
  ◌≡◌, refl, sym, ap, ◌∙◌, inl, inr, true, false, some, List, [], ◌∷◌, arith, Bool-cases,
}
use mathlib.Core.Path.{subst}
use mathlib.Core.Option.{some-injective}
use minidist.Base.Text.{Text, text_eq, text_eq_iff}
use minidist.Base.Assoc.{Assoc, lookup, text_eq_inst}
use minidist.Base.Sets.{contains}
use minidist.Store.Version.{Value}
use minidist.Node.Hints.{HintStore, hint_key, Hinted}
use minidist.Node.Quorum.{Cluster}
use minidist.Node.Quorum.Overlap.{AtLeast, Grows}
use minidist.Node.Rebalance.{
  RebalanceResult, Values, set_cluster, Round, rebalance_key, rebalance_keys,
}
use minidist.Node.Rebalance.Copies.{Covered, copy_all-Hinted, copy_all-Covered}
use minidist.Node.Rebalance.Safe.{
  Held, replica_grows, rebalance_key-Held, hints-rebalance_key, copy_stays,
}

module _ (rounds : Text → Round) (quiet : (k : Text) (c : Cluster) → Grows c ((rounds k).writes c))
    (addr : Text) (replicas_for : Text → List Text) where
  module _ (key : Text) (v : Value) (values : Values) (hints : HintStore)
      (result : RebalanceResult) where
    abbrev done : Cluster × (HintStore × RebalanceResult)
    done = rebalance_key (rounds key) addr (replicas_for key) key v (values key) hints result

    round-Held :
        (k : Text) (u : Value)
        → Held (replicas_for k) addr u (values k)
        → Held (replicas_for k) addr u (set_cluster key done.0 values k)
    round-Held k u h = elim (Bool-cases (text_eq key k)) [
      | inr o ↦ rw o h
      | inl o ↦
          let same : key ≡ k = (text_eq_iff key k).0 o in
          rw o (
            subst (λ j. Held (replicas_for j) addr u done.0) same
              (rebalance_key-Held (rounds key) (quiet key) addr (replicas_for key) key v
                (values key) hints result u
                (subst (λ j. Held (replicas_for j) addr u (values j)) (sym same) h)))
    ]

    round_hints : (k : Text) (u : Value) → Hinted k u hints → Hinted k u done.1.0
    round_hints k u h =
        rw
          (hints-rebalance_key (rounds key) (quiet key) addr (replicas_for key) key v (values key)
            hints result)
          (copy_all-Hinted (rounds key).copies addr key v k u (replicas_for key) _ h)

    round_replica :
        (k r : Text) (u : Value)
        → contains (replicas_for k) r ≡ true
        → AtLeast u (values k r)
        → AtLeast u (set_cluster key done.0 values k r)
    round_replica k r u m a = elim (Bool-cases (text_eq key k)) [
      | inr o ↦ rw o a
      | inl o ↦
          let same : key ≡ k = (text_eq_iff key k).0 o in
          rw o (
            replica_grows (rounds key) (quiet key) addr (replicas_for key) key v (values key) hints
              result r u (inr (ap (λ j. contains (replicas_for j) r) same ∙ m))
              (subst (λ j. AtLeast u (values j r)) (sym same) a))
    ]

    round-Covered :
        (r : Text)
        → contains (replicas_for key) r ≡ true
        → text_eq r addr ≡ false
        → Covered r key v (set_cluster key done.0 values key) done.1.0
    round-Covered r m o =
        let own : text_eq key key ≡ true = (text_eq_iff key key).1 refl in
        let cover =
          copy_all-Covered (rounds key).copies addr key v (replicas_for key)
            (record { all_copied = true; cluster = values key; hints = hints; result = result }) r m
            o in
        let other : text_eq addr r ≡ false =
          ground (arith, o, text_eq_iff r addr, text_eq_iff addr r) in
        rw own (elim cover [
          | inl a ↦ inl (
              copy_stays (rounds key) (quiet key) addr (replicas_for key) key v (values key) hints
                result r v other a)
          | inr h ↦ inr (
              rw
                (hints-rebalance_key (rounds key) (quiet key) addr (replicas_for key) key v
                  (values key) hints result)
                h)
        ])

  abbrev all_done :
      Assoc Text Value
      → Values
      → HintStore
      → RebalanceResult
      → Values × (HintStore × RebalanceResult)
  all_done = rebalance_keys rounds addr replicas_for

  -- No value of a key that has replicas is lost in a rebalance: if the node or all replicas of the
  -- key held before a value at least as new as a given one, then the node or all replicas do after
  -- it, whatever becomes of the copies and of the deletions, if other calls meanwhile only make
  -- the values of the replicas newer.
  pub rebalance_keys-Held :
      (snapshot : Assoc Text Value) (values : Values) (hints : HintStore) (result : RebalanceResult)
      (k : Text) (u : Value)
      → Held (replicas_for k) addr u (values k)
      → Held (replicas_for k) addr u ((all_done snapshot values hints result).0 k)
  unfolding rebalance_keys
  rebalance_keys-Held [] values hints result k u h = h
  rebalance_keys-Held ((key, v) ∷ rest) values hints result k u h =
      let r = done key v values hints result in
      rebalance_keys-Held rest (set_cluster key r.0 values) r.1.0 r.1.1 k u
        (round-Held key v values hints result k u h)

  keys-Covered :
      (snapshot : Assoc Text Value) (values : Values) (hints : HintStore) (result : RebalanceResult)
      (k r : Text) (u : Value)
      → contains (replicas_for k) r ≡ true
      → Covered r k u (values k) hints
      → Covered r k u
          ((all_done snapshot values hints result).0 k)
          (all_done snapshot values hints result).1.0
  unfolding rebalance_keys
  keys-Covered [] values hints result k r u m h = h
  keys-Covered ((key, v) ∷ rest) values hints result k r u m h =
      let d = done key v values hints result in
      keys-Covered rest (set_cluster key d.0 values) d.1.0 d.1.1 k r u m (elim h [
        | inl a ↦ inl (round_replica key v values hints result k r u m a)
        | inr x ↦ inr (round_hints key v values hints result (hint_key r k) u x)
      ])

  -- After a rebalance, every other replica of a key of the snapshot holds a value at least as new
  -- as the snapshot's, or there is a hint for that replica and key at least as new, if other calls
  -- meanwhile only make the values of the replicas newer.
  pub rebalance_keys-Covered :
      (snapshot : Assoc Text Value) (values : Values) (hints : HintStore) (result : RebalanceResult)
      (k r : Text) (u : Value)
      → lookup k snapshot ≡ some u
      → contains (replicas_for k) r ≡ true
      → text_eq r addr ≡ false
      → Covered r k u
          ((all_done snapshot values hints result).0 k)
          (all_done snapshot values hints result).1.0
  unfolding rebalance_keys
  rebalance_keys-Covered [] values hints result k r u e m o =
      absurd (unfold lookup in ground (arith, e))
  rebalance_keys-Covered ((key, v) ∷ rest) values hints result k r u e m o =
      let d = done key v values hints result in
      elim (Bool-cases (text_eq key k)) [
        | inr n ↦
            let later : lookup k rest ≡ some u = unfold lookup in ground (arith, e, n) in
            rebalance_keys-Covered rest (set_cluster key d.0 values) d.1.0 d.1.1 k r u later m o
        | inl s ↦
            let same : key ≡ k = (text_eq_iff key k).0 s in
            let first : lookup k ((key, v) ∷ rest) ≡ some v = unfold lookup in rw s refl in
            let value : v ≡ u = some-injective v u (sym first ∙ e) in
            keys-Covered rest (set_cluster key d.0 values) d.1.0 d.1.1 k r u m (
              subst (λ j. Covered r j u (set_cluster key d.0 values j) d.1.0) same
                (subst (λ w. Covered r key w (set_cluster key d.0 values key) d.1.0) value
                  (round-Covered key v values hints result r
                    (ap (λ j. contains (replicas_for j) r) same ∙ m) o)))
      ]
