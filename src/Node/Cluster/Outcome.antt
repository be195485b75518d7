-- ===== src/Node/Cluster/Outcome.antt =====
-- cluster_membership.go: what applyClusterConfig leaves on the nodes, when it succeeds and when it
-- fails.
use minidist.Base.{
  ℕ, ◌+◌, ◌^◌, ◌<◌, ◌≡◌, ◌≢◌, refl, ap, ◌∙◌, ◌⊎◌, inl, inr, true, false, ◌&&◌, List, [], arith,
  Bool-cases,
}
use minidist.Base.Text.{Text, text_eq, text_eq_iff}
use minidist.Base.Words.{u64}
use minidist.Base.Assoc.{text_eq_inst}
use minidist.Base.Sets.{contains}
use minidist.Node.Quorum.{unacknowledged, lost}
use minidist.Node.Cluster.{
  ClusterConfig, Membership, Nodes, set_node, Network, Synced, sync_all, rebalance_all, roll_back,
  compensate_cluster_config, apply_cluster_config,
}
use minidist.Node.Cluster.Syncs.{Holds}
use minidist.Node.Cluster.Changes.{
  Ready, Split, sync_all-Holds, sync_all-Split, roll_back-Holds, roll_back-other,
}

module _ (net : Network) (addr : Text) (targets : List Text) (previous next : ClusterConfig)
    (nodes : Nodes) where
  abbrev pub synced : Synced
  synced = sync_all net next targets [] nodes

  abbrev pub rollback : ClusterConfig
  rollback = record { version = u64 (next.version + 1); members = previous.members }

  apply-done :
      (apply_cluster_config net addr targets previous next nodes).0 ≡ true
      → (synced.complete ≡ true)
        × (apply_cluster_config net addr targets previous next nodes ≡ (true, synced.nodes))
  apply-done done = elim (Bool-cases (synced.complete && rebalance_all net.rebalances targets)) [
    | inl e ↦ (ground arith, unfold apply_cluster_config in rw (e, apply_cluster_config) refl)
    | inr e ↦
        let failed : (apply_cluster_config net addr targets previous next nodes).0 ≡ false =
          unfold apply_cluster_config in rw (e, apply_cluster_config) refl in
        absurd (ground (arith, failed, done))
  ]

  pub apply-failed :
      (apply_cluster_config net addr targets previous next nodes).0 ≡ false
      → (apply_cluster_config net addr targets previous next nodes).1
        ≡ compensate_cluster_config net addr synced.applied previous
            (u64 (next.version + 1))
            synced.nodes
  apply-failed failed =
      elim (Bool-cases (synced.complete && rebalance_all net.rebalances targets)) [
        | inr e ↦ unfold apply_cluster_config in rw (e, apply_cluster_config) refl
        | inl e ↦
            let done : (apply_cluster_config net addr targets previous next nodes).0 ≡ true =
              unfold apply_cluster_config in rw (e, apply_cluster_config) refl in
            absurd (ground (arith, failed, done))
      ]

  pub apply_cluster_config-Holds :
      0 < next.version
      → Ready net next targets nodes
      → (apply_cluster_config net addr targets previous next nodes).0 ≡ true
      → (b : Text) → contains targets b ≡ true
      → Holds next ((apply_cluster_config net addr targets previous next nodes).1 b)
  apply_cluster_config-Holds positive ready done b c =
      let (complete, result) = apply-done done in
      rw result (sync_all-Holds net next positive targets [] nodes ready complete b c)

  -- What a node is after a failed change.
  abbrev pub Restored : Membership → Membership → Type 0
  Restored before after =
      Holds rollback after
      ⊎ ((after.ring ≡ before.ring)
          × (after.fd ≡ before.fd)
          × ((after.config_version ≡ before.config_version)
              ⊎ (after.config_version ≡ rollback.version)))

  rolled_back : Nodes
  rolled_back = roll_back net rollback synced.applied synced.nodes

  module _ (positive : 0 < next.version) (fits : next.version + 1 < 2 ^ 64)
      (ready : Ready net next targets nodes)
      (heard : (t : Text) → net.syncs next t ≢ unacknowledged)
      (arrive : (t : Text) → net.syncs rollback t ≢ lost) where
    split : (b : Text) → Split net next positive synced.applied nodes synced.nodes b
    split b =
        sync_all-Split net next positive targets [] nodes nodes b ready heard
          (inr (unfold contains in refl, refl))

    rollback-Ready : Ready net rollback synced.applied synced.nodes
    rollback-Ready b c = elim (split b) [
      | inl (in_it, h) ↦ inl (omega (arith, h.version))
      | inr (out, same) ↦ absurd (ground (arith, c, out))
    ]

    restored_by_rollback :
        (b : Text)
        → ((contains synced.applied b ≡ true) × Holds rollback (rolled_back b))
          ⊎ ((contains synced.applied b ≡ false) × (rolled_back b ≡ nodes b))
    unfolding rolled_back
    restored_by_rollback b = elim (split b) [
      | inl (c, h) ↦ inl (
        c,
        roll_back-Holds net rollback (omega arith) synced.applied synced.nodes b rollback-Ready c
            (arrive b),
      )
      | inr (c, same) ↦ inr (c, roll_back-other net rollback synced.applied synced.nodes b c ∙ same)
    ]

    restored : (b : Text) (n : Membership) → n ≡ rolled_back b → Restored (nodes b) n
    restored b n e = rw e (elim (restored_by_rollback b) [
      | inl (c, h) ↦ inl h
      | inr (c, same) ↦
          inr (ap (λ x. x.ring) same, ap (λ x. x.fd) same, inl (ap (λ x. x.config_version) same))
    ])

    abbrev final : Nodes
    final =
        compensate_cluster_config net addr synced.applied previous (u64 (next.version + 1))
          synced.nodes

    after_rollback : contains synced.applied addr ≡ true → final ≡ rolled_back
    unfolding rolled_back
    after_rollback e = unfold compensate_cluster_config in rw (e, compensate_cluster_config) refl

    after_store :
        contains synced.applied addr ≡ false
        → final
          ≡ set_node addr
              (record (rolled_back addr) { config_version = u64 (next.version + 1) })
              rolled_back
    unfolding rolled_back
    after_store e = unfold compensate_cluster_config in rw (e, compensate_cluster_config) refl

    not_synced : (b : Text) → contains synced.applied b ≡ false → rolled_back b ≡ nodes b
    not_synced b e = elim (restored_by_rollback b) [
      | inl (c, h) ↦ absurd (ground (arith, c, e))
      | inr (c, same) ↦ same
    ]

    final-Restored : (b : Text) → Restored (nodes b) (final b)
    final-Restored b = elim (Bool-cases (contains synced.applied addr)) [
      | inl e ↦ restored b (final b) (ap (λ f. f b) (after_rollback e))
      | inr e ↦ elim (Bool-cases (text_eq addr b)) [
        | inr other ↦ restored b (final b) (ap (λ f. f b) (after_store e) ∙ rw other refl)
        | inl own ↦
            let version : ℕ = u64 (next.version + 1) in
            let stored : final b ≡ record (rolled_back addr) { config_version = version } =
              ap (λ f. f b) (after_store e) ∙ rw own refl in
            let was : rolled_back addr ≡ nodes b =
              not_synced addr e ∙ ap nodes ((text_eq_iff addr b).0 own) in
            inr (
              ap (λ x. x.ring) stored ∙ ap (λ x. x.ring) was,
              ap (λ x. x.fd) stored ∙ ap (λ x. x.fd) was,
              inr (ap (λ x. x.config_version) stored),
            )
      ]
    ]

    version_final : (final addr).config_version ≡ next.version + 1
    version_final = elim (Bool-cases (contains synced.applied addr)) [
      | inl e ↦ elim (restored_by_rollback addr) [
        | inl (c, h) ↦
            ap (λ f. (f addr).config_version) (after_rollback e) ∙ h.version ∙ omega arith
        | inr (c, same) ↦ absurd (ground (arith, c, e))
      ]
      | inr e ↦
          let own : text_eq addr addr ≡ true = ground (arith, text_eq_iff addr addr) in
          ap (λ f. (f addr).config_version) (after_store e) ∙ rw own (omega arith)
    ]

    -- After a failed applyClusterConfig in which no sync of the new configuration was stored
    -- without an answer and no sync of the rollback is lost, every node has the rollback, which is
    -- the previous members under the version after the failed one, or the ring and the failure
    -- detector that it had; and the coordinator has the rollback's version. The new version is
    -- positive, the rollback's is below 2^64, and before the change each target either has a
    -- version below the new one or has the new configuration already.
    pub apply_cluster_config-Restored :
        (apply_cluster_config net addr targets previous next nodes).0 ≡ false
        → ((b : Text)
            → Restored (nodes b) ((apply_cluster_config net addr targets previous next nodes).1 b))
          × (((apply_cluster_config net addr targets previous next nodes).1 addr).config_version
              ≡ next.version + 1)
    apply_cluster_config-Restored failed = rw (apply-failed failed) (final-Restored, version_final)
