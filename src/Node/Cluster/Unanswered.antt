-- ===== src/Node/Cluster/Unanswered.antt =====
-- cluster_membership.go: a sync that is stored while its answer is lost.
use minidist.Base.{
  ◌<◌, ◌≡◌, refl, sym, inl, inr, true, false, List, [], ◌∷◌, ◌++◌, arith, Bool-cases,
}
use mathlib.Core.Path.{subst}
use minidist.Base.Text.{Text, text_eq, text_eq_iff}
use minidist.Base.Assoc.{text_eq_inst}
use minidist.Base.Sets.{contains, contains-append}
use minidist.Node.Quorum.{acknowledged, unacknowledged}
use minidist.Node.Cluster.{
  ClusterConfig, Nodes, Network, Synced, deliver_sync, send_membership_sync, sync_all,
  compensate_cluster_config, apply_cluster_config,
}
use minidist.Node.Cluster.Syncs.{Holds, deliver-target, deliver-acknowledged}
use minidist.Node.Cluster.Changes.{
  Ready, sync_all-sent, sync_all-stopped, head-Ready, next-Ready, roll_back-other,
}
use minidist.Node.Cluster.Outcome.{rollback, synced, apply-failed}

module _ (net : Network) (next : ClusterConfig) (positive : 0 < next.version) (t : Text)
    (silent : net.syncs next t ≡ unacknowledged)
    (others : (u : Text) → text_eq u t ≡ false → net.syncs next u ≡ acknowledged) where
  -- The loop stops at the node, which has the configuration and is not among those to roll back.
  record StopsAt (s : Synced) : Type 0 where
    pub incomplete : s.complete ≡ false
    pub has : Holds next (s.nodes t)
    pub missing : contains s.applied t ≡ false

  stops_here :
      (rest applied : List Text) (nodes : Nodes)
      → Ready net next (t ∷ rest) nodes
      → contains applied t ≡ false
      → StopsAt (sync_all net next (t ∷ rest) applied nodes)
  stops_here rest applied nodes r c =
      let failed : (send_membership_sync net t next nodes).0 ≡ false =
        unfold send_membership_sync deliver_sync in
        rw (silent, send_membership_sync, deliver_sync) refl in
      rw (sync_all-stopped net next t rest applied nodes failed) (record {
        incomplete = refl;
        has =
            unfold send_membership_sync in
            deliver-target next positive (net.syncs next t) (net.clock t) t nodes
              (λ e. cc (silent, e)) (head-Ready net next t rest nodes r);
        missing = c;
      })

  stops :
      (targets applied : List Text) (nodes : Nodes)
      → Ready net next targets nodes
      → contains targets t ≡ true
      → contains applied t ≡ false
      → StopsAt (sync_all net next targets applied nodes)
  stops [] applied nodes r i c = absurd (unfold contains in ground (arith, i))
  stops (u ∷ rest) applied nodes r i c = elim (Bool-cases (text_eq u t)) [
    | inl e ↦
        let same : t ≡ u = sym ((text_eq_iff u t).0 e) in
        subst (λ k. StopsAt (sync_all net next (k ∷ rest) applied nodes)) same
          (stops_here rest applied nodes (subst (λ k. Ready net next (k ∷ rest) nodes) (sym same) r)
            c)
    | inr e ↦
        let sent = send_membership_sync net u next nodes in
        let acked : sent.0 ≡ true =
          unfold send_membership_sync in
          rw (others u e) (
            deliver-acknowledged next positive (net.clock u) u nodes
              (head-Ready net next u rest nodes r)) in
        rw (sync_all-sent net next u rest applied nodes acked) (
          stops rest (applied ++ u ∷ []) sent.1 (next-Ready net next positive u rest nodes r)
            (unfold contains in ground (arith, i, e))
            (unfold contains in ground (arith, contains-append applied (u ∷ []) t, c, e)))
  ]

  -- If one target of applyClusterConfig, not the coordinator, stores the new configuration while
  -- its answer is lost, and every other sync is acknowledged, then the change fails, and this node
  -- is not rolled back: it keeps the new configuration.
  pub unanswered_keeps_next :
      (addr : Text) (targets : List Text) (previous : ClusterConfig) (nodes : Nodes)
      → Ready net next targets nodes
      → contains targets t ≡ true
      → text_eq addr t ≡ false
      → ((apply_cluster_config net addr targets previous next nodes).0 ≡ false)
        × Holds next ((apply_cluster_config net addr targets previous next nodes).1 t)
  unanswered_keeps_next addr targets previous nodes r i other =
      let s = stops targets [] nodes r i (unfold contains in refl) in
      let failed : (apply_cluster_config net addr targets previous next nodes).0 ≡ false =
        unfold apply_cluster_config in rw (s.incomplete, apply_cluster_config) refl in
      let sy = synced net addr targets previous next nodes in
      let back =
        roll_back-other net (rollback net addr targets previous next nodes) sy.applied sy.nodes t
          s.missing in
      (
        failed,
        rw (apply-failed net addr targets previous next nodes failed)
            (elim (Bool-cases (contains sy.applied addr)) [
              | inl e ↦
                  unfold compensate_cluster_config in
                  rw (e, compensate_cluster_config) (rw back (s.has))
              | inr e ↦
                  unfold compensate_cluster_config in
                  rw (e, other, compensate_cluster_config) (rw back (s.has))
            ]),
      )
