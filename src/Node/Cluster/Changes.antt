-- ===== src/Node/Cluster/Changes.antt =====
-- cluster_membership.go: what the loops of applyClusterConfig and its rollback leave on the nodes.
use minidist.Base.{
  ◌<◌, ◌≡◌, ◌≢◌, refl, sym, ap, ◌∙◌, ◌⊎◌, inl, inr, true, false, List, [], ◌∷◌, ◌++◌, arith,
  Bool-cases,
}
use mathlib.Core.Path.{subst}
use minidist.Base.Text.{Text, text_eq, text_eq_iff}
use minidist.Base.Assoc.{text_eq_inst}
use minidist.Base.Sets.{contains, contains-append}
use minidist.Node.Quorum.{unacknowledged, lost}
use minidist.Node.Cluster.{
  ClusterConfig, Nodes, Network, deliver_sync, send_membership_sync, sync_all, roll_back,
}
use minidist.Node.Cluster.Syncs.{
  Holds, Takes, deliver-Holds, deliver-Takes, deliver-target, deliver-acked, deliver-failed,
  deliver-other,
}

module _ (net : Network) (config : ClusterConfig) where
  pub sync_all-sent :
      (target : Text) (rest applied : List Text) (nodes : Nodes)
      → (send_membership_sync net target config nodes).0 ≡ true
      → sync_all net config (target ∷ rest) applied nodes
        ≡ sync_all net config rest
            (applied ++ target ∷ [])
            (send_membership_sync net target config nodes).1
  sync_all-sent target rest applied nodes e = unfold sync_all in rw (e, sync_all) refl

  pub sync_all-stopped :
      (target : Text) (rest applied : List Text) (nodes : Nodes)
      → (send_membership_sync net target config nodes).0 ≡ false
      → sync_all net config (target ∷ rest) applied nodes ≡ record {
        complete = false;
        applied = applied;
        nodes = (send_membership_sync net target config nodes).1;
      }
  sync_all-stopped target rest applied nodes e = unfold sync_all in rw (e, sync_all) refl

  -- Every node that is about to be synced takes the configuration.
  abbrev pub Ready : List Text → Nodes → Type 0
  Ready targets nodes = (b : Text) → contains targets b ≡ true → Takes config (nodes b)

  pub head-Ready :
      (target : Text) (rest : List Text) (nodes : Nodes)
      → Ready (target ∷ rest) nodes
      → Takes config (nodes target)
  unfolding contains
  head-Ready target rest nodes r = r target (ground (arith, text_eq_iff target target))

  module _ (positive : 0 < config.version) where
    pub next-Ready :
        (target : Text) (rest : List Text) (nodes : Nodes)
        → Ready (target ∷ rest) nodes
        → Ready rest (send_membership_sync net target config nodes).1
    unfolding send_membership_sync contains
    next-Ready target rest nodes r b c =
        deliver-Takes config positive (net.syncs config target) (net.clock target) target nodes b
          (head-Ready target rest nodes r) (r b (ground arith))

    sync_all-keeps :
        (targets applied : List Text) (nodes : Nodes) (b : Text)
        → Ready targets nodes
        → Holds config (nodes b)
        → Holds config ((sync_all net config targets applied nodes).nodes b)
    sync_all-keeps [] applied nodes b r h = unfold sync_all in h
    sync_all-keeps (target ∷ rest) applied nodes b r h =
        let sent = send_membership_sync net target config nodes in
        let here : Holds config (sent.1 b) =
          unfold send_membership_sync in
          deliver-Holds config positive (net.syncs config target) (net.clock target) target nodes b
            (head-Ready target rest nodes r) h in
        elim (Bool-cases sent.0) [
          | inl e ↦ rw (sync_all-sent target rest applied nodes e) (
              sync_all-keeps rest (applied ++ target ∷ []) sent.1 b (next-Ready target rest nodes r)
                here)
          | inr e ↦ rw (sync_all-stopped target rest applied nodes e) here
        ]

    -- When the loop ends, every target has the configuration.
    pub sync_all-Holds :
        (targets applied : List Text) (nodes : Nodes)
        → Ready targets nodes
        → (sync_all net config targets applied nodes).complete ≡ true
        → (b : Text) → contains targets b ≡ true
        → Holds config ((sync_all net config targets applied nodes).nodes b)
    sync_all-Holds [] applied nodes r done b c = absurd (unfold contains in ground (arith, c))
    sync_all-Holds (target ∷ rest) applied nodes r done b c =
        let sent = send_membership_sync net target config nodes in
        elim (Bool-cases sent.0) [
          | inr e ↦ absurd (
              ground
                (arith, ap (λ s. s.complete) (sync_all-stopped target rest applied nodes e), done))
          | inl e ↦
              let ready = next-Ready target rest nodes r in
              let more =
                ap (λ s. s.complete) (sym (sync_all-sent target rest applied nodes e)) ∙ done in
              rw (sync_all-sent target rest applied nodes e) (elim (Bool-cases (contains rest b)) [
                | inl later ↦ sync_all-Holds rest (applied ++ target ∷ []) sent.1 ready more b later
                | inr first ↦
                    let same : target ≡ b =
                      (text_eq_iff target b).0 (unfold contains in ground (arith, c, first)) in
                    sync_all-keeps rest (applied ++ target ∷ []) sent.1 b ready (
                      subst (λ k. Holds config (sent.1 k)) same
                        (unfold send_membership_sync in
                          deliver-target config positive (net.syncs config target)
                            (net.clock target) target nodes
                            (deliver-acked (net.syncs config target) (net.clock target) target
                              config nodes e)
                            (head-Ready target rest nodes r)))
              ])
        ]

    roll_back-keeps :
        (targets : List Text) (nodes : Nodes) (b : Text)
        → Ready targets nodes
        → Holds config (nodes b)
        → Holds config (roll_back net config targets nodes b)
    unfolding roll_back
    roll_back-keeps [] nodes b r h = h
    roll_back-keeps (target ∷ rest) nodes b r h =
        roll_back-keeps rest (send_membership_sync net target config nodes).1 b
          (next-Ready target rest nodes r)
          (unfold send_membership_sync in
            deliver-Holds config positive (net.syncs config target) (net.clock target) target nodes
              b (head-Ready target rest nodes r) h)

    -- The rollback reaches every target whose request is not lost.
    pub roll_back-Holds :
        (targets : List Text) (nodes : Nodes) (b : Text)
        → Ready targets nodes
        → contains targets b ≡ true
        → net.syncs config b ≢ lost
        → Holds config (roll_back net config targets nodes b)
    unfolding roll_back
    roll_back-Holds [] nodes b r c n = absurd (unfold contains in ground (arith, c))
    roll_back-Holds (target ∷ rest) nodes b r c n =
        let sent = send_membership_sync net target config nodes in
        let ready = next-Ready target rest nodes r in
        elim (Bool-cases (text_eq target b)) [
          | inr e ↦ roll_back-Holds rest sent.1 b ready (unfold contains in ground (arith, c, e)) n
          | inl e ↦
              let same : target ≡ b = (text_eq_iff target b).0 e in
              roll_back-keeps rest sent.1 b ready (
                subst (λ k. Holds config (sent.1 k)) same
                  (unfold send_membership_sync in
                    deliver-target config positive (net.syncs config target) (net.clock target)
                      target nodes (λ l. n (ap (net.syncs config) (sym same) ∙ l))
                      (head-Ready target rest nodes r)))
        ]

    -- A node was sent the configuration and has it, or it was not and is as it was before.
    abbrev pub Split : List Text → Nodes → Nodes → Text → Type 0
    Split applied before nodes b =
        ((contains applied b ≡ true) × Holds config (nodes b))
        ⊎ ((contains applied b ≡ false) × (nodes b ≡ before b))

    Split-next :
        (target : Text) (rest applied : List Text) (before nodes : Nodes) (b : Text)
        → Ready (target ∷ rest) nodes
        → (send_membership_sync net target config nodes).0 ≡ true
        → Split applied before nodes b
        → Split (applied ++ target ∷ []) before (send_membership_sync net target config nodes).1 b
    unfolding contains send_membership_sync
    Split-next target rest applied before nodes b r e p =
        let d = net.syncs config target in
        let now = net.clock target in
        let old = contains-append applied (target ∷ []) b in
        elim (Bool-cases (text_eq target b)) [
          | inl s ↦
              let there =
                deliver-target config positive d now target nodes
                  (deliver-acked d now target config nodes e) (head-Ready target rest nodes r) in
              inl (
                ground (arith, old, s),
                subst (λ k. Holds config ((deliver_sync d now target config nodes).1 k))
                    ((text_eq_iff target b).0 s) there,
              )
          | inr s ↦ elim p [
            | inl (c, h) ↦ inl (
              ground (arith, old, c),
              deliver-Holds config positive d now target nodes b (head-Ready target rest nodes r) h,
            )
            | inr (c, u) ↦
                inr (ground (arith, old, c, s), deliver-other d now target config nodes b s ∙ u)
          ]
        ]

    pub sync_all-Split :
        (targets applied : List Text) (before nodes : Nodes) (b : Text)
        → Ready targets nodes
        → ((t : Text) → net.syncs config t ≢ unacknowledged)
        → Split applied before nodes b
        → Split
            (sync_all net config targets applied nodes).applied
            before
            (sync_all net config targets applied nodes).nodes
            b
    sync_all-Split [] applied before nodes b r n p = unfold sync_all in p
    sync_all-Split (target ∷ rest) applied before nodes b r n p =
        let sent = send_membership_sync net target config nodes in
        elim (Bool-cases sent.0) [
          | inl e ↦ rw (sync_all-sent target rest applied nodes e) (
              sync_all-Split rest (applied ++ target ∷ []) before sent.1 b
                (next-Ready target rest nodes r) n
                (Split-next target rest applied before nodes b r e p))
          | inr e ↦
              let same : sent.1 ≡ nodes =
                unfold send_membership_sync in
                deliver-failed (net.syncs config target) (net.clock target) target config nodes
                  positive (head-Ready target rest nodes r) e (n target) in
              rw (sync_all-stopped target rest applied nodes e, same) p
        ]

  pub roll_back-other :
      (targets : List Text) (nodes : Nodes) (b : Text)
      → contains targets b ≡ false
      → roll_back net config targets nodes b ≡ nodes b
  unfolding roll_back
  roll_back-other [] nodes b c = refl
  roll_back-other (target ∷ rest) nodes b c =
      let sent = send_membership_sync net target config nodes in
      roll_back-other rest sent.1 b (unfold contains in ground (arith, c))
      ∙ (unfold send_membership_sync in
          deliver-other (net.syncs config target) (net.clock target) target config nodes b
            (unfold contains in ground (arith, c)))
