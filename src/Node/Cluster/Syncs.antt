-- ===== src/Node/Cluster/Syncs.antt =====
-- cluster_membership.go: what one sync leaves on the nodes, whatever becomes of the request.
use minidist.Base.{
  ℕ, ◌<◌, ◌≡◌, ◌≢◌, refl, ◌⊎◌, inl, inr, true, false, some, arith, leb, ◌==◌, Bool-cases,
}
use minidist.Base.Text.{Text, text_eq, text_eq_iff}
use minidist.Base.Assoc.{text_eq_inst}
use minidist.Base.Sets.{contains}
use minidist.Node.Http.{method_put, status_no_content}
use minidist.Node.Quorum.{Delivery, acknowledged, unacknowledged, lost}
use minidist.Node.Cluster.{
  ClusterConfig, Membership, Nodes, set_node, sync_config, adopt_config, handle_membership_sync,
  deliver_sync,
}
use minidist.Node.Cluster.Agreement.{members-adopt_config, version-adopt_config}

-- A node has a configuration: its version, and a ring with its members.
pub record Holds (config : ClusterConfig) (n : Membership) : Type 0 where
  pub version : n.config_version ≡ config.version
  pub members : (m : Text) → contains n.ring.members m ≡ contains config.members m

-- A node that a sync of the configuration leaves with it.
abbrev pub Takes : ClusterConfig → Membership → Type 0
Takes config n = (n.config_version < config.version) ⊎ Holds config n

after_sync :
    (now : Text → ℕ) (config : ClusterConfig) (n : Membership)
    → 0 < config.version
    → n.config_version < config.version
    → sync_config now config n ≡ (status_no_content, adopt_config now config n)
after_sync now config n p h =
    let positive : (config.version == 0) ≡ false = ground arith in
    let newer : leb config.version n.config_version ≡ false = ground arith in
    unfold sync_config in rw (positive, newer, sync_config) refl

put_sync :
    (now : Text → ℕ) (config : ClusterConfig) (n : Membership)
    → handle_membership_sync now method_put (some config) n ≡ sync_config now config n
put_sync now config n =
    let own : text_eq method_put method_put ≡ true =
      ground (arith, text_eq_iff method_put method_put) in
    unfold handle_membership_sync in rw (own, handle_membership_sync) refl

module _ (config : ClusterConfig) (positive : 0 < config.version) where
  pub sync-Holds :
      (now : Text → ℕ) (n : Membership)
      → Takes config n
      → Holds config (handle_membership_sync now method_put (some config) n).1
  sync-Holds now n (inl h) = rw (put_sync now config n) (
      rw (after_sync now config n positive h) (record {
        version = version-adopt_config now config n;
        members = members-adopt_config now config n;
      }))
  sync-Holds now n (inr h) =
      let zero_version : (config.version == 0) ≡ false = ground arith in
      let same : leb config.version n.config_version ≡ true = ground (arith, h.version) in
      let unchanged : sync_config now config n ≡ (status_no_content, n) =
        unfold sync_config in rw (zero_version, same, sync_config) refl in
      rw (put_sync now config n) (rw unchanged h)

  set_node-Takes :
      (target : Text) (n : Membership) (nodes : Nodes) (b : Text)
      → Holds config n
      → Takes config (nodes b)
      → Takes config (set_node target n nodes b)
  set_node-Takes target n nodes b h t = elim (Bool-cases (text_eq target b)) [
    | inl e ↦ rw e (inr h)
    | inr e ↦ rw e t
  ]

  -- The handler answers with a status below 300.
  pub deliver-acknowledged :
      (now : Text → ℕ) (target : Text) (nodes : Nodes)
      → Takes config (nodes target)
      → (deliver_sync acknowledged now target config nodes).0 ≡ true
  deliver-acknowledged now target nodes (inl h) =
      unfold deliver_sync in
      rw (put_sync now config (nodes target))
        (rw (after_sync now config (nodes target) positive h) refl)
  deliver-acknowledged now target nodes (inr h) =
      let n = nodes target in
      let zero_version : (config.version == 0) ≡ false = ground arith in
      let same : leb config.version n.config_version ≡ true = ground (arith, h.version) in
      let unchanged : sync_config now config n ≡ (status_no_content, n) =
        unfold sync_config in rw (zero_version, same, sync_config) refl in
      unfold deliver_sync in rw (put_sync now config n) (rw unchanged refl)

  pub deliver-Holds :
      (d : Delivery) (now : Text → ℕ) (target : Text) (nodes : Nodes) (b : Text)
      → Takes config (nodes target)
      → Holds config (nodes b)
      → Holds config ((deliver_sync d now target config nodes).1 b)
  unfolding deliver_sync
  deliver-Holds acknowledged now target nodes b t h = elim (Bool-cases (text_eq target b)) [
    | inl e ↦ rw e (sync-Holds now (nodes target) t)
    | inr e ↦ rw e h
  ]
  deliver-Holds unacknowledged now target nodes b t h = elim (Bool-cases (text_eq target b)) [
    | inl e ↦ rw e (sync-Holds now (nodes target) t)
    | inr e ↦ rw e h
  ]
  deliver-Holds lost now target nodes b t h = h

  pub deliver-Takes :
      (d : Delivery) (now : Text → ℕ) (target : Text) (nodes : Nodes) (b : Text)
      → Takes config (nodes target)
      → Takes config (nodes b)
      → Takes config ((deliver_sync d now target config nodes).1 b)
  unfolding deliver_sync
  deliver-Takes acknowledged now target nodes b t k =
      set_node-Takes target _ nodes b (sync-Holds now (nodes target) t) k
  deliver-Takes unacknowledged now target nodes b t k =
      set_node-Takes target _ nodes b (sync-Holds now (nodes target) t) k
  deliver-Takes lost now target nodes b t k = k

  -- The target of a sync that is stored has the configuration.
  pub deliver-target :
      (d : Delivery) (now : Text → ℕ) (target : Text) (nodes : Nodes)
      → d ≢ lost
      → Takes config (nodes target)
      → Holds config ((deliver_sync d now target config nodes).1 target)
  unfolding deliver_sync
  deliver-target acknowledged now target nodes n t =
      let own : text_eq target target ≡ true = ground (arith, text_eq_iff target target) in
      rw own (sync-Holds now (nodes target) t)
  deliver-target unacknowledged now target nodes n t =
      let own : text_eq target target ≡ true = ground (arith, text_eq_iff target target) in
      rw own (sync-Holds now (nodes target) t)
  deliver-target lost now target nodes n t = absurd (n refl)

pub deliver-acked :
    (d : Delivery) (now : Text → ℕ) (target : Text) (config : ClusterConfig) (nodes : Nodes)
    → (deliver_sync d now target config nodes).0 ≡ true
    → d ≢ lost
unfolding deliver_sync
deliver-acked acknowledged now target config nodes h = λ e. cc
deliver-acked unacknowledged now target config nodes h = λ e. cc
deliver-acked lost now target config nodes h = absurd (ground arith)

pub deliver-failed :
    (d : Delivery) (now : Text → ℕ) (target : Text) (config : ClusterConfig) (nodes : Nodes)
    → 0 < config.version
    → Takes config (nodes target)
    → (deliver_sync d now target config nodes).0 ≡ false
    → d ≢ unacknowledged
    → (deliver_sync d now target config nodes).1 ≡ nodes
deliver-failed acknowledged now target config nodes p t h n =
    absurd (ground (arith, h, deliver-acknowledged config p now target nodes t))
deliver-failed unacknowledged now target config nodes p t h n = absurd (n refl)
deliver-failed lost now target config nodes p t h n = unfold deliver_sync in refl

pub deliver-other :
    (d : Delivery) (now : Text → ℕ) (target : Text) (config : ClusterConfig) (nodes : Nodes)
    (b : Text)
    → text_eq target b ≡ false
    → (deliver_sync d now target config nodes).1 b ≡ nodes b
unfolding deliver_sync
deliver-other acknowledged now target config nodes b e = rw e refl
deliver-other unacknowledged now target config nodes b e = rw e refl
deliver-other lost now target config nodes b e = refl
