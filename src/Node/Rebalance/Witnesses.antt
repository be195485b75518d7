-- ===== src/Node/Rebalance/Witnesses.antt =====
-- rebalance.go with two keys and three nodes.
use minidist.Base.{
  List, ◌≡◌, ◌<◌, refl, inl, true, false, none, some, [], ◌∷◌, arith, if◌then◌else◌,
}
use minidist.Base.Text.{Text, text_eq}
use minidist.Base.Assoc.{Assoc, lookup, text_eq_inst}
use minidist.Base.Sets.{contains}
use minidist.Store.Version.{Value, is_newer_irrefl}
use minidist.Node.Hints.{HintStore}
use minidist.Node.Http.{method_put}
use minidist.Node.Quorum.{Cluster, acknowledged, lost}
use minidist.Node.Cluster.{ClusterConfig, handle_membership_sync}
use minidist.Node.Cluster.Reached.{start_node, start_node-Agrees}
use minidist.Node.Replicas.{replicas_for_ring}
use minidist.Node.Rebalance.{RebalanceResult, Values, Round, rebalance_key, rebalance_keys}
use minidist.Node.Rebalance.Copies.{Covered}
use minidist.Node.Rebalance.Safe.{Held}
use minidist.Node.Rebalance.Covered.{rebalance_keys-Held, rebalance_keys-Covered}
use minidist.Node.Rebalance.Empty.{empty_config_drops}

abbrev a : Text
a = 97 ∷ []

abbrev b : Text
b = 98 ∷ []

abbrev c : Text
c = 99 ∷ []

abbrev key : Text
key = 107 ∷ []

abbrev other : Text
other = 108 ∷ []

abbrev value : Value
value = record { bytes = 1 ∷ []; version = record { counter = 3; node_id = a }; deleted = false }

-- The copies to `c` are lost.
abbrev round : Round
round = record {
  copies = λ r. if text_eq r c then lost else acknowledged;
  writes = λ cl. cl;
  works = true;
}

abbrev cluster : Cluster
cluster = λ r. if text_eq r a then some value else none

abbrev values : Values
values = λ k. cluster

abbrev snapshot : Assoc Text Value
snapshot = (key, value) ∷ (other, value) ∷ []

abbrev zeros : RebalanceResult
zeros = record {
  scanned = 2;
  copied = 0;
  failed = 0;
  hinted = 0;
  cleaned = 0;
  chunk_scanned = 0;
  chunk_copied = 0;
  chunk_failed = 0;
}

abbrev no_hints : HintStore
no_hints = []

abbrev after : Values
after = (rebalance_keys (λ k. round) a (λ k. b ∷ c ∷ []) snapshot values no_hints zeros).0

abbrev hints_after : HintStore
hints_after = (rebalance_keys (λ k. round) a (λ k. b ∷ c ∷ []) snapshot values no_hints zeros).1.0

rebalance_keys-Held_example : Held (b ∷ c ∷ []) a value (after key)
unfolding text_eq
rebalance_keys-Held_example =
    rebalance_keys-Held (λ k. round) (λ k cl r u x. x) a (λ k. b ∷ c ∷ []) snapshot values no_hints
      zeros key value (inl (value, (refl, is_newer_irrefl value.version)))

rebalance_keys-Covered_example : Covered c key value (after key) hints_after
unfolding text_eq lookup contains
rebalance_keys-Covered_example =
    rebalance_keys-Covered (λ k. round) (λ k cl r u x. x) a (λ k. b ∷ c ∷ []) snapshot values
      no_hints zeros key c value refl refl refl

abbrev no_members : ClusterConfig
no_members = record { version = 1; members = [] }

a_in_nodes : contains (a ∷ b ∷ []) a ≡ true
unfolding contains text_eq
a_in_nodes = refl

first_version : (start_node 0 0 a (a ∷ b ∷ []) 1).config_version < 1
unfolding start_node
first_version = omega arith

empty_config_drops_example :
    (rs : List Text) × (replicas_for_ring
        (handle_membership_sync
          (λ k. 0)
          method_put
          (some no_members)
          (start_node 0 0 a (a ∷ b ∷ []) 1)).1.ring
        2
        key
      ≡ some rs)
    × ((rebalance_key round a rs key value cluster no_hints zeros).0
        ≡ (λ q. if text_eq a q then none else cluster q))
empty_config_drops_example =
    empty_config_drops (λ k. 0) no_members (start_node 0 0 a (a ∷ b ∷ []) 1) 2 round a key value
      cluster no_hints zeros refl first_version (start_node-Agrees 0 0 a (a ∷ b ∷ []) 1 a_in_nodes)
      refl refl (unfold text_eq in refl)
