-- ===== src/Node/Drain/Drained.antt =====
-- drain.go: the future replicas after a drain that succeeds.
use minidist.Base.{
  ℕ, ◌≡◌, refl, sym, ap, ◌∙◌, inl, inr, Bool, true, false, Option, some, List, arith, Bool-cases,
}
use minidist.Base.Text.{Text}
use minidist.Base.Assoc.{Assoc, lookup, text_eq_inst}
use minidist.Base.Sets.{contains}
use minidist.Store.Version.{Value}
use minidist.HashRing.{new}
use minidist.Chunk.{read, get}
use minidist.Node.Gc.{Stores}
use minidist.Node.Quorum.{Delivery}
use minidist.Node.Quorum.Overlap.{AtLeast}
use minidist.Node.Chunks.{ChunkNet}
use minidist.Node.Chunks.Replica.{Hashes}
use minidist.Node.Rebalance.{Values}
use minidist.Node.Replicas.{replicas_for_ring}
use minidist.Node.Drain.{drain_keys, drain_ids, drain_chunks, drain}
use minidist.Node.Drain.Keys.{drain_keys-AtLeast}
use minidist.Node.Drain.Pieces.{drain_ids-Reads}

module _ (sha256 : List ℕ → List ℕ) (net : ChunkNet) (addr : Text)
    (networks : Text → Text → Delivery) (future_members : List Text) (virtual_nodes replicas : ℕ)
    (snapshot : Assoc Text Value) (values : Values) (stores : Stores) where
  -- The replicas on the future ring.
  abbrev future : Text → Option (List Text)
  future = replicas_for_ring (new future_members virtual_nodes) replicas

  abbrev drained : Option (List Text) → Bool × (Values × Stores)
  drained ids =
      drain sha256 net addr networks future_members virtual_nodes replicas snapshot ids values
        stores

  abbrev keys : Bool × Values
  keys = drain_keys networks future snapshot values

  abbrev chunks : Option (List Text) → Bool × Stores
  chunks ids = drain_chunks sha256 net addr future ids stores

  keys_first :
      (ids : Option (List Text))
      → (drained ids).0 ≡ true
      → (keys.0 ≡ true) × (drained ids ≡ ((chunks ids).0, (keys.1, (chunks ids).1)))
  keys_first ids h = elim (Bool-cases keys.0) [
    | inl e ↦ (e, unfold drain in rw (e, drain) refl)
    | inr e ↦
        let failed : drained ids ≡ (false, (keys.1, stores)) = unfold drain in rw (e, drain) refl in
        absurd (ground (arith, ap (λ t. t.0) failed, h))
  ]

  module _ (ids : List Text) (done : (drained (some ids)).0 ≡ true) where
    -- When a drain that lists the node's chunks returns without an error, every replica that the
    -- ring of the future members gives for a key of the snapshot holds a value at least as new as
    -- the snapshot's.
    pub drain-AtLeast :
        (k r : Text) (rs : List Text) (u : Value)
        → lookup k snapshot ≡ some u
        → replicas_for_ring (new future_members virtual_nodes) replicas k ≡ some rs
        → contains rs r ≡ true
        → AtLeast u ((drained (some ids)).1.0 k r)
    drain-AtLeast k r rs u e f m =
        let (first, run) = keys_first (some ids) done in
        rw run (drain_keys-AtLeast networks future snapshot values k u rs r first e f m)

    -- When a drain that lists the node's chunks returns without an error, every listed chunk that
    -- the node reads is read with the same content by each of its replicas on the ring of the
    -- future members, if SHA-256 gives 32 bytes for the content and no other content has its id.
    pub drain-Reads :
        (id q : Text) (rs : List Text) (bytes : List ℕ)
        → contains ids id ≡ true
        → get sha256 id (stores addr) ≡ read bytes
        → Hashes sha256 bytes
        → replicas_for_ring (new future_members virtual_nodes) replicas id ≡ some rs
        → contains rs q ≡ true
        → get sha256 id ((drained (some ids)).1.1 q) ≡ read bytes
    drain-Reads id q rs bytes c g x f m =
        let (first, run) = keys_first (some ids) done in
        let listed : chunks (some ids) ≡ drain_ids sha256 net addr future ids stores =
          unfold drain_chunks in refl in
        let second = ap (λ t. t.0) (sym listed) ∙ ap (λ t. t.0) (sym run) ∙ done in
        rw run (
          rw listed
            (drain_ids-Reads sha256 net addr future ids stores id bytes rs q second c g x f m))
