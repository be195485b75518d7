-- ===== src/Node/Quorum/Reads.antt =====
-- replication.go and version.go: what a read and a new version see of the writes before them.
use minidist.Base.{
  ℕ, suc, ◌+◌, ◌≤◌, ◌<◌, ◌≡◌, refl, ◌⊎◌, Option-cases, sym, ap, ◌∙◌, inl, inr, Bool, true, false,
  Option, none, some, List, [], ◌∷◌, arith, length, if◌then◌else◌, Bool-cases,
}
use mathlib.Core.Path.{subst}
use minidist.Base.Text.{Text, text_eq, text_eq_iff}
use minidist.Base.Assoc.{text_eq_inst}
use minidist.Base.Sets.{contains}
use minidist.Store.Version.{Value, is_newer, is_newer_total, is_newer_trans}
use minidist.Store.Convergence.{newest}
use minidist.Node.Hints.{HintStore}
use minidist.Node.Quorum.{
  Cluster, Delivery, Written, write_all, replicate_value, Gathered, gathered, read_result, gather,
}
use minidist.Node.Quorum.Overlap.{
  count, count_overlap, AtLeast, newest_own, newest_keeps, Grows, acked, success-write_all,
  write_all-holds,
}

module _ (answers : Text → Bool) (c : Cluster) where
  latest-read_result :
      (replica : Text) (o : Option Value) (g : Gathered) (v : Value)
      → AtLeast v g.latest
      → AtLeast v (read_result replica o g).latest
  unfolding read_result
  latest-read_result replica none g v a = a
  latest-read_result replica (some w) g v a = newest_keeps v w g.latest a

  own-read_result :
      (replica : Text) (o : Option Value) (g : Gathered) (v : Value)
      → AtLeast v o
      → AtLeast v (read_result replica o g).latest
  unfolding read_result newest
  own-read_result replica o g v (x, (e, n)) =
      let (y, (f, m)) = newest_own x g.latest in
      rw e (
        y,
        (
          f,
          ground (
            arith,
            is_newer_total v.version x.version,
            is_newer_trans x.version v.version y.version,
          ),
        ),
      )

  success-read_result :
      (replica : Text) (o : Option Value) (g : Gathered)
      → (read_result replica o g).success ≡ suc g.success
  unfolding read_result
  success-read_result replica none g = omega arith
  success-read_result replica (some w) g = omega arith

  success-gather :
      (rs : List Text) (g : Gathered)
      → (gather answers c rs g).success ≡ g.success + count answers rs
  unfolding gather
  success-gather [] g = omega arith
  success-gather (r ∷ rs) g = ground (
    arith,
    success-gather rs (read_result r (c r) g),
    success-read_result r (c r) g,
    success-gather rs g,
  )

  -- One round of the loop keeps what was seen, and sees the replica that answers.
  round-keeps :
      (b : Bool) (r : Text) (g : Gathered) (v : Value)
      → AtLeast v g.latest
      → AtLeast v (if b then read_result r (c r) g else g).latest
  round-keeps true r g v a = latest-read_result r (c r) g v a
  round-keeps false r g v a = a

  round_sees :
      (r : Text) (g : Gathered) (v : Value)
      → answers r ≡ true
      → AtLeast v (c r)
      → AtLeast v (if answers r then read_result r (c r) g else g).latest
  round_sees r g v e a =
      subst (λ b. AtLeast v (if b then read_result r (c r) g else g).latest) (sym e)
        (own-read_result r (c r) g v a)

  gather-keeps :
      (rs : List Text) (g : Gathered) (v : Value)
      → AtLeast v g.latest
      → AtLeast v (gather answers c rs g).latest
  unfolding gather
  gather-keeps [] g v a = a
  gather-keeps (r ∷ rs) g v a =
      gather-keeps rs (if answers r then read_result r (c r) g else g) v
        (round-keeps (answers r) r g v a)

  gather-sees :
      (rs : List Text) (g : Gathered) (v : Value) (r : Text)
      → contains rs r ≡ true
      → answers r ≡ true
      → AtLeast v (c r)
      → AtLeast v (gather answers c rs g).latest
  unfolding gather contains
  gather-sees [] g v r i a h = absurd (ground arith)
  gather-sees (q ∷ rs) g v r i a h = elim (Bool-cases (text_eq q r)) [
    | inl e ↦
        let same = (text_eq_iff q r).0 e in
        gather-keeps rs (if answers q then read_result q (c q) g else g) v
          (round_sees q g v (ap answers same ∙ a) (subst (λ k. AtLeast v (c k)) (sym same) h))
    | inr e ↦ gather-sees rs (if answers q then read_result q (c q) g else g) v r (ground arith) a h
  ]

module _ (answers : Text → Bool) (c : Cluster) where
  -- A value that a replica of a list answers with.
  abbrev pub Source : List Text → Value → Type 0
  Source rs x = (r : Text) × (contains rs r ≡ true) × (answers r ≡ true) × (c r ≡ some x)

  latest_is :
      (replica : Text) (o : Option Value) (g : Gathered) (x : Value)
      → (read_result replica o g).latest ≡ some x
      → (g.latest ≡ some x) ⊎ (o ≡ some x)
  unfolding read_result newest
  latest_is replica none g x e = inl e
  latest_is replica (some w) g x e = elim (Option-cases g.latest) [
    | inl n ↦ inr (ap (λ l. some (newest w l)) (sym n) ∙ e)
    | inr (y, l) ↦
        let now : some (newest w (some y)) ≡ some x = ap (λ l. some (newest w l)) (sym l) ∙ e in
        elim (Bool-cases (is_newer w.version y.version)) [
          | inl h ↦ inr (ap (λ b. some (if b then w else y)) (sym h) ∙ now)
          | inr h ↦ inl (l ∙ ap (λ b. some (if b then w else y)) (sym h) ∙ now)
        ]
  ]

  later-Source : (q : Text) (rs : List Text) (x : Value) → Source rs x → Source (q ∷ rs) x
  later-Source q rs x (r, i, a, e) = (r, unfold contains in ground (arith, i), a, e)

  -- What was gathered is a replica's answer.
  pub gather-Source :
      (rs : List Text) (g : Gathered) (x : Value)
      → (gather answers c rs g).latest ≡ some x
      → (g.latest ≡ some x) ⊎ Source rs x
  unfolding gather
  gather-Source [] g x e = inl e
  gather-Source (q ∷ rs) g x e = elim (Bool-cases (answers q)) [
    | inr a ↦
        let same : gather answers c rs g ≡ gather answers c (q ∷ rs) g = rw a refl in
        elim (gather-Source rs g x (ap (λ t. t.latest) same ∙ e)) [
          | inl l ↦ inl l
          | inr h ↦ inr (later-Source q rs x h)
        ]
    | inl a ↦
        let next = read_result q (c q) g in
        let same : gather answers c rs next ≡ gather answers c (q ∷ rs) g = rw a refl in
        elim (gather-Source rs next x (ap (λ t. t.latest) same ∙ e)) [
          | inr h ↦ inr (later-Source q rs x h)
          | inl l ↦ elim (latest_is q (c q) g x l) [
            | inl h ↦ inl h
            | inr h ↦ inr (q, unfold contains in ground (arith, text_eq_iff q q), a, h)
          ]
        ]
  ]

pub acks_enough :
    (network : Text → Delivery) (write_quorum : ℕ) (replicas : List Text) (key : Text) (v : Value)
    (c : Cluster) (h : HintStore)
    → (replicate_value network write_quorum replicas key v c h).0 ≡ true
    → write_quorum
      ≤ (write_all network key v replicas (record { success = 0; cluster = c; hints = h })).success
unfolding replicate_value
acks_enough network write_quorum replicas key v c h done = ground arith

-- After a write with a quorum, however the replicas have moved on, every read with a quorum finds a value
-- that is not older.
pub quorum_read :
    (network : Text → Delivery) (answers : Text → Bool) (read_quorum write_quorum : ℕ)
    (replicas : List Text) (key : Text) (v : Value) (c d : Cluster) (h : HintStore)
    → length replicas < read_quorum + write_quorum
    → (replicate_value network write_quorum replicas key v c h).0 ≡ true
    → Grows (replicate_value network write_quorum replicas key v c h).1.cluster d
    → read_quorum ≤ (gathered answers d replicas).success
    → AtLeast v (gathered answers d replicas).latest
quorum_read network answers read_quorum write_quorum replicas key v c d h q done grows enough =
    let start : Written = record { success = 0; cluster = c; hints = h } in
    let start_read : Gathered = record { latest = none; success = 0; successful = [] } in
    let acks : write_quorum ≤ count (acked network) replicas = omega (
      arith,
      acks_enough network write_quorum replicas key v c h done,
      success-write_all network key v replicas start,
    ) in
    let reads : read_quorum ≤ count answers replicas =
      omega (arith, success-gather answers d replicas start_read) in
    let (r, (i, (w, a))) = count_overlap (acked network) answers replicas (omega arith) in
    let held : AtLeast v ((replicate_value network write_quorum replicas key v c h).1.cluster r) =
      unfold replicate_value in write_all-holds network key v replicas start r i w in
    gather-sees answers d replicas start_read v r i a (grows r v held)
