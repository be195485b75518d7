-- ===== src/Node/Rebalance/Safe.antt =====
-- rebalance.go: one key of a rebalance, and where its values are held afterwards.
use minidist.Base.{
  ◌≡◌, refl, sym, ap, ◌∙◌, ◌⊎◌, inl, inr, Bool, true, false, Option, none, some, List, arith,
  if◌then◌else◌, Bool-cases, Option-cases,
}
use mathlib.Core.Option.{some-injective}
use minidist.Base.Text.{Text, text_eq, text_eq_iff}
use minidist.Base.Assoc.{text_eq_inst}
use minidist.Base.Sets.{contains}
use minidist.Store.Version.{Value, is_newer, is_same, is_same_iff}
use minidist.Node.Hints.{HintStore}
use minidist.Node.Quorum.{Cluster}
use minidist.Node.Quorum.Overlap.{AtLeast, Grows}
use minidist.Node.Rebalance.Copies.{AtLeast-trans, copy_all-Grows, copy_all-AtLeast}
use minidist.Node.Rebalance.{
  RebalanceResult, delete_at, Copying, copy_all, Round, count_delete, rebalance_key,
}

-- The node holds a value at least as new, or every replica does.
abbrev pub Held : List Text → Text → Value → Cluster → Type 0
Held replicas addr u c =
    AtLeast u (c addr) ⊎ ((r : Text) → contains replicas r ≡ true → AtLeast u (c r))

module _ (round : Round) (quiet : (c : Cluster) → Grows c (round.writes c)) (addr : Text)
    (replicas : List Text) (key : Text) (v : Value) (c : Cluster) (hints : HintStore)
    (result : RebalanceResult) where
  abbrev pub copied : Copying
  copied =
      copy_all round.copies addr key v replicas
        (record { all_copied = true; cluster = c; hints = hints; result = result })

  abbrev pub later : Cluster
  later = round.writes copied.cluster

  abbrev pub after : Cluster
  after = (rebalance_key round addr replicas key v c hints result).0

  later-Grows : Grows c later
  later-Grows r x a =
      quiet copied.cluster r x (copy_all-Grows round.copies addr key v replicas _ r x a)

  abbrev pub ran : Cluster × (HintStore × RebalanceResult)
  ran = rebalance_key round addr replicas key v c hints result

  kept_as_replica : contains replicas addr ≡ true → ran ≡ (later, (copied.hints, copied.result))
  kept_as_replica e = unfold rebalance_key in rw (e, rebalance_key) refl

  kept_uncopied :
      contains replicas addr ≡ false
      → copied.all_copied ≡ false
      → ran ≡ (later, (copied.hints, copied.result))
  kept_uncopied e f = unfold rebalance_key in rw (e, f, rebalance_key) refl

  abbrev deletion : Option Bool × Cluster
  deletion = delete_at round.works addr v.version later

  dropped :
      contains replicas addr ≡ false
      → copied.all_copied ≡ true
      → ran ≡ (deletion.1, (copied.hints, count_delete deletion.0 copied.result))
  dropped e f = unfold rebalance_key in rw (e, f, rebalance_key) refl

  missing : later addr ≡ none → deletion ≡ (some false, later)
  missing g = unfold delete_at in rw (g, delete_at) refl

  newer_there :
      (current : Value)
      → later addr ≡ some current
      → is_same current.version v.version ≡ false
      → deletion ≡ (some false, later)
  newer_there current g s = unfold delete_at in rw (g, s, delete_at) refl

  not_logged :
      (current : Value)
      → later addr ≡ some current
      → is_same current.version v.version ≡ true
      → round.works ≡ false
      → deletion ≡ (none, later)
  not_logged current g s w = unfold delete_at in rw (g, s, w, delete_at) refl

  logged :
      (current : Value)
      → later addr ≡ some current
      → is_same current.version v.version ≡ true
      → round.works ≡ true
      → deletion ≡ (some true, λ r. if text_eq addr r then none else later r)
  logged current g s w = unfold delete_at in rw (g, s, w, delete_at) refl

  -- The hints are those of the copies.
  pub hints-rebalance_key : ran.1.0 ≡ copied.hints
  hints-rebalance_key = elim (Bool-cases (contains replicas addr)) [
    | inl e ↦ ap (λ t. t.1.0) (kept_as_replica e)
    | inr e ↦ elim (Bool-cases copied.all_copied) [
      | inr f ↦ ap (λ t. t.1.0) (kept_uncopied e f)
      | inl f ↦ ap (λ t. t.1.0) (dropped e f)
    ]
  ]

  -- The deletion leaves the replicas as they are, or takes the node's value of that version.
  deleted :
      (after ≡ later)
      ⊎ ((contains replicas addr ≡ false)
          × (copied.all_copied ≡ true)
          × (current : Value) × (later addr ≡ some current)
          × (current.version ≡ v.version)
          × (after ≡ (λ r. if text_eq addr r then none else later r)))
  deleted = elim (Bool-cases (contains replicas addr)) [
    | inl e ↦ inl (ap (λ t. t.0) (kept_as_replica e))
    | inr e ↦ elim (Bool-cases copied.all_copied) [
      | inr f ↦ inl (ap (λ t. t.0) (kept_uncopied e f))
      | inl f ↦ elim (Option-cases (later addr)) [
        | inl g ↦ inl (ap (λ t. t.0) (dropped e f) ∙ ap (λ t. t.1) (missing g))
        | inr (current, g) ↦ elim (Bool-cases (is_same current.version v.version)) [
          | inr s ↦ inl (ap (λ t. t.0) (dropped e f) ∙ ap (λ t. t.1) (newer_there current g s))
          | inl s ↦ elim (Bool-cases round.works) [
            | inr w ↦ inl (ap (λ t. t.0) (dropped e f) ∙ ap (λ t. t.1) (not_logged current g s w))
            | inl w ↦ inr (
              e,
              f,
              current,
              g,
              (is_same_iff current.version v.version).0 s,
              ap (λ t. t.0) (dropped e f) ∙ ap (λ t. t.1) (logged current g s w),
            )
          ]
        ]
      ]
    ]
  ]

  -- The copies stay.
  pub copy_stays :
      (r : Text) (u : Value)
      → text_eq addr r ≡ false
      → AtLeast u (copied.cluster r)
      → AtLeast u (after r)
  copy_stays r u o a = elim deleted [
    | inl same ↦ rw same (quiet copied.cluster r u a)
    | inr (e, f, current, g, s, gone) ↦ rw gone (rw o (quiet copied.cluster r u a))
  ]

  -- A replica's value grows.
  pub replica_grows :
      (r : Text) (u : Value)
      → (text_eq addr r ≡ false) ⊎ (contains replicas r ≡ true)
      → AtLeast u (c r)
      → AtLeast u (after r)
  replica_grows r u other a = elim deleted [
    | inl same ↦ rw same (later-Grows r u a)
    | inr (e, f, current, g, s, gone) ↦ elim (Bool-cases (text_eq addr r)) [
      | inr o ↦ rw gone (rw o (later-Grows r u a))
      | inl o ↦ elim other [
        | inl n ↦ absurd (cc (n, o))
        | inr m ↦ absurd (cc (ap (contains replicas) ((text_eq_iff addr r).0 o), m, e))
      ]
    ]
  ]

  pub rebalance_key-Held : (u : Value) → Held replicas addr u c → Held replicas addr u after
  rebalance_key-Held u (inr all) = inr (λ r m. replica_grows r u (inr m) (all r m))
  rebalance_key-Held u (inl a) = elim deleted [
    | inl same ↦ inl (rw same (later-Grows addr u a))
    | inr (e, f, current, g, s, gone) ↦ inr (λ r m.
        let other : text_eq addr r ≡ false = elim (Bool-cases (text_eq addr r)) [
          | inr o ↦ o
          | inl o ↦ absurd (cc (ap (contains replicas) ((text_eq_iff addr r).0 o), m, e))
        ] in
        let flip : text_eq r addr ≡ false =
          ground (arith, other, text_eq_iff r addr, text_eq_iff addr r) in
        let (x, (at, old)) = later-Grows addr u a in
        let not_newer : is_newer u.version v.version ≡ false =
          ap (is_newer u.version) (sym s)
          ∙ ap (λ y. is_newer u.version y.version) (some-injective current x (sym g ∙ at))
          ∙ old in
        rw gone (
          rw other (
            AtLeast-trans u v (later r) not_newer (
              quiet copied.cluster r v
                (copy_all-AtLeast round.copies addr key v replicas _ r f m flip)))))
  ]
