-- ===== src/Node/Rebalance/Copies.antt =====
-- rebalance.go: the copies of one key, and the hints for those that fail.
use minidist.Base.{
  ◌≡◌, refl, sym, ap, ◌∙◌, ◌⊎◌, inl, inr, Bool, true, false, Option, List, [], ◌∷◌, arith,
  if◌then◌else◌, Bool-cases,
}
use mathlib.Core.Path.{subst}
use minidist.Base.Text.{Text, text_eq, text_eq_iff}
use minidist.Base.Assoc.{text_eq_inst}
use minidist.Base.Sets.{contains}
use minidist.Store.Version.{Value, is_newer, is_newer_total, is_newer_trans}
use minidist.Node.Hints.{HintStore, hint_key, add_hint, Hinted, add_hint-Hinted, lookup-add_hint}
use minidist.Node.Quorum.{Cluster, Delivery, put_replica}
use minidist.Node.Quorum.Overlap.{AtLeast, Grows, put_replica-Grows, acked_holds}
use minidist.Node.Rebalance.{Copying, copy_result, copy_all}

pub cluster-copy_result :
    (replica key : Text) (v : Value) (r : Bool × Cluster) (s : Copying)
    → (copy_result replica key v r s).cluster ≡ r.1
unfolding copy_result
cluster-copy_result replica key v (true, c) s = refl
cluster-copy_result replica key v (false, c) s = refl

all_copied-copy_result :
    (replica key : Text) (v : Value) (r : Bool × Cluster) (s : Copying)
    → (copy_result replica key v r s).all_copied ≡ true
    → (r.0 ≡ true) × (s.all_copied ≡ true)
unfolding copy_result
all_copied-copy_result replica key v (true, c) s h = (refl, h)
all_copied-copy_result replica key v (false, c) s h = cc

-- What is at least as new as something at least as new.
pub AtLeast-trans :
    (u v : Value) (o : Option Value)
    → is_newer u.version v.version ≡ false
    → AtLeast v o
    → AtLeast u o
AtLeast-trans u v o h (x, (e, n)) = (
  x,
  (
    e,
    ground (
      arith,
      is_newer_total u.version v.version,
      is_newer_trans v.version u.version x.version,
      is_newer_total v.version x.version,
      is_newer_trans u.version x.version v.version,
    ),
  ),
)

module _ (network : Text → Delivery) (addr key : Text) (v : Value) where
  abbrev pub step : Text → Copying → Copying
  step replica s =
      if text_eq replica addr
      then s
      else copy_result replica key v (put_replica (network replica) replica v s.cluster) s

  pub step-Grows : (replica : Text) (s : Copying) → Grows s.cluster (step replica s).cluster
  step-Grows replica s r x a = elim (Bool-cases (text_eq replica addr)) [
    | inl e ↦ rw e a
    | inr e ↦
        let sent = put_replica (network replica) replica v s.cluster in
        rw e (
          rw (cluster-copy_result replica key v sent s)
            (put_replica-Grows (network replica) replica v s.cluster r x a))
  ]

  pub copy_all-Grows :
      (rs : List Text) (s : Copying) → Grows s.cluster (copy_all network addr key v rs s).cluster
  unfolding copy_all
  copy_all-Grows [] s r x a = a
  copy_all-Grows (replica ∷ rs) s r x a =
      copy_all-Grows rs (step replica s) r x (step-Grows replica s r x a)

  step_copied :
      (replica : Text) (s : Copying)
      → (step replica s).all_copied ≡ true
      → (s.all_copied ≡ true)
        × (text_eq replica addr ≡ false → AtLeast v ((step replica s).cluster replica))
  step_copied replica s h = elim (Bool-cases (text_eq replica addr)) [
    | inl e ↦ (
      ap
            (λ b.
              (if b
                then s
                else copy_result replica key v (put_replica (network replica) replica v s.cluster)
                    s).all_copied)
            (sym e)
          ∙ h,
      λ f. cc,
    )
    | inr e ↦
        let sent = put_replica (network replica) replica v s.cluster in
        let here : (copy_result replica key v sent s).all_copied ≡ true =
          ap (λ b. (if b then s else copy_result replica key v sent s).all_copied) (sym e) ∙ h in
        let both = all_copied-copy_result replica key v sent s here in
        (
          both.1,
          λ f. rw e (
              rw (cluster-copy_result replica key v sent s)
                (acked_holds (network replica) replica v s.cluster both.0)),
        )
  ]

  copy_all_copied :
      (rs : List Text) (s : Copying)
      → (copy_all network addr key v rs s).all_copied ≡ true
      → s.all_copied ≡ true
  unfolding copy_all
  copy_all_copied [] s h = h
  copy_all_copied (replica ∷ rs) s h =
      (step_copied replica s (copy_all_copied rs (step replica s) h)).0

  -- When every copy was acknowledged, every other replica holds the value.
  pub copy_all-AtLeast :
      (rs : List Text) (s : Copying) (r : Text)
      → (copy_all network addr key v rs s).all_copied ≡ true
      → contains rs r ≡ true
      → text_eq r addr ≡ false
      → AtLeast v ((copy_all network addr key v rs s).cluster r)
  unfolding copy_all
  copy_all-AtLeast [] s r h c o = absurd (unfold contains in ground (arith, c))
  copy_all-AtLeast (replica ∷ rs) s r h c o = elim (Bool-cases (text_eq replica r)) [
    | inr e ↦ copy_all-AtLeast rs (step replica s) r h (unfold contains in ground (arith, c, e)) o
    | inl e ↦
        let same : replica ≡ r = (text_eq_iff replica r).0 e in
        let there =
          (step_copied replica s (copy_all_copied rs (step replica s) h)).1
            (ap (λ k. text_eq k addr) same ∙ o) in
        copy_all-Grows rs (step replica s) r v
          (subst (λ k. AtLeast v ((step replica s).cluster k)) same there)
  ]

hints-copy_result-acked :
    (replica key : Text) (v : Value) (r : Bool × Cluster) (s : Copying)
    → r.0 ≡ true
    → (copy_result replica key v r s).hints ≡ s.hints
unfolding copy_result
hints-copy_result-acked replica key v (true, c) s h = refl
hints-copy_result-acked replica key v (false, c) s h = cc

hints-copy_result-failed :
    (replica key : Text) (v : Value) (r : Bool × Cluster) (s : Copying)
    → r.0 ≡ false
    → (copy_result replica key v r s).hints ≡ add_hint replica key v s.hints
unfolding copy_result
hints-copy_result-failed replica key v (true, c) s h = cc
hints-copy_result-failed replica key v (false, c) s h = refl

-- A replica holds a value at least as new, or there is a hint for it that is at least as new.
abbrev pub Covered : Text → Text → Value → Cluster → HintStore → Type 0
Covered r key v c h = AtLeast v (c r) ⊎ Hinted (hint_key r key) v h

module _ (network : Text → Delivery) (addr key : Text) (v : Value) where
  step-Hinted :
      (k : Text) (u : Value) (replica : Text) (s : Copying)
      → Hinted k u s.hints
      → Hinted k u (step network addr key v replica s).hints
  step-Hinted k u replica s h =
      let sent = put_replica (network replica) replica v s.cluster in
      elim (Bool-cases (text_eq replica addr)) [
        | inl e ↦ rw e h
        | inr e ↦ elim (Bool-cases sent.0) [
          | inl f ↦ rw e (rw (hints-copy_result-acked replica key v sent s f) h)
          | inr f ↦ rw e (
              rw (hints-copy_result-failed replica key v sent s f)
                (add_hint-Hinted k u replica key v s.hints h))
        ]
      ]

  pub copy_all-Hinted :
      (k : Text) (u : Value) (rs : List Text) (s : Copying)
      → Hinted k u s.hints
      → Hinted k u (copy_all network addr key v rs s).hints
  unfolding copy_all
  copy_all-Hinted k u [] s h = h
  copy_all-Hinted k u (replica ∷ rs) s h =
      copy_all-Hinted k u rs (step network addr key v replica s) (step-Hinted k u replica s h)

  step-Covered :
      (replica : Text) (s : Copying)
      → text_eq replica addr ≡ false
      → Covered replica key v
          (step network addr key v replica s).cluster
          (step network addr key v replica s).hints
  step-Covered replica s e =
      let sent = put_replica (network replica) replica v s.cluster in
      elim (Bool-cases sent.0) [
        | inl f ↦ inl (
            rw e (
              rw (cluster-copy_result replica key v sent s)
                (acked_holds (network replica) replica v s.cluster f)))
        | inr f ↦
            let (x, (at, old)) = lookup-add_hint replica key v s.hints in
            inr (rw e (rw (hints-copy_result-failed replica key v sent s f) (x, (at, old))))
      ]

  pub copy_all-Covered :
      (rs : List Text) (s : Copying) (r : Text)
      → contains rs r ≡ true
      → text_eq r addr ≡ false
      → Covered r key v
          (copy_all network addr key v rs s).cluster
          (copy_all network addr key v rs s).hints
  unfolding copy_all
  copy_all-Covered [] s r c o = absurd (unfold contains in ground (arith, c))
  copy_all-Covered (replica ∷ rs) s r c o =
      let next = step network addr key v replica s in
      elim (Bool-cases (text_eq replica r)) [
        | inr e ↦ copy_all-Covered rs next r (unfold contains in ground (arith, c, e)) o
        | inl e ↦
            let same : replica ≡ r = (text_eq_iff replica r).0 e in
            let here =
              subst (λ k. Covered k key v next.cluster next.hints) same
                (step-Covered replica s (ap (λ k. text_eq k addr) same ∙ o)) in
            elim here [
              | inl a ↦ inl (copy_all-Grows network addr key v rs next r v a)
              | inr h ↦ inr (copy_all-Hinted (hint_key r key) v rs next h)
            ]
      ]
