-- ===== src/Node/Quorum/Versions.antt =====
-- replication.go and version.go: `Get` and `nextVersion` after a write with a quorum.
use minidist.Base.{
  ℕ, suc, ◌+◌, ◌≤◌, ◌<◌, ◌≡◌, refl, sym, ap, ◌∙◌, inl, inr, ◌⊎◌, Bool, true, false, Option, none,
  some, List, [], ◌∷◌, arith, length, ltb, ◌==◌, if◌then◌else◌, Bool-cases,
}
use mathlib.Core.Path.{subst}
use minidist.Base.Text.{Text, text_eq, text_eq_iff}
use minidist.Base.Assoc.{text_eq_inst}
use minidist.Base.Sets.{contains}
use minidist.Base.Words.{u64, u64_mod}
use minidist.Store.Version.{Version, Value, is_newer}
use minidist.Node.Hints.{HintStore}
use minidist.Node.Quorum.{
  Cluster, Delivery, Written, replicate_value, Gathered, gathered, get, get_latest, GetResult,
  not_found, found, read_quorum_not_reached, read_counters, version_result, next_version,
}
use minidist.Node.Quorum.Overlap.{
  count, count_overlap, AtLeast, Grows, acked, success-write_all, write_all-holds,
}
use minidist.Node.Quorum.Reads.{quorum_read, acks_enough, gather-Source}

-- What `Get` answers with when it has gathered the value `x`.
abbrev pub answer : Value → GetResult
answer x = if x.deleted then not_found else found x.bytes

-- After replicateValue reached its write quorum, and however the replicas' values have grown
-- since, Get with R + W > N and at least one replica either reports that the read quorum was not
-- reached, or answers with a value that one of the replicas that answer holds and whose version is
-- not older than the one written.
pub get_after_write :
    (network repair : Text → Delivery) (answers : Text → Bool) (read_quorum write_quorum : ℕ)
    (replicas : List Text) (key : Text) (v : Value) (c d : Cluster) (h : HintStore)
    → length replicas < read_quorum + write_quorum
    → 0 < length replicas
    → (replicate_value network write_quorum replicas key v c h).0 ≡ true
    → Grows (replicate_value network write_quorum replicas key v c h).1.cluster d
    → ((get answers repair read_quorum replicas d).0 ≡ read_quorum_not_reached)
      ⊎ ((x : Value) × (r : Text) × (contains replicas r ≡ true)
          × (answers r ≡ true)
          × (d r ≡ some x)
          × ((get answers repair read_quorum replicas d).0 ≡ answer x)
          × (is_newer v.version x.version ≡ false))
get_after_write network repair answers read_quorum write_quorum replicas key v c d h q some_replica
      done grows =
    let filled : (length replicas == 0) ≡ false = ground arith in
    elim (Bool-cases (ltb (gathered answers d replicas).success read_quorum)) [
      | inl e ↦ inl (unfold get in rw (filled, e, get) refl)
      | inr e ↦
          let (x, (l, n)) =
            quorum_read network answers read_quorum write_quorum replicas key v c d h q done grows
              (ground arith) in
          let start : Gathered = record { latest = none; success = 0; successful = [] } in
          elim (gather-Source answers d replicas start x l) [
            | inl h ↦ absurd (ground (arith, h))
            | inr (r, i, a, at) ↦
                inr (x, r, i, a, at, unfold get get_latest in rw (filled, e, l, get) refl, n)
          ]
    ]

-- The counter of a value, 0 where there is none.
abbrev pub counter_of : Option Value → ℕ
counter_of none = 0
counter_of (some v) = v.version.counter

not_newer_counter : (a b : Version) → is_newer a b ≡ false → a.counter ≤ b.counter
unfolding is_newer
not_newer_counter a b h = ground arith

version_result-grows : (b : Bool) (o : Option Value) (g : ℕ × ℕ) → g.1 ≤ (version_result b o g).1
unfolding version_result
version_result-grows false o g = omega arith
version_result-grows true none g = omega arith
version_result-grows true (some v) g = ground arith

version_result-sees : (o : Option Value) (g : ℕ × ℕ) → counter_of o ≤ (version_result true o g).1
unfolding version_result
version_result-sees none g = omega arith
version_result-sees (some v) g = ground arith

pub next_version-some :
    (answers : Text → Bool) (read_quorum : ℕ) (replicas : List Text) (d : Cluster) (addr : Text)
    (current : ℕ) (next : Version)
    → next_version answers read_quorum replicas d addr current ≡ some next
    → (read_quorum ≤ (read_counters answers d replicas (0, 0)).0)
      × (next.counter
          ≡ u64 (
              (if ltb (read_counters answers d replicas (0, 0)).1 current
                then current
                else (read_counters answers d replicas (0, 0)).1)
              + 1))
next_version-some answers read_quorum replicas d addr current next e =
    (unfold next_version in ground arith, unfold next_version in ground arith)

module _ (answers : Text → Bool) (c : Cluster) where
  counters_grow : (rs : List Text) (g : ℕ × ℕ) → g.1 ≤ (read_counters answers c rs g).1
  unfolding read_counters
  counters_grow [] g = omega arith
  counters_grow (r ∷ rs) g = omega (
    arith,
    version_result-grows (answers r) (c r) g,
    counters_grow rs (version_result (answers r) (c r) g),
  )

  count-version_result :
      (b : Bool) (o : Option Value) (g : ℕ × ℕ)
      → (version_result b o g).0 ≡ (if b then suc g.0 else g.0)
  unfolding version_result
  count-version_result false o g = refl
  count-version_result true none g = omega arith
  count-version_result true (some v) g = omega arith

  pub count-read_counters :
      (rs : List Text) (g : ℕ × ℕ) → (read_counters answers c rs g).0 ≡ g.0 + count answers rs
  unfolding read_counters
  count-read_counters [] g = omega arith
  count-read_counters (r ∷ rs) g =
      let next = version_result (answers r) (c r) g in
      ground (arith, count-read_counters rs next, count-version_result (answers r) (c r) g)

  pub counters_see :
      (rs : List Text) (g : ℕ × ℕ) (r : Text)
      → contains rs r ≡ true
      → answers r ≡ true
      → counter_of (c r) ≤ (read_counters answers c rs g).1
  unfolding read_counters contains
  counters_see [] g r i a = absurd (ground arith)
  counters_see (q ∷ rs) g r i a =
      let next = version_result (answers q) (c q) g in
      elim (Bool-cases (text_eq q r)) [
        | inr e ↦ counters_see rs next r (ground arith) a
        | inl e ↦
            let same = (text_eq_iff q r).0 e in
            let seen : counter_of (c q) ≤ next.1 =
              subst (λ b. counter_of (c q) ≤ (version_result b (c q) g).1)
                (sym (ap answers same ∙ a)) (version_result-sees (c q) g) in
            omega (arith, seen, ap (λ k. counter_of (c k)) same, counters_grow rs next)
      ]

-- After replicateValue reached its write quorum, and however the replicas' values have grown
-- since, a version that nextVersion returns with R + W > N has a larger counter than the written
-- value's and than the node's own, if neither counter reaches 2^64.
pub next_version_after_write :
    (network : Text → Delivery) (answers : Text → Bool) (read_quorum write_quorum : ℕ)
    (replicas : List Text) (key addr : Text) (v : Value) (c d : Cluster) (h : HintStore)
    (current : ℕ) (next : Version)
    → length replicas < read_quorum + write_quorum
    → (replicate_value network write_quorum replicas key v c h).0 ≡ true
    → Grows (replicate_value network write_quorum replicas key v c h).1.cluster d
    → (read_counters answers d replicas (0, 0)).1 + 1 < u64_mod
    → current + 1 < u64_mod
    → next_version answers read_quorum replicas d addr current ≡ some next
    → (v.version.counter < next.counter) × (current < next.counter)
next_version_after_write network answers read_quorum write_quorum replicas key addr v c d h current
      next q done grows small own e =
    let start : Written = record { success = 0; cluster = c; hints = h } in
    let g = read_counters answers d replicas (0, 0) in
    let acks : write_quorum ≤ count (acked network) replicas = omega (
      arith,
      acks_enough network write_quorum replicas key v c h done,
      success-write_all network key v replicas start,
    ) in
    let (reached, counted) = next_version-some answers read_quorum replicas d addr current next e in
    let reads : read_quorum ≤ count answers replicas =
      omega (arith, count-read_counters answers d replicas (0, 0), reached) in
    let (r, (i, (w, a))) = count_overlap (acked network) answers replicas (omega arith) in
    let held : AtLeast v ((replicate_value network write_quorum replicas key v c h).1.cluster r) =
      unfold replicate_value in write_all-holds network key v replicas start r i w in
    let (x, (at, n)) = grows r v held in
    let seen = counters_see answers d replicas (0, 0) r i a in
    let low : v.version.counter ≤ g.1 =
      omega (arith, seen, ap counter_of at, not_newer_counter v.version x.version n) in
    (ground arith, ground arith)
