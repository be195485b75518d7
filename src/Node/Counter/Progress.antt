-- ===== src/Node/Counter/Progress.antt =====
-- version.go: a round of the loop of nextVersion, from the load to the compare-and-swap, among other
-- calls, and a round without other calls.
use minidist.Base.{
  ℕ, ◌+◌, ◌≤◌, ◌<◌, ◌≡◌, ◌⊎◌, refl, sym, ap, ◌∙◌, inl, inr, Bool, true, false, List, [], ◌∷◌, ◌++◌,
  arith, ltb, ◌==◌, length, if◌then◌else◌, Bool-cases, All, some,
}
use minidist.Base.Words.{u64}
use minidist.Base.Text.{Text}
use minidist.Store.Version.{Version}
use minidist.Node.Quorum.{Cluster, read_counters, next_version}
use minidist.Node.Quorum.Versions.{next_version-some}
use minidist.Node.Counter.{
  Call, ended, counted, loaded, Calls, Move, count, load, compare_and_swap, set_call, load_version,
  swap_version, move, run,
}

abbrev pub IsOther : ℕ → Move → Type 0
IsOther t (count i m) = (i == t) ≡ false
IsOther t (load i) = (i == t) ≡ false
IsOther t (compare_and_swap i) = (i == t) ≡ false

-- A call is where it was, and the counter is what it was unless some call has returned.
record Meanwhile (t : ℕ) (s s' : Calls) : Type 0 where
  pub call : s'.call t ≡ s.call t
  pub returned : length s.returned ≤ length s'.returned
  pub version : (s'.version ≡ s.version) ⊎ (length s.returned < length s'.returned)

module _ (t i : ℕ) (s : Calls) (other : (i == t) ≡ false) where
  set-Meanwhile : (c : Call) → Meanwhile t s (record s { call = set_call i c s.call })
  set-Meanwhile c = record { call = rw other refl; returned = omega arith; version = inl refl }

  same-Meanwhile : Meanwhile t s s
  same-Meanwhile = record { call = refl; returned = omega arith; version = inl refl }

  load_version-Meanwhile : (c : Call) → Meanwhile t s (load_version i c s)
  unfolding load_version
  load_version-Meanwhile ended = same-Meanwhile
  load_version-Meanwhile (loaded m current) = same-Meanwhile
  load_version-Meanwhile (counted m) = set-Meanwhile (loaded m s.version)

  swap_version-Meanwhile : (c : Call) → Meanwhile t s (swap_version i c s)
  unfolding swap_version
  swap_version-Meanwhile ended = same-Meanwhile
  swap_version-Meanwhile (counted m) = same-Meanwhile
  swap_version-Meanwhile (loaded m current) = elim (Bool-cases (s.version == current)) [
    | inr e ↦ rw e (set-Meanwhile (counted m))
    | inl e ↦
        rw e (record { call = rw other refl; returned = omega arith; version = inr (omega arith) })
  ]

move-Meanwhile : (t : ℕ) (m : Move) (s : Calls) → IsOther t m → Meanwhile t s (move m s)
unfolding move
move-Meanwhile t (count i n) s h = set-Meanwhile t i s h (counted n)
move-Meanwhile t (load i) s h = load_version-Meanwhile t i s h (s.call i)
move-Meanwhile t (compare_and_swap i) s h = swap_version-Meanwhile t i s h (s.call i)

run-Meanwhile :
    (t : ℕ) (moves : List Move) (s : Calls) → All (IsOther t) moves → Meanwhile t s (run moves s)
unfolding run
run-Meanwhile t [] s h = record { call = refl; returned = omega arith; version = inl refl }
run-Meanwhile t (m ∷ rest) s (h, hs) =
    let first = move-Meanwhile t m s h in
    let later = run-Meanwhile t rest (move m s) hs in
    record {
      call = later.call ∙ first.call;
      returned = omega (arith, first.returned, later.returned);
      version = elim first.version [
        | inr l ↦ inr (omega (arith, l, later.returned))
        | inl e ↦ elim later.version [
          | inr l ↦ inr (omega (arith, first.returned, l))
          | inl e' ↦ inl (e' ∙ e)
        ]
      ];
    }

run-++ : (xs ys : List Move) (s : Calls) → run (xs ++ ys) s ≡ run ys (run xs s)
unfolding run
run-++ [] ys s = refl
run-++ (m ∷ xs) ys s = run-++ xs ys (move m s)

-- From the load of a call of nextVersion, in whatever way other calls run in between, to its
-- compare-and-swap, at least one call returns: the call itself, or another whose compare-and-swap
-- made it fail.
pub round_returns :
    (t m : ℕ) (others : List Move) (s : Calls)
    → s.call t ≡ counted m
    → All (IsOther t) others
    → length s.returned < length (run (load t ∷ others ++ compare_and_swap t ∷ []) s).returned
round_returns t m others s at h =
    let start : Calls = record s { call = set_call t (loaded m s.version) s.call } in
    let own : (t == t) ≡ true = ground arith in
    let first : move (load t) s ≡ start = unfold move load_version in rw at refl in
    let between = run others start in
    let w = run-Meanwhile t others start h in
    let mine : start.call t ≡ loaded m s.version = rw own refl in
    let here : between.call t ≡ loaded m s.version = w.call ∙ mine in
    let from_start : run (load t ∷ others ++ compare_and_swap t ∷ []) s
        ≡ run (others ++ compare_and_swap t ∷ []) start =
      unfold run in ap (λ c. run (others ++ compare_and_swap t ∷ []) c) first in
    let split : run (load t ∷ others ++ compare_and_swap t ∷ []) s
        ≡ run (compare_and_swap t ∷ []) between =
      from_start ∙ run-++ others (compare_and_swap t ∷ []) start in
    let swap : run (compare_and_swap t ∷ []) between ≡ swap_version t (loaded m s.version) between =
      unfold run move in ap (λ c. swap_version t c between) here in
    let last : run (load t ∷ others ++ compare_and_swap t ∷ []) s
        ≡ swap_version t (loaded m s.version) between =
      split ∙ swap in
    rw last (elim w.version [
      | inl e ↦
          let equal : (between.version == s.version) ≡ true = ground (arith, e) in
          unfold swap_version in rw equal (omega (arith, w.returned))
      | inr l ↦ elim (Bool-cases (between.version == s.version)) [
        | inl e ↦ unfold swap_version in rw e (omega (arith, w.returned))
        | inr e ↦ unfold swap_version in rw e l
      ]
    ])

-- A call without other calls in between.
run_alone :
    (t m : ℕ) (s : Calls)
    → let next = u64 ((if ltb m s.version then s.version else m) + 1) in
      let s' = run (count t m ∷ load t ∷ compare_and_swap t ∷ []) s in
      (s'.returned ≡ (m, next) ∷ s.returned) × (s'.version ≡ next)
run_alone t m s =
    let own : (t == t) ≡ true = ground arith in
    let equal : (s.version == s.version) ≡ true = ground arith in
    unfold run move load_version swap_version in
    rw (own, load_version, own, swap_version, equal) (refl, refl)

-- Without other calls in between, a call returns what `next_version` gives.
run-next_version :
    (answers : Text → Bool) (read_quorum t : ℕ) (replicas : List Text) (c : Cluster) (addr : Text)
    (v : Version) (s : Calls)
    → next_version answers read_quorum replicas c addr s.version ≡ some v
    → let g = read_counters answers c replicas (0, 0) in
      let s' = run (count t g.1 ∷ load t ∷ compare_and_swap t ∷ []) s in
      (s'.returned ≡ (g.1, v.counter) ∷ s.returned) × (s'.version ≡ v.counter)
run-next_version answers read_quorum t replicas c addr v s h =
    let (reached, next) = next_version-some answers read_quorum replicas c addr s.version v h in
    let alone = run_alone t (read_counters answers c replicas (0, 0)).1 s in
    (
      alone.0 ∙ ap (λ n. ((read_counters answers c replicas (0, 0)).1, n) ∷ s.returned) (sym next),
      alone.1 ∙ sym next,
    )
