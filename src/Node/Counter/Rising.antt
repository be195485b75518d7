-- ===== src/Node/Counter/Rising.antt =====
-- version.go: the versions that concurrent calls of nextVersion return.
use minidist.Base.{
  ℕ, ◌+◌, ◌^◌, ◌≤◌, ◌<◌, ◌≡◌, inl, inr, List, [], ◌∷◌, arith, ltb, ◌==◌, length, if◌then◌else◌,
  Bool-cases, All,
}
use minidist.Base.Words.{u64}
use minidist.Node.Counter.{
  Call, ended, counted, loaded, Calls, Move, count, load, compare_and_swap, set_call, load_version,
  swap_version, move, run,
}

-- Newest first, each counter is larger than what its call has read and than all that follow it; all are
-- below a bound.
abbrev pub Below : ℕ → List (ℕ × ℕ) → Type 0
Below bound [] = Unit {0}
Below bound ((max_counter, counter) ∷ rest) =
    (max_counter < counter) × (counter < bound) × Below counter rest

-- What a call has read is bounded.
abbrev pub ReadBelow : ℕ → Call → Type 0
ReadBelow bound ended = Unit {0}
ReadBelow bound (counted m) = m ≤ bound
ReadBelow bound (loaded m current) = m ≤ bound

abbrev pub CountsBelow : ℕ → Move → Type 0
CountsBelow bound (count t m) = m ≤ bound
CountsBelow bound (load t) = Unit {0}
CountsBelow bound (compare_and_swap t) = Unit {0}

-- `steps` moves after the start.
record Good (bound steps : ℕ) (s : Calls) : Type 0 where
  pub small : s.version ≤ bound + steps
  pub calls : (t : ℕ) → ReadBelow bound (s.call t)
  pub below : Below (s.version + 1) s.returned

weaken : (v w : ℕ) (l : List (ℕ × ℕ)) → v ≤ w → Below v l → Below w l
weaken v w [] h b = b
weaken v w ((m, c) ∷ rest) h (x, y, z) = (x, omega arith, z)

ReadBelow-set_call :
    (bound t : ℕ) (c : Call) (calls : ℕ → Call)
    → ReadBelow bound c
    → ((i : ℕ) → ReadBelow bound (calls i))
    → (i : ℕ) → ReadBelow bound (set_call t c calls i)
ReadBelow-set_call bound t c calls h g i = elim (Bool-cases (t == i)) [
  | inl e ↦ rw e h
  | inr e ↦ rw e (g i)
]

module _ (bound steps : ℕ) (s : Calls) (g : Good bound steps s) where
  set-Good :
      (t : ℕ) (c : Call)
      → ReadBelow bound c
      → Good bound (steps + 1) (record s { call = set_call t c s.call })
  set-Good t c h = record {
    small = omega (arith, g.small);
    calls = ReadBelow-set_call bound t c s.call h g.calls;
    below = g.below;
  }

  same-Good : Good bound (steps + 1) s
  same-Good = record { small = omega (arith, g.small); calls = g.calls; below = g.below }

  load_version-Good :
      (t : ℕ) (c : Call) → ReadBelow bound c → Good bound (steps + 1) (load_version t c s)
  unfolding load_version
  load_version-Good t ended h = same-Good
  load_version-Good t (loaded m current) h = same-Good
  load_version-Good t (counted m) h = set-Good t (loaded m s.version) h

  swap_version-Good :
      (t : ℕ) (c : Call)
      → bound + steps + 1 < 2 ^ 64
      → ReadBelow bound c
      → Good bound (steps + 1) (swap_version t c s)
  unfolding swap_version
  swap_version-Good t ended room h = same-Good
  swap_version-Good t (counted m) room h = same-Good
  swap_version-Good t (loaded m current) room h = elim (Bool-cases (s.version == current)) [
    | inr e ↦ rw e (set-Good t (counted m) h)
    | inl e ↦
        let base : ℕ = if ltb m current then current else m in
        let same : s.version ≡ current = ground (arith, e) in
        let above : (s.version ≤ base) × ((m ≤ base) × (base ≤ bound + steps)) =
          ground (arith, same, g.small, h) in
        let next : u64 (base + 1) ≡ base + 1 = omega (arith, above.1.1, room) in
        rw (e, next)
          (record {
            small = omega (arith, above.1.1);
            calls = ReadBelow-set_call bound t ended s.call tt g.calls;
            below = (
              omega (arith, above.1.0),
              omega arith,
              weaken (s.version + 1) (base + 1) s.returned (omega (arith, above.0)) g.below,
            );
          })
  ]

  move-Good :
      (m : Move)
      → bound + steps + 1 < 2 ^ 64
      → CountsBelow bound m
      → Good bound (steps + 1) (move m s)
  unfolding move
  move-Good (count t n) room h = set-Good t (counted n) h
  move-Good (load t) room h = load_version-Good t (s.call t) (g.calls t)
  move-Good (compare_and_swap t) room h = swap_version-Good t (s.call t) room (g.calls t)

run-Good :
    (bound : ℕ) (moves : List Move) (steps : ℕ) (s : Calls)
    → bound + steps + length moves < 2 ^ 64
    → All (CountsBelow bound) moves
    → Good bound steps s
    → Good bound (steps + length moves) (run moves s)
unfolding run
run-Good bound [] steps s room h g = record {
  small = omega (arith, g.small);
  calls = g.calls;
  below = g.below;
}
run-Good bound (m ∷ rest) steps s room (h, hs) g =
    let r =
      run-Good bound rest (steps + 1) (move m s) (omega arith) hs
        (move-Good bound steps s g m (omega arith) h) in
    record { small = omega (arith, r.small); calls = r.calls; below = r.below }

-- Whatever number of calls of nextVersion runs at once on a node, in whatever order their loads
-- and compare-and-swaps come, each counter that is returned is larger than what its call has read
-- from its quorum and than every counter returned before, and at most the node's own, if no
-- counter that is read or that the node starts with comes nearer to 2^64 than there are steps.
pub run-Below :
    (bound version : ℕ) (moves : List Move)
    → version ≤ bound
    → All (CountsBelow bound) moves
    → bound + length moves < 2 ^ 64
    → let s = run moves (record { version = version; call = λ t. ended; returned = [] }) in
      Below (s.version + 1) s.returned
run-Below bound version moves h counts room =
    (run-Good bound moves 0 (record { version = version; call = λ t. ended; returned = [] })
      (omega arith) counts (record { small = omega arith; calls = λ t. tt; below = tt })).below
