-- ===== src/Node/Counter.antt =====
-- version.go: the loop at the end of nextVersion, run by any number of calls at once. The loads and the
-- compare-and-swaps of the node's counter are the steps; each call has a number.
pub mod Rising
pub mod Progress
mod Witnesses
use minidist.Base.{ℕ, ◌+◌, List, [], ◌∷◌, ltb, ◌==◌, if◌then◌else◌}
use minidist.Base.Words.{u64}

-- A call is not running, or it has the largest counter that it has read, or that and the node's counter.
pub data Call : Type 0 where
  ended : Call
  counted : ℕ → Call
  loaded : ℕ → ℕ → Call

-- The node's counter, the calls, and what they have returned, newest first, each with the largest counter
-- that its call has read.
pub record Calls : Type 0 where
  pub version : ℕ  -- uint64
  pub call : ℕ → Call
  pub returned : List (ℕ × ℕ)

pub data Move : Type 0 where
  -- A call has read its quorum.
  count : ℕ → ℕ → Move
  load : ℕ → Move
  compare_and_swap : ℕ → Move

abbrev pub set_call : ℕ → Call → (ℕ → Call) → ℕ → Call
set_call t c calls = λ i. if t == i then c else calls i

unfoldable pub load_version : ℕ → Call → Calls → Calls
load_version t ended s = s
load_version t (loaded max_counter current) s = s
load_version t (counted max_counter) s = record s {
  call = set_call t (loaded max_counter s.version) s.call;
}

unfoldable pub swap_version : ℕ → Call → Calls → Calls
swap_version t ended s = s
swap_version t (counted max_counter) s = s
swap_version t (loaded max_counter current) s =
    let next = u64 ((if ltb max_counter current then current else max_counter) + 1) in
    if s.version == current
    then record {
      version = next;
      call = set_call t ended s.call;
      returned = (max_counter, next) ∷ s.returned;
    }
    else record s { call = set_call t (counted max_counter) s.call }

unfoldable pub move : Move → Calls → Calls
unfolding load_version swap_version
move (count t max_counter) s = record s { call = set_call t (counted max_counter) s.call }
move (load t) s = load_version t (s.call t) s
move (compare_and_swap t) s = swap_version t (s.call t) s

unfoldable pub run : List Move → Calls → Calls
unfolding move
run [] s = s
run (m ∷ rest) s = run rest (move m s)
