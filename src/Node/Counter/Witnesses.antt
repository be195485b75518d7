-- ===== src/Node/Counter/Witnesses.antt =====
-- version.go: two calls of nextVersion at once.
use minidist.Base.{◌+◌, ◌<◌, refl, List, [], ◌∷◌, ◌++◌, arith, length}
use minidist.Node.Counter.{ended, counted, Calls, Move, count, load, compare_and_swap, run}
use minidist.Node.Counter.Rising.{Below, run-Below}
use minidist.Node.Counter.Progress.{round_returns}

-- Both calls load the same counter; the second to swap has to go round again.
abbrev race : List Move
race =
    count 0 4
    ∷ count 1 6
    ∷ load 0
    ∷ load 1
    ∷ compare_and_swap 1
    ∷ compare_and_swap 0
    ∷ load 0
    ∷ compare_and_swap 0
    ∷ []

abbrev raced : Calls
raced = run race (record { version = 5; call = λ t. ended; returned = [] })

run-Below_example : Below (raced.version + 1) raced.returned
run-Below_example =
    run-Below 6 5 race (omega arith)
      (omega arith, (omega arith, (tt, (tt, (tt, (tt, (tt, (tt, tt)))))))) (omega arith)

abbrev waiting : Calls
waiting = record { version = 5; call = λ t. counted 4; returned = [] }

round_returns_example :
    length waiting.returned
    < length
        (run
          (load 0 ∷ (load 1 ∷ compare_and_swap 1 ∷ []) ++ compare_and_swap 0 ∷ [])
          waiting).returned
round_returns_example =
    round_returns 0 4 (load 1 ∷ compare_and_swap 1 ∷ []) waiting refl (refl, (refl, tt))
