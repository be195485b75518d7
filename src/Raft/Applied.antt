-- ===== src/Raft/Applied.antt =====
-- raft.go: what the state machine receives on `applyCh`, whatever runs between the applier's steps.
use minidist.Base.{
  ℕ, zero, suc, ◌+◌, ◌≤◌, ◌<◌, ◌≡◌, refl, inl, inr, Option, none, some, List, [], ◌∷◌, ◌++◌, arith,
  length, get_elem?, get_elem?-in_range, Option-cases, Bool-cases, leb, false,
}
use minidist.Base.Text.{Text}
use minidist.Raft.{Raft, LogEntry, ApplyMsg, new}
use minidist.Raft.Log.{IsValid, new-IsValid}
use minidist.Raft.Consistent.{IsConsistent, Matches, Goes, Pending-le, run-Goes}
use minidist.Raft.System.{
  System, idle, Op, take, send, finish, init, take_next, apply_committed, step, run,
}

init-IsConsistent : (id : Text) (peers : List Text) → IsConsistent (init id peers)
init-IsConsistent id peers = record {
  valid = unfold init in new-IsValid id peers;
  pending = unfold init new in refl;
  in_order = λ i h. unfold init in absurd (unfold init in omega arith);
}

Goes-some :
    (o : Option System)
    → Goes o
    → (t : System) × (o ≡ some t)
      × Matches t.sent t.raft.log
      × (length t.sent ≤ t.raft.commit_index)
      × IsValid t.raft
Goes-some none g = absurd g
Goes-some (some t) g =
    (t, refl, g.in_order, Pending-le t.applier t.raft (length t.sent) g.valid g.pending, g.valid)

-- From a new node, under every schedule of operations interleaved with the applier's steps,
-- nothing panics, the messages sent are those of log entries 1, 2, ... in order, only committed
-- entries are sent, and lastApplied <= commitIndex <= last index.
pub applied_in_order :
    (id : Text) (peers : List Text) (ops : List Op)
    → (t : System) × (run (init id peers) ops ≡ some t)
      × Matches t.sent t.raft.log
      × (length t.sent ≤ t.raft.commit_index)
      × IsValid t.raft
applied_in_order id peers ops =
    Goes-some (run (init id peers) ops) (run-Goes (init id peers) ops (init-IsConsistent id peers))

-- `applyCommitted` run alone, from outside its loop.

abbrev pub at_rest : Raft → List ApplyMsg → System
at_rest r sent = record { raft = r; applier = idle; sent = sent }

abbrev next_msg : Raft → LogEntry → ApplyMsg
next_msg r entry = record { index = r.last_applied + 1; term = entry.term; command = entry.command }

one_round :
    (r : Raft) (sent : List ApplyMsg) (entry : LogEntry)
    → leb r.commit_index r.last_applied ≡ false
    → get_elem? r.log (r.last_applied + 1) ≡ some entry
    → run (at_rest r sent) (take ∷ send ∷ finish ∷ [])
      ≡ some
          (at_rest (record r { last_applied = r.last_applied + 1 }) (sent ++ next_msg r entry ∷ []))
unfolding run step take_next
one_round r sent entry behind e = rw (behind, run, step, take_next) (rw e)

abbrev pub Drained : Raft → Option System → Type 0
Drained r o =
    (sent : List ApplyMsg) × (o ≡ some (at_rest (record r { last_applied = r.commit_index }) sent))
    × (length sent ≡ r.commit_index)
    × Matches sent r.log

-- With fuel above the number of waiting entries applyCommitted ends with lastApplied at the commit
-- index, nothing else of the node changed and every committed entry sent in order.
pub apply_committed_drains :
    (fuel : ℕ) (r : Raft) (sent : List ApplyMsg)
    → IsConsistent (at_rest r sent)
    → r.commit_index < r.last_applied + fuel
    → Drained r (apply_committed fuel (at_rest r sent))
unfolding apply_committed
apply_committed_drains zero r sent c h = absurd (omega (arith, c.valid))
apply_committed_drains (suc fuel) r sent c h =
    elim (Bool-cases (leb r.commit_index r.last_applied)) [
      | inl e ↦ rw e (sent, ground (arith, c.valid), ground (arith, c.valid), c.in_order)
      | inr behind ↦ elim (Option-cases (get_elem? r.log (r.last_applied + 1))) [
        | inl e ↦ absurd (get_elem?-in_range r.log (r.last_applied + 1) (ground (arith, c.valid)) e)
        | inr (entry, e) ↦
            let round = one_round r sent entry behind e in
            rw (behind, round)
              (apply_committed_drains fuel (record r { last_applied = r.last_applied + 1 })
                (sent ++ next_msg r entry ∷ [])
                (rw round at (run-Goes (at_rest r sent) (take ∷ send ∷ finish ∷ []) c))
                (omega arith))
      ]
    ]
