-- ===== src/Raft/System.antt =====
-- One Raft node as a transition system: every exported or locked operation, interleaved with the
-- three moments of `applyCommitted` between which the mutex is free (raft.go, lines 193-225).
use minidist.Base.{
  ℕ, zero, suc, ◌+◌, Option, none, some, List, [], ◌∷◌, ◌++◌, leb, if◌then◌else◌, get_elem?,
}
use minidist.Base.Text.{Text}
use minidist.Raft.{
  Raft, ApplyMsg, RequestVoteRequest, new, append_entry, truncate_from, advance_commit,
  request_vote, start_election,
}

-- Where the one applier stands: outside the loop's body, about to send a message, or with the
-- message sent and `lastApplied` not yet set.
pub data Applier : Type 0 where
  idle : Applier
  holding : ApplyMsg → Applier
  delivered : ℕ → Applier

pub record System : Type 0 where
  pub raft : Raft
  pub applier : Applier
  pub sent : List ApplyMsg  -- what `applyCh` has carried, the oldest first

pub data Op : Type 0 where
  vote : RequestVoteRequest → Op
  elect : Op
  append : ℕ → List ℕ → Op
  truncate : ℕ → Op
  commit : ℕ → Op
  take send finish : Op

unfoldable pub init : Text → List Text → System
unfolding new
init id peers = record { raft = new id peers; applier = idle; sent = [] }

-- The first critical section: the guard, and the message for the next index. The guard keeps
-- `lastApplied + 1` at most `commitIndex`, so it does not wrap.
unfoldable pub take_next : System → Option System
take_next s =
    if leb s.raft.commit_index s.raft.last_applied
    then some s
    else elim (get_elem? s.raft.log (s.raft.last_applied + 1)) [
      | none ↦ none
      | some entry ↦ some (record s {
        applier = holding (record {
          index = s.raft.last_applied + 1;
          term = entry.term;
          command = entry.command;
        });
      })
    ]

-- `idle` takes, `holding` sends and `delivered` sets `lastApplied`; any other turn is not the
-- applier's, and changes nothing.
unfoldable pub applier_step : Applier → Op → System → Option System
unfolding take_next
applier_step idle take s = take_next s
applier_step (holding msg) send s =
    some (record s { applier = delivered msg.index; sent = s.sent ++ msg ∷ [] })
applier_step (delivered index) finish s =
    some (record s { applier = idle; raft = record (s.raft) { last_applied = index } })
applier_step _ _ s = some s

abbrev pub with_raft : {A : Type 0} → System → Option (A × Raft) → Option System
with_raft s none = none
with_raft s (some (a, r)) = some (record s { raft = r })

unfoldable pub step : System → Op → Option System
unfolding request_vote start_election append_entry truncate_from advance_commit applier_step
step s (vote req) = with_raft s (request_vote s.raft req)
step s elect = with_raft s (start_election s.raft)
step s (append term command) = some (record s { raft = (append_entry s.raft term command).1 })
step s (truncate index) = some (record s { raft = (truncate_from s.raft index).1 })
step s (commit index) = some (record s { raft = (advance_commit s.raft index).1 })
step s take = applier_step s.applier take s
step s send = applier_step s.applier send s
step s finish = applier_step s.applier finish s

-- A schedule of operations; `none` if one of them panics.
unfoldable pub run : System → List Op → Option System
run s [] = some s
run s (op ∷ ops) = elim (step s op) [ none ↦ none | some t ↦ run t ops ]

-- The loop of `applyCommitted` run alone on fuel; `none` is a panic or the end of the fuel.
unfoldable pub apply_committed : ℕ → System → Option System
apply_committed zero s = none
apply_committed (suc fuel) s =
    if leb s.raft.commit_index s.raft.last_applied
    then some s
    else elim (run s (take ∷ send ∷ finish ∷ [])) [ none ↦ none | some t ↦ apply_committed fuel t ]
