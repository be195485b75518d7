-- ===== src/Raft/Witnesses.antt =====
-- Concrete nodes, on which the theorems of internal/raft are applied, and tests.
use minidist.Base.{length, ◌≤◌, ◌≡◌, ◌↔◌, refl, true, some, List, [], ◌∷◌, arith}
use minidist.Base.Text.{Text, codes, text_eq}
use minidist.Raft.{
  Raft, dummy, follower, RequestVoteRequest, RequestVoteResponse, truncate_from, advance_commit,
  request_vote, truncate_committed,
}
use minidist.Raft.Ballot.{Grants, request_vote_iff, empty_candidate_votes_again}
use minidist.Raft.Log.{IsValid}
use minidist.Raft.System.{
  commit, System, Op, vote, elect, append, truncate, commit, take, send, finish, init, step, run,
  idle, apply_committed,
}
use minidist.Raft.Consistent.{Matches}
use minidist.Raft.Safety.{vote_once}
use minidist.Raft.Applied.{applied_in_order, apply_committed_drains, Drained}

abbrev n1 : Text
n1 = codes "n1"

abbrev n2 : Text
n2 = codes "n2"

abbrev n3 : Text
n3 = codes "n3"

abbrev node : Raft
node = record {
  id = n1;
  peers = n2 ∷ n3 ∷ [];
  role = follower;
  current_term = 2;
  voted_for = [];
  log = dummy ∷ record { term = 1; command = 7 ∷ [] } ∷ record { term = 2; command = [] } ∷ [];
  commit_index = 1;
  last_applied = 0;
}

abbrev ask : RequestVoteRequest
ask = record { term = 3; candidate_id = n2; last_log_index = 2; last_log_term = 2 }

abbrev voted : Raft
voted = record node { current_term = 3; voted_for = n2 }

abbrev granted : RequestVoteResponse
granted = record { term = 3; vote_granted = true }

request_vote_test : request_vote node ask ≡ some (granted, voted)
unfolding request_vote text_eq
request_vote_test = refl

request_vote_iff_example :
    (granted.vote_granted ≡ true) ↔ Grants node ask (record { term = 2; command = [] })
request_vote_iff_example =
    request_vote_iff node ask (record { term = 2; command = [] }) granted voted refl
      request_vote_test

abbrev anonymous : RequestVoteRequest
anonymous = record ask { candidate_id = [] }

anonymous_test : request_vote node anonymous ≡ some (granted, record voted { voted_for = [] })
unfolding request_vote text_eq
anonymous_test = refl

empty_candidate_votes_again_example :
    request_vote (record voted { voted_for = [] }) (record anonymous { candidate_id = n3 })
    ≡ some (granted, record voted { voted_for = n3 })
empty_candidate_votes_again_example =
    empty_candidate_votes_again node anonymous granted (record voted { voted_for = [] }) n3
      anonymous_test refl refl

abbrev at : Raft → System
at r = record { raft = r; applier = idle; sent = [] }

-- The vote for n2, a delayed answer to n2 again after an append, and the same candidate.
vote_once_example : n2 ≡ n2
unfolding step run request_vote text_eq
vote_once_example =
    vote_once (at node) (vote ask) (at voted) (commit 2 ∷ []) (at (advance_commit voted 2).1)
      (vote ask) 3 n2 n2 refl refl (tt, tt) tt refl (λ e. cc) refl

truncate_refused_test : (truncate_from node 1).0 ≡ some (truncate_committed 1 1)
unfolding truncate_from
truncate_refused_test = refl

abbrev schedule : List Op
schedule =
    append 1 (7 ∷ [])
    ∷ commit 1
    ∷ take
    ∷ append 1 (8 ∷ [])
    ∷ send
    ∷ truncate 2
    ∷ finish
    ∷ elect
    ∷ []

applied_in_order_example :
    (t : System) × (run (init n1 (n2 ∷ [])) schedule ≡ some t)
    × Matches t.sent t.raft.log
    × (length t.sent ≤ t.raft.commit_index)
    × IsValid t.raft
applied_in_order_example = applied_in_order n1 (n2 ∷ []) schedule

apply_committed_drains_example : Drained node (apply_committed 5 (at node))
apply_committed_drains_example =
    apply_committed_drains 5 node []
      (record { valid = omega arith; pending = refl; in_order = λ i h. absurd (omega arith) })
      (omega arith)
