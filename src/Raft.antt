-- ===== src/Raft.antt =====
-- internal/raft: the state of one Raft node and its operations (raft.go, vote.go, election.go).
-- A method that mutates `*Raft` returns the new record. The mutex makes each of them one step.
-- `none` is a panic: an index of the log out of range.
pub mod Ballot
pub mod Log
pub mod System
pub mod Safety
pub mod Consistent
pub mod Applied
mod Witnesses
use minidist.Base.{
  ℕ, suc, ◌+◌, ◌-◌, Bool, true, false, not, ◌&&◌, Option, none, some, List, [], ◌∷◌, ◌++◌, ltb, leb,
  ◌==◌, if◌then◌else◌, length, get_elem?, take,
}
use minidist.Base.Text.{Text, text_eq}
use minidist.Base.Words.{u64}

pub data Role : Type 0 where
  follower candidate leader : Role

pub record LogEntry : Type 0 where
  pub term : ℕ  -- uint64
  pub command : List ℕ

pub record ApplyMsg : Type 0 where
  pub index : ℕ  -- uint64
  pub term : ℕ  -- uint64
  pub command : List ℕ

-- The channel `applyCh` is the list of the messages sent, in `System`.
pub record Raft : Type 0 where
  pub id : Text
  pub peers : List Text
  pub role : Role
  pub current_term : ℕ  -- uint64
  pub voted_for : Text
  pub log : List LogEntry
  pub commit_index : ℕ  -- uint64
  pub last_applied : ℕ  -- uint64

abbrev pub dummy : LogEntry
dummy = record { term = 0; command = [] }

unfoldable pub new : Text → List Text → Raft
new id peers = record {
  id = id;
  peers = peers;
  role = follower;
  current_term = 0;
  voted_for = [];
  log = dummy ∷ [];
  commit_index = 0;
  last_applied = 0;
}

-- `uint64(len(r.log) - 1)`; the log is never empty (`Raft.Log`), so the subtraction is exact.
abbrev pub last_log_index : Raft → ℕ
last_log_index r = length r.log - 1

unfoldable pub become_follower_locked : Raft → ℕ → Raft
become_follower_locked r term =
    if ltb term r.current_term
    then r
    else if ltb r.current_term term
    then record r { current_term = term; voted_for = []; role = follower }
    else record r { role = follower }

unfoldable pub append_entry : Raft → ℕ → List ℕ → ℕ × Raft
append_entry r term command =
    let log : List LogEntry = r.log ++ record { term = term; command = command } ∷ [] in
    (length log - 1, record r { log = log })

unfoldable pub term_at : Raft → ℕ → ℕ × Bool
term_at r index = elim (get_elem? r.log index) [
  | none ↦ (0, false)
  | some entry ↦ (entry.term, true)
]

pub data Err : Type 0 where
  truncate_dummy : Err
  truncate_out_of_range : ℕ → Err
  truncate_committed : ℕ → ℕ → Err
  commit_out_of_range : ℕ → ℕ → Err

-- `error` is `Option Err`, with `none` for nil.
unfoldable pub truncate_from : Raft → ℕ → Option Err × Raft
truncate_from r index =
    if index == 0
    then (some truncate_dummy, r)
    else if leb (length r.log) index
    then (some (truncate_out_of_range index), r)
    else if leb index r.commit_index
    then (some (truncate_committed index r.commit_index), r)
    else (none, record r { log = take index r.log })

unfoldable pub advance_commit : Raft → ℕ → Option Err × Raft
advance_commit r index =
    if ltb (last_log_index r) index
    then (some (commit_out_of_range index (last_log_index r)), r)
    else if leb index r.commit_index
    then (none, r)
    else (none, record r { commit_index = index })

pub record RequestVoteRequest : Type 0 where
  pub term : ℕ  -- uint64
  pub candidate_id : Text
  pub last_log_index : ℕ  -- uint64
  pub last_log_term : ℕ  -- uint64

pub record RequestVoteResponse : Type 0 where
  pub term : ℕ  -- uint64
  pub vote_granted : Bool

unfoldable pub candidate_log_up_to_date : ℕ → ℕ → ℕ → ℕ → Bool
candidate_log_up_to_date candidate_index candidate_term local_index local_term =
    if not (candidate_term == local_term)
    then ltb local_term candidate_term
    else leb local_index candidate_index

abbrev reply : Raft → Bool → Option (RequestVoteResponse × Raft)
reply r granted = some (record { term = r.current_term; vote_granted = granted }, r)

-- The rest of `RequestVote` once the terms agree: the check of the vote, then that of the log.
unfoldable pub cast_vote : Raft → RequestVoteRequest → Option (RequestVoteResponse × Raft)
unfolding candidate_log_up_to_date
cast_vote r req =
    if not (text_eq r.voted_for []) && not (text_eq r.voted_for req.candidate_id)
    then reply r false
    else elim (get_elem? r.log (last_log_index r)) [
      | none ↦ none
      | some last ↦
          if not (
            candidate_log_up_to_date req.last_log_index req.last_log_term (last_log_index r)
              last.term)
          then reply r false
          else reply (record r { voted_for = req.candidate_id }) true
    ]

unfoldable pub request_vote : Raft → RequestVoteRequest → Option (RequestVoteResponse × Raft)
unfolding cast_vote become_follower_locked
request_vote r req =
    if ltb req.term r.current_term
    then reply r false
    else cast_vote (if ltb r.current_term req.term then become_follower_locked r req.term else r)
        req

-- election.go

unfoldable pub become_candidate_locked : Raft → Raft
become_candidate_locked r = record r {
  current_term = u64 (r.current_term + 1);
  role = candidate;
  voted_for = r.id;
}

unfoldable pub request_vote_request_locked : Raft → Option RequestVoteRequest
request_vote_request_locked r = elim (get_elem? r.log (last_log_index r)) [
  | none ↦ none
  | some last ↦ some (record {
    term = r.current_term;
    candidate_id = r.id;
    last_log_index = last_log_index r;
    last_log_term = last.term;
  })
]

unfoldable pub start_election : Raft → Option (RequestVoteRequest × Raft)
unfolding become_candidate_locked request_vote_request_locked
start_election r =
    let r' = become_candidate_locked r in
    elim (request_vote_request_locked r') [ none ↦ none | some request ↦ some (request, r') ]
