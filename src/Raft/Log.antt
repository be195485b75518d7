-- ===== src/Raft/Log.antt =====
-- raft.go: what holds of a node's log and of its two cursors between two operations.
use minidist.Base.{
  ℕ, suc, ◌-◌, ◌≤◌, ◌<◌, ◌≡◌, ◌≢◌, get_elem?-in_range, none, some, List, [], ◌∷◌, arith, length,
  get_elem?, length-append, length-take, get_elem?-take, get_elem?-append_left,
}
use minidist.Base.Text.{Text}
use minidist.Raft.{
  Raft, LogEntry, RequestVoteRequest, RequestVoteResponse, new, append_entry, truncate_from,
  start_election, advance_commit, request_vote,
}

-- The dummy entry is there, and `last_applied ≤ commit_index ≤ last index`.
pub record IsValid (r : Raft) : Type 0 where
  pub committed : r.commit_index < length r.log
  pub applied : r.last_applied ≤ r.commit_index

pub new-IsValid : (id : Text) (peers : List Text) → IsValid (new id peers)
unfolding new
new-IsValid id peers = omega arith

pub append_entry-IsValid :
    (r : Raft) (term : ℕ) (command : List ℕ) → IsValid r → IsValid (append_entry r term command).1
unfolding append_entry
append_entry-IsValid r term command v =
    omega (arith, length-append r.log (record { term = term; command = command } ∷ []))

pub truncate_from-IsValid : (r : Raft) (index : ℕ) → IsValid r → IsValid (truncate_from r index).1
unfolding truncate_from
truncate_from-IsValid r index v = ground (arith, length-take index r.log)

pub advance_commit-IsValid : (r : Raft) (index : ℕ) → IsValid r → IsValid (advance_commit r index).1
unfolding advance_commit
advance_commit-IsValid r index v = ground arith

-- The first `n` entries of two logs are the same.
abbrev pub SamePrefix : ℕ → List LogEntry → List LogEntry → Type 0
SamePrefix n a b = (i : ℕ) → i < n → get_elem? a i ≡ get_elem? b i

-- An append changes no entry that is there.
pub append_entry-prefix :
    (r : Raft) (term : ℕ) (command : List ℕ)
    → SamePrefix (length r.log) (append_entry r term command).1.log r.log
unfolding append_entry
append_entry-prefix r term command i h = get_elem?-append_left r.log _ i h

-- A truncation, allowed or refused, keeps every committed entry and the commit index.
pub truncate_from-prefix :
    (r : Raft) (index : ℕ)
    → SamePrefix (suc r.commit_index) (truncate_from r index).1.log r.log
      × ((truncate_from r index).1.commit_index ≡ r.commit_index)
unfolding truncate_from
truncate_from-prefix r index = (λ i h. ground (arith, get_elem?-take index r.log i), ground arith)

-- `truncate_from` succeeds exactly for an index behind the commit index and inside the log.
pub truncate_from-ok_iff :
    (r : Raft) (index : ℕ)
    → (((truncate_from r index).0 ≡ none) → (r.commit_index < index) × (index < length r.log))
      × ((r.commit_index < index) × (index < length r.log) → (truncate_from r index).0 ≡ none)
unfolding truncate_from
truncate_from-ok_iff r index = (λ h. ground arith, λ h. ground arith)

-- A non-panicking vote changes neither the log nor the cursors.
pub request_vote-log :
    (r : Raft) (req : RequestVoteRequest) (resp : RequestVoteResponse) (r' : Raft)
    → request_vote r req ≡ some (resp, r')
    → (r'.log ≡ r.log) × (r'.commit_index ≡ r.commit_index) × (r'.last_applied ≡ r.last_applied)
unfolding request_vote
request_vote-log r req resp r' h = ground arith

-- With the dummy entry in place no operation panics.
pub request_vote-ne-none :
    (r : Raft) (req : RequestVoteRequest) → IsValid r → request_vote r req ≢ none
unfolding request_vote
request_vote-ne-none r req v = ground (arith, get_elem?-in_range r.log (length r.log - 1))

pub start_election-ne-none : (r : Raft) → IsValid r → start_election r ≢ none
unfolding start_election
start_election-ne-none r v = ground (arith, get_elem?-in_range r.log (length r.log - 1))

pub request_vote-IsValid :
    (r : Raft) (req : RequestVoteRequest) (resp : RequestVoteResponse) (r' : Raft)
    → request_vote r req ≡ some (resp, r')
    → IsValid r
    → IsValid r'
request_vote-IsValid r req resp r' h v = ground (arith, request_vote-log r req resp r' h)

pub start_election-IsValid :
    (r : Raft) (req : RequestVoteRequest) (r' : Raft)
    → start_election r ≡ some (req, r')
    → IsValid r
    → IsValid r'
unfolding start_election
start_election-IsValid r req r' h v = ground arith

pub start_election-log :
    (r : Raft) (req : RequestVoteRequest) (r' : Raft)
    → start_election r ≡ some (req, r')
    → (r'.log ≡ r.log) × (r'.commit_index ≡ r.commit_index) × (r'.last_applied ≡ r.last_applied)
unfolding start_election
start_election-log r req r' h = ground arith
