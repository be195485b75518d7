-- ===== src/Raft/Ballot.antt =====
-- vote.go: what an answer to RequestVote means for the voter.
use minidist.Base.{
  ℕ, ◌≤◌, ◌<◌, ◌≡◌, ◌↔◌, ◌⊎◌, inl, inr, refl, true, false, ◌||◌, some, [], arith, get_elem?,
  Bool-cases, ltb, ltb→lt, lt→ltb, sym, ◌∙◌,
}
use minidist.Base.Text.{Text, text_eq_iff}
use minidist.Raft.{
  Raft, follower, LogEntry, RequestVoteRequest, RequestVoteResponse, candidate_log_up_to_date,
  cast_vote, request_vote, last_log_index,
}

-- "At least as up to date" is reflexive.
pub up_to_date_refl : (i t : ℕ) → candidate_log_up_to_date i t i t ≡ true
unfolding candidate_log_up_to_date
up_to_date_refl i t = ground arith

pub up_to_date_trans :
    (i t j u k v : ℕ)
    → candidate_log_up_to_date i t j u ≡ true
    → candidate_log_up_to_date j u k v ≡ true
    → candidate_log_up_to_date i t k v ≡ true
unfolding candidate_log_up_to_date
up_to_date_trans i t j u k v h k' = ground arith

-- Logs are compared by term and then by index: the comparison is a total preorder.
pub up_to_date_total :
    (i t j u : ℕ) → (candidate_log_up_to_date i t j u || candidate_log_up_to_date j u i t) ≡ true
unfolding candidate_log_up_to_date
up_to_date_total i t j u = ground arith

module _ (r : Raft) (req : RequestVoteRequest) (resp : RequestVoteResponse) (r' : Raft)
    (answered : request_vote r req ≡ some (resp, r')) where
  -- What a granted vote guarantees.
  pub request_vote_granted :
      resp.vote_granted ≡ true
      → (resp.term ≡ req.term)
        × (r'.current_term ≡ req.term)
        × (r'.voted_for ≡ req.candidate_id)
        × ((r.current_term < req.term) ⊎ (r.voted_for ≡ []) ⊎ (r.voted_for ≡ req.candidate_id))
  unfolding request_vote
  request_vote_granted g =
      ground (arith, text_eq_iff r.voted_for [], text_eq_iff r.voted_for req.candidate_id)

  pub request_vote-term : (resp.term ≡ r'.current_term) × (r.current_term ≤ r'.current_term)
  unfolding request_vote
  request_vote-term = ground arith

-- When the voter should grant, said without its control flow: the request's term is not behind,
-- the vote of that term is free or the candidate's, and the candidate's last entry is of a later
-- term, or of the same term at an index that is not smaller.
abbrev pub Grants : Raft → RequestVoteRequest → LogEntry → Type 0
Grants r req last =
    (r.current_term ≤ req.term)
    × ((r.current_term < req.term) ⊎ (r.voted_for ≡ []) ⊎ (r.voted_for ≡ req.candidate_id))
    × ((last.term < req.last_log_term)
        ⊎ ((last.term ≡ req.last_log_term) × (last_log_index r ≤ req.last_log_index)))

-- The three ways on, by the terms.
request_vote_behind :
    (r : Raft) (req : RequestVoteRequest)
    → req.term < r.current_term
    → request_vote r req ≡ some (record { term = r.current_term; vote_granted = false }, r)
unfolding request_vote
request_vote_behind r req h = rw (lt→ltb _ _ h)

request_vote_same_term :
    (r : Raft) (req : RequestVoteRequest)
    → req.term ≡ r.current_term
    → request_vote r req ≡ cast_vote r req
request_vote_same_term r req h = unfold request_vote in ground arith

abbrev next_term : Raft → ℕ → Raft
next_term r t = record r { current_term = t; voted_for = []; role = follower }

request_vote_ahead :
    (r : Raft) (req : RequestVoteRequest)
    → r.current_term < req.term
    → request_vote r req ≡ cast_vote (next_term r req.term) req
request_vote_ahead r req h = unfold request_vote in ground arith

-- The vote once the terms agree.
abbrev Free : Raft → RequestVoteRequest → LogEntry → Type 0
Free r req last =
    ((r.voted_for ≡ []) ⊎ (r.voted_for ≡ req.candidate_id))
    × ((last.term < req.last_log_term)
        ⊎ ((last.term ≡ req.last_log_term) × (last_log_index r ≤ req.last_log_index)))

cast_vote_iff :
    (r : Raft) (req : RequestVoteRequest) (last : LogEntry) (resp : RequestVoteResponse) (r' : Raft)
    → get_elem? r.log (last_log_index r) ≡ some last
    → cast_vote r req ≡ some (resp, r')
    → (resp.vote_granted ≡ true) ↔ Free r req last
unfolding cast_vote
cast_vote_iff r req last resp r' e h = (
  λ g. ground (arith, text_eq_iff r.voted_for [], text_eq_iff r.voted_for req.candidate_id),
  λ g. ground (arith, text_eq_iff r.voted_for [], text_eq_iff r.voted_for req.candidate_id),
)

-- RequestVote grants the vote exactly when the request's term is not behind, the vote of that term
-- is free or the candidate's, and the candidate's log is at least as up to date.
pub request_vote_iff :
    (r : Raft) (req : RequestVoteRequest) (last : LogEntry) (resp : RequestVoteResponse) (r' : Raft)
    → get_elem? r.log (last_log_index r) ≡ some last
    → request_vote r req ≡ some (resp, r')
    → (resp.vote_granted ≡ true) ↔ Grants r req last
request_vote_iff r req last resp r' e h = elim (Bool-cases (ltb req.term r.current_term)) [
  | inl l ↦
      let back = request_vote_behind r req (ltb→lt _ _ l) in
      (λ g. ground arith, λ g. absurd (omega (arith, ltb→lt _ _ l)))
  | inr l ↦ elim (Bool-cases (ltb r.current_term req.term)) [
    | inl l' ↦
        let ahead = sym (request_vote_ahead r req (ltb→lt _ _ l')) ∙ h in
        let vote = cast_vote_iff (next_term r req.term) req last resp r' e ahead in
        (λ g. ground (arith, vote.0), λ g. vote.1 (inl refl, g.2))
    | inr l' ↦
        let same = sym (request_vote_same_term r req (ground arith)) ∙ h in
        let vote = cast_vote_iff r req last resp r' e same in
        (λ g. ground (arith, vote.0), λ g. vote.1 (ground arith))
  ]
]

-- After a vote is granted to an empty candidate id, the same request of any other candidate is
-- granted in the same term.
pub empty_candidate_votes_again :
    (r : Raft) (req : RequestVoteRequest) (resp : RequestVoteResponse) (r' : Raft) (d : Text)
    → request_vote r req ≡ some (resp, r')
    → resp.vote_granted ≡ true
    → req.candidate_id ≡ []
    → request_vote r' (record req { candidate_id = d })
      ≡ some (record { term = req.term; vote_granted = true }, record r' { voted_for = d })
unfolding request_vote
empty_candidate_votes_again r req resp r' d h g e = ground (
  arith,
  text_eq_iff r.voted_for [],
  text_eq_iff r.voted_for req.candidate_id,
  text_eq_iff [] [],
  text_eq_iff [] d,
)
