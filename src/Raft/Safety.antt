-- ===== src/Raft/Safety.antt =====
-- vote.go and election.go: the votes of a node over every schedule.
use minidist.Base.{
  ℕ, suc, ◌<◌, ◌≡◌, ◌≢◌, refl, ◌⊎◌, inl, inr, Option, none, some, List, [], ◌∷◌, arith,
  Option-cases, if◌then◌else◌,
}
use minidist.Base.Text.{Text, text_eq_iff}
use minidist.Base.Words.{u64_mod}
use minidist.Raft.{
  Raft, RequestVoteRequest, RequestVoteResponse, request_vote, start_election, append_entry,
  truncate_from, advance_commit,
}
use minidist.Raft.System.{
  System, Applier, idle, holding, delivered, Op, vote, elect, append, truncate, commit, take, send,
  finish, take_next, applier_step, step, run, with_raft,
}

-- The vote, a term and a candidate, that an operation casts. An election casts the node's own.
abbrev pub cast : System → Op → Option (ℕ × Text)
cast s (vote req) = elim (request_vote s.raft req) [
  | none ↦ none
  | some (resp, _) ↦ if resp.vote_granted then some (resp.term, req.candidate_id) else none
]
cast s elect = elim (start_election s.raft) [
  | none ↦ none
  | some (req, _) ↦ some (req.term, req.candidate_id)
]
cast _ _ = none

-- The node knows of the vote: it stands in `votedFor`, or its term is over.
abbrev Remembers : Raft → ℕ → Text → Type 0
Remembers r t c = (t < r.current_term) ⊎ ((t ≡ r.current_term) × (r.voted_for ≡ c))

-- An election does not wrap the term.
abbrev pub Room : System → Op → Type 0
Room s elect = suc s.raft.current_term < u64_mod
Room _ _ = Unit

abbrev pub NoWrap : System → List Op → Type 0
NoWrap s [] = Unit
NoWrap s (op ∷ ops) = Room s op × elim (step s op) [ none ↦ Unit | some t ↦ NoWrap t ops ]

request_vote-Remembers :
    (r : Raft) (req : RequestVoteRequest) (resp : RequestVoteResponse) (r' : Raft) (t : ℕ)
    (c : Text)
    → request_vote r req ≡ some (resp, r')
    → c ≢ []
    → Remembers r t c
    → Remembers r' t c
unfolding request_vote
request_vote-Remembers r req resp r' t c h n m =
    ground (arith, text_eq_iff r.voted_for [], text_eq_iff r.voted_for req.candidate_id)

start_election-Remembers :
    (r : Raft) (req : RequestVoteRequest) (r' : Raft) (t : ℕ) (c : Text)
    → start_election r ≡ some (req, r')
    → suc r.current_term < u64_mod
    → Remembers r t c
    → Remembers r' t c
unfolding start_election
start_election-Remembers r req r' t c h room m = ground arith

-- The other operations leave the term and the vote alone.
abbrev SameVote : Raft → Raft → Type 0
SameVote r r' = (r'.current_term ≡ r.current_term) × (r'.voted_for ≡ r.voted_for)

applier_step-SameVote :
    (a : Applier) (op : Op) (s t : System) → applier_step a op s ≡ some t → SameVote s.raft t.raft
unfolding applier_step
applier_step-SameVote idle take s t h = unfold take_next in ground arith
applier_step-SameVote (holding msg) send s t h = ground arith
applier_step-SameVote (delivered i) finish s t h = ground arith
applier_step-SameVote _ _ s t h = ground arith

SameVote-Remembers :
    (r r' : Raft) (t : ℕ) (c : Text) → SameVote r r' → Remembers r t c → Remembers r' t c
SameVote-Remembers r r' t c e m = ground arith

with_raft-some :
    {A : Type 0} (s u : System) (o : Option (A × Raft))
    → with_raft s o ≡ some u
    → (a : A) × (r : Raft) × (o ≡ some (a, r)) × (r ≡ u.raft)
with_raft-some s u none h = cc
with_raft-some s u (some (a, r)) h = (a, r, refl, ground arith)

step-Remembers :
    (s : System) (op : Op) (u : System) (t : ℕ) (c : Text)
    → step s op ≡ some u
    → Room s op
    → c ≢ []
    → Remembers s.raft t c
    → Remembers u.raft t c
unfolding step
step-Remembers s (vote req) u t c h room n m =
    let (resp, r, e, q) = with_raft-some s u (request_vote s.raft req) h in
    ground (arith, request_vote-Remembers s.raft req resp r t c e n m)
step-Remembers s elect u t c h room n m =
    let (req, r, e, q) = with_raft-some s u (start_election s.raft) h in
    ground (arith, start_election-Remembers s.raft req r t c e room m)
step-Remembers s (append term command) u t c h room n m = unfold append_entry in ground arith
step-Remembers s (truncate index) u t c h room n m = unfold truncate_from in ground arith
step-Remembers s (commit index) u t c h room n m = unfold advance_commit in ground arith
step-Remembers s take u t c h room n m =
    SameVote-Remembers s.raft u.raft t c (applier_step-SameVote s.applier take s u h) m
step-Remembers s send u t c h room n m =
    SameVote-Remembers s.raft u.raft t c (applier_step-SameVote s.applier send s u h) m
step-Remembers s finish u t c h room n m =
    SameVote-Remembers s.raft u.raft t c (applier_step-SameVote s.applier finish s u h) m

run-Remembers :
    (s : System) (ops : List Op) (v : System) (t : ℕ) (c : Text)
    → run s ops ≡ some v
    → NoWrap s ops
    → c ≢ []
    → Remembers s.raft t c
    → Remembers v.raft t c
unfolding run
run-Remembers s [] v t c h w n m = ground arith
run-Remembers s (op ∷ ops) v t c h w n m = elim (Option-cases (step s op)) [
  | inl e ↦ cc (rw (e, run) at h)
  | inr (u, e) ↦
      run-Remembers u ops v t c (rw (e, run) at h) (rw (e, NoWrap) at w.1) n
        (step-Remembers s op u t c e w.0 n m)
]

-- A vote that is cast is remembered.
cast-Remembers :
    (s : System) (op : Op) (u : System) (t : ℕ) (c : Text)
    → step s op ≡ some u
    → cast s op ≡ some (t, c)
    → Remembers u.raft t c
unfolding step request_vote start_election
cast-Remembers s (vote req) u t c h k = ground arith
cast-Remembers s elect u t c h k = ground arith
cast-Remembers s _ u t c h k = cc

-- A vote of a remembered term goes to the candidate that is remembered.
cast-agrees :
    (s : System) (op : Op) (t : ℕ) (c d : Text)
    → Remembers s.raft t c
    → c ≢ []
    → Room s op
    → cast s op ≡ some (t, d)
    → c ≡ d
unfolding request_vote start_election
cast-agrees s (vote req) t c d m n room k =
    ground (arith, text_eq_iff s.raft.voted_for [], text_eq_iff s.raft.voted_for req.candidate_id)
cast-agrees s elect t c d m n room k = ground arith
cast-agrees s _ t c d m n room k = cc

-- From any state, after an operation that casts the vote of a term for a candidate with a non-
-- empty id, and any schedule of operations in which no election wraps the 64-bit term, a later
-- vote of the same term is for the same candidate.
pub vote_once :
    (s : System) (op : Op) (u : System) (ops : List Op) (v : System) (op' : Op) (t : ℕ) (c d : Text)
    → step s op ≡ some u
    → run u ops ≡ some v
    → NoWrap u ops
    → Room v op'
    → cast s op ≡ some (t, c)
    → c ≢ []
    → cast v op' ≡ some (t, d)
    → c ≡ d
vote_once s op u ops v op' t c d h r w room k n k' =
    cast-agrees v op' t c d (run-Remembers u ops v t c r w n (cast-Remembers s op u t c h k)) n room
      k'
