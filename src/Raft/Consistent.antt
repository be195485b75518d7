-- ===== src/Raft/Consistent.antt =====
-- raft.go: the invariant that ties the applier and the channel to the log, kept by every step.
use minidist.Base.{
  ℕ, suc, ◌+◌, ◌≤◌, ◌<◌, ◌≡◌, refl, ◌∙◌, inl, inr, sym, Option, none, some, List, [], ◌∷◌, ◌++◌,
  arith, length, get_elem?, length-append, get_elem?-append_left, get_elem?-append_last,
  get_elem?-in_range, Option-cases, Bool-cases, leb, ltb, false,
}
use minidist.Raft.{
  Raft, LogEntry, ApplyMsg, RequestVoteRequest, new, request_vote, start_election, append_entry,
  truncate_from, advance_commit,
}
use minidist.Raft.Log.{
  IsValid, SamePrefix, append_entry-IsValid, truncate_from-IsValid, advance_commit-IsValid,
  append_entry-prefix, truncate_from-prefix, request_vote-log, start_election-log,
  request_vote-IsValid, request_vote-ne-none, start_election-ne-none, start_election-IsValid,
}
use minidist.Raft.System.{
  System, Applier, idle, holding, delivered, Op, vote, elect, append, truncate, commit, take, send,
  finish, take_next, applier_step, step, run, with_raft,
}

-- The message that the entry at an index stands for.
abbrev pub msg_at : List LogEntry → ℕ → Option ApplyMsg
msg_at log i = elim (get_elem? log i) [
  | none ↦ none
  | some entry ↦ some (record { index = i; term = entry.term; command = entry.command })
]

-- Where the applier stands after `n` messages.
abbrev pub Pending : Applier → Raft → ℕ → Type 0
Pending idle r n = n ≡ r.last_applied
Pending (holding msg) r n =
    (n ≡ r.last_applied) × (suc n ≤ r.commit_index) × (msg_at r.log (suc n) ≡ some msg)
Pending (delivered i) r n = (i ≡ suc r.last_applied) × (n ≡ i) × (i ≤ r.commit_index)

-- Message `i` on the channel, counted from 0, is that of the log's entry `i + 1`.
abbrev pub Matches : List ApplyMsg → List LogEntry → Type 0
Matches sent log = (i : ℕ) → i < length sent → get_elem? sent i ≡ msg_at log (suc i)

pub record IsConsistent (s : System) : Type 0 where
  pub valid : IsValid s.raft
  pub pending : Pending s.applier s.raft (length s.sent)
  pub in_order : Matches s.sent s.raft.log

pub Pending-le : (a : Applier) (r : Raft) (n : ℕ) → IsValid r → Pending a r n → n ≤ r.commit_index
Pending-le idle r n v p = omega arith
Pending-le (holding msg) r n v p = omega arith
Pending-le (delivered i) r n v p = omega arith

-- The committed entries and the cursor of the new state agree with the old one.
record Extends (r r' : Raft) : Type 0 where
  same : SamePrefix (suc r.commit_index) r'.log r.log
  cursor : r'.last_applied ≡ r.last_applied
  onward : r.commit_index ≤ r'.commit_index

Pending-Extends :
    (a : Applier) (r r' : Raft) (n : ℕ) → Extends r r' → Pending a r n → Pending a r' n
Pending-Extends idle r r' n x p = omega (arith, x)
Pending-Extends (holding msg) r r' n x p =
    (omega (arith, x), omega (arith, x), rw (x.same (suc n) (omega arith), msg_at) p.2)
Pending-Extends (delivered i) r r' n x p = (omega (arith, x), p.1, omega (arith, x))

Extends-IsConsistent :
    (s : System) (r' : Raft)
    → Extends s.raft r'
    → IsValid r'
    → IsConsistent s
    → IsConsistent (record s { raft = r' })
Extends-IsConsistent s r' x v c = record {
  valid = v;
  pending = Pending-Extends s.applier s.raft r' (length s.sent) x c.pending;
  in_order = λ i h.
      let bound = Pending-le s.applier s.raft (length s.sent) c.valid c.pending in
      rw (x.same (suc i) (omega (arith, bound)), msg_at) (c.in_order i h);
}

append-Extends :
    (r : Raft) (term : ℕ) (command : List ℕ) → IsValid r → Extends r (append_entry r term command).1
unfolding append_entry
append-Extends r term command v = record {
  same = λ i h. append_entry-prefix r term command i (omega (arith, v));
  cursor = refl;
  onward = omega arith;
}

truncate-Extends : (r : Raft) (index : ℕ) → Extends r (truncate_from r index).1
truncate-Extends r index = record {
  same = (truncate_from-prefix r index).0;
  cursor = unfold truncate_from in ground arith;
  onward = omega (arith, (truncate_from-prefix r index).1);
}

advance-Extends : (r : Raft) (index : ℕ) → Extends r (advance_commit r index).1
advance-Extends r index = record {
  same = λ i h. unfold advance_commit in ground arith;
  cursor = unfold advance_commit in ground arith;
  onward = unfold advance_commit in ground arith;
}

same_log-Extends :
    (r r' : Raft)
    → (r'.log ≡ r.log) × (r'.commit_index ≡ r.commit_index) × (r'.last_applied ≡ r.last_applied)
    → Extends r r'
same_log-Extends r r' e = record { same = λ i h. rw e.0; cursor = e.2; onward = omega (arith, e.1) }

-- The result of one step: it does not panic, and it keeps the invariant.
abbrev pub Goes : Option System → Type 0
Goes none = ⊥
Goes (some t) = IsConsistent t

vote-Goes :
    (s : System) (req : RequestVoteRequest)
    → IsConsistent s
    → Goes (with_raft s (request_vote s.raft req))
vote-Goes s req c = elim (Option-cases (request_vote s.raft req)) [
  | inl e ↦ absurd (request_vote-ne-none s.raft req c.valid e)
  | inr (a, e) ↦ rw e (
      Extends-IsConsistent s a.1
        (same_log-Extends s.raft a.1 (request_vote-log s.raft req a.0 a.1 e))
        (request_vote-IsValid s.raft req a.0 a.1 e c.valid) c)
]

elect-Goes : (s : System) → IsConsistent s → Goes (with_raft s (start_election s.raft))
elect-Goes s c = elim (Option-cases (start_election s.raft)) [
  | inl e ↦ absurd (start_election-ne-none s.raft c.valid e)
  | inr (a, e) ↦ rw e (
      Extends-IsConsistent s a.1 (same_log-Extends s.raft a.1 (start_election-log s.raft a.0 a.1 e))
        (start_election-IsValid s.raft a.0 a.1 e c.valid) c)
]

take_next_holding :
    (s : System) (entry : LogEntry)
    → leb s.raft.commit_index s.raft.last_applied ≡ false
    → get_elem? s.raft.log (s.raft.last_applied + 1) ≡ some entry
    → take_next s
      ≡ some (record s {
        applier = holding (record {
          index = s.raft.last_applied + 1;
          term = entry.term;
          command = entry.command;
        });
      })
unfolding take_next
take_next_holding s entry behind e = rw behind (rw e)

holding-IsConsistent :
    (s : System) (entry : LogEntry)
    → leb s.raft.commit_index s.raft.last_applied ≡ false
    → get_elem? s.raft.log (s.raft.last_applied + 1) ≡ some entry
    → length s.sent ≡ s.raft.last_applied
    → IsConsistent s
    → Goes (take_next s)
holding-IsConsistent s entry behind e n c =
    rw (take_next_holding s entry behind e)
      (record { valid = c.valid; pending = (n, ground arith, ground arith); in_order = c.in_order })

take_next-Goes :
    (s : System) → length s.sent ≡ s.raft.last_applied → IsConsistent s → Goes (take_next s)
take_next-Goes s n c = elim (Bool-cases (leb s.raft.commit_index s.raft.last_applied)) [
  | inl e ↦ unfold take_next in rw e c
  | inr behind ↦ elim (Option-cases (get_elem? s.raft.log (s.raft.last_applied + 1))) [
    | inl e ↦
        absurd (get_elem?-in_range s.raft.log (s.raft.last_applied + 1) (ground (arith, c.valid)) e)
    | inr (entry, e) ↦ holding-IsConsistent s entry behind e n c
  ]
]

Matches-append :
    (sent : List ApplyMsg) (log : List LogEntry) (msg : ApplyMsg)
    → msg_at log (suc (length sent)) ≡ some msg
    → Matches sent log
    → Matches (sent ++ msg ∷ []) log
Matches-append sent log msg e m i h = elim (Bool-cases (ltb i (length sent))) [
  | inl old ↦ get_elem?-append_left sent (msg ∷ []) i (ground arith) ∙ m i (ground arith)
  | inr new ↦
      let last : i ≡ length sent = ground (arith, length-append sent (msg ∷ [])) in
      rw last (get_elem?-append_last sent msg ∙ sym e)
]

msg_at-index :
    (log : List LogEntry) (i : ℕ) (msg : ApplyMsg) → msg_at log i ≡ some msg → msg.index ≡ i
msg_at-index log i msg h = ground arith

-- One turn of the applier.
applier_step-Goes :
    (a : Applier) (op : Op) (r : Raft) (sent : List ApplyMsg)
    → let s : System = record { raft = r; applier = a; sent = sent } in
      IsConsistent s → Goes (applier_step a op s)
applier_step-Goes idle take r sent c =
    unfold applier_step in
    take_next-Goes (record { raft = r; applier = idle; sent = sent }) c.pending c
applier_step-Goes (holding msg) send r sent c =
    unfold applier_step in
    record {
      valid = c.valid;
      pending =
          ground (arith, msg_at-index r.log (suc (length sent)) msg, length-append sent (msg ∷ []));
      in_order = Matches-append sent r.log msg c.pending.2 c.in_order;
    }
applier_step-Goes (delivered i) finish r sent c =
    unfold applier_step in
    record { valid = ground (arith, c.valid); pending = c.pending.1; in_order = c.in_order }
applier_step-Goes _ _ r sent c = unfold applier_step in c

step-Goes : (s : System) (op : Op) → IsConsistent s → Goes (step s op)
unfolding step
step-Goes s (vote req) c = vote-Goes s req c
step-Goes s elect c = elect-Goes s c
step-Goes s (append term command) c =
    Extends-IsConsistent s _ (append-Extends s.raft term command c.valid)
      (append_entry-IsValid s.raft term command c.valid) c
step-Goes s (truncate index) c =
    Extends-IsConsistent s _ (truncate-Extends s.raft index)
      (truncate_from-IsValid s.raft index c.valid) c
step-Goes s (commit index) c =
    Extends-IsConsistent s _ (advance-Extends s.raft index)
      (advance_commit-IsValid s.raft index c.valid) c
step-Goes s take c = applier_step-Goes s.applier take s.raft s.sent c
step-Goes s send c = applier_step-Goes s.applier send s.raft s.sent c
step-Goes s finish c = applier_step-Goes s.applier finish s.raft s.sent c

pub run-Goes : (s : System) (ops : List Op) → IsConsistent s → Goes (run s ops)
unfolding run
run-Goes s [] c = c
run-Goes s (op ∷ ops) c = elim (Option-cases (step s op)) [
  | inl e ↦ absurd (rw e at (step-Goes s op c))
  | inr (t, e) ↦ rw (e, Goes, run) (run-Goes t ops (rw e at (step-Goes s op c)))
]
