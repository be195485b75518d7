-- ===== src/Node/Probe/Outcome.antt =====
-- probe.go: what a probe makes of the failure detector.
use minidist.Base.{
  ℕ, ◌≡◌, refl, ◌∙◌, ◌⊎◌, inl, inr, Bool, true, false, not, ◌&&◌, ◌||◌, ◌==◌, none, some, List, [],
  ◌∷◌, arith, length, if◌then◌else◌, Bool-cases, Option-cases,
}
use minidist.Base.Text.{Text, text_eq, text_eq_iff}
use minidist.Base.Assoc.{text_eq_inst}
use minidist.Base.Sets.{contains}
use minidist.Node.Detector.{FailureDetector, mark_success, mark_failure}
use minidist.Node.Http.{method_get, method_post}
use minidist.Node.Probe.{
  Shuffle, random_probe_target, indirect_helpers, handle_ping, ping_node, handle_ping_request,
  request_indirect_ping, any_helper, mark_probed, probe_once,
}
use minidist.Node.Probe.Choice.{KeepsElements, random_members_bounds, random_probe_target_lem}
use minidist.Node.Cluster.{Membership}
use minidist.Node.Cluster.Agreement.{tracks}
use minidist.Node.Cluster.Reached.{Reach, start, later, reached, missed}

module _ (reaches : Text → Text → Bool) (addr target : Text) where
  -- A helper that the node reaches, and that reaches the target, which has a name.
  abbrev pub relays : Text → Bool
  relays h = reaches addr h && (reaches h target && not (length target == 0))

  -- Some helper of a list relays a probe.
  abbrev pub some_relay : List Text → Bool
  some_relay [] = false
  some_relay (h ∷ rest) = relays h || some_relay rest

  ping_node_lem :
      (from : Text)
      → text_eq target from ≡ false
      → ping_node reaches from target ≡ reaches from target
  ping_node_lem from e =
      let own : text_eq method_get method_get ≡ true = (text_eq_iff method_get method_get).1 refl in
      let answered : handle_ping method_get ≡ 204 =
        unfold handle_ping in rw (own, handle_ping) refl in
      unfold ping_node in rw (e, answered, ping_node) (ground arith)

  request_indirect_ping_lem :
      (h : Text) → text_eq target h ≡ false → request_indirect_ping reaches addr h target ≡ relays h
  request_indirect_ping_lem h e =
      let own : text_eq method_post method_post ≡ true =
        (text_eq_iff method_post method_post).1 refl in
      let ping = ping_node_lem h e in
      let status : handle_ping_request reaches h method_post (some target)
          ≡ (if length target == 0 then 400 else if reaches h target then 204 else 503) =
        unfold handle_ping_request in rw (own, ping, handle_ping_request) refl in
      unfold request_indirect_ping in rw (status, request_indirect_ping) (ground arith)

  any_helper_lem :
      (hs : List Text)
      → ((h : Text) → contains hs h ≡ true → text_eq target h ≡ false)
      → any_helper reaches addr target hs ≡ some_relay hs
  unfolding any_helper
  any_helper_lem [] f = refl
  any_helper_lem (h ∷ hs) f =
      let first = f h (unfold contains in ground (arith, text_eq_iff h h)) in
      let rest = any_helper_lem hs (λ k c. f k (unfold contains in ground (arith, c))) in
      rw (request_indirect_ping_lem h first, rest) refl

module _ (reaches : Text → Text → Bool) (shuffle shuffle' : Shuffle) (keeps : KeepsElements shuffle)
    (keeps' : KeepsElements shuffle') (addr : Text) (now : ℕ) (fd : FailureDetector) where
  -- The verdict on a target, and the failure detector with it.
  abbrev pub answers : Text → Bool
  answers target =
      reaches addr target
      || some_relay reaches addr target (indirect_helpers shuffle' addr fd target 2)

  abbrev pub judged : Text → FailureDetector → FailureDetector
  judged target ended =
      if answers target then mark_success now target ended else mark_failure now target ended

  -- If the shuffles keep the elements, probeOnce does nothing without a target; otherwise its
  -- target is a tracked node other than the node itself, which is marked as a success if the node
  -- reaches it, or reaches one of the at most two helpers that reaches it (and the target's name
  -- is not empty), and as a failure otherwise.
  pub probe_once-cases :
      (ended : FailureDetector)
      → ((random_probe_target shuffle addr fd ≡ none)
          × (probe_once reaches shuffle shuffle' addr now fd ended ≡ ended))
        ⊎ ((target : Text) × (tracks fd target ≡ true)
            × (text_eq addr target ≡ false)
            × (probe_once reaches shuffle shuffle' addr now fd ended ≡ judged target ended))
  probe_once-cases ended = elim (Option-cases (random_probe_target shuffle addr fd)) [
    | inl e ↦ inl (e, unfold probe_once in rw (e, probe_once) refl)
    | inr (target, e) ↦
        let (tracked, other) = random_probe_target_lem shuffle keeps addr fd target e in
        let helpers = indirect_helpers shuffle' addr fd target 2 in
        let flip : text_eq target addr ≡ false =
          ground (arith, other, text_eq_iff target addr, text_eq_iff addr target) in
        let apart = λ (h : Text) (c : contains helpers h ≡ true).
          let b =
            (random_members_bounds shuffle' keeps' addr fd 2 (target ∷ [])).1 h
              (unfold indirect_helpers in c) in
          not_target target h b.2 in
        let direct = ping_node_lem reaches addr target addr flip in
        let indirect = any_helper_lem reaches addr target helpers apart in
        let run : probe_once reaches shuffle shuffle' addr now fd ended
            ≡ mark_probed reaches addr now helpers target ended =
          unfold probe_once in rw (e, probe_once) refl in
        let judge : mark_probed reaches addr now helpers target ended ≡ judged target ended =
          unfold mark_probed in rw (direct, indirect, mark_probed) (ground arith) in
        inr (target, tracked, other, run ∙ judge)
  ]
    where
      not_target : (target h : Text) → contains (target ∷ []) h ≡ false → text_eq target h ≡ false
      not_target target h c = unfold contains in ground (arith, c)

-- A probe during which the members do not change is a step of the membership.
pub probe_once-Reach :
    (reaches : Text → Text → Bool) (shuffle shuffle' : Shuffle)
    → KeepsElements shuffle
    → KeepsElements shuffle'
    → (addr : Text) (now : ℕ) (n : Membership)
    → Reach n (record n { fd = probe_once reaches shuffle shuffle' addr now n.fd n.fd })
probe_once-Reach reaches shuffle shuffle' keeps keeps' addr now n =
    elim (probe_once-cases reaches shuffle shuffle' keeps keeps' addr now n.fd n.fd) [
      | inl (e, same) ↦ rw same start
      | inr (target, tracked, other, done) ↦
          elim (Bool-cases (answers reaches shuffle shuffle' keeps keeps' addr now n.fd target)) [
            | inl e ↦ rw done (rw e (later start (reached now target tracked)))
            | inr e ↦ rw done (rw e (later start (missed now target tracked)))
          ]
    ]
