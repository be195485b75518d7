-- ===== src/Node/Probe.antt =====
-- probe.go and gossip.go: the choice of random members, direct and indirect probes, and gossip. The
-- shuffle and the network are parameters; the helpers of an indirect probe answer in some order, of
-- which only whether one of them succeeds matters.
pub mod Choice
pub mod Outcome
mod Witnesses
use minidist.Base.{
  ℕ, Bool, true, false, not, ◌&&◌, ◌||◌, Option, none, some, List, [], ◌∷◌, ltb, length, take,
  if◌then◌else◌, ◌==◌,
}
use minidist.Base.Text.{Text, text_eq}
use minidist.Base.Assoc.{Assoc, text_eq_inst}
use minidist.Base.Sets.{contains}
use minidist.Node.Detector.{
  FailureDetector, MemberState, GossipMember, gossip_snapshot, mark_success, mark_failure,
}
use minidist.Node.Http.{
  method_get, method_post, status_no_content, status_bad_request, status_method_not_allowed,
  status_service_unavailable,
}

abbrev pub Shuffle : Type 0
Shuffle = List Text → List Text

-- `failureDetector.List`: the tracked nodes.
unfoldable pub list_members : Assoc Text MemberState → List Text
list_members [] = []
list_members ((node, s) ∷ rest) = node ∷ list_members rest

-- The candidates of `randomMembers`.
unfoldable pub candidates : List Text → List Text → List Text
candidates excluded [] = []
candidates excluded (member ∷ rest) =
    let more = candidates excluded rest in if contains excluded member then more else member ∷ more

-- `randomMembers` of the node `addr`.
unfoldable pub random_members : Shuffle → Text → FailureDetector → ℕ → List Text → List Text
unfolding list_members candidates
random_members shuffle addr fd limit exclude =
    let shuffled = shuffle (candidates (addr ∷ exclude) (list_members fd.members)) in
    if ltb limit (length shuffled) then take limit shuffled else shuffled

abbrev pub first_of : List Text → Option Text
first_of [] = none
first_of (target ∷ rest) = some target

unfoldable pub random_probe_target : Shuffle → Text → FailureDetector → Option Text
unfolding random_members
random_probe_target shuffle addr fd = first_of (random_members shuffle addr fd 1 [])

unfoldable pub indirect_helpers : Shuffle → Text → FailureDetector → Text → ℕ → List Text
unfolding random_members
indirect_helpers shuffle addr fd target limit = random_members shuffle addr fd limit (target ∷ [])

unfoldable pub gossip_targets : Shuffle → Text → FailureDetector → ℕ → List Text
unfolding random_members
gossip_targets shuffle addr fd limit = random_members shuffle addr fd limit []

-- `handlePing`.
unfoldable pub handle_ping : Text → ℕ
handle_ping method =
    if text_eq method method_get then status_no_content else status_method_not_allowed

-- `pingNode` by `from`: a request arrives, and its answer, if the two nodes reach each other.
unfoldable pub ping_node : (Text → Text → Bool) → Text → Text → Bool
unfolding handle_ping
ping_node reaches from addr =
    if text_eq addr from then true else reaches from addr && ltb (handle_ping method_get) 300

-- `handlePingRequest` by the node `addr`; `none` is a body that does not decode.
unfoldable pub handle_ping_request : (Text → Text → Bool) → Text → Text → Option Text → ℕ
unfolding ping_node
handle_ping_request reaches addr method none =
    if text_eq method method_post then status_bad_request else status_method_not_allowed
handle_ping_request reaches addr method (some target) =
    if not (text_eq method method_post)
    then status_method_not_allowed
    else if length target == 0
    then status_bad_request
    else if ping_node reaches addr target
    then status_no_content
    else status_service_unavailable

unfoldable pub request_indirect_ping : (Text → Text → Bool) → Text → Text → Text → Bool
unfolding handle_ping_request
request_indirect_ping reaches addr helper target =
    reaches addr helper && ltb (handle_ping_request reaches helper method_post (some target)) 300

-- Whether one of the helpers reports success.
unfoldable pub any_helper : (Text → Text → Bool) → Text → Text → List Text → Bool
unfolding request_indirect_ping
any_helper reaches addr target [] = false
any_helper reaches addr target (helper ∷ rest) =
    request_indirect_ping reaches addr helper target || any_helper reaches addr target rest

-- The end of `probeOnce`: `ended` is the failure detector by then.
unfoldable pub mark_probed :
    (Text → Text → Bool) → Text → ℕ → List Text → Text → FailureDetector → FailureDetector
unfolding ping_node any_helper
mark_probed reaches addr now helpers target ended =
    if ping_node reaches addr target
    then mark_success now target ended
    else if any_helper reaches addr target helpers
    then mark_success now target ended
    else mark_failure now target ended

-- `probeOnce`; the two shuffles are those of the target and of the helpers, which are both chosen from
-- `fd`. The failure detector may be another when the probe ends.
unfoldable pub probe_once :
    (Text → Text → Bool)
    → Shuffle
    → Shuffle
    → Text
    → ℕ
    → FailureDetector
    → FailureDetector
    → FailureDetector
unfolding random_probe_target indirect_helpers mark_probed
probe_once reaches shuffle shuffle' addr now fd ended = elim (random_probe_target shuffle addr fd) [
  | none ↦ ended
  | some target ↦
      mark_probed reaches addr now (indirect_helpers shuffle' addr fd target 2) target ended
]

-- The loop of `gossipOnce`: the messages that are sent, with their targets.
unfoldable pub send_all : List GossipMember → List Text → List (Text × List GossipMember)
send_all members [] = []
send_all members (target ∷ rest) = (target, members) ∷ send_all members rest

unfoldable pub gossip_once : Shuffle → Text → FailureDetector → List (Text × List GossipMember)
unfolding gossip_targets send_all gossip_snapshot
gossip_once shuffle addr fd = send_all (gossip_snapshot fd) (gossip_targets shuffle addr fd 2)
