-- ===== src/Node/Witnesses.antt =====
-- internal/node at concrete inputs.
use minidist.Base.{
  ℕ, zero, suc, Option, ◌++◌, inl, ◌<◌, ◌≡◌, ◌⊎◌, refl, Bool, true, false, not, none, some, List,
  [], ◌∷◌, arith, All, if◌then◌else◌,
}
use minidist.Base.Text.{Text, codes, text_eq}
use minidist.Base.Assoc.{lookup, insert, text_eq_inst}
use minidist.Store.Version.{Version, Value, is_newer}
use minidist.Store.Convergence.{newest}
use minidist.Node.Detector.{
  MemberState, FailureDetector, GossipMember, status_alive, state_of, merge, new_failure_detector,
  put_state,
}
use minidist.Node.Detector.Latest.{UpTo, Told, merge-UpTo}
use minidist.Node.Detector.Probes.{merge_refutes, Answered}
use minidist.Node.Quorum.{
  Cluster, Delivery, acknowledged, lost, replicate_value, get, read_quorum_not_reached,
  next_version, read_counters,
}
use minidist.Base.Assoc.{Assoc}
use minidist.Base.Sets.{contains}
use minidist.Store.Snapshot.{Codec}
use minidist.Object.{Metadata, metadata_key_prefix}
use minidist.Chunk.{hex, read, chunk_id, validate_id, all_hex, get as get_chunk}
use minidist.Node.Gc.{GcMark, Stores, has_prefix, local_gc_mark, run_gc}
use minidist.Node.Gc.Kept.{get-run_gc}
use minidist.Node.Quorum.Versions.{answer, get_after_write, next_version_after_write}

abbrev n1 : Text
n1 = codes "10.0.0.1:8081"

abbrev n2 : Text
n2 = codes "10.0.0.2:8081"

abbrev n3 : Text
n3 = codes "10.0.0.3:8081"

abbrev detector : FailureDetector
detector = new_failure_detector 5 100 (n1 ∷ n2 ∷ []) n1

-- An accusation of the node itself, news of a member, and a new member.
abbrev gossip : List GossipMember
gossip =
    record { node = n1; status = codes "dead"; version = 3; incarnation = 200 }
    ∷ record { node = n2; status = codes "suspect"; version = 1; incarnation = 7 }
    ∷ record { node = n3; status = codes "alive"; version = 4; incarnation = 9 }
    ∷ []

n2_is_other : text_eq n2 detector.self ≡ false
unfolding new_failure_detector put_state text_eq
n2_is_other = refl

merge-UpTo_example :
    All
      (λ (remote : GossipMember).
        text_eq remote.node n2 ≡ true
        → UpTo remote.incarnation remote.version (lookup n2 (merge 6 gossip detector).members))
      gossip
    × ((old : MemberState)
        → lookup n2 detector.members ≡ some old
        → UpTo old.incarnation old.version (lookup n2 (merge 6 gossip detector).members))
    × ((lookup n2 (merge 6 gossip detector).members ≡ lookup n2 detector.members)
        ⊎ Told n2 (lookup n2 (merge 6 gossip detector).members) gossip)
merge-UpTo_example = merge-UpTo n2 6 gossip detector n2_is_other

starts_alive : (state_of detector detector.self).status ≡ status_alive
unfolding new_failure_detector put_state state_of insert text_eq lookup
starts_alive = refl

merge_refutes_example :
    ((state_of (merge 6 gossip detector) detector.self).status ≡ status_alive)
    × All
        (λ (remote : GossipMember).
          text_eq remote.node detector.self ≡ true
          → Answered remote (state_of (merge 6 gossip detector) detector.self))
        gossip
merge_refutes_example =
    merge_refutes 6 gossip detector starts_alive (omega arith, (omega arith, (omega arith, tt)))

abbrev key : Text
key = codes "k"

abbrev first : Value
first = record {
  bytes = codes "a";
  version = record { counter = 1; node_id = n1 };
  deleted = false;
}

abbrev second : Value
second = record {
  bytes = codes "b";
  version = record { counter = 2; node_id = n2 };
  deleted = false;
}

-- Two of three replicas take the write, and two others, one of them in both sets, answer.
abbrev network : Text → Delivery
network r = if text_eq r n3 then lost else acknowledged

abbrev answers : Text → Bool
answers r = not (text_eq r n1)

abbrev all_replicas : List Text
all_replicas = n1 ∷ n2 ∷ n3 ∷ []

abbrev nothing : Cluster
nothing = λ r. none

abbrev after : Cluster
after = (replicate_value network 2 all_replicas key second nothing []).1.cluster

written : (replicate_value network 2 all_replicas key second nothing []).0 ≡ true
unfolding replicate_value text_eq
written = refl

get_after_write_example :
    ((get answers network 2 all_replicas after).0 ≡ read_quorum_not_reached)
    ⊎ ((x : Value) × (r : Text) × (contains all_replicas r ≡ true)
        × (answers r ≡ true)
        × (after r ≡ some x)
        × ((get answers network 2 all_replicas after).0 ≡ answer x)
        × (is_newer second.version x.version ≡ false))
get_after_write_example =
    get_after_write network network answers 2 2 all_replicas key second nothing after []
      (omega arith) (omega arith) written (λ r v a. a)

abbrev next : Version
next = record { counter = 3; node_id = n3 }

seen_counter : (read_counters answers after all_replicas (0, 0)).1 ≡ 2
unfolding read_counters replicate_value text_eq newest
seen_counter = refl

allocated : next_version answers 2 all_replicas after n3 1 ≡ some next
unfolding next_version replicate_value text_eq newest
allocated = refl

next_version_after_write_example : (second.version.counter < next.counter) × (1 < next.counter)
next_version_after_write_example =
    next_version_after_write network answers 2 2 all_replicas key n3 second nothing after [] 1 next
      (omega arith) written (λ r v a. a) (omega (arith, seen_counter)) (omega arith) allocated

-- A round of garbage collection on one member, whose only object refers to its only chunk.
abbrev repeated : ℕ → ℕ → List ℕ
repeated zero b = []
repeated (suc n) b = b ∷ repeated n b

abbrev digest : List ℕ → List ℕ
digest bytes = if text_eq bytes (7 ∷ []) then repeated 32 17 else repeated 32 34

abbrev chunk : Text
chunk = hex (repeated 32 17)

abbrev stores : Stores
stores = λ y. (chunk, record { bytes = 7 ∷ []; mtime = 1 }) ∷ []

abbrev object_key : Text
object_key = metadata_key_prefix ++ codes "00"

abbrev one_object : Metadata
one_object = record {
  name = codes "f";
  size = 1;
  chunk_size = 4;
  chunks = record { id = chunk; size = 1 } ∷ [];
}

abbrev decoder : Codec Metadata
decoder = record { marshal = λ x. some (5 ∷ []); unmarshal = λ b. some one_object }

abbrev stored_object : Assoc Text Value
stored_object = (object_key, first) ∷ []

abbrev mark_of : Text → Option GcMark
mark_of = λ x. local_gc_mark decoder 3 stored_object

one_member : contains (n1 ∷ []) n1 ≡ true
unfolding contains text_eq
one_member = refl

object_is_there : lookup object_key stored_object ≡ some first
unfolding lookup text_eq
object_is_there = refl

prefixed : has_prefix metadata_key_prefix object_key ≡ true
unfolding has_prefix
prefixed = refl

readable : get_chunk digest chunk (stores n1) ≡ read (7 ∷ [])
unfolding get_chunk lookup text_eq chunk_id hex validate_id all_hex
readable = refl

get-run_gc_example :
    get_chunk digest chunk ((run_gc mark_of (λ m. true) (λ m. 3) 3 100 10 (n1 ∷ []) stores).1 n1)
    ≡ read (7 ∷ [])
get-run_gc_example =
    get-run_gc digest chunk decoder mark_of (λ m. true) (λ m. 3) 3 3 100 10 (n1 ∷ []) stores n1
      stored_object object_key first one_object n1 (7 ∷ []) one_member refl object_is_there prefixed
      refl refl (inl refl) readable
