-- ===== src/Node/Drain/Witnesses.antt =====
-- drain.go: a node that drains to a ring of one other member.
use minidist.Base.{◌≡◌, refl, true, false, Bool, none, some, [], ◌∷◌, if◌then◌else◌}
use minidist.Base.Text.{Text, text_eq}
use minidist.Base.Assoc.{lookup, insert, text_eq_inst}
use minidist.Base.Sets.{contains, contains-cons_self}
use minidist.Base.Sort.{sort, search_first}
use minidist.Store.Version.{Value}
use minidist.HashRing.{hash, virtual_node, new, add, add_points, first_index, owner, collect, get_n}
use minidist.Chunk.{read, validate_id, chunk_id, put, get}
use minidist.Chunk.Content.{get-put}
use minidist.Chunk.Sample.{digest, content, content-IsDigest, unique}
use minidist.Node.Gc.{Stores}
use minidist.Node.Quorum.{acknowledged}
use minidist.Node.Quorum.Overlap.{AtLeast}
use minidist.Node.Replicas.{replicas_for_ring}
use minidist.Node.Chunks.{ChunkNet, set_files}
use minidist.Node.Rebalance.{Values}
use minidist.Node.Drain.{drain}
use minidist.Node.Drain.Drained.{drain-AtLeast, drain-Reads}

abbrev a : Text
a = 97 ∷ []

abbrev b : Text
b = 98 ∷ []

abbrev key : Text
key = 107 ∷ []

abbrev value : Value
value = record { bytes = 1 ∷ []; version = record { counter = 3; node_id = a }; deleted = false }

abbrev net : ChunkNet
net = record {
  uploads = λ r. acknowledged;
  works = λ r. true;
  clock = λ r. 5;
  arrives = λ r bytes. some bytes;
}

abbrev values : Values
values = λ k r. if text_eq r a then some value else none

abbrev stores : Stores
stores = set_files a (put digest 5 true content []).1 (λ r. [])

abbrev id : Text
id = chunk_id digest content

abbrev drained : Bool × (Values × Stores)
drained =
    drain digest net a (λ k r. acknowledged) (b ∷ []) 1 1 ((key, value) ∷ []) (some (id ∷ []))
      values stores

succeeds : drained.0 ≡ true
unfolding drain replicas_for_ring new contains sort insert get validate_id chunk_id text_eq lookup
    put hash virtual_node search_first
succeeds = refl

stored : lookup key ((key, value) ∷ []) ≡ some value
unfolding lookup text_eq
stored = refl

listed : contains (id ∷ []) id ≡ true
listed = contains-cons_self id []

read_at_a : get digest id (stores a) ≡ read content
unfolding text_eq put
read_at_a = get-put digest 5 content [] content-IsDigest unique

b_in : contains (b ∷ []) b ≡ true
b_in = contains-cons_self b []

key_at_b : replicas_for_ring (new (b ∷ []) 1) 1 key ≡ some (b ∷ [])
unfolding replicas_for_ring get_n collect first_index owner new add add_points text_eq contains sort
    lookup insert hash virtual_node search_first
key_at_b = refl

id_at_b : replicas_for_ring (new (b ∷ []) 1) 1 id ≡ some (b ∷ [])
unfolding replicas_for_ring get_n collect first_index owner new add add_points text_eq contains sort
    lookup insert hash virtual_node search_first chunk_id
id_at_b = refl

drain-AtLeast_example : AtLeast value (drained.1.0 key b)
drain-AtLeast_example =
    drain-AtLeast digest net a (λ k r. acknowledged) (b ∷ []) 1 1 ((key, value) ∷ []) values stores
      (id ∷ []) succeeds key b (b ∷ []) value stored key_at_b b_in

drain-Reads_example : get digest id (drained.1.1 b) ≡ read content
drain-Reads_example =
    drain-Reads digest net a (λ k r. acknowledged) (b ∷ []) 1 1 ((key, value) ∷ []) values stores
      (id ∷ []) succeeds id b (b ∷ []) content listed read_at_a
      (record { digest = content-IsDigest; unique = unique }) id_at_b b_in
