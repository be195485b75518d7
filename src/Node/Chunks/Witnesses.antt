-- ===== src/Node/Chunks/Witnesses.antt =====
-- node/chunk.go at two nodes, with a digest that tells one content from the others.
use minidist.Base.{◌≡◌, refl, true, some, [], ◌∷◌, arith, if◌then◌else◌}
use minidist.Base.Text.{Text, text_eq}
use minidist.Base.Assoc.{lookup}
use minidist.Base.Sets.{contains}
use minidist.Object.RoundTrip.{Keeps}
use minidist.Chunk.{read, chunk_id, put, get}
use minidist.Chunk.Content.{get-put}
use minidist.Chunk.Sample.{digest, content, content-IsDigest, unique}
use minidist.Node.Gc.{Stores}
use minidist.Node.Quorum.{acknowledged, lost}
use minidist.Node.Chunks.{
  ChunkNet, set_files, handle_internal_chunk_put, upload, put_chunk_replica, put_all, put_chunk,
  get_chunk, repair_chunk,
}
use minidist.Node.Chunks.Replica.{Hashes}
use minidist.Node.Chunks.Reads.{get_chunk-put_chunk}
use minidist.Node.Chunks.Repair.{repair_chunk-Reads}
use minidist.Node.Chunks.Objects.{cluster_chunks, cluster_chunks-Keeps}

abbrev a : Text
a = 97 ∷ []

abbrev b : Text
b = 98 ∷ []

abbrev net : ChunkNet
net = record {
  uploads = λ r. acknowledged;
  works = λ r. true;
  clock = λ r. 5;
  arrives = λ r bytes. some bytes;
}

-- What arrives from `b` is one byte too long.
abbrev noisy : ChunkNet
noisy = record {
  uploads = λ r. lost;
  works = λ r. true;
  clock = λ r. 6;
  arrives = λ r bytes. if text_eq r a then some bytes else some (9 ∷ bytes);
}

abbrev empty : Stores
empty = λ r. []

abbrev id : Text
id = chunk_id digest content

content-Hashes : Hashes digest content
content-Hashes = record { digest = content-IsDigest; unique = unique }

put-acknowledged : (put_chunk digest net b 2 (b ∷ a ∷ []) content empty).0 ≡ some id
unfolding put_chunk put_all put_chunk_replica upload handle_internal_chunk_put put chunk_id text_eq
    lookup
put-acknowledged = refl

get_chunk-put_chunk_example :
    (source : Text) × (get_chunk digest noisy b
        (b ∷ a ∷ [])
        id
        (put_chunk digest net b 2 (b ∷ a ∷ []) content empty).1
      ≡ some (content, source))
unfolding text_eq
get_chunk-put_chunk_example =
    get_chunk-put_chunk digest net noisy b b 2 (b ∷ a ∷ []) content empty
      (put_chunk digest net b 2 (b ∷ a ∷ []) content empty).1 id (λ r. text_eq r a) content-Hashes
      put-acknowledged (λ r k x g. g) (λ r e. rw e refl) (omega arith)

cluster_chunks-Keeps_example :
    Keeps (cluster_chunks digest net a 2 (λ k. a ∷ b ∷ [])) (Hashes digest)
cluster_chunks-Keeps_example =
    cluster_chunks-Keeps digest net a 2 (λ k. a ∷ b ∷ []) (λ r. true) (λ r bytes e. refl)
      (λ k. omega arith)

abbrev stores : Stores
stores = set_files a (put digest 5 true content []).1 empty

repair_chunk-Reads_example :
    get digest id (repair_chunk digest net a id content a (a ∷ b ∷ []) stores b) ≡ read content
unfolding text_eq put
repair_chunk-Reads_example =
    repair_chunk-Reads digest net a id content a content-Hashes refl (λ r. refl) (λ r. refl)
      (a ∷ b ∷ []) stores b (get-put digest 5 content [] content-IsDigest unique)
      (unfold contains in refl)
