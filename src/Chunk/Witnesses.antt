-- ===== src/Chunk/Witnesses.antt =====
-- internal/chunk at concrete inputs, with a digest that tells one content from the others.
use minidist.Base.{◌≡◌, true, [], arith}
use minidist.Chunk.{read, chunk_id, put, get, sweep}
use minidist.Chunk.Sample.{digest, content, content-IsDigest, unique}
use minidist.Chunk.Sweep.{sweep-put}

sweep-put_example :
    get digest (chunk_id digest content) (sweep [] 4 (put digest 5 true content []).1).1
    ≡ read content
sweep-put_example = sweep-put digest [] 4 5 content [] (omega arith) content-IsDigest unique
