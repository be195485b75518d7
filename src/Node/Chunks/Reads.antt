-- ===== src/Node/Chunks/Reads.antt =====
-- node/chunk.go: what GetChunk finds after PutChunk.
use minidist.Base.{
  ℕ, ◌+◌, ◌≤◌, ◌<◌, ◌≡◌, refl, sym, ap, ◌∙◌, inl, inr, Bool, true, false, none, some, List, [], ◌∷◌,
  arith, ltb, ◌==◌, length, if◌then◌else◌, Bool-cases, Option-cases,
}
use mathlib.Core.Path.{subst}
use mathlib.Core.Option.{some-injective}
use minidist.Base.Text.{Text, text_eq, text_eq_iff}
use minidist.Base.Assoc.{text_eq_inst}
use minidist.Base.Sets.{contains, contains-cons_self, contains-cons_of_tail}
use minidist.Chunk.{ChunkRead, read, read_error, chunk_id, get}
use minidist.Chunk.Content.{get-read}
use minidist.Node.Gc.{Stores}
use minidist.Node.Quorum.Overlap.{count, count_overlap}
use minidist.Node.Chunks.{
  ChunkNet, put_chunk_replica, put_all, put_chunk, download, handle_internal_chunk_get,
  get_chunk_replica, get_chunk,
}
use minidist.Node.Chunks.Replica.{Hashes, put_chunk_replica_keeps, put_chunk_replica-Reads}

abbrev pub is_read : ChunkRead → Bool
is_read (read bytes) = true
is_read (read_error e) = false

pub read_of : (r : ChunkRead) → is_read r ≡ true → (x : List ℕ) × (r ≡ read x)
read_of (read x) h = (x, refl)
read_of (read_error e) h = cc

module _ (sha256 : List ℕ → List ℕ) where
  -- The replicas that read a chunk.
  abbrev pub holds : Text → Stores → Text → Bool
  holds id stores r = is_read (get sha256 id (stores r))

  -- Every chunk that is readable on a node stays so.
  abbrev pub Kept : Stores → Stores → Type 0
  Kept s t = (b k : Text) (x : List ℕ) → get sha256 k (s b) ≡ read x → get sha256 k (t b) ≡ read x

  pub put_all_keeps :
      (net : ChunkNet) (addr id : Text) (bytes : List ℕ) (rs : List Text) (n : ℕ) (s : Stores)
      → Kept s (put_all sha256 net addr id bytes rs n s).1
  unfolding put_all
  put_all_keeps net addr id bytes [] n s b k x g = g
  put_all_keeps net addr id bytes (r ∷ rs) n s b k x g =
      let sent = put_chunk_replica sha256 net addr r id bytes s in
      put_all_keeps net addr id bytes rs (if sent.0 then n + 1 else n) sent.1 b k x
        (put_chunk_replica_keeps sha256 net addr r id bytes s b k x g)

  -- The successes are at most the replicas that read the chunk in the end.
  put_all-count :
      (net : ChunkNet) (addr id : Text) (bytes : List ℕ) (rs : List Text) (n : ℕ) (s : Stores)
      → Hashes sha256 bytes
      → (put_all sha256 net addr id bytes rs n s).0
        ≤ n + count (holds id (put_all sha256 net addr id bytes rs n s).1) rs
  unfolding put_all
  put_all-count net addr id bytes [] n s h = omega arith
  put_all-count net addr id bytes (r ∷ rs) n s h =
      let sent = put_chunk_replica sha256 net addr r id bytes s in
      let more = put_all-count net addr id bytes rs (if sent.0 then n + 1 else n) sent.1 h in
      elim (Bool-cases sent.0) [
        | inr e ↦ ground (arith, more, e)
        | inl e ↦
            let last = put_all sha256 net addr id bytes rs (if sent.0 then n + 1 else n) sent.1 in
            let there : get sha256 id (last.1 r) ≡ read bytes =
              put_all_keeps net addr id bytes rs (if sent.0 then n + 1 else n) sent.1 r id bytes
                (put_chunk_replica-Reads sha256 net addr r id bytes s h e) in
            let counted : holds id last.1 r ≡ true = ap is_read there in
            ground (arith, more, e, counted)
      ]

  -- The quorum of a successful PutChunk.
  pub put_chunk-quorum :
      (net : ChunkNet) (addr : Text) (w : ℕ) (rs : List Text) (bytes : List ℕ) (s : Stores)
      (id : Text)
      → Hashes sha256 bytes
      → (put_chunk sha256 net addr w rs bytes s).0 ≡ some id
      → (chunk_id sha256 bytes ≡ id)
        × (w ≤ count (holds id (put_chunk sha256 net addr w rs bytes s).1) rs)
  put_chunk-quorum net addr w rs bytes s id h ok =
      let own = chunk_id sha256 bytes in
      let r = put_all sha256 net addr own bytes rs 0 s in
      elim (Bool-cases (length rs == 0)) [
        | inl e ↦
            let bad : put_chunk sha256 net addr w rs bytes s ≡ (none, s) =
              unfold put_chunk in rw (e, put_chunk) refl in
            absurd (ground (arith, ap (λ q. q.0) bad, ok))
        | inr e ↦ elim (Bool-cases (ltb r.0 w)) [
          | inl f ↦
              let bad : put_chunk sha256 net addr w rs bytes s ≡ (none, r.1) =
                unfold put_chunk in rw (e, f, put_chunk) refl in
              absurd (ground (arith, ap (λ q. q.0) bad, ok))
          | inr f ↦
              let good : put_chunk sha256 net addr w rs bytes s ≡ (some own, r.1) =
                unfold put_chunk in rw (e, f, put_chunk) refl in
              let named : own ≡ id = some-injective own id (sym (ap (λ q. q.0) good) ∙ ok) in
              (
                named,
                rw good (
                    subst (λ k. w ≤ count (holds k r.1) rs) named
                      (ground (arith, put_all-count net addr own bytes rs 0 s h))),
              )
        ]
      ]

  get_chunk-failed :
      (net : ChunkNet) (addr r : Text) (rs : List Text) (id : Text) (s : Stores)
      → get_chunk_replica sha256 net addr r id s ≡ none
      → get_chunk sha256 net addr (r ∷ rs) id s ≡ get_chunk sha256 net addr rs id s
  get_chunk-failed net addr r rs id s e = unfold get_chunk in rw (e, get_chunk) refl

  get_chunk-arrived :
      (net : ChunkNet) (addr r : Text) (rs : List Text) (id : Text) (s : Stores) (x : List ℕ)
      → get_chunk_replica sha256 net addr r id s ≡ some x
      → get_chunk sha256 net addr (r ∷ rs) id s ≡ (
          if text_eq (chunk_id sha256 x) id then some (x, r) else get_chunk sha256 net addr rs id s)
  get_chunk-arrived net addr r rs id s x e = unfold get_chunk in rw (e, get_chunk) refl

  -- The replica that a result comes from.
  pub get_chunk-source :
      (net : ChunkNet) (addr : Text) (rs : List Text) (id : Text) (s : Stores) (x : List ℕ)
      (r : Text)
      → get_chunk sha256 net addr rs id s ≡ some (x, r)
      → (chunk_id sha256 x ≡ id)
        × (contains rs r ≡ true)
        × (get_chunk_replica sha256 net addr r id s ≡ some x)
  get_chunk-source net addr [] id s x r g =
      let nothing : get_chunk sha256 net addr [] id s ≡ none = unfold get_chunk in refl in
      absurd (ground (arith, nothing, g))
  get_chunk-source net addr (q ∷ rs) id s x r g =
      elim (Option-cases (get_chunk_replica sha256 net addr q id s)) [
        | inl e ↦
            let ih =
              get_chunk-source net addr rs id s x r
                (sym (get_chunk-failed net addr q rs id s e) ∙ g) in
            (ih.0, contains-cons_of_tail q r rs ih.1, ih.2)
        | inr (y, e) ↦
            let step = get_chunk-arrived net addr q rs id s y e in
            elim (Bool-cases (text_eq (chunk_id sha256 y) id)) [
              | inl f ↦
                  let here : some (y, q) ≡ some (x, r) = sym (step ∙ rw f refl) ∙ g in
                  let bytes : y ≡ x = ap (λ p. p.0) (some-injective (y, q) (x, r) here) in
                  let from : q ≡ r = ap (λ p. p.1) (some-injective (y, q) (x, r) here) in
                  (
                    ap (chunk_id sha256) (sym bytes) ∙ (text_eq_iff (chunk_id sha256 y) id).0 f,
                    subst (λ k. contains (k ∷ rs) r ≡ true) (sym from) (contains-cons_self r rs),
                    ap (λ k. get_chunk_replica sha256 net addr k id s) (sym from)
                        ∙ e
                        ∙ ap (λ z. some z) bytes,
                  )
              | inr f ↦
                  let ih = get_chunk-source net addr rs id s x r (sym (step ∙ rw f refl) ∙ g) in
                  (ih.0, contains-cons_of_tail q r rs ih.1, ih.2)
            ]
      ]

  -- Whatever arrives from the replicas, the bytes that GetChunk returns have the id that was asked
  -- for, and they come from one of the replicas.
  pub chunk_id-get_chunk :
      (net : ChunkNet) (addr : Text) (rs : List Text) (id : Text) (s : Stores) (x : List ℕ)
      (r : Text)
      → get_chunk sha256 net addr rs id s ≡ some (x, r)
      → (chunk_id sha256 x ≡ id) × (contains rs r ≡ true)
  chunk_id-get_chunk net addr rs id s x r g =
      let from = get_chunk-source net addr rs id s x r g in (from.0, from.1)

  -- A download from a replica that reads the chunk, when the bytes arrive as they were sent.
  pub get_chunk_replica-read :
      (net : ChunkNet) (addr r id : Text) (s : Stores) (x : List ℕ)
      → get sha256 id (s r) ≡ read x
      → net.arrives r x ≡ some x
      → get_chunk_replica sha256 net addr r id s ≡ some x
  get_chunk_replica-read net addr r id s x g a =
      let (file, (at, (good, (is_old, valid)))) = get-read sha256 id (s r) x g in
      let named : text_eq (chunk_id sha256 x) id ≡ true =
        ap (λ b. text_eq (chunk_id sha256 b) id) (sym is_old) ∙ good in
      elim (Bool-cases (text_eq r addr)) [
        | inl e ↦ unfold get_chunk_replica in rw (e, g, get_chunk_replica) refl
        | inr e ↦
            let answer : handle_internal_chunk_get sha256 id (s r) ≡ (200, x) =
              unfold handle_internal_chunk_get in rw (g, handle_internal_chunk_get) refl in
            let reply : get_chunk_replica sha256 net addr r id s
                ≡ download sha256 id (handle_internal_chunk_get sha256 id (s r))
                    (net.arrives r (handle_internal_chunk_get sha256 id (s r)).1) =
              unfold get_chunk_replica in rw (e, get_chunk_replica) refl in
            let taken : download sha256 id (200, x) (some x) ≡ some x =
              unfold download in rw (named, download) refl in
            reply
            ∙ ap (λ p. download sha256 id p (net.arrives r p.1)) answer
            ∙ ap (download sha256 id (200, x)) a
            ∙ taken
      ]

  pub get_chunk-found :
      (net : ChunkNet) (addr : Text) (rs : List Text) (id r : Text) (s : Stores) (x : List ℕ)
      → contains rs r ≡ true
      → get_chunk_replica sha256 net addr r id s ≡ some x
      → text_eq (chunk_id sha256 x) id ≡ true
      → (y : List ℕ) × (q : Text) × (get_chunk sha256 net addr rs id s ≡ some (y, q))
  get_chunk-found net addr [] id r s x c e named = absurd (unfold contains in ground (arith, c))
  get_chunk-found net addr (q ∷ rs) id r s x c e named = elim (Bool-cases (text_eq q r)) [
    | inl same ↦
        let here : get_chunk_replica sha256 net addr q id s ≡ some x =
          ap (λ k. get_chunk_replica sha256 net addr k id s) ((text_eq_iff q r).0 same) ∙ e in
        (x, q, get_chunk-arrived net addr q rs id s x here ∙ rw named refl)
    | inr other ↦
        let (y, p, later) =
          get_chunk-found net addr rs id r s x (unfold contains in ground (arith, c, other)) e
            named in
        elim (Option-cases (get_chunk_replica sha256 net addr q id s)) [
          | inl none' ↦ (y, p, get_chunk-failed net addr q rs id s none' ∙ later)
          | inr (z, found) ↦
              let step = get_chunk-arrived net addr q rs id s z found in
              elim (Bool-cases (text_eq (chunk_id sha256 z) id)) [
                | inl f ↦ (z, q, step ∙ rw f refl)
                | inr f ↦ (y, p, step ∙ rw f later)
              ]
        ]
  ]

  -- If PutChunk of a content returns an id, with a write quorum W, and since then no node has lost
  -- a readable chunk, and the downloads arrive as they were sent from more than N - W of the N
  -- replicas, whatever arrives from the others, then GetChunk of the id returns the content, by
  -- any node, if SHA-256 gives 32 bytes for the content and no other content has its id.
  pub get_chunk-put_chunk :
      (net net' : ChunkNet) (addr addr' : Text) (w : ℕ) (rs : List Text) (bytes : List ℕ)
      (s t : Stores) (id : Text) (sound : Text → Bool)
      → Hashes sha256 bytes
      → (put_chunk sha256 net addr w rs bytes s).0 ≡ some id
      → Kept (put_chunk sha256 net addr w rs bytes s).1 t
      → ((r : Text) → sound r ≡ true → net'.arrives r bytes ≡ some bytes)
      → length rs < w + count sound rs
      → (source : Text) × (get_chunk sha256 net' addr' rs id t ≡ some (bytes, source))
  get_chunk-put_chunk net net' addr addr' w rs bytes s t id sound h ok kept arrive meet =
      let u = (put_chunk sha256 net addr w rs bytes s).1 in
      let (named, quorum) = put_chunk-quorum net addr w rs bytes s id h ok in
      let (r, (c, (has, well))) = count_overlap (holds id u) sound rs (omega arith) in
      let (x, stored) = read_of (get sha256 id (u r)) has in
      let there = get-read sha256 id (u r) x stored in
      let same : x ≡ bytes = h.unique x (
        ap (chunk_id sha256) (sym there.1.1.1.0)
        ∙ (text_eq_iff (chunk_id sha256 there.0.bytes) id).0 there.1.1.0
        ∙ sym named) in
      let now : get sha256 id (t r) ≡ read bytes = kept r id bytes (stored ∙ ap read same) in
      let (y, q, found) =
        get_chunk-found net' addr' rs id r t bytes c
          (get_chunk_replica-read net' addr' r id t bytes now (arrive r well))
          ((text_eq_iff (chunk_id sha256 bytes) id).1 named) in
      let right = chunk_id-get_chunk net' addr' rs id t y q found in
      (q, found ∙ ap (λ z. some (z, q)) (h.unique y (right.0 ∙ sym named)))
