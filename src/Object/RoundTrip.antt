-- ===== src/Object/RoundTrip.antt =====
-- object/store.go: the bytes that `Put` takes apart, `WriteTo` and `Get` put together.
use minidist.Base.{
  take++drop, ℕ, zero, suc, ◌+◌, ◌≤◌, ◌<◌, ◌≡◌, ◌≢◌, refl, sym, ap, ◌∙◌, inl, inr, true, false,
  Option, none, some, List, [], ◌∷◌, ◌++◌, arith, ltb, ◌==◌, length, length-append, length-drop,
  take, drop, Bool-cases, Option-cases,
}
use mathlib.Core.Path.{subst}
use minidist.Base.Text.{Text}
use minidist.Object.{ChunkInfo, ChunkStore, cons_chunk, write_loop, read_chunks, sum_sizes}

-- What the object store relies on, for the contents of interest: a chunk that was put is got, and later
-- puts leave it there.
pub record Keeps {S : Type 0} (chunks : ChunkStore S) (Of : List ℕ → Type 0) : Type 0 where
  pub got :
      (d : List ℕ) (s : S) (id : Text)
      → Of d
      → (chunks.put_chunk d s).0 ≡ some id
      → chunks.get_chunk id (chunks.put_chunk d s).1 ≡ some d
  pub kept :
      (d : List ℕ) (s : S) (id : Text) (x : List ℕ)
      → Of x
      → chunks.get_chunk id s ≡ some x
      → chunks.get_chunk id (chunks.put_chunk d s).1 ≡ some x

drop-nil : (n : ℕ) → drop {A = ℕ} n [] ≡ []
drop-nil zero = refl
drop-nil (suc n) = refl

drop-drop : (k n : ℕ) (xs : List ℕ) → drop k (drop n xs) ≡ drop (n + k) xs
drop-drop k zero xs = ap (λ m. drop m xs) (omega arith)
drop-drop k (suc n) [] = drop-nil k ∙ sym (drop-nil (suc n + k))
drop-drop k (suc n) (x ∷ xs) =
    let e : suc (n + k) ≡ suc n + k = omega arith in drop-drop k n xs ∙ ap (λ m. drop m (x ∷ xs)) e

take_all : (n : ℕ) (xs : List ℕ) → length xs ≤ n → take n xs ≡ xs
take_all zero [] h = refl
take_all zero (x ∷ xs) h = absurd (omega arith)
take_all (suc n) [] h = refl
take_all (suc n) (x ∷ xs) h = ap (λ t. x ∷ t) (take_all n xs (omega arith))

cons_ends :
    {S : Type 0}
    → (info : ChunkInfo) (more : Option (Option (List ChunkInfo) × S)) → more ≢ none
    → cons_chunk info more ≢ none
cons_ends info none h = λ e. h refl
cons_ends info (some (none, s)) h = λ e. cc
cons_ends info (some (some infos, s)) h = λ e. cc

module _ {S : Type 0} (chunks : ChunkStore S) (Of : List ℕ → Type 0) (laws : Keeps chunks Of)
    (chunk_size : ℕ) (some_size : 0 < chunk_size) where
  -- Every piece that is cut from a content is of interest.
  abbrev pub Pieces : List ℕ → Type 0
  Pieces rest = (k : ℕ) → Of (take chunk_size (drop k rest))

  first_piece : (rest : List ℕ) → Pieces rest → Of (take chunk_size rest)
  first_piece rest all = all 0

  later-Pieces : (rest : List ℕ) → Pieces rest → Pieces (drop chunk_size rest)
  later-Pieces rest all k =
      subst (λ t. Of (take chunk_size t)) (sym (drop-drop k chunk_size rest)) (all (chunk_size + k))

  module _ (fuel : ℕ) (rest : List ℕ) (s : S) where
    abbrev piece : List ℕ
    piece = take chunk_size rest

    abbrev after : S
    after = (chunks.put_chunk piece s).1

    abbrev info : Text → ChunkInfo
    info id = record { id = id; size = length piece }

    at_end :
        (length rest == 0) ≡ true
        → write_loop chunks (suc fuel) chunk_size rest s ≡ some (some [], s)
    at_end e = unfold write_loop in rw (e, write_loop) refl

    put_failed :
        (length rest == 0) ≡ false
        → (chunks.put_chunk piece s).0 ≡ none
        → write_loop chunks (suc fuel) chunk_size rest s ≡ some (none, after)
    put_failed e p = unfold write_loop in rw (e, p, write_loop) refl

    last_piece :
        (id : Text)
        → (length rest == 0) ≡ false
        → (chunks.put_chunk piece s).0 ≡ some id
        → ltb (length rest) chunk_size ≡ true
        → write_loop chunks (suc fuel) chunk_size rest s ≡ some (some (info id ∷ []), after)
    last_piece id e p l = unfold write_loop in rw (e, p, l, write_loop) refl

    next_piece :
        (id : Text)
        → (length rest == 0) ≡ false
        → (chunks.put_chunk piece s).0 ≡ some id
        → ltb (length rest) chunk_size ≡ false
        → write_loop chunks (suc fuel) chunk_size rest s
          ≡ cons_chunk (info id) (write_loop chunks fuel chunk_size (drop chunk_size rest) after)
    next_piece id e p l = unfold write_loop in rw (e, p, l, write_loop) refl

  -- The loop ends.
  pub loop_ends :
      (fuel : ℕ) (rest : List ℕ) (s : S)
      → length rest < fuel
      → write_loop chunks fuel chunk_size rest s ≢ none
  loop_ends zero rest s h = absurd (omega arith)
  loop_ends (suc fuel) rest s h = elim (Bool-cases (length rest == 0)) [
    | inl e ↦ rw (at_end fuel rest s e) (λ q. cc)
    | inr e ↦ elim (Option-cases (chunks.put_chunk (take chunk_size rest) s).0) [
      | inl p ↦ rw (put_failed fuel rest s e p) (λ q. cc)
      | inr (id, p) ↦ elim (Bool-cases (ltb (length rest) chunk_size)) [
        | inl l ↦ rw (last_piece fuel rest s id e p l) (λ q. cc)
        | inr l ↦ rw (next_piece fuel rest s id e p l) (
            cons_ends (info fuel rest s id)
              (write_loop chunks fuel chunk_size (drop chunk_size rest) (after fuel rest s))
              (loop_ends fuel (drop chunk_size rest) (after fuel rest s)
                (ground (arith, length-drop chunk_size rest))))
      ]
    ]
  ]

  -- What was written is read back, and what was there before is still there.
  abbrev pub Wrote : List ℕ → S → Option (Option (List ChunkInfo) × S) → Type 0
  Wrote rest s none = Unit
  Wrote rest s (some (none, s')) = Unit
  Wrote rest s (some (some infos, s')) =
      ((read_chunks chunks infos s' ≡ some rest) × (sum_sizes infos ≡ length rest))
      × ((id : Text) (x : List ℕ)
          → Of x
          → chunks.get_chunk id s ≡ some x
          → chunks.get_chunk id s' ≡ some x)

  reads :
      (id : Text) (d out : List ℕ) (infos : List ChunkInfo) (s : S)
      → chunks.get_chunk id s ≡ some d
      → read_chunks chunks infos s ≡ some out
      → read_chunks chunks (record { id = id; size = length d } ∷ infos) s ≡ some (d ++ out)
  reads id d out infos s g r =
      let same : (length d == length d) ≡ true = ground arith in
      unfold read_chunks in rw (g, r, same, read_chunks) refl

  next-Wrote :
      (fuel : ℕ) (rest : List ℕ) (s : S) (id : Text) (more : Option (Option (List ChunkInfo) × S))
      → Of (take chunk_size rest)
      → (chunks.put_chunk (take chunk_size rest) s).0 ≡ some id
      → Wrote (drop chunk_size rest) (after fuel rest s) more
      → Wrote rest s (cons_chunk (info fuel rest s id) more)
  next-Wrote fuel rest s id none o p w = tt
  next-Wrote fuel rest s id (some (none, s')) o p w = tt
  next-Wrote fuel rest s id (some (some infos, s')) o p ((r, n), k) =
      let piece' = take chunk_size rest in
      let there = k id piece' o (laws.got piece' s id o p) in
      (
        (
          reads id piece' (drop chunk_size rest) infos s' there r
              ∙ ap (λ t. some t) (take++drop chunk_size rest),
          unfold sum_sizes in
              omega (
                arith,
                n,
                ap length (take++drop chunk_size rest),
                length-append piece' (drop chunk_size rest),
              ),
        ),
        λ j x q g. k j x q (laws.kept piece' s j x q g),
      )

  nothing_written : (rest : List ℕ) (s : S) → length rest ≡ 0 → Wrote rest s (some (some [], s))
  nothing_written [] s e = ((unfold read_chunks in refl, unfold sum_sizes in refl), λ id x q g. g)
  nothing_written (b ∷ rest) s e = absurd (omega arith)

  pub loop-Wrote :
      (fuel : ℕ) (rest : List ℕ) (s : S)
      → Pieces rest
      → Wrote rest s (write_loop chunks fuel chunk_size rest s)
  loop-Wrote zero rest s all = unfold write_loop in tt
  loop-Wrote (suc fuel) rest s all = elim (Bool-cases (length rest == 0)) [
    | inl e ↦
        subst (Wrote rest s) (sym (at_end fuel rest s e)) (nothing_written rest s (ground arith))
    | inr e ↦ elim (Option-cases (chunks.put_chunk (take chunk_size rest) s).0) [
      | inl p ↦ subst (Wrote rest s) (sym (put_failed fuel rest s e p)) tt
      | inr (id, p) ↦ elim (Bool-cases (ltb (length rest) chunk_size)) [
        | inl l ↦ subst (Wrote rest s) (sym (last_piece fuel rest s id e p l)) (
            next-Wrote fuel rest s id (some (some [], after fuel rest s)) (first_piece rest all) p (
              nothing_written (drop chunk_size rest) (after fuel rest s)
                (ground (arith, length-drop chunk_size rest))))
        | inr l ↦ subst (Wrote rest s) (sym (next_piece fuel rest s id e p l)) (
            next-Wrote fuel rest s id
              (write_loop chunks fuel chunk_size (drop chunk_size rest) (after fuel rest s))
              (first_piece rest all) p
              (loop-Wrote fuel (drop chunk_size rest) (after fuel rest s) (later-Pieces rest all)))
      ]
    ]
  ]
