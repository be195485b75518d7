-- ===== src/Store/Wal/Replay.antt =====
-- wal.go: `Replay` of a log whose records were all written.
use minidist.Base.{
  ℕ, suc, ◌+◌, ◌-◌, ◌≤◌, ◌<◌, ◌≡◌, refl, sym, ap, ◌∙◌, inl, inr, Bool, true, false, Option, none,
  some, List, [], ◌∷◌, ◌++◌, arith, if◌then◌else◌, length, length-append, take, drop, take-append,
  drop-append, Option-cases, All,
}
use native.Mathlib.Numerals.{unary_clauses}
use mathlib.Core.Option.{some-injective}
use mathlib.Core.List.{append_assoc, append-nil}
use minidist.Store.Wal.{
  Wal, record_header, read_full, end_of_file, failed, unexpected_eof, read_record, replay_loop,
  replay, Replayed, ended, wal_header_size,
}
use minidist.Store.Wal.Records.{encode, encode_all, Fits, read_record-encode, length-record_header}

pub read_record-empty : (h : Bool) → read_record h [] ≡ end_of_file
unfolding read_record read_full
read_record-empty true = refl
read_record-empty false = refl

module _ {ℓ} {S : Type ℓ} (apply : List ℕ → S → Option S) where
  -- Applying records one after the other, as long as none fails.
  unfoldable pub apply_all : List (List ℕ) → S → Option S
  apply_all [] s = some s
  apply_all (bytes ∷ more) s = elim (apply bytes s) [ none ↦ none | some s' ↦ apply_all more s' ]

  pub apply_all-nil : (s : S) → apply_all [] s ≡ some s
  unfolding apply_all
  apply_all-nil s = refl

  pub apply_all-cons :
      (d : List ℕ) (ds : List (List ℕ)) (s s' : S)
      → apply d s ≡ some s'
      → apply_all (d ∷ ds) s ≡ apply_all ds s'
  apply_all-cons d ds s s' e = unfold apply_all in rw (e, apply_all) refl

  apply_all-failed :
      (d : List ℕ) (ds : List (List ℕ)) (s : S) → apply d s ≡ none → apply_all (d ∷ ds) s ≡ none
  apply_all-failed d ds s e = unfold apply_all in rw (e, apply_all) refl

  pub first-applies :
      (d : List ℕ) (ds : List (List ℕ)) (s s' : S)
      → apply_all (d ∷ ds) s ≡ some s'
      → (m : S) × ((apply d s ≡ some m) × (apply_all ds m ≡ some s'))
  first-applies d ds s s' e = elim (Option-cases (apply d s)) [
    | inl h ↦ ground (arith, apply_all-failed d ds s h)
    | inr (m, h) ↦ (m, (h, sym (apply_all-cons d ds s m h) ∙ e))
  ]

  pub apply_all-append :
      (ds es : List (List ℕ)) (s m : S)
      → apply_all ds s ≡ some m
      → apply_all (ds ++ es) s ≡ apply_all es m
  apply_all-append [] es s m e = ap (apply_all es) (some-injective s m (sym (apply_all-nil s) ∙ e))
  apply_all-append (d ∷ ds) es s m e =
      let (n, (a, r)) = first-applies d ds s m e in
      apply_all-cons d (ds ++ es) s n a ∙ apply_all-append ds es n m r

-- The bytes before the records.
abbrev pub start : Bool → ℕ
start h = if h then wal_header_size else 0

length-encode : (h : Bool) (bytes : List ℕ) → 0 < length (encode h bytes)
length-encode true bytes =
    omega (arith, length-append (record_header true bytes) bytes, length-record_header true bytes)
length-encode false bytes =
    omega (arith, length-append (record_header false bytes) bytes, length-record_header false bytes)

pub encode_all-append :
    (h : Bool) (ds : List (List ℕ)) (d : List ℕ)
    → encode_all h (ds ++ d ∷ []) ≡ encode_all h ds ++ encode h d
encode_all-append h [] d = append-nil (encode h d)
encode_all-append h (e ∷ ds) d =
    ap (λ t. encode h e ++ t) (encode_all-append h ds d)
    ∙ sym (append_assoc (encode h e) (encode_all h ds) (encode h d))

pub length-encode_all : (h : Bool) (ds : List (List ℕ)) → length ds ≤ length (encode_all h ds)
length-encode_all h [] = omega arith
length-encode_all h (d ∷ ds) =
    omega (
      arith,
      length-encode_all h ds,
      length-encode h d,
      length-append (encode h d) (encode_all h ds),
    )

module _ {ℓ} {S : Type ℓ} (apply : List ℕ → S → Option S) where
  step :
      (w : Wal) (d rest : List ℕ) (fuel offset records : ℕ) (s s' : S)
      → Fits d
      → apply d s ≡ some s'
      → replay_loop apply (suc fuel) w offset (encode w.has_header d ++ rest) records s
        ≡ replay_loop apply fuel w (offset + length (encode w.has_header d)) rest (records + 1) s'
  step w d rest fuel offset records s s' f a =
      let n : length (encode w.has_header d ++ rest) - length rest
          ≡ length (encode w.has_header d) =
        omega (arith, length-append (encode w.has_header d) rest) in
      unfold replay_loop in rw (read_record-encode w.has_header d rest f, a, n, replay_loop) refl

  zero_add : (n : ℕ) → 0 + n ≡ n
  zero_add n = omega arith

  suc-add : (m n : ℕ) → suc m + n ≡ suc (m + n)
  suc-add m n = omega arith

  -- The offset and the count, in the order in which the loop adds to them.
  offsets :
      (w : Wal) (xs ys tail : List ℕ) (fuel offset records n : ℕ) (s : S)
      → replay_loop apply fuel w (offset + length xs + length ys) tail (records + 1 + n) s
        ≡ replay_loop apply fuel w (offset + length (xs ++ ys)) tail (records + suc n) s
  offsets w xs ys tail fuel offset records n s =
      let p : offset + length xs + length ys ≡ offset + length (xs ++ ys) =
        omega (arith, length-append xs ys) in
      let q : records + 1 + n ≡ records + suc n = omega arith in
      ap (λ k. replay_loop apply fuel w k tail (records + 1 + n) s) p
      ∙ ap (λ k. replay_loop apply fuel w (offset + length (xs ++ ys)) tail k s) q

  -- The loop reads and applies the records that stand before `tail`, and goes on at `tail`.
  pub replay_loop-encode_all :
      (w : Wal) (ds : List (List ℕ)) (tail : List ℕ) (fuel offset records : ℕ) (s s' : S)
      → All Fits ds
      → apply_all apply ds s ≡ some s'
      → replay_loop apply (length ds + fuel) w offset (encode_all w.has_header ds ++ tail) records s
        ≡ replay_loop apply fuel w
            (offset + length (encode_all w.has_header ds))
            tail
            (records + length ds)
            s'
  replay_loop-encode_all w [] tail fuel offset records s s' f a = rw (zero_add fuel) (
      simp unary_clauses (
        ap (λ t. replay_loop apply fuel w offset tail records t)
          (some-injective s s' (sym (apply_all-nil apply s) ∙ a))))
  replay_loop-encode_all w (d ∷ ds) tail fuel offset records s s' f a =
      let (m, (am, rest)) = first-applies apply d ds s s' a in
      rw
        (
          append_assoc (encode w.has_header d) (encode_all w.has_header ds) tail,
          suc-add (length ds) fuel,
        )
        (step w d (encode_all w.has_header ds ++ tail) (length ds + fuel) offset records s m f.0 am
          ∙ replay_loop-encode_all w ds tail fuel (offset + length (encode w.has_header d))
              (records + 1) m s' f.1 rest
          ∙ offsets w (encode w.has_header d) (encode_all w.has_header ds) tail fuel offset records
              (length ds) s')

  pub replay_loop-end :
      (w : Wal) (fuel offset records : ℕ) (s : S)
      → replay_loop apply (suc fuel) w offset [] records s ≡ ended none records false w.file s
  replay_loop-end w fuel offset records s =
      unfold replay_loop in rw (read_record-empty w.has_header, replay_loop) refl

  -- `Replay` of a file that is `front`, records and a torn or empty tail, at the point of the tail.
  pub replay-tail :
      (w : Wal) (front tail : List ℕ) (ds : List (List ℕ)) (s s' : S)
      → w.file ≡ front ++ (encode_all w.has_header ds ++ tail)
      → length front ≡ start w.has_header
      → All Fits ds
      → apply_all apply ds s ≡ some s'
      → (fuel : ℕ) × (replay apply w s
          ≡ replay_loop apply
              (suc fuel)
              w
              (length (front ++ encode_all w.has_header ds))
              tail
              (length ds)
              s')
  replay-tail w front tail ds s s' e n f a =
      let body = encode_all w.has_header ds ++ tail in
      let d : drop (start w.has_header) w.file ≡ body = rw (e, sym n) (drop-append front body) in
      let m : suc (length w.file) ≡ length ds + suc (length w.file - length ds) = omega (
        arith,
        ap length e,
        length-append front body,
        length-append (encode_all w.has_header ds) tail,
        length-encode_all w.has_header ds,
      ) in
      let loop : ℕ → ℕ → List ℕ → Option (Replayed S) =
        λ fuel' offset rest. replay_loop apply fuel' w offset rest 0 s in
      let replay-start : replay apply w s
          ≡ loop (length ds + suc (length w.file - length ds)) (length front) body =
        unfold replay in
        (ap (λ k. loop k (start w.has_header) (drop (start w.has_header) w.file)) m
          ∙ ap (λ b. loop (length ds + suc (length w.file - length ds)) (start w.has_header) b) d
          ∙ ap (λ k. loop (length ds + suc (length w.file - length ds)) k body) (sym n)) in
      (
        length w.file - length ds,
        (replay-start
            ∙ replay_loop-encode_all w ds tail (suc (length w.file - length ds)) (length front) 0 s
                s' f a
            ∙ ap
                (λ k.
                  replay_loop apply (suc (length w.file - length ds)) w
                    (length front + length (encode_all w.has_header ds)) tail k s')
                (zero_add (length ds))
            ∙ ap (λ k. replay_loop apply (suc (length w.file - length ds)) w k tail (length ds) s')
                (sym (length-append front (encode_all w.has_header ds)))),
      )

  -- Replaying a log of whole records, with or without a file header, applies all of them in order,
  -- counts them, and leaves the file as it is.
  pub replay-encode_all :
      (w : Wal) (front : List ℕ) (ds : List (List ℕ)) (s s' : S)
      → w.file ≡ front ++ encode_all w.has_header ds
      → length front ≡ start w.has_header
      → All Fits ds
      → apply_all apply ds s ≡ some s'
      → replay apply w s ≡ ended none (length ds) false w.file s'
  replay-encode_all w front ds s s' e n f a =
      let whole : w.file ≡ front ++ (encode_all w.has_header ds ++ []) =
        rw (append-nil (encode_all w.has_header ds)) e in
      let (fuel, r) = replay-tail w front [] ds s s' whole n f a in
      r ∙ replay_loop-end w fuel (length (front ++ encode_all w.has_header ds)) (length ds) s'

  -- A tail that ends in the middle of a record is cut off, and the records before it are applied.
  pub replay-torn :
      (w : Wal) (front tail : List ℕ) (ds : List (List ℕ)) (s s' : S)
      → w.file ≡ front ++ (encode_all w.has_header ds ++ tail)
      → length front ≡ start w.has_header
      → All Fits ds
      → apply_all apply ds s ≡ some s'
      → read_record w.has_header tail ≡ failed unexpected_eof
      → replay apply w s ≡ ended none (length ds) true (front ++ encode_all w.has_header ds) s'
  replay-torn w front tail ds s s' e n f a torn =
      let (fuel, r) = replay-tail w front tail ds s s' e n f a in
      let valid = front ++ encode_all w.has_header ds in
      let cut : take (length valid) w.file ≡ valid =
        ap (take (length valid)) (e ∙ sym (append_assoc front (encode_all w.has_header ds) tail))
        ∙ take-append valid tail in
      r ∙ (unfold replay_loop in rw (torn, cut, replay_loop) refl)
