-- ===== src/Node/Gc/Marks.antt =====
-- gc.go: the marks of the chunks that an object mentions.
use minidist.Base.{
  ℕ, ◌≡◌, ◌≢◌, refl, sym, ap, ◌∙◌, inl, inr, ◌⊎◌, true, false, Option, none, some, List, [], ◌∷◌,
  arith, ◌==◌, Bool-cases, Option-cases,
}
use mathlib.Core.Path.{subst}
use mathlib.Core.Option.{some-injective}
use minidist.Base.Text.{Text, text_eq, text_eq_iff}
use minidist.Base.Assoc.{Assoc, lookup, text_eq_inst}
use minidist.Base.Sets.{contains}
use minidist.Store.Version.{Value}
use minidist.Store.Snapshot.{Codec}
use minidist.Object.{ChunkInfo, Metadata, metadata_key_prefix}
use minidist.Node.Gc.{
  GcMark, has_prefix, add_id, add_infos, add_ids, mark_live_chunks, collect_marks,
}

no_values : (key : Text) (value : Value) → lookup key [] ≢ some value
unfolding lookup
no_values key value e = cc

first_value :
    (k key : Text) (v : Value) (rest : Assoc Text Value)
    → text_eq k key ≡ true
    → lookup key ((k, v) ∷ rest) ≡ some v
unfolding lookup
first_value k key v rest s = rw s refl

later_value :
    (k key : Text) (v : Value) (rest : Assoc Text Value)
    → text_eq k key ≡ false
    → lookup key ((k, v) ∷ rest) ≡ lookup key rest
unfolding lookup
later_value k key v rest s = rw s refl

no_members : (x : Text) → contains [] x ≢ true
unfolding contains
no_members x e = cc

other_member :
    (member x : Text) (rest : List Text)
    → text_eq member x ≡ false
    → contains (member ∷ rest) x ≡ true
    → contains rest x ≡ true
unfolding contains
other_member member x rest o i = ground arith

no_answer : (o : Option GcMark) (m : GcMark) → o ≡ some m → o ≢ none
no_answer o m e = λ f. cc

module _ (id : Text) where
  add_id-keeps :
      (j : Text) (live : List Text) → contains live id ≡ true → contains (add_id j live) id ≡ true
  unfolding add_id contains
  add_id-keeps j live h = ground arith

  add_id-adds : (live : List Text) → contains (add_id id live) id ≡ true
  unfolding add_id contains
  add_id-adds live = ground (arith, text_eq_iff id id)

  add_infos-keeps :
      (infos : List ChunkInfo) (live : List Text)
      → contains live id ≡ true
      → contains (add_infos infos live) id ≡ true
  unfolding add_infos
  add_infos-keeps [] live h = h
  add_infos-keeps (info ∷ rest) live h =
      add_infos-keeps rest (add_id info.id live) (add_id-keeps info.id live h)

  add_ids-keeps :
      (ids live : List Text) → contains live id ≡ true → contains (add_ids ids live) id ≡ true
  unfolding add_ids
  add_ids-keeps [] live h = h
  add_ids-keeps (j ∷ rest) live h = add_ids-keeps rest (add_id j live) (add_id-keeps j live h)

  add_ids-adds :
      (ids live : List Text) → contains ids id ≡ true → contains (add_ids ids live) id ≡ true
  unfolding add_ids contains
  add_ids-adds [] live h = absurd (ground arith)
  add_ids-adds (j ∷ rest) live h = elim (Bool-cases (text_eq j id)) [
    | inl e ↦ add_ids-keeps rest (add_id j live) (
        subst (λ k. contains (add_id k live) id ≡ true) (sym ((text_eq_iff j id).0 e))
          (add_id-adds live))
    | inr e ↦ add_ids-adds rest (add_id j live) (ground arith)
  ]

  -- An object's chunks mention the id.
  abbrev pub Mentions : List ChunkInfo → Type 0
  Mentions [] = ⊥
  Mentions (info ∷ rest) = (info.id ≡ id) ⊎ Mentions rest

  add_infos-adds :
      (infos : List ChunkInfo) (live : List Text)
      → Mentions infos
      → contains (add_infos infos live) id ≡ true
  unfolding add_infos
  add_infos-adds [] live h = elim h [ ]
  add_infos-adds (info ∷ rest) live (inl e) =
      add_infos-keeps rest (add_id info.id live)
        (subst (λ k. contains (add_id k live) id ≡ true) (sym e) (add_id-adds live))
  add_infos-adds (info ∷ rest) live (inr h) = add_infos-adds rest (add_id info.id live) h

  -- The id is among the live ones, unless the round has failed.
  abbrev pub Holds : Option (List Text) → Type 0
  Holds none = Unit
  Holds (some live) = contains live id ≡ true

  module _ (codec : Codec Metadata) where
    mark-Holds :
        (values : Assoc Text Value) (live : List Text)
        → contains live id ≡ true
        → Holds (mark_live_chunks codec values live)
    unfolding mark_live_chunks
    mark-Holds [] live h = h
    mark-Holds ((key, value) ∷ rest) live h =
        elim (Bool-cases (has_prefix metadata_key_prefix key)) [
          | inr p ↦ rw (p, mark_live_chunks) (mark-Holds rest live h)
          | inl p ↦ elim (Bool-cases value.deleted) [
            | inl d ↦ rw (p, d, mark_live_chunks) (mark-Holds rest live h)
            | inr d ↦ elim (Option-cases (codec.unmarshal value.bytes)) [
              | inl u ↦ rw (p, d, u, mark_live_chunks) tt
              | inr (metadata, u) ↦
                  rw (p, d, u, mark_live_chunks)
                    (mark-Holds rest (add_infos metadata.chunks live)
                      (add_infos-keeps metadata.chunks live h))
            ]
          ]
        ]

    -- A visible object that mentions the id.
    pub mark-finds :
        (values : Assoc Text Value) (live : List Text) (key : Text) (value : Value)
        (metadata : Metadata)
        → lookup key values ≡ some value
        → has_prefix metadata_key_prefix key ≡ true
        → value.deleted ≡ false
        → codec.unmarshal value.bytes ≡ some metadata
        → Mentions metadata.chunks
        → Holds (mark_live_chunks codec values live)
    unfolding mark_live_chunks
    mark-finds [] live key value metadata e p d u h = absurd (no_values key value e)
    mark-finds ((k, v) ∷ rest) live key value metadata e p d u h =
        elim (Bool-cases (text_eq k key)) [
          | inl s ↦
              let same_key = (text_eq_iff k key).0 s in
              let same : v ≡ value =
                some-injective v value (sym (first_value k key v rest s) ∙ e) in
              let p' : has_prefix metadata_key_prefix k ≡ true =
                ap (has_prefix metadata_key_prefix) same_key ∙ p in
              let d' : v.deleted ≡ false = ap (λ w. w.deleted) same ∙ d in
              let u' : codec.unmarshal v.bytes ≡ some metadata =
                ap (λ w. codec.unmarshal w.bytes) same ∙ u in
              rw (p', d', u', mark_live_chunks)
                (mark-Holds rest (add_infos metadata.chunks live)
                  (add_infos-adds metadata.chunks live h))
          | inr s ↦
              let there = sym (later_value k key v rest s) ∙ e in
              let found : (live' : List Text) → Holds (mark_live_chunks codec rest live') =
                λ live'. mark-finds rest live' key value metadata there p d u h in
              elim (Bool-cases (has_prefix metadata_key_prefix k)) [
                | inr q ↦ rw (q, mark_live_chunks) (found live)
                | inl q ↦ elim (Bool-cases v.deleted) [
                  | inl t ↦ rw (q, t, mark_live_chunks) (found live)
                  | inr t ↦ elim (Option-cases (codec.unmarshal v.bytes)) [
                    | inl w ↦ rw (q, t, w, mark_live_chunks) tt
                    | inr (m, w) ↦ rw (q, t, w, mark_live_chunks) (found (add_infos m.chunks live))
                  ]
                ]
              ]
        ]

  collect-keeps :
      (expected : ℕ) (marks : Text → Option GcMark) (members live : List Text)
      → contains live id ≡ true
      → Holds (collect_marks expected marks members live)
  unfolding collect_marks
  collect-keeps expected marks [] live h = h
  collect-keeps expected marks (member ∷ rest) live h = elim (Option-cases (marks member)) [
    | inl e ↦ rw (e, collect_marks) tt
    | inr (mark, e) ↦ elim (Bool-cases (mark.config_version == expected)) [
      | inr v ↦ rw (e, v, collect_marks) tt
      | inl v ↦
          rw (e, v, collect_marks)
            (collect-keeps expected marks rest (add_ids mark.live_chunks live)
              (add_ids-keeps mark.live_chunks live h))
    ]
  ]

  pub collect-finds :
      (expected : ℕ) (marks : Text → Option GcMark) (members live : List Text) (x : Text)
      (mark : GcMark)
      → contains members x ≡ true
      → marks x ≡ some mark
      → contains mark.live_chunks id ≡ true
      → Holds (collect_marks expected marks members live)
  unfolding collect_marks
  collect-finds expected marks [] live x mark i e h = absurd (no_members x i)
  collect-finds expected marks (member ∷ rest) live x mark i e h =
      elim (Option-cases (marks member)) [
        | inl n ↦ rw (n, collect_marks) tt
        | inr (m, n) ↦ elim (Bool-cases (m.config_version == expected)) [
          | inr v ↦ rw (n, v, collect_marks) tt
          | inl v ↦ elim (Bool-cases (text_eq member x)) [
            | inr o ↦
                rw (n, v, collect_marks)
                  (collect-finds expected marks rest (add_ids m.live_chunks live) x mark
                    (other_member member x rest o i) e h)
            | inl o ↦
                let same : m ≡ mark =
                  some-injective m mark (sym n ∙ ap marks ((text_eq_iff member x).0 o) ∙ e) in
                rw (n, v, collect_marks)
                  (collect-keeps expected marks rest (add_ids m.live_chunks live) (
                    add_ids-adds m.live_chunks live (ap (λ k. contains k.live_chunks id) same ∙ h)))
          ]
        ]
      ]

  -- A member that does not answer fails the round.
  pub collect_stops :
      (expected : ℕ) (marks : Text → Option GcMark) (members live : List Text) (x : Text)
      → contains members x ≡ true
      → marks x ≡ none
      → Holds (collect_marks expected marks members live)
  unfolding collect_marks
  collect_stops expected marks [] live x i e = absurd (no_members x i)
  collect_stops expected marks (member ∷ rest) live x i e = elim (Option-cases (marks member)) [
    | inl n ↦ rw (n, collect_marks) tt
    | inr (m, n) ↦ elim (Bool-cases (m.config_version == expected)) [
      | inr v ↦ rw (n, v, collect_marks) tt
      | inl v ↦ elim (Bool-cases (text_eq member x)) [
        | inr o ↦
            rw (n, v, collect_marks)
              (collect_stops expected marks rest (add_ids m.live_chunks live) x
                (other_member member x rest o i) e)
        | inl o ↦ absurd (no_answer (marks member) m n (ap marks ((text_eq_iff member x).0 o) ∙ e))
      ]
    ]
  ]
