-- ===== src/Store/Recovery/Replays.antt =====
-- memory.go: replaying the log of `OpenMemory` on a snapshot, and once more on the outcome, as after a
-- crash between the rename of a snapshot and the truncation of the log.
use minidist.Base.{
  ℕ, max, ◌≡◌, ◌≢◌, refl, sym, ap, ◌∙◌, inl, inr, none, some, List, [], ◌∷◌, arith, Option-cases,
}
use minidist.Base.Text.{Text}
use minidist.Base.Assoc.{lookup, text_eq_inst}
use mathlib.Core.Option.{some-injective}
use minidist.Store.Memory.{Contents, Entry, apply_entry, apply_bytes}
use minidist.Store.Snapshot.{Codec}
use minidist.Store.Wal.Replay.{apply_all, first-applies, apply_all-cons, apply_all-nil}
use minidist.Store.Recovery.Effects.{
  raise, apply_entry-effect, apply_entry-raise, Same, bytes_effect, bytes_raise, effects, raises,
  effects-Settles, idempotent,
}

raise_bound : (entry : Entry) (n : ℕ) → raise entry n ≡ max n (raise entry 0)
unfolding raise
raise_bound entry n = ground arith

-- The entries that are applied are those with a known operation, whatever the contents.
apply_entry-any :
    (entry : Entry) (c c' d : Contents)
    → apply_entry entry c ≡ some c'
    → (d' : Contents) × (apply_entry entry d ≡ some d')
apply_entry-any entry c c' d e = elim (Option-cases (apply_entry entry d)) [
  | inr p ↦ p
  | inl h ↦ absurd (unfold apply_entry in ground arith)
]

module _ (entries : Codec Entry) where
  no_bytes :
      (bytes : List ℕ) (c c' : Contents)
      → entries.unmarshal bytes ≡ none
      → apply_bytes entries bytes c ≢ some c'
  no_bytes bytes c c' h e =
      let n : apply_bytes entries bytes c ≡ none = unfold apply_bytes in rw (h, apply_bytes) refl in
      ground arith

  unmarshals :
      (bytes : List ℕ) (c c' : Contents)
      → apply_bytes entries bytes c ≡ some c'
      → (entry : Entry) × ((entries.unmarshal bytes ≡ some entry) × (apply_entry entry c ≡ some c'))
  unmarshals bytes c c' e = elim (Option-cases (entries.unmarshal bytes)) [
    | inl h ↦ absurd (no_bytes bytes c c' h e)
    | inr (entry, h) ↦
        let a : apply_bytes entries bytes c ≡ apply_entry entry c =
          unfold apply_bytes in rw (h, apply_bytes) refl in
        (entry, (h, sym a ∙ e))
  ]

  bytes_raise_bound :
      (bytes : List ℕ) (n : ℕ) → bytes_raise entries bytes n ≡ max n (bytes_raise entries bytes 0)
  bytes_raise_bound bytes n = elim (Option-cases (entries.unmarshal bytes)) [
    | inl h ↦ unfold bytes_raise in rw (h, bytes_raise) (omega arith)
    | inr (entry, h) ↦ unfold bytes_raise in rw (h, bytes_raise) (raise_bound entry n)
  ]

  raises_bound : (ds : List (List ℕ)) (n : ℕ) → raises entries ds n ≡ max n (raises entries ds 0)
  raises_bound [] n = omega arith
  raises_bound (bytes ∷ more) n = omega (
    arith,
    bytes_raise_bound bytes n,
    raises_bound more (bytes_raise entries bytes n),
    raises_bound more (bytes_raise entries bytes 0),
  )

  apply_bytes-effect :
      (bytes : List ℕ) (c c' : Contents)
      → apply_bytes entries bytes c ≡ some c'
      → ((k : Text) → lookup k c'.values ≡ bytes_effect entries k bytes (lookup k c.values))
        × (c'.max_version_counter ≡ bytes_raise entries bytes c.max_version_counter)
  apply_bytes-effect bytes c c' e =
      let (entry, (u, a)) = unmarshals bytes c c' e in
      (
        λ k. unfold bytes_effect in rw (u, bytes_effect) (apply_entry-effect entry c c' k a),
        unfold bytes_raise in rw (u, bytes_raise) (apply_entry-raise entry c c' a),
      )

  -- A log does to each key what its entries do, one after the other.
  pub apply_all-effects :
      (ds : List (List ℕ)) (c c' : Contents)
      → apply_all (apply_bytes entries) ds c ≡ some c'
      → ((k : Text) → lookup k c'.values ≡ effects entries k ds (lookup k c.values))
        × (c'.max_version_counter ≡ raises entries ds c.max_version_counter)
  apply_all-effects [] c c' a =
      let e : c ≡ c' = some-injective c c' (sym (apply_all-nil (apply_bytes entries) c) ∙ a) in
      (λ k. ap (λ d. lookup k d.values) (sym e), ap (λ d. d.max_version_counter) (sym e))
  apply_all-effects (bytes ∷ more) c c' a =
      let (m, (b, r)) = first-applies (apply_bytes entries) bytes more c c' a in
      let (l, n) = apply_bytes-effect bytes c m b in
      let (l', n') = apply_all-effects more m c' r in
      (λ k. l' k ∙ ap (effects entries k more) (l k), n' ∙ ap (raises entries more) n)

  -- A log that can be replayed can be replayed on any contents.
  pub apply_all-any :
      (ds : List (List ℕ)) (c c' d : Contents)
      → apply_all (apply_bytes entries) ds c ≡ some c'
      → (d' : Contents) × (apply_all (apply_bytes entries) ds d ≡ some d')
  apply_all-any [] c c' d a = (d, apply_all-nil (apply_bytes entries) d)
  apply_all-any (bytes ∷ more) c c' d a =
      let (m, (b, r)) = first-applies (apply_bytes entries) bytes more c c' a in
      let (entry, (u, h)) = unmarshals bytes c m b in
      let (d1, p) = apply_entry-any entry c m d h in
      let (d', q) = apply_all-any more m c' d1 r in
      let b' : apply_bytes entries bytes d ≡ some d1 =
        unfold apply_bytes in rw (u, apply_bytes) p in
      (d', apply_all-cons (apply_bytes entries) bytes more d d1 b' ∙ q)

  -- Equal contents have equal outcomes.
  pub apply_all-Same :
      (ds : List (List ℕ)) (c d c' d' : Contents)
      → Same c d
      → apply_all (apply_bytes entries) ds c ≡ some c'
      → apply_all (apply_bytes entries) ds d ≡ some d'
      → Same c' d'
  apply_all-Same ds c d c' d' (s, t) a b =
      let (l, n) = apply_all-effects ds c c' a in
      let (l', n') = apply_all-effects ds d d' b in
      (
        λ k. l k ∙ ap (effects entries k ds) (s k) ∙ sym (l' k),
        n ∙ ap (raises entries ds) t ∙ sym n',
      )

  -- A log that was replayed can be replayed once more on the outcome, and no read and no version
  -- counter then differs.
  pub replay_again :
      (ds : List (List ℕ)) (c c' : Contents)
      → apply_all (apply_bytes entries) ds c ≡ some c'
      → (c'' : Contents) × ((apply_all (apply_bytes entries) ds c' ≡ some c'') × Same c'' c')
  replay_again ds c c' a =
      let (c'', b) = apply_all-any ds c c' c' a in
      let (l, n) = apply_all-effects ds c c' a in
      let (l', n') = apply_all-effects ds c' c'' b in
      let twice : (k : Text) → lookup k c''.values ≡ lookup k c'.values = λ k.
        l' k
        ∙ ap (effects entries k ds) (l k)
        ∙ idempotent (effects entries k ds) (effects-Settles entries k ds) (lookup k c.values)
        ∙ sym (l k) in
      let counter : c''.max_version_counter ≡ c'.max_version_counter = omega (
        arith,
        n,
        n',
        raises_bound ds c.max_version_counter,
        raises_bound ds c'.max_version_counter,
      ) in
      (c'', (b, (twice, counter)))
