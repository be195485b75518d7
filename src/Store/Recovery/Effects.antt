-- ===== src/Store/Recovery/Effects.antt =====
-- memory.go: what the `switch` of `OpenMemory` does to one key and to the version counter, and what a
-- log does that is replayed on its own outcome.
use minidist.Base.{
  ℕ, max, ◌≡◌, refl, sym, ap, ◌∙◌, inl, inr, ◌⊎◌, false, not, Option, none, some, List, [], ◌∷◌,
  arith, if◌then◌else◌, Bool-cases, Option-cases,
}
use minidist.Base.Text.{Text, text_eq, text_eq_iff}
use minidist.Base.Assoc.{lookup, text_eq_inst, lookup-insert, lookup-remove}
use mathlib.Core.Path.{subst, fun_ext}
use minidist.Store.Version.{Value, is_same}
use minidist.Store.Memory.{Contents, Entry, wal_op_set, force_set, force_delete, apply_entry}
use minidist.Store.Snapshot.{Codec}

-- What an entry makes of the value of a key, and of the version counter.
unfoldable pub effect : Text → Entry → Option Value → Option Value
effect k entry v =
    if not (text_eq entry.key k)
    then v
    else if text_eq entry.op wal_op_set
    then some entry.value
    else elim v [
      | none ↦ none
      | some current ↦ if is_same current.version entry.version then none else some current
    ]

unfoldable pub raise : Entry → ℕ → ℕ
raise entry n = if text_eq entry.op wal_op_set then max n entry.value.version.counter else n

pub apply_entry-effect :
    (entry : Entry) (c c' : Contents) (k : Text)
    → apply_entry entry c ≡ some c'
    → lookup k c'.values ≡ effect k entry (lookup k c.values)
unfolding apply_entry force_set force_delete effect
apply_entry-effect entry c c' k e = ground (
  arith,
  text_eq_iff entry.key k,
  lookup-insert entry.key k entry.value c.values,
  lookup-remove entry.key k c.values,
)

pub apply_entry-raise :
    (entry : Entry) (c c' : Contents)
    → apply_entry entry c ≡ some c'
    → c'.max_version_counter ≡ raise entry c.max_version_counter
unfolding apply_entry force_set force_delete raise
apply_entry-raise entry c c' e = ground arith

-- A change of one key's value that forgets it, or keeps it or drops it.
abbrev pub Settles : (Option Value → Option Value) → Type 0
Settles f =
    ((v w : Option Value) → f v ≡ f w)
    ⊎ ((f none ≡ none) × ((v : Option Value) → (f v ≡ v) ⊎ (f v ≡ none)))

effect_keeps :
    (k : Text) (entry : Entry) (v : Option Value)
    → text_eq entry.op wal_op_set ≡ false
    → (effect k entry v ≡ v) ⊎ (effect k entry v ≡ none)
unfolding effect
effect_keeps k entry v e = ground arith

effect-Settles : (k : Text) (entry : Entry) → Settles (effect k entry)
effect-Settles k entry = elim (Bool-cases (text_eq entry.key k)) [
  | inr e ↦ inr (unfold effect in ground arith, λ v. inl (unfold effect in ground arith))
  | inl e ↦ elim (Bool-cases (text_eq entry.op wal_op_set)) [
    | inl h ↦ inl (λ v w. unfold effect in ground arith)
    | inr h ↦ inr (unfold effect in ground arith, λ v. effect_keeps k entry v h)
  ]
]

after-Settles : (f g : Option Value → Option Value) → Settles f → Settles g → Settles (λ v. g (f v))
after-Settles f g (inl p) q = inl (λ v w. ap g (p v w))
after-Settles f g (inr p) (inl q) = inl (λ v w. q (f v) (f w))
after-Settles f g (inr (n, p)) (inr (m, q)) = inr (
  ap g n ∙ m,
  λ v. elim (p v) [
    | inl e ↦ elim (q v) [ inl h ↦ inl (ap g e ∙ h) | inr h ↦ inr (ap g e ∙ h) ]
    | inr e ↦ inr (ap g e ∙ m)
  ],
)

pub idempotent : (f : Option Value → Option Value) → Settles f → (v : Option Value) → f (f v) ≡ f v
idempotent f (inl p) v = p (f v) v
idempotent f (inr (n, p)) v = elim (p v) [ inl e ↦ ap f e | inr e ↦ ap f e ∙ n ∙ sym e ]

-- Two contents that no read tells apart.
abbrev pub Same : Contents → Contents → Type 0
Same c d =
    ((k : Text) → lookup k c.values ≡ lookup k d.values)
    × (c.max_version_counter ≡ d.max_version_counter)

module _ (entries : Codec Entry) where
  unfoldable pub bytes_effect : Text → List ℕ → Option Value → Option Value
  bytes_effect k bytes v = elim (entries.unmarshal bytes) [
    | none ↦ v
    | some entry ↦ effect k entry v
  ]

  unfoldable pub bytes_raise : List ℕ → ℕ → ℕ
  bytes_raise bytes n = elim (entries.unmarshal bytes) [ none ↦ n | some entry ↦ raise entry n ]

  abbrev pub effects : Text → List (List ℕ) → Option Value → Option Value
  effects k [] v = v
  effects k (bytes ∷ more) v = effects k more (bytes_effect k bytes v)

  abbrev pub raises : List (List ℕ) → ℕ → ℕ
  raises [] n = n
  raises (bytes ∷ more) n = raises more (bytes_raise bytes n)

  bytes_effect-Settles : (k : Text) (bytes : List ℕ) → Settles (bytes_effect k bytes)
  bytes_effect-Settles k bytes = elim (Option-cases (entries.unmarshal bytes)) [
    | inl e ↦ inr (
      unfold bytes_effect in rw (e, bytes_effect) refl,
      λ v. inl (unfold bytes_effect in rw (e, bytes_effect) refl),
    )
    | inr (entry, e) ↦
        let same : (v : Option Value) → bytes_effect k bytes v ≡ effect k entry v =
          λ v. unfold bytes_effect in rw (e, bytes_effect) refl in
        subst Settles (sym (fun_ext same)) (effect-Settles k entry)
  ]

  pub effects-Settles : (k : Text) (ds : List (List ℕ)) → Settles (effects k ds)
  effects-Settles k [] = inr (refl, λ v. inl refl)
  effects-Settles k (bytes ∷ more) =
      after-Settles (bytes_effect k bytes) (effects k more) (bytes_effect-Settles k bytes)
        (effects-Settles k more)
