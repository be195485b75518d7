-- ===== src/Node/Hints.antt =====
-- hint.go: the hints of writes that a replica missed, a map under its mutex.
use minidist.Base.{
  ◌≡◌, ◌≢◌, refl, sym, ap, ◌∙◌, inl, inr, Bool, true, false, none, some, List, [], ◌∷◌, ◌++◌, arith,
  get_or, drop, if◌then◌else◌, Bool-cases, Option-cases,
}
use mathlib.Core.Option.{some-injective}
use minidist.Base.Text.{Text, text_eq, text_eq_iff}
use minidist.Base.Assoc.{Assoc, lookup, insert, remove, text_eq_inst, lookup-insert}
use minidist.Store.Version.{
  Version, Value, is_newer, is_same, is_same_iff, is_newer_irrefl, is_newer_trans,
}

pub record Hint : Type 0 where
  pub replica : Text
  pub key : Text
  pub value : Value

abbrev pub HintStore : Type 0
HintStore = Assoc Text Hint

-- `fmt.Sprintf("%s|%s", replica, key)`; 124 is '|'.
unfoldable pub hint_key : Text → Text → Text
hint_key replica key = replica ++ 124 ∷ key

unfoldable pub newer : Value → Value → Bool
newer a b = is_newer a.version b.version

unfoldable pub add_hint : Text → Text → Value → HintStore → HintStore
unfolding newer
add_hint replica key value h =
    let k = hint_key replica key in
    let fresh : Hint = record { replica = replica; key = key; value = value } in
    elim (lookup k h) [
      | none ↦ insert k fresh h
      | some current ↦ if newer value current.value then insert k fresh h else h
    ]

unfoldable pub remove_if_match : Text → Text → Version → HintStore → HintStore
remove_if_match replica key version h =
    let k = hint_key replica key in
    elim (lookup k h) [
      | none ↦ h
      | some current ↦ if is_same current.value.version version then remove k h else h
    ]

-- The loop of `flushHints` over the hints it listed, with whether each write arrives.
unfoldable pub flush_hints : (Hint → Bool) → List Hint → HintStore → HintStore
unfolding remove_if_match
flush_hints delivered [] h = h
flush_hints delivered (hint ∷ rest) h =
    flush_hints delivered rest
      (if delivered hint then remove_if_match hint.replica hint.key hint.value.version h else h)

-- Addresses have no '|'.
abbrev pub NoBar : Text → Type 0
NoBar [] = Unit
NoBar (c ∷ cs) = (c ≢ 124) × NoBar cs

-- Two hint keys are equal only if their replicas and their keys are, when the replicas contain no
-- '|'.
pub hint_key_injective :
    (a b k l : Text) → NoBar a → NoBar b → hint_key a k ≡ hint_key b l → (a ≡ b) × (k ≡ l)
unfolding hint_key
hint_key_injective [] [] k l p q e = (refl, cc)
hint_key_injective [] (d ∷ b) k l p q e = absurd (q.0 (sym (ap (λ t. get_or t 0 0) e)))
hint_key_injective (c ∷ a) [] k l p q e = absurd (p.0 (ap (λ t. get_or t 0 0) e))
hint_key_injective (c ∷ a) (d ∷ b) k l p q e =
    let (same, keys) = hint_key_injective a b k l p.1 q.1 (ap (λ t. drop 1 t) e) in
    let head : c ≡ d = ap (λ t. get_or t 0 0) e in (cc (head, same), keys)

pub lookup-add_hint :
    (replica key : Text) (value : Value) (h : HintStore)
    → (x : Hint) × ((lookup (hint_key replica key) (add_hint replica key value h) ≡ some x)
        × (is_newer value.version x.value.version ≡ false))
lookup-add_hint replica key value h =
    let k = hint_key replica key in
    let fresh : Hint = record { replica = replica; key = key; value = value } in
    let placed : lookup k (insert k fresh h) ≡ some fresh =
      rw (lookup-insert k k fresh h) (ground (arith, text_eq_iff k k)) in
    elim (Option-cases (lookup k h)) [
      | inl e ↦ (fresh, (unfold add_hint in rw (e, add_hint) placed, is_newer_irrefl value.version))
      | inr (current, e) ↦ elim (Bool-cases (is_newer value.version current.value.version)) [
        | inl n ↦
            (fresh, (unfold add_hint in rw (e, n, add_hint) placed, is_newer_irrefl value.version))
        | inr n ↦ (current, (unfold add_hint in rw (e, n, add_hint) e, n))
      ]
    ]

-- Removing a hint of a version that was sent does not touch the hint that the store holds after
-- the Add of a newer version for the same replica and key.
pub remove_if_match-add_hint :
    (replica key : Text) (value : Value) (sent : Version) (h : HintStore)
    → is_newer value.version sent ≡ true
    → lookup
        (hint_key replica key)
        (remove_if_match replica key sent (add_hint replica key value h))
      ≡ lookup (hint_key replica key) (add_hint replica key value h)
remove_if_match-add_hint replica key value sent h n =
    let k = hint_key replica key in
    let (x, (e, old)) = lookup-add_hint replica key value h in
    let other : is_same x.value.version sent ≡ false =
      ground (arith, is_same_iff x.value.version sent) in
    unfold remove_if_match in rw (e, other, remove_if_match) e

-- A hint that is not older than a value.
abbrev pub Hinted : Text → Value → HintStore → Type 0
Hinted k v h = (x : Hint) × ((lookup k h ≡ some x) × (is_newer v.version x.value.version ≡ false))

-- Adding a hint makes no hint older.
pub add_hint-Hinted :
    (k : Text) (v : Value) (replica key : Text) (value : Value) (h : HintStore)
    → Hinted k v h
    → Hinted k v (add_hint replica key value h)
add_hint-Hinted k v replica key value h (x, (e, old)) =
    let j = hint_key replica key in
    let fresh : Hint = record { replica = replica; key = key; value = value } in
    let placed = lookup-insert j k fresh h in
    elim (Option-cases (lookup j h)) [
      | inl f ↦
          let grown : add_hint replica key value h ≡ insert j fresh h =
            unfold add_hint in rw (f, add_hint) refl in
          let other : text_eq j k ≡ false = elim (Bool-cases (text_eq j k)) [
            | inr o ↦ o
            | inl o ↦ absurd (ground (arith, ap (λ t. lookup t h) ((text_eq_iff j k).0 o), e, f))
          ] in
          rw grown (x, (placed ∙ rw other e, old))
      | inr (current, f) ↦ elim (Bool-cases (is_newer value.version current.value.version)) [
        | inr n ↦
            let same : add_hint replica key value h ≡ h =
              unfold add_hint in rw (f, n, add_hint) refl in
            rw same (x, (e, old))
        | inl n ↦
            let grown : add_hint replica key value h ≡ insert j fresh h =
              unfold add_hint in rw (f, n, add_hint) refl in
            elim (Bool-cases (text_eq j k)) [
              | inr other ↦ rw grown (x, (placed ∙ rw other e, old))
              | inl own ↦
                  let at : some current ≡ some x =
                    sym f ∙ ap (λ t. lookup t h) ((text_eq_iff j k).0 own) ∙ e in
                  let same = some-injective current x at in
                  let newer : is_newer value.version x.value.version ≡ true =
                    ap (λ y. is_newer value.version y.value.version) (sym same) ∙ n in
                  rw grown (
                    fresh,
                    (
                      placed ∙ rw own refl,
                      ground (arith, is_newer_trans v.version value.version x.value.version),
                    ),
                  )
            ]
      ]
    ]
