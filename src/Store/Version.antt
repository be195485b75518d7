-- ===== src/Store/Version.antt =====
-- memory.go: versions, values and `CompareVersion`, with the laws of a total order.
use Prim.Native.Nat.{Ordering}
use minidist.Base.{ℕ, ◌≡◌, ◌↔◌, Bool, true, false, List, arith, ltb, if◌then◌else◌}
use minidist.Base.Text.{Text, text_lt, text_lt_irrefl, text_lt_trans, text_lt_total}

pub record Version : Type 0 where
  pub counter : ℕ  -- uint64
  pub node_id : Text

pub record Value : Type 0 where
  pub bytes : List ℕ
  pub version : Version
  pub deleted : Bool

-- -1, 0 and 1 are `lt`, `eq` and `gt`.
unfoldable pub compare_version : Version → Version → Ordering
compare_version a b =
    if ltb a.counter b.counter
    then Ordering.lt
    else if ltb b.counter a.counter
    then Ordering.gt
    else if text_lt a.node_id b.node_id
    then Ordering.lt
    else if text_lt b.node_id a.node_id
    then Ordering.gt
    else Ordering.eq

-- `CompareVersion(a, b) > 0`.
unfoldable pub is_newer : Version → Version → Bool
unfolding compare_version
is_newer a b = elim (compare_version a b) [ Ordering.gt ↦ true | _ ↦ false ]

-- `CompareVersion(a, b) == 0`.
unfoldable pub is_same : Version → Version → Bool
unfolding compare_version
is_same a b = elim (compare_version a b) [ Ordering.eq ↦ true | _ ↦ false ]

-- Versions compare as equal only if they are equal.
pub is_same_iff : (a b : Version) → (is_same a b ≡ true) ↔ (a ≡ b)
unfolding is_same
is_same_iff a b = (
  λ h. ground (arith, text_lt_total a.node_id b.node_id),
  λ e. ground (arith, text_lt_irrefl a.node_id, text_lt_irrefl b.node_id),
)

pub is_newer_irrefl : (a : Version) → is_newer a a ≡ false
unfolding is_newer
is_newer_irrefl a = ground (arith, text_lt_irrefl a.node_id)

pub is_newer_trans :
    (a b c : Version) → is_newer a b ≡ true → is_newer b c ≡ true → is_newer a c ≡ true
unfolding is_newer
is_newer_trans a b c h k = ground (
  arith,
  text_lt_trans c.node_id b.node_id a.node_id,
  text_lt_total a.node_id b.node_id,
  text_lt_total b.node_id c.node_id,
  text_lt_trans a.node_id c.node_id b.node_id,
  text_lt_irrefl a.node_id,
  text_lt_irrefl b.node_id,
)

-- Of two versions that are not equal exactly one is newer.
pub is_newer_total : (a b : Version) → is_newer a b ≡ false → is_newer b a ≡ false → a ≡ b
unfolding is_newer
is_newer_total a b h k = ground (
  arith,
  text_lt_total a.node_id b.node_id,
  text_lt_trans a.node_id b.node_id a.node_id,
  text_lt_irrefl a.node_id,
)

pub is_newer_asymm : (a b : Version) → is_newer a b ≡ true → is_newer b a ≡ false
unfolding is_newer
is_newer_asymm a b h =
    ground (arith, text_lt_trans a.node_id b.node_id a.node_id, text_lt_irrefl a.node_id)
