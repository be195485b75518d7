-- ===== src/HashRing/Members.antt =====
-- ring.go: `Members`, and the members after `Add` and `Remove`.
use minidist.Base.{◌≡◌, inl, inr, ◌||◌, ◌&&◌, not, List, arith, Bool-cases}
use minidist.Base.Text.{Text, text_eq, text_eq_iff}
use minidist.Base.TextSort.{sort_texts, contains-sort_texts}
use minidist.Base.Assoc.{text_eq_inst}
use minidist.Base.Sets.{contains, contains-without}
use minidist.HashRing.{Ring, add, remove_node}
use minidist.HashRing.Valid.{members-add, members-remove_node}

-- `Members`: a sorted copy.
unfoldable pub members_of : Ring → List Text
unfolding sort_texts
members_of r = sort_texts r.members

pub contains-members_of : (r : Ring) (m : Text) → contains (members_of r) m ≡ contains r.members m
unfolding members_of
contains-members_of r m = contains-sort_texts r.members m

pub contains-add :
    (r : Ring) (node m : Text)
    → contains (add r node).members m ≡ (contains r.members m || text_eq node m)
contains-add r node m = elim (Bool-cases (contains r.members node)) [
  | inl old ↦ unfold add in rw (old, add) (ground (arith, text_eq_iff node m))
  | inr new' ↦ rw ((members-add r node new').0) (unfold contains in ground arith)
]

pub contains-remove_node :
    (r : Ring) (node m : Text)
    → contains (remove_node r node).members m ≡ (contains r.members m && not (text_eq node m))
contains-remove_node r node m = elim (Bool-cases (contains r.members node)) [
  | inl old ↦ rw ((members-remove_node r node old).0) (contains-without node r.members m)
  | inr absent ↦ unfold remove_node in rw (absent, remove_node) (ground (arith, text_eq_iff node m))
]
