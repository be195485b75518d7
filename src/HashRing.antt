-- ===== src/HashRing.antt =====
-- internal/hashring/ring.go: the consistent hash ring with virtual nodes. The RWMutex makes every
-- method one step. `nodes` maps a point to its owner and `hashes` lists the points in order.
pub mod Points
pub mod Valid
pub mod Members
pub mod Successor
pub mod Walk
pub mod Preference
pub mod Replicas
pub mod Placement
pub mod Churn
pub mod Stall
mod Witnesses
use minidist.Base.{
  ℕ, zero, suc, ◌+◌, Bool, true, false, ◌&&◌, Option, none, some, List, [], ◌∷◌, ◌++◌, ltb, leb,
  ◌==◌, if◌then◌else◌, length, get_or, min,
}
use minidist.Base.Text.{Text}
use minidist.Base.Assoc.{Assoc, lookup, insert, remove, nat_eq, text_eq_inst}
use minidist.Base.Crc.{crc32}
use minidist.Base.Decimal.{decimal}
use minidist.Base.Sets.{contains, without}
use minidist.Base.Sort.{sort, search_first}

pub record Ring : Type 0 where
  pub virtual_nodes : ℕ
  pub nodes : Assoc ℕ Text
  pub hashes : List ℕ
  pub members : List Text

unfoldable pub hash : Text → ℕ
unfolding crc32
hash s = crc32 s

-- `fmt.Sprintf("%s#%d", node, i)`; 35 is '#'.
unfoldable pub virtual_node : Text → ℕ → Text
unfolding decimal
virtual_node node i = node ++ 35 ∷ decimal i

abbrev pub point : Text → ℕ → ℕ
point node i = hash (virtual_node node i)

-- The loop of `Add` from round `i` on, with the rounds left.
unfoldable pub add_points : ℕ → ℕ → Text → Ring → Ring
add_points zero i node r = r
add_points (suc left) i node r = add_points left (i + 1) node (record r {
  nodes = insert (point node i) node r.nodes;
  hashes = r.hashes ++ point node i ∷ [];
})

unfoldable pub add : Ring → Text → Ring
unfolding add_points
add r node =
    if contains r.members node
    then r
    else let r' = add_points r.virtual_nodes 0 node (record r { members = node ∷ r.members }) in
      record r' { hashes = sort r'.hashes }

unfoldable pub add_all : Ring → List Text → Ring
unfolding add
add_all r [] = r
add_all r (node ∷ rest) = add_all (add r node) rest

unfoldable pub new : List Text → ℕ → Ring
unfolding add_all
new nodes virtual_nodes =
    add_all (record { virtual_nodes = virtual_nodes; nodes = []; hashes = []; members = [] }) nodes

-- The loop of `Remove` over the virtual nodes: the map without their points, and the points.
unfoldable pub remove_points : ℕ → ℕ → Text → Assoc ℕ Text → List ℕ → Assoc ℕ Text × List ℕ
remove_points zero i node nodes removed = (nodes, removed)
remove_points (suc left) i node nodes removed =
    remove_points left (i + 1) node (remove (point node i) nodes) (point node i ∷ removed)

-- The filter over `r.hashes`.
unfoldable pub keep_others : List ℕ → List ℕ → List ℕ
keep_others removed [] = []
keep_others removed (h ∷ hs) =
    let rest = keep_others removed hs in if contains removed h then rest else h ∷ rest

unfoldable pub remove_node : Ring → Text → Ring
unfolding remove_points keep_others
remove_node r node =
    if contains r.members node
    then (let (nodes, removed) = remove_points r.virtual_nodes 0 node r.nodes [] in
        record r {
          members = without node r.members;
          nodes = nodes;
          hashes = keep_others removed r.hashes;
        })
    else r

-- The index of the first point that is not before `h`, round to 0 behind the last.
unfoldable pub first_index : List ℕ → ℕ → ℕ
first_index hashes h =
    let idx = search_first (length hashes) (λ i. leb h (get_or hashes i 0)) in
    if idx == length hashes then 0 else idx

-- `r.nodes[h]`, with Go's zero value for a missing key.
abbrev pub text_or_empty : Option Text → Text
text_or_empty none = []
text_or_empty (some s) = s

unfoldable pub owner : Ring → ℕ → Text
owner r h = text_or_empty (lookup h r.nodes)

unfoldable pub get : Ring → Text → Text × Bool
unfolding first_index owner
get r key =
    if length r.hashes == 0
    then ([], false)
    else (owner r (get_or r.hashes (first_index r.hashes (hash key)) 0), true)

-- The loop of `GetN` on fuel: `none` if it is still running when the fuel is used up.
unfoldable pub collect : ℕ → Ring → ℕ → ℕ → List Text → List Text → Option (List Text)
unfolding owner
collect zero r n idx result seen = none
collect (suc fuel) r n idx result seen =
    let node = owner r (get_or r.hashes idx 0) in
    let old = contains seen node in
    let next = if idx + 1 == length r.hashes then 0 else idx + 1 in
    let rest =
      collect fuel r n next (if old then result else result ++ node ∷ [])
        (if old then seen else seen ++ node ∷ []) in
    if ltb (length result) n && ltb (length seen) (length r.nodes) then rest else some result

-- `GetN` for `n ≥ 0`; a negative `n` behaves as 0.
unfoldable pub get_n : ℕ → Ring → Text → ℕ → Option (List Text)
unfolding collect first_index
get_n fuel r key n =
    if length r.hashes == 0
    then some []
    else if n == 0
    then some []
    else collect fuel r (min n (length r.members)) (first_index r.hashes (hash key)) [] []
