-- ===== src/HashRing/Witnesses.antt =====
-- Concrete rings, on which the theorems of internal/hashring are applied, and tests.
use minidist.Base.{zero, ◌≡◌, ◌⊎◌, refl, true, none, some, [], ◌∷◌, arith, take, suc}
use minidist.Base.Text.{Text, codes, text_eq, text_eq_iff}
use minidist.Base.Assoc.{nat_eq, text_eq_inst, lookup, insert}
use minidist.Base.Crc.{crc_register}
use minidist.Base.Sets.{contains}
use minidist.Base.Sort.{sort, search_first}
use minidist.HashRing.{Ring, hash, virtual_node, new, add, get, get_n}
use minidist.HashRing.Valid.{IsValid, new-IsValid, add-IsValid}
use minidist.HashRing.Preference.{Covers, preference}
use minidist.HashRing.Valid.{IsValid, new-IsValid}
use minidist.HashRing.Replicas.{get_n_lem}
use minidist.HashRing.Placement.{get-add}
use minidist.HashRing.Churn.{IsFree, add-Covers}
use minidist.HashRing.Stall.{twins_stall_get_n}

abbrev n1 : Text
n1 = codes "10.0.0.1:8081"

abbrev n2 : Text
n2 = codes "10.0.0.2:8081"

abbrev n3 : Text
n3 = codes "10.0.0.3:8081"

abbrev empty : Ring
empty = new [] 2

abbrev single : Ring
single = add empty n1

-- Two members with two virtual nodes each.
abbrev pair : Ring
pair = add single n2

abbrev user : Text
user = codes "user:2"

empty-Covers : Covers empty
unfolding new contains
empty-Covers m c = cc

first-IsFree : IsFree empty n1
unfolding new lookup
first-IsFree k b = refl

second-IsFree : IsFree single n2
unfolding new add text_eq contains sort lookup insert hash virtual_node
second-IsFree zero b = refl
second-IsFree (suc zero) b = refl
second-IsFree (suc (suc k)) b = absurd (omega arith)

pair-Covers : Covers pair
unfolding new add text_eq contains
pair-Covers =
    add-Covers single n2 refl (omega arith) second-IsFree
      (add-Covers empty n1 refl (omega arith) first-IsFree empty-Covers)

pair-IsValid : IsValid pair
pair-IsValid = add-IsValid single n2 (add-IsValid empty n1 (new-IsValid [] 2))

pair_test :
    (pair.hashes ≡ 653836142 ∷ 1375703032 ∷ 2826418317 ∷ 3748694043 ∷ [])
    × (get_n 10 pair user 3 ≡ some (n1 ∷ n2 ∷ []))
    × (get pair user ≡ (n1, true))
unfolding new add text_eq contains sort lookup insert hash virtual_node get_n get search_first
pair_test = (refl, refl, refl)

get_n_lem_example : get_n 10 pair user 3 ≡ some (take 2 (preference pair user))
unfolding new add text_eq contains sort insert hash virtual_node
get_n_lem_example = get_n_lem pair pair-IsValid pair-Covers 10 user 3 (omega arith)

get-add_example :
    ((get (add pair n3) user).0 ≡ (get pair user).0) ⊎ ((get (add pair n3) user).0 ≡ n3)
unfolding new add text_eq contains sort insert hash virtual_node
get-add_example = get-add pair n3 user pair-IsValid refl (omega arith)

-- Two host names whose addresses have one CRC-32.
abbrev twin_a : Text
twin_a = codes "dhnpgfdsw:8081"

abbrev twin_b : Text
twin_b = codes "qmqphzuho:8081"

twins_stall_get_n_example : get_n 1000 (add (add (new (n1 ∷ []) 2) twin_a) twin_b) user 3 ≡ none
unfolding new text_eq crc_register contains sort lookup insert hash virtual_node
twins_stall_get_n_example =
    twins_stall_get_n (new (n1 ∷ []) 2) (new-IsValid (n1 ∷ []) 2) twin_a twin_b refl refl refl
      (λ e. cc ((text_eq_iff twin_a twin_b).1 e)) 1000 user 3 refl (omega arith) (omega arith)
