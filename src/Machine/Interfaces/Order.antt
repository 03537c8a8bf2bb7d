-- ===== src/Machine/Interfaces/Order.antt =====
-- The primary interface does not depend on the order in which the map of interfaces is walked.

use text.Mathlib.TextEquality.{Char-path}
use mathlib.Core.Path.{ap₂}
use cluster_api_provider_tin.Prelude.{
  ℕ, String, ◌≡◌, refl, sym, ap, ◌∙◌, inl, inr, true, false, Option, none, some, List, [], ◌∷◌,
  arith, ◌==◌, eq_iff, eq_refl, codes, codes_lt, str_lt, to_lower, lookup, is_set, All, sort_by,
  IsStrictOrder, subst, All-sort_by, sort_by-IsSorted, All-sort_by_back, Bool-cases, if◌then◌else◌,
}
use cluster_api_provider_tin.Objects.{Hardware}
use cluster_api_provider_tin.Kube.{Env, ok}
use cluster_api_provider_tin.Machine.Interfaces.{
  Interfaces, find_fold, interface_key, first_key, first_key_of, keys, v1alpha1_primary_interface,
  first_of_keys, lowest_key, is_empty, primary_interface,
}

codes_lt_asym : (xs ys : List ℕ) → codes_lt xs ys ≡ true → codes_lt ys xs ≡ false
codes_lt_asym xs [] h = cc
codes_lt_asym [] (y ∷ ys) h = refl
codes_lt_asym (x ∷ xs) (y ∷ ys) h = ground (arith, codes_lt_asym xs ys)

codes_not_lt_trans :
    (xs ys zs : List ℕ) → codes_lt ys xs ≡ false → codes_lt zs ys ≡ false → codes_lt zs xs ≡ false
codes_not_lt_trans [] ys zs h k = refl
codes_not_lt_trans (x ∷ xs) [] zs h k = cc
codes_not_lt_trans (x ∷ xs) (y ∷ ys) [] h k = cc
codes_not_lt_trans (x ∷ xs) (y ∷ ys) (z ∷ zs) h k = ground (arith, codes_not_lt_trans xs ys zs)

-- Go's order on strings is a strict weak order, as `slices.Sorted` needs.
pub str_lt-IsStrictOrder : IsStrictOrder str_lt
unfolding str_lt
str_lt-IsStrictOrder = record {
  asym = λ x y. codes_lt_asym (codes x) (codes y);
  not_less_trans = λ x y z. codes_not_lt_trans (codes x) (codes y) (codes z);
}

codes_eq :
    (s t : String)
    → codes_lt (codes s) (codes t) ≡ false
    → codes_lt (codes t) (codes s) ≡ false
    → s ≡ t
codes_eq String.[] String.[] h k = refl
codes_eq String.[] (String.◌∷◌ d t) h k = cc
codes_eq (String.◌∷◌ c s) String.[] h k = cc
codes_eq (String.◌∷◌ c s) (String.◌∷◌ d t) h k =
    ap₂ String.◌∷◌ (Char-path c d (ground arith)) (codes_eq s t (ground arith) (ground arith))

-- Neither of two strings is less than the other only if they are one string.
pub str_lt-total : (s t : String) → str_lt s t ≡ false → str_lt t s ≡ false → s ≡ t
unfolding str_lt
str_lt-total s t = codes_eq s t

-- Two maps with the same entries, whatever the order of the pairs.
abbrev pub SameMap : Interfaces → Interfaces → Type 0
SameMap m m' = (k : String) → lookup k m ≡ lookup k m'

-- The keys are lower case, as v1alpha2 has them.
abbrev pub HasLowerKeys : Interfaces → Type 0
HasLowerKeys m = All (λ kv. to_lower kv.0 ≡ kv.0) m

find_fold_lem :
    (mac : String) (m : Interfaces)
    → HasLowerKeys m
    → find_fold mac m ≡ (if is_set (lookup (to_lower mac) m) then some (to_lower mac) else none)
unfolding find_fold lookup
find_fold_lem mac [] h = refl
find_fold_lem mac ((key, v) ∷ m) (p, h) =
    rw p (ground (arith, eq_iff key (to_lower mac), find_fold_lem mac m h))

interface_key_same :
    (m m' : Interfaces) (mac : String)
    → HasLowerKeys m
    → HasLowerKeys m'
    → SameMap m m'
    → interface_key m mac ≡ interface_key m' mac
unfolding interface_key
interface_key_same m m' mac h h' same =
    rw (find_fold_lem mac m h, find_fold_lem mac m' h', same mac, same (to_lower mac))

first_key_same :
    (m m' : Interfaces) (macs : List (Option String))
    → ((mac : String) → interface_key m mac ≡ interface_key m' mac)
    → first_key m macs ≡ first_key m' macs
unfolding first_key
first_key_same m m' [] same = refl
first_key_same m m' (none ∷ macs) same = first_key_same m m' macs same
first_key_same m m' (some mac ∷ macs) same = ground (arith, same mac, first_key_same m m' macs same)

abbrev HasKey : Interfaces → String → Type 0
HasKey m k = is_set (lookup k m) ≡ true

All_of_HasKey :
    (P : String → Type 0) (m : Interfaces) (k : String) → All P (keys m) → HasKey m k → P k
unfolding keys lookup
All_of_HasKey P [] k h has = cc
All_of_HasKey P ((j, v) ∷ m) k (p, h) has = elim (Bool-cases (j == k)) [
  | inl same ↦ subst P ((eq_iff j k).0 same) p
  | inr other ↦ All_of_HasKey P m k h (rw other at has)
]

All-weaken :
    {P Q : String → Type 0} (xs : List String) → ((x : String) → P x → Q x) → All P xs → All Q xs
All-weaken [] f h = tt
All-weaken (x ∷ xs) f (p, h) = (f x p, All-weaken xs f h)

HasKey-keys : (m : Interfaces) → All (HasKey m) (keys m)
unfolding keys lookup
HasKey-keys [] = tt
HasKey-keys ((j, v) ∷ m) =
    (rw (eq_refl j), All-weaken (keys m) (λ k has. ground (arith, has)) (HasKey-keys m))

record IsLeast (m : Interfaces) (k : String) : Type 0 where
  has : HasKey m k
  least : (j : String) → HasKey m j → str_lt j k ≡ false

IsLeast-unique :
    (m m' : Interfaces) (k k' : String) → SameMap m m' → IsLeast m k → IsLeast m' k' → k ≡ k'
unfolding str_lt
IsLeast-unique m m' k k' same l l' =
    codes_eq k k' (l'.least k (rw (← same k) l.has)) (l.least k' (rw (same k') l'.has))

no_keys : (m : Interfaces) → is_empty m ≡ false → All (λ k. ⊥) (keys m) → ⊥
unfolding keys
no_keys [] h none_left = cc
no_keys ((k, v) ∷ m) h none_left = none_left.0

pub str_lt_irrefl : (k : String) → str_lt k k ≡ false
str_lt_irrefl k = ground (arith, str_lt-IsStrictOrder.asym k k)

sorted_keys-IsLeast :
    (m : Interfaces) (sorted : List String)
    → sort_by str_lt (keys m) ≡ sorted
    → is_empty m ≡ false
    → (k : String) × (first_of_keys sorted ≡ ok k) × IsLeast m k
sorted_keys-IsLeast m [] e h =
    absurd (no_keys m h (All-sort_by_back str_lt (λ k. ⊥) (keys m) (rw e tt)))
sorted_keys-IsLeast m (k ∷ ks) e h = (
  k,
  refl,
  record {
    has = (rw e at (All-sort_by str_lt (HasKey m) (keys m) (HasKey-keys m))).0;
    least = λ j has.
        All_of_HasKey (λ i. str_lt i k ≡ false) m j
          (All-sort_by_back str_lt (λ i. str_lt i k ≡ false) (keys m)
            (rw e (
              str_lt_irrefl k,
              (rw e at (sort_by-IsSorted str_lt str_lt-IsStrictOrder (keys m))).0,
            )))
          has;
  },
)

lowest_key-IsLeast :
    (m : Interfaces) → is_empty m ≡ false → (k : String) × (lowest_key m ≡ ok k) × IsLeast m k
unfolding lowest_key
lowest_key-IsLeast m h = sorted_keys-IsLeast m (sort_by str_lt (keys m)) refl h

lowest_key_same :
    (m m' : Interfaces)
    → SameMap m m'
    → is_empty m ≡ false
    → is_empty m' ≡ false
    → lowest_key m ≡ lowest_key m'
lowest_key_same m m' same h h' =
    let (k, e, l) = lowest_key-IsLeast m h in
    let (k', e', l') = lowest_key-IsLeast m' h' in
    e ∙ ap ok (IsLeast-unique m m' k k' same l l') ∙ sym e'

is_empty_same : (m m' : Interfaces) → SameMap m m' → is_empty m ≡ is_empty m'
unfolding lookup
is_empty_same [] [] same = refl
is_empty_same (x ∷ m) (y ∷ m') same = refl
is_empty_same [] ((k, v) ∷ m') same = ground (arith, same k, eq_refl k)
is_empty_same ((k, v) ∷ m) [] same = ground (arith, same k, eq_refl k)

first_key_of_same :
    (m m' : Interfaces) (macs : Option (List (Option String)))
    → ((mac : String) → interface_key m mac ≡ interface_key m' mac)
    → first_key_of m macs ≡ first_key_of m' macs
first_key_of_same m m' none same = refl
first_key_of_same m m' (some macs) same = first_key_same m m' macs same

-- Take a Hardware whose interface keys are lower case, and the same Hardware with its map of
-- interfaces in another order. If Tinkerbell's conversion reads both alike, they have the same
-- primary interface: the choice does not depend on the order in which Go walks the map.
pub primary_interface_order :
    (e : Env) (hw : Hardware) (m : Interfaces)
    → HasLowerKeys hw.network_interfaces
    → HasLowerKeys m
    → SameMap hw.network_interfaces m
    → e.v1_interface_macs hw ≡ e.v1_interface_macs (record hw { network_interfaces = m })
    → primary_interface e hw ≡ primary_interface e (record hw { network_interfaces = m })
unfolding primary_interface v1alpha1_primary_interface
primary_interface_order e hw m h h' same conv =
    let keys_same = interface_key_same hw.network_interfaces m in
    ground (
      arith,
      is_empty_same hw.network_interfaces m same,
      first_key_of_same hw.network_interfaces m (e.v1_interface_macs hw)
          (λ mac. keys_same mac h h' same),
      keys_same hw.agent_id h h' same,
      lowest_key_same hw.network_interfaces m same,
    )
