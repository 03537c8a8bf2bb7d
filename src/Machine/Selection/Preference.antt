-- ===== src/Machine/Selection/Preference.antt =====
-- The Hardware that a machine gets is the best one there is.
use cluster_api_provider_tin.Prelude.{
  subst, ◌≡◌, refl, ◌⊎◌, true, false, List, [], ◌∷◌, ◌++◌, arith, eq_iff, str_lt, All, sort_by,
  IsStrictOrder, sort_by-IsSorted, All-sort_by_back, All-sort_by,
}
use cluster_api_provider_tin.Objects.{
  Int32, nonneg, negative, int32_lt, Hardware, WeightedHardwareAffinityTerm,
}
use cluster_api_provider_tin.Kube.{Env, ok}
use cluster_api_provider_tin.Machine.Interfaces.Order.{str_lt-IsStrictOrder, str_lt-total}
use cluster_api_provider_tin.Machine.Selection.{
  any_match, score, all_valid, first_hardware, less, select_hardware,
}

int32_lt-asym : (x y : Int32) → int32_lt x y ≡ true → int32_lt y x ≡ false
unfolding int32_lt
int32_lt-asym (nonneg m) (nonneg n) h = ground arith
int32_lt-asym (nonneg m) (negative n) h = ground arith
int32_lt-asym (negative m) (nonneg n) h = ground arith
int32_lt-asym (negative m) (negative n) h = ground arith

int32_lt-total : (x y : Int32) → int32_lt x y ≡ false → int32_lt y x ≡ false → x ≡ y
unfolding int32_lt
int32_lt-total (nonneg m) (nonneg n) h k = ground arith
int32_lt-total (nonneg m) (negative n) h k = ground arith
int32_lt-total (negative m) (nonneg n) h k = ground arith
int32_lt-total (negative m) (negative n) h k = ground arith

int32_lt-not_less_trans :
    (x y z : Int32) → int32_lt y x ≡ false → int32_lt z y ≡ false → int32_lt z x ≡ false
unfolding int32_lt
int32_lt-not_less_trans (nonneg m) (nonneg n) (nonneg k) h h' = ground arith
int32_lt-not_less_trans (negative m) (nonneg n) (nonneg k) h h' = refl
int32_lt-not_less_trans (negative m) (negative n) (nonneg k) h h' = refl
int32_lt-not_less_trans (negative m) (negative n) (negative k) h h' = ground arith
int32_lt-not_less_trans x (nonneg n) (negative k) h h' = ground arith
int32_lt-not_less_trans (nonneg m) (negative n) z h h' = ground arith

module _ (e : Env) (points : Hardware → Int32) where
  less_asym : (x y : Hardware) → less e points x y ≡ true → less e points y x ≡ false
  unfolding less
  less_asym x y h = ground (
    arith,
    eq_iff x.meta.namespace y.meta.namespace,
    eq_iff y.meta.namespace x.meta.namespace,
    int32_lt-asym (points x) (points y),
    int32_lt-asym (points y) (points x),
    str_lt-IsStrictOrder.asym x.meta.namespace y.meta.namespace,
    str_lt-IsStrictOrder.asym x.meta.name y.meta.name,
  )

  less_not_trans :
      (x y z : Hardware)
      → less e points y x ≡ false
      → less e points z y ≡ false
      → less e points z x ≡ false
  unfolding less
  less_not_trans x y z h k = ground (
    arith,
    int32_lt-not_less_trans (points z) (points y) (points x),
    int32_lt-not_less_trans (points y) (points x) (points z),
    int32_lt-not_less_trans (points x) (points z) (points y),
    int32_lt-not_less_trans (points x) (points y) (points z),
    eq_iff y.meta.namespace x.meta.namespace,
    eq_iff z.meta.namespace y.meta.namespace,
    eq_iff z.meta.namespace x.meta.namespace,
    str_lt-IsStrictOrder.not_less_trans x.meta.namespace y.meta.namespace z.meta.namespace,
    str_lt-IsStrictOrder.not_less_trans x.meta.name y.meta.name z.meta.name,
    str_lt-total x.meta.namespace y.meta.namespace,
  )

  less-IsStrictOrder : IsStrictOrder (less e points)
  less-IsStrictOrder = record { asym = less_asym; not_less_trans = less_not_trans }

-- `c` is no better than `hw`: it scores less, or it scores the same and its namespace and name do
-- not come first.
abbrev pub NoBetter : (Hardware → Int32) → Hardware → Hardware → Type 0
NoBetter points hw c =
    (int32_lt (points c) (points hw) ≡ true)
    ⊎ ((points c ≡ points hw)
        × ((str_lt hw.meta.namespace c.meta.namespace ≡ true)
            ⊎ ((c.meta.namespace ≡ hw.meta.namespace) × (str_lt c.meta.name hw.meta.name ≡ false))))

less-NoBetter :
    (e : Env) (points : Hardware → Int32) (hw c : Hardware)
    → less e points c hw ≡ false
    → NoBetter points hw c
unfolding less
less-NoBetter e points hw c h = ground (
  arith,
  int32_lt-total (points c) (points hw),
  eq_iff c.meta.namespace hw.meta.namespace,
  str_lt-total c.meta.namespace hw.meta.namespace,
)

All-map :
    {P Q : Hardware → Type 0} (xs : List Hardware)
    → ((x : Hardware) → P x → Q x)
    → All P xs
    → All Q xs
All-map [] f h = tt
All-map (x ∷ xs) f (p, h) = (f x p, All-map xs f h)

less_irrefl : (e : Env) (points : Hardware → Int32) (x : Hardware) → less e points x x ≡ false
less_irrefl e points x = ground (arith, less_asym e points x x)

head_best :
    (e : Env) (points : Hardware → Int32) (P : Hardware → Type 0) (hardware : List Hardware)
    (x : Hardware) (xs : List Hardware)
    → sort_by (less e points) hardware ≡ x ∷ xs
    → All P hardware
    → P x × All (NoBetter points x) hardware
head_best e points P hardware x xs same every =
    let sorted = sort_by-IsSorted (less e points) (less-IsStrictOrder e points) hardware in
    (
      (rw same at (All-sort_by (less e points) P hardware every)).0,
      All-map hardware (less-NoBetter e points x) (
          All-sort_by_back (less e points) (λ c. less e points c x ≡ false) hardware
            (rw same (less_irrefl e points x, (rw same at sorted).0))),
    )

first_of_sorted :
    (e : Env) (points : Hardware → Int32) (P : Hardware → Type 0) (hardware sorted : List Hardware)
    (hw : Hardware)
    → sort_by (less e points) hardware ≡ sorted
    → first_hardware e sorted ≡ ok hw
    → All P hardware
    → P hw × All (NoBetter points hw) hardware
first_of_sorted e points P hardware [] hw same h every = cc
first_of_sorted e points P hardware (x ∷ xs) hw same h every =
    let chosen : x ≡ hw = cc in
    subst (λ y. P y × All (NoBetter points y) hardware) chosen
      (head_best e points P hardware x xs same every)

-- The Hardware selected from a list is one of the list: what holds of all of the list holds of it.
-- And none of the list is better: none scores more by the preferred terms, and among those that
-- score the same it has the first namespace, and in that the first name.
pub select_hardware_best :
    (e : Env) (preferred : List WeightedHardwareAffinityTerm) (hardware : List Hardware)
    (hw : Hardware) (P : Hardware → Type 0)
    → All P hardware
    → select_hardware e preferred hardware ≡ ok hw
    → P hw × All (NoBetter (score e preferred hardware (nonneg 0)) hw) hardware
unfolding select_hardware
select_hardware_best e preferred hardware hw P every h =
    let points = score e preferred hardware (nonneg 0) in
    first_of_sorted e points P hardware (sort_by (less e points) hardware) hw refl (ground arith)
      every

first_of_nonempty :
    (e : Env) (points : Hardware → Int32) (x : Hardware) (xs sorted : List Hardware)
    → sort_by (less e points) (x ∷ xs) ≡ sorted
    → (hw : Hardware) × (first_hardware e sorted ≡ ok hw)
first_of_nonempty e points x xs [] same =
    absurd (All-sort_by_back (less e points) (λ y. ⊥) (x ∷ xs) (rw same tt)).0
first_of_nonempty e points x xs (y ∷ ys) same = (y, refl)

-- As long as the preferred terms have valid selectors, a list that is not empty has a Hardware
-- that is selected.
pub select_hardware_total :
    (e : Env) (preferred : List WeightedHardwareAffinityTerm) (x : Hardware) (xs : List Hardware)
    → all_valid e preferred ≡ true
    → (hw : Hardware) × (select_hardware e preferred (x ∷ xs) ≡ ok hw)
unfolding select_hardware
select_hardware_total e preferred x xs h =
    let points = score e preferred (x ∷ xs) (nonneg 0) in
    let (hw, first) = first_of_nonempty e points x xs (sort_by (less e points) (x ∷ xs)) refl in
    (hw, rw h first)

-- The weights of the preferred terms that match are not added up: a Hardware that matches the last
-- of the terms has the weight of that term, whatever the other terms say of it.
pub score_last :
    (e : Env) (preferred : List WeightedHardwareAffinityTerm) (t : WeightedHardwareAffinityTerm)
    (hardware : List Hardware) (acc : Int32) (hw : Hardware)
    → any_match e t.hardware_affinity_term.label_selector hw hardware ≡ true
    → score e (preferred ++ (t ∷ [])) hardware acc hw ≡ t.weight
unfolding score
score_last e [] t hardware acc hw h = rw h refl
score_last e (p ∷ ps) t hardware acc hw h = score_last e ps t hardware _ hw h
