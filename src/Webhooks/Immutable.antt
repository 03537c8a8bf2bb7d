-- ===== src/Webhooks/Immutable.antt =====
-- What the webhooks admit, and what a chain of admitted updates cannot change.
use cluster_api_provider_tin.Prelude.{
  ℕ, ◌+◌, ◌≤◌, ◌≡◌, refl, ◌∙◌, sym, ◌≢◌, ◌⊎◌, inl, inr, ◌↔◌, Bool, true, false, Option, none, some,
  List, [], ◌∷◌, arith, All, eq_iff,
}
use cluster_api_provider_tin.Objects.{
  Int32, nonneg, negative, int32_lt, IpPoolReference, WeightedHardwareAffinityTerm,
  TinkerbellMachineSpec,
}
use cluster_api_provider_tin.Webhooks.{
  aggregate_obj_errors, out_of_range, weight_errors, preferred_of, validate_machine_spec, same_pool,
  update_errors, validate_create, validate_update, validate_template_spec_immutable,
}

-- A weight that the webhook admits.
abbrev pub IsInRange : Int32 → Type 0
IsInRange (nonneg n) = (1 ≤ n) × (n ≤ 100)
IsInRange (negative n) = ⊥

IsInRange-iff : (w : Int32) → (out_of_range w ≡ false) ↔ IsInRange w
unfolding out_of_range int32_lt
IsInRange-iff (nonneg n) = ground arith
IsInRange-iff (negative n) = ground arith

abbrev pub HasInRange : WeightedHardwareAffinityTerm → Type 0
HasInRange t = IsInRange t.weight

weight_errors_iff :
    (i : ℕ) (ts : List WeightedHardwareAffinityTerm) → (weight_errors i ts ≡ []) ↔ All HasInRange ts
unfolding weight_errors
weight_errors_iff i [] = ground arith
weight_errors_iff i (t ∷ ts) = ground (arith, IsInRange-iff t.weight, weight_errors_iff (i + 1) ts)

same_pool_iff : (p q : Option IpPoolReference) → (same_pool p q ≡ true) ↔ (p ≡ q)
unfolding same_pool
same_pool_iff none none = ground arith
same_pool_iff none (some q) = ground arith
same_pool_iff (some p) none = ground arith
same_pool_iff (some p) (some q) =
    ground (arith, eq_iff p.name q.name, eq_iff p.kind q.kind, eq_iff p.api_group q.api_group)

-- What an update has to keep.
pub record Keeps (old new : TinkerbellMachineSpec) : Type 0 where
  pub hardware :
      (old.hardware_name ≡ "")
      ⊎ ((new.hardware_name ≡ old.hardware_name) × (old.address_from_pool ≡ new.address_from_pool))
  pub provider : (old.provider_id ≡ "") ⊎ (new.provider_id ≡ old.provider_id)

-- An update of a machine is admitted exactly if every preferred weight is from 1 to 100, a provider
-- ID that is set is kept, and, where a hardware name is set, that name is kept and so is the pool of
-- the address, set or not.
pub validate_update_iff :
    (old new : TinkerbellMachineSpec)
    → (validate_update old new ≡ none)
      ↔ (All HasInRange (preferred_of new.hardware_affinity) × Keeps old new)
unfolding validate_update update_errors validate_machine_spec aggregate_obj_errors
validate_update_iff old new = ground (
  arith,
  weight_errors_iff 0 (preferred_of new.hardware_affinity),
  same_pool_iff old.address_from_pool new.address_from_pool,
  eq_iff old.hardware_name "",
  eq_iff new.hardware_name old.hardware_name,
  eq_iff old.provider_id "",
  eq_iff new.provider_id old.provider_id,
)

-- A new machine is admitted exactly if every preferred weight is from 1 to 100.
validate_create_iff :
    (spec : TinkerbellMachineSpec)
    → (validate_create spec ≡ none) ↔ All HasInRange (preferred_of spec.hardware_affinity)
unfolding validate_create validate_machine_spec aggregate_obj_errors
validate_create_iff spec = ground (arith, weight_errors_iff 0 (preferred_of spec.hardware_affinity))

-- A chain of updates, each admitted by the webhook.
pub data Updates (a : TinkerbellMachineSpec) : TinkerbellMachineSpec → Type 0 where
  stay : Updates a a
  update :
      {b : TinkerbellMachineSpec}
      → (c : TinkerbellMachineSpec) → Updates a b
      → validate_update b c ≡ none
      → Updates a c

-- Once a machine has a Hardware, no chain of admitted updates changes its name or the pool of the
-- address: a claim made for it is not orphaned.
pub Updates-keep_hardware :
    (a c : TinkerbellMachineSpec)
    → a.hardware_name ≢ ""
    → Updates a c
    → (c.hardware_name ≡ a.hardware_name) × (c.address_from_pool ≡ a.address_from_pool)
Updates-keep_hardware a _ set stay = (refl, refl)
Updates-keep_hardware a _ set (update {b = b} c chain admitted) =
    let (name, pool) = Updates-keep_hardware a b set chain in
    let (_, kept) = (validate_update_iff b c).0 admitted in
    elim kept.hardware [
      | inl unset ↦ absurd (set (sym name ∙ unset))
      | inr (same_name, same_pools) ↦ (same_name ∙ name, sym same_pools ∙ pool)
    ]

-- Once a machine has a provider ID, no chain of admitted updates changes it.
Updates-keep_provider_id :
    (a c : TinkerbellMachineSpec) → a.provider_id ≢ "" → Updates a c → c.provider_id ≡ a.provider_id
Updates-keep_provider_id a _ set stay = refl
Updates-keep_provider_id a _ set (update {b = b} c chain admitted) =
    let same = Updates-keep_provider_id a b set chain in
    let (_, kept) = (validate_update_iff b c).0 admitted in
    elim kept.provider [ inl unset ↦ absurd (set (sym same ∙ unset)) | inr same' ↦ same' ∙ same ]

-- The request is known, and is a dry run of the topology controller or changes nothing.
abbrev pub IsAdmissible : {S Request : Type 0} → (Request → Bool) → Option Request → S → S → Type 0
IsAdmissible is_dry_run none old new = ⊥
IsAdmissible is_dry_run (some r) old new = (is_dry_run r ≡ true) ⊎ (old ≡ new)

-- An update of a template is admitted exactly if its request is known and is a dry run of the
-- topology controller or leaves the template's spec as it is, where reflect.DeepEqual compares.
pub validate_template_iff :
    {S Request : Type 0}
    → (is_dry_run : Request → Bool) → (deep_equal : S → S → Bool) → (req : Option Request)
    → (old new : S) → ((x y : S) → (deep_equal x y ≡ true) ↔ (x ≡ y))
    → (validate_template_spec_immutable is_dry_run deep_equal req old new ≡ none)
      ↔ IsAdmissible is_dry_run req old new
unfolding validate_template_spec_immutable
validate_template_iff is_dry_run deep_equal none old new equal = ground arith
validate_template_iff is_dry_run deep_equal (some r) old new equal = ground (arith, equal old new)
