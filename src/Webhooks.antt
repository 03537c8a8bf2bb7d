-- ===== src/Webhooks.antt =====
-- webhooks/: the admission webhooks of the provider's objects.
pub mod Immutable
use cluster_api_provider_tin.Prelude.{
  ℕ, ◌+◌, String, Bool, true, false, ◌&&◌, ◌||◌, not, Option, none, some, List, [], ◌∷◌, ◌++◌, ◌==◌,
  if◌then◌else◌,
}
use cluster_api_provider_tin.Objects.{
  Int32, nonneg, int32_lt, IpPoolReference, HardwareAffinity, WeightedHardwareAffinityTerm,
  TinkerbellMachineSpec,
}

-- The entries of the field.ErrorList, by their path; the index is that of the preferred term.
pub data FieldError : Type 0 where
  invalid_weight : ℕ → Int32 → FieldError
  hardware_name_changed provider_id_changed address_from_pool_changed : FieldError

-- What a webhook answers with, other than success.
pub data Rejection : Type 0 where
  invalid : List FieldError → Rejection
  no_request template_immutable : Rejection

unfoldable pub aggregate_obj_errors : List FieldError → Option Rejection
aggregate_obj_errors [] = none
aggregate_obj_errors (x ∷ xs) = some (invalid (x ∷ xs))

unfoldable pub out_of_range : Int32 → Bool
out_of_range w = int32_lt w (nonneg 1) || int32_lt (nonneg 100) w

-- The loop over the preferred terms, from the index `i` on.
unfoldable pub weight_errors : ℕ → List WeightedHardwareAffinityTerm → List FieldError
weight_errors i [] = []
weight_errors i (t ∷ ts) =
    let rest = weight_errors (i + 1) ts in
    if out_of_range t.weight then invalid_weight i t.weight ∷ rest else rest

abbrev pub preferred_of : Option HardwareAffinity → List WeightedHardwareAffinityTerm
preferred_of none = []
preferred_of (some a) = a.preferred

unfoldable pub validate_machine_spec : TinkerbellMachineSpec → List FieldError
validate_machine_spec spec = weight_errors 0 (preferred_of spec.hardware_affinity)

-- `ptr.Equal` on two pool references.
unfoldable pub same_pool : Option IpPoolReference → Option IpPoolReference → Bool
same_pool none none = true
same_pool none (some q) = false
same_pool (some p) none = false
same_pool (some p) (some q) =
    (p.name == q.name) && ((p.kind == q.kind) && (p.api_group == q.api_group))

abbrev changed : Bool → FieldError → List FieldError
changed b x = if b then x ∷ [] else []

-- The checks of ValidateUpdate, each appended to those before it.
unfoldable pub update_errors : TinkerbellMachineSpec → TinkerbellMachineSpec → List FieldError
update_errors old new =
    validate_machine_spec new
    ++ changed (not (old.hardware_name == "") && not (new.hardware_name == old.hardware_name))
        hardware_name_changed
    ++ changed (not (old.provider_id == "") && not (new.provider_id == old.provider_id))
        provider_id_changed
    ++ changed
        (not (old.hardware_name == "")
          && not (same_pool old.address_from_pool new.address_from_pool))
        address_from_pool_changed

unfoldable pub validate_create : TinkerbellMachineSpec → Option Rejection
validate_create spec = aggregate_obj_errors (validate_machine_spec spec)

unfoldable pub validate_update : TinkerbellMachineSpec → TinkerbellMachineSpec → Option Rejection
validate_update old new = aggregate_obj_errors (update_errors old new)

-- validateTemplateSpecImmutable, with what it asks of third-party code as arguments: the request
-- of the context, if it has one, whether it is a dry run of the topology controller, and
-- reflect.DeepEqual on the two specs.
module _ {S Request : Type 0} where
  unfoldable pub validate_template_spec_immutable :
      (Request → Bool) → (S → S → Bool) → Option Request → S → S → Option Rejection
  validate_template_spec_immutable is_dry_run deep_equal none old new = some no_request
  validate_template_spec_immutable is_dry_run deep_equal (some req) old new =
      if is_dry_run req
      then none
      else if not (deep_equal old new)
      then some template_immutable
      else none
