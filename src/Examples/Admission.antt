-- ===== src/Examples/Admission.antt =====
-- The theorems on the webhooks, at concrete specs.
use cluster_api_provider_tin.Prelude.{
  String, ◌≡◌, refl, ◌≢◌, ◌↔◌, Bool, false, none, some, arith, All, ◌==◌, eq_iff,
}
use cluster_api_provider_tin.Objects.{TinkerbellMachineSpec}
use cluster_api_provider_tin.Webhooks.{
  aggregate_obj_errors, validate_machine_spec, weight_errors, same_pool, update_errors,
  validate_update, preferred_of, validate_template_spec_immutable,
}
use cluster_api_provider_tin.Webhooks.Immutable.{
  HasInRange, Keeps, stay, update, IsAdmissible, validate_update_iff, Updates-keep_hardware,
  validate_template_iff,
}
use cluster_api_provider_tin.Examples.World.{config}

abbrev placed : TinkerbellMachineSpec
placed = record { config = config; hardware_name = "server-a"; provider_id = "" }

abbrev identified : TinkerbellMachineSpec
identified = record {
  config = config;
  hardware_name = "server-a";
  provider_id = "tinkerbell://default/server-a";
}

validate_update_iff_example :
    (validate_update placed identified ≡ none)
    ↔ (All HasInRange (preferred_of identified.hardware_affinity) × Keeps placed identified)
validate_update_iff_example = validate_update_iff placed identified

named : placed.hardware_name ≢ ""
named p = ground (arith, eq_iff "server-a" "")

admitted : validate_update placed identified ≡ none
unfolding validate_update update_errors validate_machine_spec aggregate_obj_errors same_pool
    weight_errors
admitted = refl

Updates-keep_hardware_example :
    (identified.hardware_name ≡ placed.hardware_name)
    × (identified.address_from_pool ≡ placed.address_from_pool)
Updates-keep_hardware_example =
    Updates-keep_hardware placed identified named (update identified stay admitted)

abbrev same_text : String → String → Bool
same_text x y = x == y

validate_template_iff_example :
    (validate_template_spec_immutable (λ (r : Bool). r) same_text (some false) "a" "a" ≡ none)
    ↔ IsAdmissible {S = String} (λ (r : Bool). r) (some false) "a" "a"
validate_template_iff_example =
    validate_template_iff (λ (r : Bool). r) same_text (some false) "a" "a" eq_iff
