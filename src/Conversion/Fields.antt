-- ===== src/Conversion/Fields.antt =====
-- The conversions of single fields in api/v1beta1/conversion.go.
use cluster_api_provider_tin.Prelude.{Option, none, some, List, [], ◌∷◌, ◌≡◌, refl, ap, arith}
use cluster_api_provider_tin.Objects.{
  HardwareAffinityTerm, WeightedHardwareAffinityTerm, HardwareAffinity, BootOptions, ObjectRef,
  InitializationStatus, ResourceStatus, status_pending, status_running, status_failed,
  status_timeout, status_success,
}
use cluster_api_provider_tin.Conversion.Spoke.{
  SpokeObjectRef, SpokeAffinityTerm, SpokeWeightedTerm, SpokeAffinity, SpokeBootOptions,
  SpokeInitialization, SpokeResourceStatus, spoke_pending, spoke_running, spoke_failed,
  spoke_timeout, spoke_success,
}

unfoldable pub init_to_hub : Option SpokeInitialization → Option InitializationStatus
init_to_hub none = none
init_to_hub (some i) = some (record { provisioned = i.provisioned })

unfoldable pub init_from_hub : Option InitializationStatus → Option SpokeInitialization
init_from_hub none = none
init_from_hub (some i) = some (record { provisioned = i.provisioned })

unfoldable pub ref_to_hub : Option SpokeObjectRef → Option ObjectRef
ref_to_hub none = none
ref_to_hub (some r) = some (record { name = r.name; namespace = r.namespace })

unfoldable pub ref_from_hub : Option ObjectRef → Option SpokeObjectRef
ref_from_hub none = none
ref_from_hub (some r) = some (record { name = r.name; namespace = r.namespace })

required_to_hub : List SpokeAffinityTerm → List HardwareAffinityTerm
required_to_hub [] = []
required_to_hub (t ∷ ts) = record { label_selector = t.label_selector } ∷ required_to_hub ts

preferred_to_hub : List SpokeWeightedTerm → List WeightedHardwareAffinityTerm
preferred_to_hub [] = []
preferred_to_hub (t ∷ ts) =
    record {
      weight = t.weight;
      hardware_affinity_term = record { label_selector = t.hardware_affinity_term.label_selector };
    }
    ∷ preferred_to_hub ts

unfoldable pub affinity_to_hub : Option SpokeAffinity → Option HardwareAffinity
unfolding required_to_hub preferred_to_hub
affinity_to_hub none = none
affinity_to_hub (some a) =
    some
      (record { required = required_to_hub a.required; preferred = preferred_to_hub a.preferred })

required_from_hub : List HardwareAffinityTerm → List SpokeAffinityTerm
required_from_hub [] = []
required_from_hub (t ∷ ts) = record { label_selector = t.label_selector } ∷ required_from_hub ts

preferred_from_hub : List WeightedHardwareAffinityTerm → List SpokeWeightedTerm
preferred_from_hub [] = []
preferred_from_hub (t ∷ ts) =
    record {
      weight = t.weight;
      hardware_affinity_term = record { label_selector = t.hardware_affinity_term.label_selector };
    }
    ∷ preferred_from_hub ts

unfoldable pub affinity_from_hub : Option HardwareAffinity → Option SpokeAffinity
unfolding required_from_hub preferred_from_hub
affinity_from_hub none = none
affinity_from_hub (some a) =
    some (record {
      required = required_from_hub a.required;
      preferred = preferred_from_hub a.preferred;
    })

unfoldable pub boot_to_hub : SpokeBootOptions → BootOptions
boot_to_hub b = record {
  iso_url = b.iso_url;
  boot_mode = b.boot_mode;
  customboot_config = b.customboot_config;
}

unfoldable pub boot_from_hub : BootOptions → SpokeBootOptions
boot_from_hub b = record {
  iso_url = b.iso_url;
  boot_mode = b.boot_mode;
  customboot_config = b.customboot_config;
}

unfoldable pub status_to_hub : Option SpokeResourceStatus → Option ResourceStatus
status_to_hub none = none
status_to_hub (some spoke_pending) = some status_pending
status_to_hub (some spoke_running) = some status_running
status_to_hub (some spoke_failed) = some status_failed
status_to_hub (some spoke_timeout) = some status_timeout
status_to_hub (some spoke_success) = some status_success

unfoldable pub status_from_hub : Option ResourceStatus → Option SpokeResourceStatus
status_from_hub none = none
status_from_hub (some status_pending) = some spoke_pending
status_from_hub (some status_running) = some spoke_running
status_from_hub (some status_failed) = some spoke_failed
status_from_hub (some status_timeout) = some spoke_timeout
status_from_hub (some status_success) = some spoke_success

pub init_to-from : (i : Option InitializationStatus) → init_to_hub (init_from_hub i) ≡ i
unfolding init_to_hub init_from_hub
init_to-from none = refl
init_to-from (some i) = refl

pub ref_to-from : (r : Option ObjectRef) → ref_to_hub (ref_from_hub r) ≡ r
unfolding ref_to_hub ref_from_hub
ref_to-from none = refl
ref_to-from (some r) = refl

required_to-from : (ts : List HardwareAffinityTerm) → required_to_hub (required_from_hub ts) ≡ ts
unfolding required_to_hub required_from_hub
required_to-from [] = refl
required_to-from (t ∷ ts) = ap (λ us. t ∷ us) (required_to-from ts)

preferred_to-from :
    (ts : List WeightedHardwareAffinityTerm) → preferred_to_hub (preferred_from_hub ts) ≡ ts
unfolding preferred_to_hub preferred_from_hub
preferred_to-from [] = refl
preferred_to-from (t ∷ ts) = ap (λ us. t ∷ us) (preferred_to-from ts)

pub affinity_to-from : (a : Option HardwareAffinity) → affinity_to_hub (affinity_from_hub a) ≡ a
unfolding affinity_to_hub affinity_from_hub
affinity_to-from none = refl
affinity_to-from (some a) = rw (required_to-from a.required, preferred_to-from a.preferred) refl

pub boot_to-from : (b : BootOptions) → boot_to_hub (boot_from_hub b) ≡ b
unfolding boot_to_hub boot_from_hub
boot_to-from b = refl

pub status_to-from : (s : Option ResourceStatus) → status_to_hub (status_from_hub s) ≡ s
unfolding status_to_hub status_from_hub
status_to-from none = refl
status_to-from (some s) = ground arith

pub init_from-to : (i : Option SpokeInitialization) → init_from_hub (init_to_hub i) ≡ i
unfolding init_to_hub init_from_hub
init_from-to none = refl
init_from-to (some i) = refl

required_from-to : (ts : List SpokeAffinityTerm) → required_from_hub (required_to_hub ts) ≡ ts
unfolding required_to_hub required_from_hub
required_from-to [] = refl
required_from-to (t ∷ ts) = ap (λ us. t ∷ us) (required_from-to ts)

preferred_from-to : (ts : List SpokeWeightedTerm) → preferred_from_hub (preferred_to_hub ts) ≡ ts
unfolding preferred_to_hub preferred_from_hub
preferred_from-to [] = refl
preferred_from-to (t ∷ ts) = ap (λ us. t ∷ us) (preferred_from-to ts)

pub affinity_from-to : (a : Option SpokeAffinity) → affinity_from_hub (affinity_to_hub a) ≡ a
unfolding affinity_to_hub affinity_from_hub
affinity_from-to none = refl
affinity_from-to (some a) = rw (required_from-to a.required, preferred_from-to a.preferred) refl

pub boot_from-to : (b : SpokeBootOptions) → boot_from_hub (boot_to_hub b) ≡ b
unfolding boot_to_hub boot_from_hub
boot_from-to b = refl

pub status_from-to : (s : Option SpokeResourceStatus) → status_from_hub (status_to_hub s) ≡ s
unfolding status_to_hub status_from_hub
status_from-to none = refl
status_from-to (some s) = ground arith
