-- ===== src/Kube/Errors.antt =====
-- Errors of controller/machine and controller/cluster. Wrapping by `%w` keeps what `errors.Is`
-- and the `apierrors` tests see, so a wrapped error is the error that it wraps; texts are left out.
use cluster_api_provider_tin.Prelude.{Bool, true, false}

pub data ApiError : Type 0 where
  not_found conflict already_exists no_match other_error : ApiError

pub data Error : Type 0 where
  api : ApiError → Error
  -- controller/machine/hardware.go
  no_hardware_available hardware_missing_interfaces hardware_not_dhcp : Error
  hardware_missing_ip hardware_claim_requeue bad_selector : Error
  -- controller/machine/ipam.go
  waiting_for_ip_address interface_missing_mac bad_address missing_prefix : Error
  bad_prefix interface_not_found claim_conflict owner_reference_refused : Error
  -- controller/machine/template.go
  missing_disk template_ref_no_data templates_not_served no_template_found : Error
  -- controller/machine/workflow.go and scope.go
  workflow_failed workflow_timeout iso_url_required bad_iso_url not_convertible : Error
  requeue_requested machine_version_empty missing_bootstrap_key bootstrap_data_empty : Error
  -- controller/machine/bmc.go
  power_off_pending power_off_failed : Error
  -- pkg/cluster/watch.go
  watch_refused : Error

pub data Result (A : Type 0) : Type 0 where
  ok : A → Result A
  err : Error → Result A

-- `apierrors.IsNotFound`, `IsConflict`, `IsAlreadyExists` and `meta.IsNoMatchError`
abbrev pub is_not_found : Error → Bool
is_not_found (api not_found) = true
is_not_found _ = false

abbrev pub is_conflict : Error → Bool
is_conflict (api conflict) = true
is_conflict _ = false

abbrev pub is_already_exists : Error → Bool
is_already_exists (api already_exists) = true
is_already_exists _ = false

abbrev pub is_no_match : Error → Bool
is_no_match (api no_match) = true
is_no_match _ = false

-- A lost optimistic lock on a Hardware is retried.
module _ {A : Type 0} where
  abbrev pub requeue_conflict : Result A → Result A
  requeue_conflict (ok a) = ok a
  requeue_conflict (err (api conflict)) = err hardware_claim_requeue
  requeue_conflict (err x) = err x
