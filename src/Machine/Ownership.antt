-- ===== src/Machine/Ownership.antt =====
-- controller/machine/hardware.go: claiming a Hardware for a machine, its user data, and giving it
-- back.
pub mod Claimed
pub mod Released
pub mod Calls
pub mod Taking
use cluster_api_provider_tin.Prelude.{
  String, str_append, Bool, true, false, ◌&&◌, ◌||◌, not, Option, none, some, List, [], ◌∷◌, ◌==◌,
  lookup, insert, delete, value, or_empty, is_set, replace_all, if◌then◌else◌,
}
use cluster_api_provider_tin.Objects.{Hardware, Instance, TinkerbellMachine, IpPoolReference}
use cluster_api_provider_tin.Kube.{
  Env, Error, Result, ok, err, requeue_conflict, hardware_claim_requeue, Call, Family, Scope, Exec,
  pure, raise, gets, ask, continue, ◌>>=◌,
}
use cluster_api_provider_tin.Machine.Interfaces.{hardware_user_data}
use cluster_api_provider_tin.Machine.Reservation.{clear_hardware_address}
use cluster_api_provider_tin.Machine.Ipam.{ipam_reservation}

abbrev pub hardware_owner_name_label : String
hardware_owner_name_label = "v1alpha1.tinkerbell.org/ownerName"

abbrev pub hardware_owner_namespace_label : String
hardware_owner_namespace_label = "v1alpha1.tinkerbell.org/ownerNamespace"

abbrev pub hardware_provisioned_annotation : String
hardware_provisioned_annotation = "v1alpha1.tinkerbell.org/provisioned"

abbrev pub machine_finalizer : String
machine_finalizer = "infrastructure.cluster.x-k8s.io/tinkerbellmachine"

abbrev pub machine_legacy_finalizer : String
machine_legacy_finalizer = "tinkerbellmachine.infrastructure.cluster.x-k8s.io"

abbrev pub provider_id_placeholder : String
provider_id_placeholder = "PROVIDER_ID"

abbrev owner_differs : Option String → String → Bool → Bool
owner_differs none name other_namespace = false
owner_differs (some owner) name other_namespace = not (owner == name) || other_namespace

-- The guard of takeHardwareOwnership.
unfoldable pub owned_by_other : TinkerbellMachine → Hardware → Bool
owned_by_other m hw =
    owner_differs (lookup hardware_owner_name_label hw.meta.labels) m.meta.name
      (not (value hardware_owner_namespace_label hw.meta.labels == m.meta.namespace))

-- `spec.instance` with a user data, made if it was nil.
abbrev set_userdata : Option Instance → String → Instance
set_userdata none text = record { lookup_id = ""; userdata = some text; other = [] }
set_userdata (some i) text = record i { userdata = some text }

abbrev clear_userdata : Option Instance → Option Instance
clear_userdata none = none
clear_userdata (some i) = some (record i { userdata = none })

abbrev holds : Option String → String → Bool
holds none text = false
holds (some current) text = current == text

-- The writes of releaseHardware before the reservation is looked for.
pub disowned : Hardware → Hardware
disowned hw =
    let meta = hw.meta in
    record hw {
      meta = record meta {
        labels =
            delete hardware_owner_namespace_label (delete hardware_owner_name_label meta.labels);
        annotations = delete hardware_provisioned_annotation meta.annotations;
      };
      instance_spec = clear_userdata hw.instance_spec;
    }

abbrev without_reservation : Hardware → Option (String × Option Family) → Hardware
without_reservation hw none = hw
without_reservation hw (some (mac, family)) = clear_hardware_address hw mac family

module _ (e : Env) where
  unfoldable pub hardware_already_claimed : TinkerbellMachine → Hardware → Bool
  hardware_already_claimed m hw =
      (value hardware_owner_name_label hw.meta.labels == m.meta.name)
      && ((value hardware_owner_namespace_label hw.meta.labels == m.meta.namespace)
          && (e.contains_finalizer hw.meta.finalizers machine_finalizer
              && not (e.contains_finalizer hw.meta.finalizers machine_legacy_finalizer)))

  -- The writes of takeHardwareOwnership before its patch.
  unfoldable pub claim : TinkerbellMachine → Hardware → Hardware
  claim m hw =
      let meta = hw.meta in
      record hw {
        meta = record meta {
          labels =
              insert hardware_owner_namespace_label m.meta.namespace
                (insert hardware_owner_name_label m.meta.name meta.labels);
          finalizers =
              e.add_finalizer (e.remove_finalizer meta.finalizers machine_legacy_finalizer)
                machine_finalizer;
        };
      }

  take_unless_owned : TinkerbellMachine → Hardware → Exec Hardware
  take_unless_owned m hw =
      if owned_by_other m hw
      then raise hardware_claim_requeue
      else (if hardware_already_claimed m hw
          then pure hw
          else ask (Call.patch_hardware hw (claim m hw) true)
              (λ t. requeue_conflict (e.patch_hardware t hw (claim m hw) true)))

  unfoldable pub take_hardware_ownership : Hardware → Exec Hardware
  unfolding take_unless_owned
  take_hardware_ownership hw = do m ← gets (λ s. s.machine); take_unless_owned m hw

  with_userdata : Hardware → String → Hardware
  with_userdata hw text = record hw { instance_spec = some (set_userdata hw.instance_spec text) }

  unfoldable pub ensure_hardware_user_data : Scope → Hardware → String → Exec Hardware
  unfolding with_userdata hardware_user_data
  ensure_hardware_user_data sc hw provider_id =
      let text = replace_all provider_id_placeholder provider_id sc.bootstrap_cloud_config in
      if holds (hardware_user_data hw) text
      then pure hw
      else ask (Call.patch_hardware hw (with_userdata hw text) false)
          (λ t. e.patch_hardware t hw (with_userdata hw text) false)

  -- patchHardwareAnnotations with the one annotation that its caller gives.
  unfoldable pub mark_hardware_provisioned : Hardware → Exec Hardware
  mark_hardware_provisioned hw =
      let meta = hw.meta in
      let hw' = record hw {
        meta = record meta {
          annotations = insert hardware_provisioned_annotation "true" meta.annotations;
        };
      } in
      ask (Call.patch_hardware hw hw' false) (λ t. e.patch_hardware t hw hw' false)

  without_finalizers : Hardware → Hardware
  without_finalizers hw =
      let meta = hw.meta in
      record hw {
        meta = record meta {
          finalizers =
              e.remove_finalizer (e.remove_finalizer meta.finalizers machine_finalizer)
                machine_legacy_finalizer;
        };
      }

  -- The Hardware that releaseHardware sends, given the reservation to clear.
  unfoldable pub released : Hardware → Option (String × Option Family) → Hardware
  unfolding disowned without_finalizers
  released hw reservation = without_finalizers (without_reservation (disowned hw) reservation)

  pub reservation_to_clear :
      Hardware → Option IpPoolReference → Exec (Option (String × Option Family))
  reservation_to_clear hw none = pure none
  reservation_to_clear hw (some pool) = ipam_reservation e hw pool >>= λ r. pure (some r)

  unfoldable pub release_hardware : Hardware → Exec Hardware
  unfolding reservation_to_clear disowned
  release_hardware hw = do
    m ← gets (λ s. s.machine)
    reservation ← reservation_to_clear (disowned hw) m.spec.address_from_pool
    let hw' = released hw reservation
    ask (Call.patch_hardware hw hw' true) (λ t. e.patch_hardware t hw hw' true)
