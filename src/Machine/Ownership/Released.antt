-- ===== src/Machine/Ownership/Released.antt =====
-- Giving a Hardware back: what the patch carries.
use cluster_api_provider_tin.Prelude.{
  String, ◌≡◌, refl, ◌∙◌, ◌≢◌, false, Option, none, some, arith, eq_iff, lookup, lookup-delete,
}
use cluster_api_provider_tin.Objects.{Hardware}
use cluster_api_provider_tin.Kube.{Env, FinalizerLaws, Family}
use cluster_api_provider_tin.Machine.Interfaces.{hardware_user_data}
use cluster_api_provider_tin.Machine.Reservation.{set_interface, clear_hardware_address}
use cluster_api_provider_tin.Machine.Ownership.{
  hardware_owner_name_label, hardware_owner_namespace_label, hardware_provisioned_annotation,
  machine_finalizer, machine_legacy_finalizer, disowned, without_finalizers, without_reservation,
  released,
}

-- Clearing a reservation changes the interfaces alone.
clear_frame :
    (hw : Hardware) (r : Option (String × Option Family))
    → ((without_reservation hw r).meta ≡ hw.meta)
      × ((without_reservation hw r).instance_spec ≡ hw.instance_spec)
unfolding clear_hardware_address set_interface
clear_frame hw none = (refl, refl)
clear_frame hw (some (mac, family)) = ground arith

-- What a Hardware has to be for the next machine: no owner, not provisioned, no user data, and
-- neither of the provider's finalizers.
pub record IsReleased (e : Env) (hw : Hardware) : Type 0 where
  pub no_owner : lookup hardware_owner_name_label hw.meta.labels ≡ none
  pub no_owner_namespace : lookup hardware_owner_namespace_label hw.meta.labels ≡ none
  pub not_provisioned : lookup hardware_provisioned_annotation hw.meta.annotations ≡ none
  pub no_user_data : hardware_user_data hw ≡ none
  pub no_finalizer : e.contains_finalizer hw.meta.finalizers machine_finalizer ≡ false
  pub no_legacy_finalizer : e.contains_finalizer hw.meta.finalizers machine_legacy_finalizer ≡ false

disowned_parts :
    (hw : Hardware)
    → (lookup hardware_owner_name_label (disowned hw).meta.labels ≡ none)
      × (lookup hardware_owner_namespace_label (disowned hw).meta.labels ≡ none)
      × (lookup hardware_provisioned_annotation (disowned hw).meta.annotations ≡ none)
      × (hardware_user_data (disowned hw) ≡ none)
unfolding disowned hardware_user_data
disowned_parts hw =
    (simp lookup-delete refl, simp lookup-delete refl, simp lookup-delete refl, ground arith)

-- The Hardware that a release sends is one that the next machine can have, whatever the
-- reservation that it clears.
pub released-IsReleased :
    (e : Env) (hw : Hardware) (r : Option (String × Option Family))
    → FinalizerLaws e
    → IsReleased e (released e hw r)
unfolding released without_finalizers hardware_user_data
released-IsReleased e hw r laws =
    let (meta, inst) = clear_frame (disowned hw) r in
    let (name, namespace, provisioned, userdata) = disowned_parts hw in
    record {
      no_owner = rw meta name;
      no_owner_namespace = rw meta namespace;
      not_provisioned = rw meta provisioned;
      no_user_data = rw inst userdata;
      no_finalizer =
          laws.contains-remove_ne _ machine_legacy_finalizer machine_finalizer
            (λ p. ground (arith, eq_iff machine_legacy_finalizer machine_finalizer))
          ∙ laws.contains-remove_self _ machine_finalizer;
      no_legacy_finalizer = laws.contains-remove_self _ machine_legacy_finalizer;
    }

-- A release leaves every label but the two of the owner and every annotation but the mark of
-- provisioning as they were.
released_frame :
    (e : Env) (hw : Hardware) (r : Option (String × Option Family)) (label annotation : String)
    → label ≢ hardware_owner_name_label
    → label ≢ hardware_owner_namespace_label
    → annotation ≢ hardware_provisioned_annotation
    → (lookup label (released e hw r).meta.labels ≡ lookup label hw.meta.labels)
      × (lookup annotation (released e hw r).meta.annotations
          ≡ lookup annotation hw.meta.annotations)
unfolding released without_finalizers disowned
released_frame e hw r label annotation name namespace provisioned =
    let (meta, _) = clear_frame (disowned hw) r in
    (
      rw (meta, lookup-delete, lookup-delete)
          (ground (
            arith,
            eq_iff hardware_owner_namespace_label label,
            eq_iff hardware_owner_name_label label,
          )),
      rw (meta, lookup-delete) (ground (arith, eq_iff hardware_provisioned_annotation annotation)),
    )
