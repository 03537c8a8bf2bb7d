-- ===== src/Machine/Mappers/Wakes.antt =====
-- A change of what a machine owns, or of its TinkerbellCluster, wakes the machine
-- (controller/machine/tinkerbellmachine.go, controller/machine/scope.go, pkg/cluster/watch.go).
use cluster_api_provider_tin.Prelude.{
  String, ◌≡◌, refl, sym, ap, ◌∙◌, ◌⊎◌, inl, inr, Bool, true, false, some, List, [], ◌∷◌, arith,
  ◌==◌, eq_refl, lookup-insert, insert, value, is_set, Member, subst, ◌↔◌, if◌then◌else◌,
}
use cluster_api_provider_tin.Objects.{
  ObjectMeta, NamespacedName, TinkerbellMachine, TinkerbellCluster, object_key,
}
use cluster_api_provider_tin.Kube.{Env, ok, Scope}
use cluster_api_provider_tin.Kube.Ensures.{ok-injective}
use cluster_api_provider_tin.Machine.Claims.{label_machine_name, label_machine_namespace}
use cluster_api_provider_tin.Machine.Bmc.{with_owner_labels, resource_ownership}
use cluster_api_provider_tin.Machine.Template.{owns_resource}
use cluster_api_provider_tin.Machine.Mappers.{
  ClusterMachine, MapperEnv, label_to_machine_mapper, requests,
  tinkerbell_cluster_to_tinkerbell_machines,
}
use cluster_api_provider_tin.Watch.{label_mapper}

-- The documented behaviour of SetControllerReference: it leaves the labels alone.
pub record KeepsLabels (e : Env) : Type 0 where
  pub labels_kept :
      (owner meta meta' : ObjectMeta)
      → e.set_controller_reference owner meta ≡ ok meta'
      → meta'.labels ≡ meta.labels

abbrev owner_labels : TinkerbellMachine → List (String × String) → List (String × String)
owner_labels m labels =
    insert label_machine_namespace m.meta.namespace (insert label_machine_name m.meta.name labels)

owner_name :
    (m : TinkerbellMachine) (labels : List (String × String))
    → value label_machine_name (owner_labels m labels) ≡ m.meta.name
owner_name m labels = simp lookup-insert refl

owner_namespace :
    (m : TinkerbellMachine) (labels : List (String × String))
    → value label_machine_namespace (owner_labels m labels) ≡ m.meta.namespace
owner_namespace m labels = simp lookup-insert refl

branch_labels :
    (e : Env) (m : TinkerbellMachine) (meta meta' : ObjectMeta) (same_place : Bool)
    → KeepsLabels e
    → (if same_place
        then e.set_controller_reference m.meta (with_owner_labels m meta)
        else ok (with_owner_labels m meta))
      ≡ ok meta'
    → meta'.labels ≡ owner_labels m meta.labels
branch_labels e m meta meta' true laws h =
    laws.labels_kept m.meta (with_owner_labels m meta) meta' h
branch_labels e m meta meta' false laws h =
    ap (λ (i : ObjectMeta). i.labels) (sym (ok-injective (with_owner_labels m meta) meta' h))

ownership_labels :
    (e : Env) (sc : Scope) (m : TinkerbellMachine) (meta meta' : ObjectMeta)
    → KeepsLabels e
    → resource_ownership e sc m meta ≡ ok meta'
    → meta'.labels ≡ owner_labels m meta.labels
unfolding resource_ownership
ownership_labels e sc m meta meta' laws h = branch_labels e m meta meta' _ laws h

named_mapping :
    (m : TinkerbellMachine) (labels : List (String × String))
    → value label_machine_name labels ≡ m.meta.name
    → value label_machine_namespace labels ≡ m.meta.namespace
    → (m.meta.name == "") ≡ false
    → (m.meta.namespace == "") ≡ false
    → (label_to_machine_mapper labels ≡ object_key m.meta ∷ [])
      × (label_mapper label_machine_name label_machine_namespace labels ≡ object_key m.meta ∷ [])
unfolding label_to_machine_mapper label_mapper
named_mapping m labels n ns named placed =
    (rw (n, ns, named, placed) refl, rw (n, ns, named, placed) refl)

-- An object on which setResourceOwnership has set the ownership of a machine is the machine's, and
-- a change of it wakes that machine and no other, both through the watches of the controller and
-- through those of the watch manager, which the controller gives the same labels.
pub owned_object_wakes :
    (e : Env) (sc : Scope) (m : TinkerbellMachine) (meta meta' : ObjectMeta)
    → KeepsLabels e
    → (m.meta.name == "") ≡ false
    → (m.meta.namespace == "") ≡ false
    → resource_ownership e sc m meta ≡ ok meta'
    → (owns_resource m meta' ≡ true)
      × (label_to_machine_mapper meta'.labels ≡ object_key m.meta ∷ [])
      × (label_mapper label_machine_name label_machine_namespace meta'.labels
          ≡ object_key m.meta ∷ [])
unfolding owns_resource
owned_object_wakes e sc m meta meta' laws named placed h =
    let same = ownership_labels e sc m meta meta' laws h in
    let n = ap (value label_machine_name) same ∙ owner_name m meta.labels in
    let ns = ap (value label_machine_namespace) same ∙ owner_namespace m meta.labels in
    let (own, watched) = named_mapping m meta'.labels n ns named placed in
    (rw (n, ns, eq_refl m.meta.name, eq_refl m.meta.namespace) refl, own, watched)

-- The request for a machine of the Cluster.
abbrev pub request : ClusterMachine → NamespacedName
request m = record { namespace = m.namespace; name = m.infrastructure_ref_name }

-- An entry that is left out if `b` holds.
module _ (k x : NamespacedName) (rest : List NamespacedName) where
  first-Member : (b : Bool) → b ≡ false → x ≡ k → Member k (if b then rest else x ∷ rest)
  first-Member true h e = absurd (ground (arith, h))
  first-Member false h e = inl e

  later-Member : (b : Bool) → Member k rest → Member k (if b then rest else x ∷ rest)
  later-Member true m = m
  later-Member false m = inr m

  Member-back :
      (b : Bool) → Member k (if b then rest else x ∷ rest) → ((b ≡ false) × (x ≡ k)) ⊎ Member k rest
  Member-back true m = inr m
  Member-back false (inl e) = inl (refl, e)
  Member-back false (inr m) = inr m

requests_complete :
    (ms : List ClusterMachine) (m : ClusterMachine)
    → Member m ms
    → (m.infrastructure_ref_name == "") ≡ false
    → Member (request m) (requests ms)
unfolding requests
requests_complete [] m h named = absurd h
requests_complete (x ∷ xs) m (inl same) named =
    first-Member (request m) (request x) (requests xs) (x.infrastructure_ref_name == "")
      (ap (λ (c : ClusterMachine). c.infrastructure_ref_name == "") same ∙ named) (ap request same)
requests_complete (x ∷ xs) m (inr later) named =
    later-Member (request m) (request x) (requests xs) (x.infrastructure_ref_name == "")
      (requests_complete xs m later named)

-- A Machine of the list that refers to the TinkerbellMachine `k`.
abbrev pub Refers : List ClusterMachine → NamespacedName → Type 0
Refers ms k =
    (m : ClusterMachine) × Member m ms
    × ((m.infrastructure_ref_name == "") ≡ false)
    × (request m ≡ k)

requests_sound :
    (ms : List ClusterMachine) (k : NamespacedName) → Member k (requests ms) → Refers ms k
unfolding requests
requests_sound [] k h = absurd h
requests_sound (x ∷ xs) k h =
    elim (Member-back k (request x) (requests xs) (x.infrastructure_ref_name == "") h) [
      | inl (named, same) ↦ (x, inl refl, named, same)
      | inr later ↦
          let (m, there, named, same) = requests_sound xs k later in (m, inr there, named, same)
    ]

-- A change of a TinkerbellCluster that is not being deleted, whose owning Cluster and its Machines
-- are found, wakes exactly the TinkerbellMachines to which a Machine of the Cluster refers.
pub cluster_change_wakes_iff :
    (e : MapperEnv) (c : TinkerbellCluster) (cluster : NamespacedName) (ms : List ClusterMachine)
    (k : NamespacedName)
    → is_set c.meta.deletion_timestamp ≡ false
    → e.get_owner_cluster c.meta ≡ ok (some cluster)
    → e.get_filtered_machines_for_cluster cluster ≡ ok ms
    → Member k (tinkerbell_cluster_to_tinkerbell_machines e (some c)) ↔ Refers ms k
unfolding tinkerbell_cluster_to_tinkerbell_machines
cluster_change_wakes_iff e c cluster ms k live owner machines =
    rw (live, owner, machines)
      (
        requests_sound ms k,
        λ (m, there, named, same).
            subst (λ i. Member i (requests ms)) same (requests_complete ms m there named),
      )
