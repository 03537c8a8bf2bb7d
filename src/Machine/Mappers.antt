-- ===== src/Machine/Mappers.antt =====
-- controller/machine/tinkerbellmachine.go: which TinkerbellMachines a change of a watched object
-- brings up for reconcile.
pub mod Wakes
use cluster_api_provider_tin.Prelude.{
  String, Bool, true, false, ◌||◌, Option, none, some, List, [], ◌∷◌, ◌==◌, value, is_set,
  if◌then◌else◌,
}
use cluster_api_provider_tin.Objects.{ObjectMeta, NamespacedName, TinkerbellCluster}
use cluster_api_provider_tin.Kube.{Error, Result, ok, err}
use cluster_api_provider_tin.Machine.Claims.{label_machine_name, label_machine_namespace}

unfoldable pub label_to_machine_mapper : List (String × String) → List NamespacedName
label_to_machine_mapper labels =
    let name = value label_machine_name labels in
    let namespace = value label_machine_namespace labels in
    if (name == "") || (namespace == "")
    then []
    else record { namespace = namespace; name = name } ∷ []

-- A Machine of the Cluster, as far as the mapper reads it.
pub record ClusterMachine : Type 0 where
  pub namespace : String
  pub infrastructure_ref_name : String

-- What the mapper calls of Cluster API: the owning Cluster, by its namespace and name, and the
-- Machines of a Cluster, in no particular order.
pub record MapperEnv : Type 0 where
  pub get_owner_cluster : ObjectMeta → Result (Option NamespacedName)
  pub get_filtered_machines_for_cluster : NamespacedName → Result (List ClusterMachine)

unfoldable pub requests : List ClusterMachine → List NamespacedName
requests [] = []
requests (m ∷ ms) =
    let rest = requests ms in
    if m.infrastructure_ref_name == ""
    then rest
    else record { namespace = m.namespace; name = m.infrastructure_ref_name } ∷ rest

abbrev machines_found : Result (List ClusterMachine) → List NamespacedName
machines_found (err x) = []
machines_found (ok ms) = requests ms

module _ (e : MapperEnv) where
  -- The switch on the owning Cluster: each of its other cases only logs.
  abbrev cluster_found : Result (Option NamespacedName) → List NamespacedName
  cluster_found (ok (some cluster)) = machines_found (e.get_filtered_machines_for_cluster cluster)
  cluster_found _ = []

  -- The function that TinkerbellClusterToTinkerbellMachines returns. An object that is no
  -- TinkerbellCluster has no request.
  unfoldable pub tinkerbell_cluster_to_tinkerbell_machines :
      Option TinkerbellCluster → List NamespacedName
  unfolding requests
  tinkerbell_cluster_to_tinkerbell_machines none = []
  tinkerbell_cluster_to_tinkerbell_machines (some c) =
      if is_set c.meta.deletion_timestamp then [] else cluster_found (e.get_owner_cluster c.meta)
