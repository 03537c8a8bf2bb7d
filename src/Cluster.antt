-- ===== src/Cluster.antt =====
-- controller/cluster/tinkerbellcluster.go: the endpoint of the control plane and the reconcile of a
-- TinkerbellCluster.
pub mod Endpoint
use cluster_api_provider_tin.Prelude.{
  ℕ, String, Bool, true, false, ◌&&◌, Option, none, some, List, [], ◌∷◌, ◌++◌, ◌==◌, nat_eq, is_set,
  if◌then◌else◌,
}
use cluster_api_provider_tin.Objects.{
  Int32, nonneg, negative, ObjectMeta, ApiEndpoint, TinkerbellCluster, InitializationStatus,
}

pub data ClusterError : Type 0 where
  cluster_not_ready control_plane_endpoint_not_set not_found other_error : ClusterError

pub data Outcome (A : Type 0) : Type 0 where
  done : A → Outcome A
  failed : ClusterError → Outcome A

-- The owning Cluster API Cluster.
pub record Cluster : Type 0 where
  pub meta : ObjectMeta
  pub control_plane_endpoint : ApiEndpoint

abbrev pub is_zero : Int32 → Bool
is_zero (nonneg n) = nat_eq n 0
is_zero (negative n) = false

abbrev kubernetes_api_port : Int32
kubernetes_api_port = nonneg 6443

-- `if endpoint.Host == "" { … }; if endpoint.Port == 0 { … }` over the TinkerbellCluster's endpoint.
abbrev pub filled_from : Option ApiEndpoint → ApiEndpoint → ApiEndpoint
filled_from none ep = ep
filled_from (some own) ep = record {
  host = if ep.host == "" then own.host else ep.host;
  port = if is_zero ep.port then own.port else ep.port;
}

abbrev with_port : ApiEndpoint → ApiEndpoint
with_port ep = record {
  host = ep.host;
  port = if is_zero ep.port then kubernetes_api_port else ep.port;
}

complete : ApiEndpoint → Outcome ApiEndpoint
complete ep = if ep.host == "" then failed control_plane_endpoint_not_set else done (with_port ep)

-- `is_valid` is APIEndpoint.IsValid of Cluster API.
module _ (is_valid : ApiEndpoint → Bool) where
  or_cluster : Option ApiEndpoint → Option Cluster → Outcome ApiEndpoint
  unfolding complete
  or_cluster own none = failed cluster_not_ready
  or_cluster own (some cluster) =
      if is_valid cluster.control_plane_endpoint
      then done cluster.control_plane_endpoint
      else complete (filled_from own cluster.control_plane_endpoint)

  -- The method `controlPlaneEndpoint`.
  unfoldable pub control_plane_endpoint : Option ApiEndpoint → Option Cluster → Outcome ApiEndpoint
  unfolding or_cluster
  control_plane_endpoint none cluster = or_cluster none cluster
  control_plane_endpoint (some own) cluster =
      if is_valid own then done own else or_cluster (some own) cluster

-- The writes of `reconcile` to the TinkerbellCluster.
unfoldable pub with_endpoint : TinkerbellCluster → ApiEndpoint → TinkerbellCluster
with_endpoint tc ep =
    let spec = tc.spec in
    let status = tc.status in
    record tc {
      spec = record spec { control_plane_endpoint = some ep };
      status = record status {
        ready = true;
        initialization = some (record { provisioned = some true });
      };
    }

-- What the reconcile calls: the answers of the management cluster to it, and Cluster API's helpers
-- on objects.
pub record ClusterEnv : Type 0 where
  pub is_valid : ApiEndpoint → Bool
  pub get_tinkerbell_cluster : Outcome TinkerbellCluster
  pub new_patch_helper : TinkerbellCluster → Outcome (Unit {0})
  pub get_owner_cluster : ObjectMeta → Outcome (Option Cluster)
  pub get_cluster_from_metadata : ObjectMeta → Outcome (Option Cluster)
  pub set_controller_reference : Cluster → ObjectMeta → Outcome ObjectMeta
  pub ensure_paused_condition :
      Option Cluster → TinkerbellCluster → Outcome (Bool × TinkerbellCluster)
  pub patch : TinkerbellCluster → Outcome (Unit {0})

-- The result of a reconcile and the TinkerbellClusters that it patched, the first first.
pub record Reconciled : Type 0 where
  pub result : Outcome (Unit {0})
  pub patched : List TinkerbellCluster

abbrev quiet : Outcome (Unit {0}) → Reconciled
quiet r = record { result = r; patched = [] }

abbrev then_patched : List TinkerbellCluster → Reconciled → Reconciled
then_patched before r = record r { patched = before ++ r.patched }

module _ (e : ClusterEnv) where
  patch_ready : TinkerbellCluster → Outcome ApiEndpoint → Reconciled
  patch_ready tc (failed x) = quiet (failed x)
  patch_ready tc (done ep) =
      let tc' = with_endpoint tc ep in record { result = e.patch tc'; patched = tc' ∷ [] }

  -- The method `reconcile`.
  unfoldable pub reconcile_endpoint : TinkerbellCluster → Option Cluster → Reconciled
  unfolding patch_ready
  reconcile_endpoint tc cluster =
      patch_ready tc (control_plane_endpoint e.is_valid tc.spec.control_plane_endpoint cluster)

  -- `Reconcile` from the paused condition on.
  unless_paused : Option Cluster → Outcome (Bool × TinkerbellCluster) → Reconciled
  unless_paused cluster (failed x) = quiet (failed x)
  unless_paused cluster (done (paused, tc)) =
      if paused
      then quiet (done tt)
      else if is_set tc.meta.deletion_timestamp
      then quiet (done tt)
      else if is_set cluster
      then reconcile_endpoint tc cluster
      else quiet (done tt)

  in_context : TinkerbellCluster → Option Cluster → Reconciled
  unfolding unless_paused
  in_context tc cluster = unless_paused cluster (e.ensure_paused_condition cluster tc)

  adopted : Cluster → TinkerbellCluster → Outcome (Unit {0}) → Reconciled
  unfolding in_context
  adopted cluster tc (failed x) = record { result = failed x; patched = tc ∷ [] }
  adopted cluster tc (done u) = then_patched (tc ∷ []) (in_context tc (some cluster))

  adopt : TinkerbellCluster → Cluster → Outcome ObjectMeta → Reconciled
  unfolding adopted
  adopt tc cluster (failed x) = quiet (failed x)
  adopt tc cluster (done meta) =
      let tc' = record tc { meta = meta } in adopted cluster tc' (e.patch tc')

  -- findClusterOwnerByLabelAndAdopt: an error of its lookup is dropped, and the reconcile goes on
  -- without a Cluster.
  by_label : TinkerbellCluster → Outcome (Option Cluster) → Reconciled
  unfolding adopt in_context
  by_label tc (done (some cluster)) = adopt tc cluster (e.set_controller_reference cluster tc.meta)
  by_label tc (done none) = in_context tc none
  by_label tc (failed x) = in_context tc none

  by_owner : TinkerbellCluster → Outcome (Option Cluster) → Reconciled
  unfolding by_label in_context
  by_owner tc (done (some cluster)) = in_context tc (some cluster)
  by_owner tc (done none) = by_label tc (e.get_cluster_from_metadata tc.meta)
  by_owner tc (failed not_found) = by_label tc (e.get_cluster_from_metadata tc.meta)
  by_owner tc (failed x) = quiet (failed x)

  with_helper : TinkerbellCluster → Outcome (Unit {0}) → Reconciled
  unfolding by_owner
  with_helper tc (failed x) = quiet (failed x)
  with_helper tc (done u) = by_owner tc (e.get_owner_cluster tc.meta)

  fetched : Outcome TinkerbellCluster → Reconciled
  unfolding with_helper
  fetched (done tc) = with_helper tc (e.new_patch_helper tc)
  fetched (failed not_found) = quiet (done tt)
  fetched (failed x) = quiet (failed x)

  -- The method `Reconcile`, with newReconcileContext.
  unfoldable pub reconcile : Reconciled
  unfolding fetched
  reconcile = fetched e.get_tinkerbell_cluster
