-- ===== src/Examples/Clusters.antt =====
-- The theorems on the endpoint of a cluster, at concrete objects.
use cluster_api_provider_tin.Prelude.{
  ◌≡◌, refl, ◌≢◌, ◌⊎◌, Bool, false, ◌&&◌, not, none, some, [], ◌∷◌, arith, ◌==◌, eq_iff,
}
use cluster_api_provider_tin.Objects.{nonneg, ApiEndpoint, TinkerbellCluster}
use cluster_api_provider_tin.Cluster.{
  ClusterError, not_found, done, failed, Cluster, is_zero, control_plane_endpoint, ClusterEnv,
  reconcile_endpoint,
}
use cluster_api_provider_tin.Cluster.Endpoint.{
  EndpointLaws, IsReadyWith, control_plane_endpoint_kept, reconcile_endpoint_ready,
}
use cluster_api_provider_tin.Examples.World.{meta_of, tinkerbell_cluster}

abbrev is_valid : ApiEndpoint → Bool
is_valid ep = not (ep.host == "") && not (is_zero ep.port)

is_valid-EndpointLaws : EndpointLaws is_valid
is_valid-EndpointLaws = record { valid_iff = λ ep. ground (arith, eq_iff ep.host "") }

abbrev endpoint : ApiEndpoint
endpoint = record { host = "10.0.0.100"; port = nonneg 6443 }

abbrev cluster : Cluster
cluster = record { meta = meta_of "cluster"; control_plane_endpoint = endpoint }

abbrev no_endpoint : Cluster
no_endpoint = record {
  meta = meta_of "cluster";
  control_plane_endpoint = record { host = ""; port = nonneg 0 };
}

found : control_plane_endpoint is_valid none (some cluster) ≡ done endpoint
unfolding control_plane_endpoint
found = refl

control_plane_endpoint_kept_example :
    (endpoint.host ≢ "")
    × (is_zero endpoint.port ≡ false)
    × (control_plane_endpoint is_valid (some endpoint) (some no_endpoint) ≡ done endpoint)
control_plane_endpoint_kept_example =
    control_plane_endpoint_kept is_valid none (some cluster) (some no_endpoint) endpoint
      is_valid-EndpointLaws found

abbrev servers : ClusterEnv
servers = record {
  is_valid = is_valid;
  get_tinkerbell_cluster = done tinkerbell_cluster;
  new_patch_helper = λ tc. done tt;
  get_owner_cluster = λ m. done (some cluster);
  get_cluster_from_metadata = λ m. failed not_found;
  set_controller_reference = λ c m. done m;
  ensure_paused_condition = λ c tc. done (false, tc);
  patch = λ tc. done tt;
}

reconcile_endpoint_ready_example :
    ((x : ClusterError) × (control_plane_endpoint servers.is_valid
          tinkerbell_cluster.spec.control_plane_endpoint
          (some cluster)
        ≡ failed x)
      × (reconcile_endpoint servers tinkerbell_cluster (some cluster)
          ≡ record { result = failed x; patched = [] }))
    ⊎ ((ep : ApiEndpoint) × (tc' : TinkerbellCluster) × (control_plane_endpoint servers.is_valid
            tinkerbell_cluster.spec.control_plane_endpoint
            (some cluster)
          ≡ done ep)
        × (reconcile_endpoint servers tinkerbell_cluster (some cluster)
            ≡ record { result = servers.patch tc'; patched = tc' ∷ [] })
        × IsReadyWith ep tinkerbell_cluster tc')
reconcile_endpoint_ready_example =
    reconcile_endpoint_ready servers tinkerbell_cluster (some cluster)
