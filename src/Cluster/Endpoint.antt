-- ===== src/Cluster/Endpoint.antt =====
-- What the endpoint of the control plane is, and that it is kept.
use cluster_api_provider_tin.Prelude.{
  ◌≡◌, refl, ◌≢◌, ◌⊎◌, inl, inr, ◌↔◌, Bool, true, false, Option, none, some, [], ◌∷◌, arith, eq_iff,
  if◌then◌else◌,
}
use cluster_api_provider_tin.Objects.{Int32, nonneg, negative, ApiEndpoint, TinkerbellCluster}
use cluster_api_provider_tin.Cluster.{
  ClusterError, Outcome, done, failed, Cluster, is_zero, complete, filled_from, or_cluster,
  control_plane_endpoint, with_endpoint, ClusterEnv, patch_ready, reconcile_endpoint,
}

-- APIEndpoint.IsValid is documented to ask for a host and a port that are set.
pub record EndpointLaws (is_valid : ApiEndpoint → Bool) : Type 0 where
  pub valid_iff :
      (ep : ApiEndpoint) → (is_valid ep ≡ true) ↔ ((ep.host ≢ "") × (is_zero ep.port ≡ false))

zero_port : (p : Int32) → is_zero (if is_zero p then nonneg 6443 else p) ≡ false
zero_port (nonneg n) = ground arith
zero_port (negative n) = refl

complete_set :
    (x ep : ApiEndpoint) → complete x ≡ done ep → (ep.host ≢ "") × (is_zero ep.port ≡ false)
unfolding complete
complete_set x ep h = ground (arith, eq_iff x.host "", zero_port x.port)

Outcome-cases :
    {A : Type 0}
    → (r : Outcome A) → ((a : A) × (r ≡ done a)) ⊎ ((x : ClusterError) × (r ≡ failed x))
Outcome-cases (done a) = inl (a, refl)
Outcome-cases (failed x) = inr (x, refl)

module _ (is_valid : ApiEndpoint → Bool) (laws : EndpointLaws is_valid) where
  or_cluster_valid :
      (own : Option ApiEndpoint) (cluster : Option Cluster) (ep : ApiEndpoint)
      → or_cluster is_valid own cluster ≡ done ep
      → is_valid ep ≡ true
  unfolding or_cluster
  or_cluster_valid own none ep h = ground arith
  or_cluster_valid own (some cluster) ep h =
      ground
        (arith, laws.valid_iff ep, complete_set (filled_from own cluster.control_plane_endpoint) ep)

  control_plane_endpoint_valid :
      (own : Option ApiEndpoint) (cluster : Option Cluster) (ep : ApiEndpoint)
      → control_plane_endpoint is_valid own cluster ≡ done ep
      → is_valid ep ≡ true
  unfolding control_plane_endpoint
  control_plane_endpoint_valid none cluster ep h = or_cluster_valid none cluster ep h
  control_plane_endpoint_valid (some own) cluster ep h =
      ground (arith, or_cluster_valid (some own) cluster ep)

  kept :
      (ep : ApiEndpoint) (cluster : Option Cluster)
      → is_valid ep ≡ true
      → control_plane_endpoint is_valid (some ep) cluster ≡ done ep
  unfolding control_plane_endpoint
  kept ep cluster h = rw h refl

-- The endpoint that a reconcile finds has a host and a port, and it is kept: once it is written to
-- the TinkerbellCluster, every later reconcile finds it again, whatever the Cluster then says.
pub control_plane_endpoint_kept :
    (is_valid : ApiEndpoint → Bool) (own : Option ApiEndpoint) (cluster later : Option Cluster)
    (ep : ApiEndpoint)
    → EndpointLaws is_valid
    → control_plane_endpoint is_valid own cluster ≡ done ep
    → (ep.host ≢ "")
      × (is_zero ep.port ≡ false)
      × (control_plane_endpoint is_valid (some ep) later ≡ done ep)
control_plane_endpoint_kept is_valid own cluster later ep laws h =
    let valid = control_plane_endpoint_valid is_valid laws own cluster ep h in
    let (host, port) = (laws.valid_iff ep).0 valid in
    (host, port, kept is_valid laws ep later valid)

-- The TinkerbellCluster with an endpoint, as ready and as provisioned, and nothing else of it
-- changed.
abbrev pub IsReadyWith : ApiEndpoint → TinkerbellCluster → TinkerbellCluster → Type 0
IsReadyWith ep tc tc' =
    (tc'.spec.control_plane_endpoint ≡ some ep)
    × (tc'.status.ready ≡ true)
    × (tc'.status.initialization ≡ some (record { provisioned = some true }))
    × (tc'.status.conditions ≡ tc.status.conditions)
    × (tc'.spec.template_inline ≡ tc.spec.template_inline)
    × (tc'.spec.template_ref ≡ tc.spec.template_ref)
    × (tc'.meta ≡ tc.meta)

-- `reconcile` either fails without a patch, for want of an endpoint, or patches the
-- TinkerbellCluster once: with its endpoint, as ready and as provisioned, and with the rest of its
-- spec, its conditions and its metadata as they were.
pub reconcile_endpoint_ready :
    (e : ClusterEnv) (tc : TinkerbellCluster) (cluster : Option Cluster)
    → ((x : ClusterError) × (control_plane_endpoint e.is_valid tc.spec.control_plane_endpoint
            cluster
          ≡ failed x)
        × (reconcile_endpoint e tc cluster ≡ record { result = failed x; patched = [] }))
      ⊎ ((ep : ApiEndpoint) × (tc' : TinkerbellCluster) × (control_plane_endpoint e.is_valid
              tc.spec.control_plane_endpoint cluster
            ≡ done ep)
          × (reconcile_endpoint e tc cluster ≡ record { result = e.patch tc'; patched = tc' ∷ [] })
          × IsReadyWith ep tc tc')
unfolding reconcile_endpoint patch_ready with_endpoint
reconcile_endpoint_ready e tc cluster =
    elim (Outcome-cases
      (control_plane_endpoint e.is_valid tc.spec.control_plane_endpoint cluster)) [
        | inl (ep, found) ↦ inr (
          ep,
          with_endpoint tc ep,
          found,
          rw found refl,
          (refl, refl, refl, refl, refl, refl, refl),
        )
        | inr (x, none_found) ↦ inl (x, none_found, rw none_found refl)
      ]
