-- ===== src/Machine/Controller/Guards.antt =====
-- What has to hold before the entry point of the machine controller does anything.
use cluster_api_provider_tin.Prelude.{
  ℕ, ◌≡◌, refl, ◌⊎◌, inl, inr, Bool, true, false, Option, none, some, [], ◌==◌, arith, is_set,
  subst, if◌then◌else◌,
}
use cluster_api_provider_tin.Objects.{TinkerbellMachine, Machine}
use cluster_api_provider_tin.Kube.{Env, Error, Result, ok, err, is_not_found}
use cluster_api_provider_tin.Kube.Ensures.{err-ne-ok, ok-injective}
use cluster_api_provider_tin.Machine.Controller.{
  OwnerCluster, EntryEnv, Reconciler, Entered, and_then, is_machine_ready, when_ready,
  unless_paused, found_cluster, cluster_of, with_owner, with_machine, found, enter,
}

-- The Cluster of the Machine, by its label: none if there is no such Cluster.
pub data IsClusterOf (entry : EntryEnv) (m : Machine) : Option OwnerCluster → Type 0 where
  is_there :
      (c : OwnerCluster)
      → entry.get_cluster_from_metadata m.meta ≡ ok c
      → IsClusterOf entry m (some c)
  is_missing :
      (x : Error)
      → entry.get_cluster_from_metadata m.meta ≡ err x
      → is_not_found x ≡ true
      → IsClusterOf entry m none

-- What the checks of the entry point have found.
pub record IsPassed (entry : EntryEnv) : Type 0 where
  pub tinkerbell_machine : TinkerbellMachine
  pub current : TinkerbellMachine
  pub machine : Machine
  pub cluster : Option OwnerCluster
  pub exists : entry.get_tinkerbell_machine ≡ ok tinkerbell_machine
  pub owned : entry.get_owner_machine tinkerbell_machine.meta ≡ ok (some machine)
  pub clustered : IsClusterOf entry machine cluster
  pub not_paused : entry.ensure_paused_condition cluster tinkerbell_machine ≡ ok (false, current)
  pub has_secret : is_set machine.data_secret_name ≡ true
  pub has_version : (machine.version == "") ≡ false

-- Nothing was sent, or `P` holds.
abbrev Guarded : Type 0 → Entered → Type 0
Guarded P r = (r.trace ≡ []) ⊎ P

and_then-Guarded :
    {A : Type 0}
    → (P : Type 0) → (r : Result A) → (f : A → Entered) → ((a : A) → r ≡ ok a → Guarded P (f a))
    → Guarded P (and_then r f)
and_then-Guarded P (ok a) f h = h a refl
and_then-Guarded P (err x) f h = inl refl

ready_parts :
    (m : Machine)
    → is_machine_ready (some m) ≡ ok true
    → (is_set m.data_secret_name ≡ true) × ((m.version == "") ≡ false)
unfolding is_machine_ready
ready_parts m h = ground arith

module _ (entry : EntryEnv) (e : Env) (r : Reconciler) (now : ℕ) where
  missing_cluster :
      (m : Machine) (c : Option OwnerCluster) (x : Error) (b : Bool)
      → entry.get_cluster_from_metadata m.meta ≡ err x
      → is_not_found x ≡ b
      → (if b then ok none else err x) ≡ ok c
      → IsClusterOf entry m c
  missing_cluster m c x true answered gone h =
      subst (IsClusterOf entry m) (ok-injective none c h) (is_missing x answered gone)
  missing_cluster m c x false answered gone h = absurd (err-ne-ok x c h)

  found_cluster-IsClusterOf :
      (m : Machine) (c : Option OwnerCluster) (x : Result OwnerCluster)
      → entry.get_cluster_from_metadata m.meta ≡ x
      → found_cluster entry e r now x ≡ ok c
      → IsClusterOf entry m c
  found_cluster-IsClusterOf m c (ok found_one) answered h =
      subst (IsClusterOf entry m) (ok-injective (some found_one) c h) (is_there found_one answered)
  found_cluster-IsClusterOf m c (err x) answered h =
      missing_cluster m c x (is_not_found x) answered refl h

  when_ready-Guarded :
      (tm current : TinkerbellMachine) (m : Option Machine) (c : Option OwnerCluster) (b : Bool)
      → cluster_of entry e r now m ≡ ok c
      → entry.get_tinkerbell_machine ≡ ok tm
      → entry.get_owner_machine tm.meta ≡ ok m
      → entry.ensure_paused_condition c tm ≡ ok (false, current)
      → is_machine_ready m ≡ ok b
      → Guarded (IsPassed entry) (when_ready entry e r now current m b)
  unfolding when_ready
  when_ready-Guarded tm current m c false by exists owned awake ready = inl refl
  when_ready-Guarded tm current none c true by exists owned awake ready = inl refl
  when_ready-Guarded tm current (some m) c true by exists owned awake ready =
      let (secret, version) = ready_parts m ready in
      inr (record {
        tinkerbell_machine = tm;
        current = current;
        machine = m;
        cluster = c;
        exists = exists;
        owned = owned;
        clustered = found_cluster-IsClusterOf m c (entry.get_cluster_from_metadata m.meta) refl by;
        not_paused = awake;
        has_secret = secret;
        has_version = version;
      })

  unless_paused-Guarded :
      (tm current : TinkerbellMachine) (m : Option Machine) (c : Option OwnerCluster)
      (paused : Bool)
      → cluster_of entry e r now m ≡ ok c
      → entry.get_tinkerbell_machine ≡ ok tm
      → entry.get_owner_machine tm.meta ≡ ok m
      → entry.ensure_paused_condition c tm ≡ ok (paused, current)
      → Guarded (IsPassed entry) (unless_paused entry e r now m (paused, current))
  unfolding unless_paused
  unless_paused-Guarded tm current m c true by exists owned answered = inl refl
  unless_paused-Guarded tm current m c false by exists owned awake =
      and_then-Guarded (IsPassed entry) (is_machine_ready m) _
        λ b ready. when_ready-Guarded tm current m c b by exists owned awake ready

  with_machine-Guarded :
      (tm : TinkerbellMachine)
      → entry.get_tinkerbell_machine ≡ ok tm
      → Guarded (IsPassed entry) (with_machine entry e r now tm)
  unfolding with_machine with_owner
  with_machine-Guarded tm exists =
      and_then-Guarded (IsPassed entry) (entry.new_patch_helper tm) _ λ u helped.
        and_then-Guarded (IsPassed entry) (entry.get_owner_machine tm.meta) _ λ m owned.
          and_then-Guarded (IsPassed entry) (cluster_of entry e r now m) _ λ c found_it.
            and_then-Guarded (IsPassed entry) (entry.ensure_paused_condition c tm) _
              λ p answered. unless_paused-Guarded tm p.1 m c p.0 found_it exists owned answered

  found-Guarded :
      (x : Result TinkerbellMachine)
      → entry.get_tinkerbell_machine ≡ x
      → Guarded (IsPassed entry) (found entry e r now x)
  unfolding found
  found-Guarded (ok tm) exists = with_machine-Guarded tm exists
  found-Guarded (err x) exists = ground arith

-- The machine controller sends nothing, neither to reconcile a machine nor to delete it, unless the
-- TinkerbellMachine exists and is not paused, by itself or by the Cluster of its owning Machine where
-- there is one, and the Machine has the name of its bootstrap data and a version.
pub enter_guarded :
    (entry : EntryEnv) (e : Env) (r : Reconciler) (now : ℕ)
    → ((enter entry e r now).trace ≡ []) ⊎ IsPassed entry
unfolding enter
enter_guarded entry e r now = found-Guarded entry e r now entry.get_tinkerbell_machine refl
