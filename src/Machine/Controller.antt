-- ===== src/Machine/Controller.antt =====
-- controller/machine/tinkerbellmachine.go: the entry point of the machine controller, and the checks
-- of scope.go that it makes before a reconcile.
pub mod Guards
use cluster_api_provider_tin.Prelude.{
  ℕ, String, Bool, true, false, ◌||◌, Option, none, some, List, [], ◌==◌, lookup, is_set,
  if◌then◌else◌,
}
use cluster_api_provider_tin.Objects.{
  ObjectMeta, NamespacedName, TinkerbellMachine, TinkerbellCluster, InitializationStatus, Machine,
}
use cluster_api_provider_tin.Kube.{
  Env, Error, Result, ok, err, is_not_found, hardware_claim_requeue, waiting_for_ip_address,
  machine_version_empty, missing_bootstrap_key, bootstrap_data_empty, Call, ScopeState, Scope, Exec,
}
use cluster_api_provider_tin.Machine.Reconcile.{reconcile}
use cluster_api_provider_tin.Machine.Deletion.{delete_machine_with_dependencies}

-- A Cluster API Cluster, as far as this code reads it.
pub record OwnerCluster : Type 0 where
  pub infrastructure_ref_name : String

-- What the entry point calls of the management cluster's client and of Cluster API's helpers.
pub record EntryEnv : Type 0 where
  pub get_tinkerbell_machine : Result TinkerbellMachine
  pub new_patch_helper : TinkerbellMachine → Result (Unit {0})
  pub get_owner_machine : ObjectMeta → Result (Option Machine)
  pub get_cluster_from_metadata : ObjectMeta → Result OwnerCluster
  pub ensure_paused_condition :
      Option OwnerCluster → TinkerbellMachine → Result (Bool × TinkerbellMachine)
  pub get_secret : NamespacedName → Result (List (String × String))
  pub get_tinkerbell_cluster : NamespacedName → Result TinkerbellCluster

-- The fields of the TinkerbellMachineReconciler that the scope takes over.
pub record Reconciler : Type 0 where
  pub external_tinkerbell : Bool
  pub has_watch_manager : Bool

-- The result, with the seconds after which to come back, if any, and the calls of the scope.
pub record Entered : Type 0 where
  pub result : Result (Option ℕ)
  pub trace : List Call

abbrev stopped : Result (Option ℕ) → Entered
stopped r = record { result = r; trace = [] }

-- `if err != nil { return …, err }`
abbrev pub and_then : {A : Type 0} → Result A → (A → Entered) → Entered
and_then (ok a) f = f a
and_then (err x) f = stopped (err x)

-- isMachineReady: whether the Machine is ready; the reason why not is a text.
unfoldable pub is_machine_ready : Option Machine → Result Bool
is_machine_ready none = ok false
is_machine_ready (some m) =
    if is_set m.data_secret_name
    then (if m.version == "" then err machine_version_empty else ok true)
    else ok false

abbrev secret_value : Option String → Result String
secret_value none = err missing_bootstrap_key
secret_value (some text) = if text == "" then err bootstrap_data_empty else ok text

abbrev value_of_secret : Result (List (String × String)) → Result String
value_of_secret (err x) = err x
value_of_secret (ok secret) = secret_value (lookup "value" secret)

abbrev name_or_empty : Option String → String
name_or_empty none = ""
name_or_empty (some name) = name

abbrev is_provisioned : Option InitializationStatus → Bool
is_provisioned none = false
is_provisioned (some i) = elim i.provisioned [ none ↦ false | some p ↦ p ]

unfoldable pub cluster_is_ready : TinkerbellCluster → Bool
cluster_is_ready tc = tc.status.ready || is_provisioned tc.status.initialization

abbrev if_ready : Result TinkerbellCluster → Result (Option TinkerbellCluster)
if_ready (err x) = err x
if_ready (ok tc) = if cluster_is_ready tc then ok (some tc) else ok none

-- The end of Reconcile: the two errors for which it comes back without a failure.
unfoldable pub after_reconcile : Result (Unit {0}) → Result (Option ℕ)
after_reconcile (ok u) = ok none
after_reconcile (err hardware_claim_requeue) = ok (some 1)
after_reconcile (err waiting_for_ip_address) = ok (some 30)
after_reconcile (err x) = err x

abbrev after_deletion : Result (Unit {0}) → Result (Option ℕ)
after_deletion (ok u) = ok none
after_deletion (err x) = err x

module _ (entry : EntryEnv) (e : Env) (r : Reconciler) (now : ℕ) where
  get_ready_bootstrap_cloud_config : Machine → Result String
  get_ready_bootstrap_cloud_config m = value_of_secret (
      entry.get_secret
        (record { namespace = m.meta.namespace; name = name_or_empty m.data_secret_name }))

  abbrev cluster_at : TinkerbellMachine → Result OwnerCluster → Result (Option TinkerbellCluster)
  cluster_at tm (err x) = err x
  cluster_at tm (ok c) = if_ready (
      entry.get_tinkerbell_cluster
        (record { namespace = tm.meta.namespace; name = c.infrastructure_ref_name }))

  get_ready_tinkerbell_cluster : TinkerbellMachine → Machine → Result (Option TinkerbellCluster)
  get_ready_tinkerbell_cluster tm m = cluster_at tm (entry.get_cluster_from_metadata m.meta)

  abbrev new_state : TinkerbellMachine → ScopeState
  new_state tm = record { machine = tm; reserved_address = none; trace = [] }

  -- On deletion the scope has neither the Machine nor the TinkerbellCluster yet.
  abbrev scope_for : Option Machine → TinkerbellCluster → String → Scope
  scope_for m tc text = record {
    external_tinkerbell = r.external_tinkerbell;
    has_watch_manager = r.has_watch_manager;
    owner_machine = m;
    tinkerbell_cluster = tc;
    bootstrap_cloud_config = text;
  }

  abbrev zero_cluster : TinkerbellCluster
  zero_cluster = record {
    meta = record {
      name = "";
      namespace = "";
      uid = "";
      labels = [];
      annotations = [];
      finalizers = [];
      deletion_timestamp = none;
      owner_references = [];
    };
    spec = record { control_plane_endpoint = none; template_inline = ""; template_ref = none };
    status = record { ready = false; initialization = none; conditions = [] };
  }

  run_reconcile : TinkerbellMachine → Machine → String → TinkerbellCluster → Entered
  run_reconcile tm m text tc =
      let (res, s) = reconcile e (scope_for (some m) tc text) now (new_state tm) in
      record { result = after_reconcile res; trace = s.trace }

  run_deletion : TinkerbellMachine → Entered
  run_deletion tm =
      let (res, s) =
        delete_machine_with_dependencies e (scope_for none zero_cluster "") (new_state tm) in
      record { result = after_deletion res; trace = s.trace }

  with_cluster : TinkerbellMachine → Machine → String → Option TinkerbellCluster → Entered
  unfolding run_reconcile
  with_cluster tm m text none = stopped (ok none)
  with_cluster tm m text (some tc) = run_reconcile tm m text tc

  with_bootstrap : TinkerbellMachine → Machine → String → Entered
  unfolding with_cluster get_ready_tinkerbell_cluster
  with_bootstrap tm m text =
      if text == ""
      then stopped (ok (some 30))
      else and_then (get_ready_tinkerbell_cluster tm m) (with_cluster tm m text)

  -- From MachineScheduledForDeletion on; a ready Machine is there.
  when_ready : TinkerbellMachine → Option Machine → Bool → Entered
  unfolding run_deletion with_bootstrap get_ready_bootstrap_cloud_config
  when_ready tm m false = stopped (ok none)
  when_ready tm none true = stopped (ok none)
  when_ready tm (some m) true =
      if is_set tm.meta.deletion_timestamp
      then run_deletion tm
      else and_then (get_ready_bootstrap_cloud_config m) (with_bootstrap tm m)

  unless_paused : Option Machine → Bool × TinkerbellMachine → Entered
  unfolding when_ready
  unless_paused m (paused, tm) =
      if paused then stopped (ok none) else and_then (is_machine_ready m) (when_ready tm m)

  abbrev found_cluster : Result OwnerCluster → Result (Option OwnerCluster)
  found_cluster (ok c) = ok (some c)
  found_cluster (err x) = if is_not_found x then ok none else err x

  abbrev cluster_of : Option Machine → Result (Option OwnerCluster)
  cluster_of none = ok none
  cluster_of (some m) = found_cluster (entry.get_cluster_from_metadata m.meta)

  with_owner : TinkerbellMachine → Option Machine → Entered
  unfolding unless_paused
  with_owner tm m =
      and_then (cluster_of m) λ c. and_then (entry.ensure_paused_condition c tm) (unless_paused m)

  with_machine : TinkerbellMachine → Entered
  unfolding with_owner
  with_machine tm =
      and_then (entry.new_patch_helper tm)
        λ u. and_then (entry.get_owner_machine tm.meta) (with_owner tm)

  found : Result TinkerbellMachine → Entered
  unfolding with_machine
  found (ok tm) = with_machine tm
  found (err x) = if is_not_found x then stopped (ok none) else stopped (err x)

  -- The method `Reconcile` of the TinkerbellMachineReconciler.
  unfoldable pub enter : Entered
  unfolding found
  enter = found entry.get_tinkerbell_machine
