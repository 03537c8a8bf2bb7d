-- ===== src/Kube/Actions.antt =====
-- Actions of a machine reconcile (controller/machine/scope.go, machineReconcileScope). An action
-- may fail; what it changed before it failed stays changed, as in the source, where the scope and
-- the machine are behind pointers.
use cluster_api_provider_tin.Prelude.{String, Bool, Option, List, ◌∷◌}
use cluster_api_provider_tin.Objects.{TinkerbellMachine, Machine, TinkerbellCluster}
use cluster_api_provider_tin.Kube.Errors.{Error, Result, ok, err}
use cluster_api_provider_tin.Kube.Environment.{Call, Family}

pub record HardwareAddress : Type 0 where
  pub family : Family
  pub address : String
  pub prefix : String
  pub gateway : String

-- The part of the scope that a reconcile changes: the machine, the address reserved so far, and
-- the calls sent, the latest first.
pub record ScopeState : Type 0 where
  pub machine : TinkerbellMachine
  pub reserved_address : Option HardwareAddress
  pub trace : List Call

-- The part that it reads.
pub record Scope : Type 0 where
  pub external_tinkerbell : Bool
  pub has_watch_manager : Bool
  pub owner_machine : Option Machine
  pub tinkerbell_cluster : TinkerbellCluster
  pub bootstrap_cloud_config : String

abbrev pub Exec : Type 0 → Type 0
Exec A = ScopeState → Result A × ScopeState

module _ {A : Type 0} where
  unfoldable pub pure : A → Exec A
  pure a s = (ok a, s)

  unfoldable pub raise : Error → Exec A
  raise x s = (err x, s)

  unfoldable pub lift : Result A → Exec A
  lift r s = (r, s)

  unfoldable pub gets : (ScopeState → A) → Exec A
  gets f s = (ok (f s), s)

  -- A call and its answer.
  unfoldable pub ask : Call → (List Call → Result A) → Exec A
  ask c answer s = (answer s.trace, record s { trace = c ∷ s.trace })

  -- The result as a value, for code that looks at the error.
  unfoldable pub attempt : Exec A → Exec (Result A)
  attempt m s = (ok (m s).0, (m s).1)

unfoldable pub modify : (ScopeState → ScopeState) → Exec (Unit {0})
modify f s = (ok tt, f s)

module _ {A B : Type 0} where
  abbrev pub continue : Result A → (A → Exec B) → Exec B
  continue (ok a) f s = f a s
  continue (err x) f s = (err x, s)

  infixl 10 ◌>>=◌ ◌>>◌
  unfoldable pub ◌>>=◌ : Exec A → (A → Exec B) → Exec B
  ◌>>=◌ m f s = continue (m s).0 f (m s).1

  abbrev pub ◌>>◌ : Exec A → Exec B → Exec B
  m >> n = m >>= λ _. n
