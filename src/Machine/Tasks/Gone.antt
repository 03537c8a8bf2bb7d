-- ===== src/Machine/Tasks/Gone.antt =====
-- That removeTasks (controller/machine/template.go), with no Task to keep, succeeds only when all the
-- Tasks of the machine are gone.
use cluster_api_provider_tin.Prelude.{
  ◌≡◌, refl, sym, ap, ◌∙◌, subst, inl, inr, true, false, List, [], ◌∷◌, Bool, if◌then◌else◌,
}
use cluster_api_provider_tin.Objects.{TinkerbellMachine, Task}
use cluster_api_provider_tin.Kube.{
  Env, Result, ok, err, is_not_found, Call, ScopeState, pure, gets, ask, ◌>>=◌,
}
use cluster_api_provider_tin.Kube.Ensures.{Tolerated, err-ne-ok}
use cluster_api_provider_tin.Kube.Patched.{continue-ok}
use cluster_api_provider_tin.Machine.Tasks.{ignore_missing, delete_unkept, remove_tasks}

-- The Tasks are deleted one after the other, from the calls of the first list on.
pub data TasksDeleted (e : Env) : List Task → List Call → List Call → Type 0 where
  no_task : (calls : List Call) → TasksDeleted e [] calls calls
  task_deleted :
      (t : Task) (ts : List Task) (calls calls' : List Call)
      → Tolerated (e.delete_task calls t)
      → TasksDeleted e ts (Call.delete_task t ∷ calls) calls'
      → TasksDeleted e (t ∷ ts) calls calls'

abbrev list_call : TinkerbellMachine → Call
list_call m = Call.list_tasks m.status.target_namespace m.meta.name m.meta.namespace

-- All the Tasks of the machine are listed, and deleted.
pub record TasksGone (e : Env) (m : TinkerbellMachine) (calls calls' : List Call) : Type 0 where
  pub tasks : List Task
  pub listed : e.list_tasks calls m.status.target_namespace m.meta.name m.meta.namespace ≡ ok tasks
  pub deleted : TasksDeleted e tasks (list_call m ∷ calls) calls'

ignored : (r : Result (Unit {0})) (u : Unit {0}) → ignore_missing r ≡ ok u → Tolerated r
ignored (ok v) u h = inl refl
ignored (err x) u h = inr (x, refl, missing (is_not_found x) h)
  where
    missing : (b : Bool) → (if b then ok tt else err x) ≡ ok u → b ≡ true
    missing true h = refl
    missing false h = absurd (err-ne-ok x u h)

module _ (e : Env) where
  delete-TasksDeleted :
      (ts : List Task) (s : ScopeState) (u : Unit {0})
      → (delete_unkept e [] ts s).0 ≡ ok u
      → TasksDeleted e ts s.trace (delete_unkept e [] ts s).1.trace
  unfolding delete_unkept pure ask ◌>>=◌
  delete-TasksDeleted [] s u h = no_task s.trace
  delete-TasksDeleted (t ∷ ts) s u h =
      let s' : ScopeState = record s { trace = Call.delete_task t ∷ s.trace } in
      let (v, accepted, rest) =
        continue-ok (ignore_missing (e.delete_task s.trace t)) (λ v. delete_unkept e [] ts) s' u
          h in
      task_deleted t ts s.trace _ (ignored _ v accepted) (
        subst (λ (x : Result (Unit {0}) × ScopeState). TasksDeleted e ts s'.trace x.1.trace)
          (sym rest) (delete-TasksDeleted ts s' u (ap (λ x. x.0) (sym rest) ∙ h)))

  pub remove_tasks-TasksGone :
      (s : ScopeState) (u : Unit {0})
      → (remove_tasks e [] s).0 ≡ ok u
      → TasksGone e s.machine s.trace (remove_tasks e [] s).1.trace
  unfolding remove_tasks gets ask ◌>>=◌
  remove_tasks-TasksGone s u h =
      let m = s.machine in
      let s' : ScopeState = record s { trace = list_call m ∷ s.trace } in
      let (ts, listed, rest) =
        continue-ok (e.list_tasks s.trace m.status.target_namespace m.meta.name m.meta.namespace)
          (delete_unkept e []) s' u h in
      record {
        tasks = ts;
        listed = listed;
        deleted =
            subst (λ (x : Result (Unit {0}) × ScopeState). TasksDeleted e ts s'.trace x.1.trace)
              (sym rest) (delete-TasksDeleted ts s' u (ap (λ x. x.0) (sym rest) ∙ h));
      }
