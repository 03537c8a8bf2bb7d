-- ===== src/Machine/Tasks/Calls.antt =====
-- What the code of controller/machine/template.go sends about the Tasks.
use cluster_api_provider_tin.Prelude.{String, true, false, List, [], ◌∷◌, refl}
use cluster_api_provider_tin.Objects.{TinkerbellMachine, Task}
use cluster_api_provider_tin.Kube.{Env, Result, ok, err, Call}
use cluster_api_provider_tin.Kube.Sends.{
  Allows, task_target, Sends, Sends-pure, Sends-raise, Sends-gets, Sends-ask, Sends-attempt,
  Sends-if, Sends-bind,
}
use cluster_api_provider_tin.Machine.Tasks.{
  delete_unkept, remove_tasks, conflict_with, task_conflict, ensure_task, each_task, ensure_tasks,
}

module _ {Q : Call → Type 0} (allow : Allows Q task_target) (e : Env) where
  delete_unkept-Sends : (keep : List String) (ts : List Task) → Sends Q (delete_unkept e keep ts)
  unfolding delete_unkept
  delete_unkept-Sends keep [] = Sends-pure tt
  delete_unkept-Sends keep (t ∷ ts) =
      let rest = delete_unkept-Sends keep ts in
      Sends-if _ _ _ rest (Sends-bind _ _ (Sends-ask _ _ (allow _ refl)) λ u. rest)

  pub remove_tasks-Sends : (keep : List String) → Sends Q (remove_tasks e keep)
  unfolding remove_tasks
  remove_tasks-Sends keep =
      Sends-bind _ _ (Sends-gets _)
        λ m. Sends-bind _ _ (Sends-ask _ _ (allow _ refl)) (delete_unkept-Sends keep)

  conflict-Sends : (m : TinkerbellMachine) (r : Result Task) → Sends Q (conflict_with e m r)
  unfolding conflict_with
  conflict-Sends m (ok t) = Sends-pure _
  conflict-Sends m (err x) = Sends-if _ _ _ (Sends-pure _) (Sends-raise x)

  pub task_conflict-Sends :
      (m : TinkerbellMachine) (ts : List Task) → Sends Q (task_conflict e m ts)
  unfolding task_conflict
  task_conflict-Sends m [] = Sends-pure false
  task_conflict-Sends m (t ∷ ts) =
      let rest = task_conflict-Sends m ts in
      Sends-bind _ _ (Sends-attempt _ (Sends-ask _ _ (allow _ refl))) λ found.
        Sends-bind _ _ (conflict-Sends m found) λ foreign. Sends-if _ _ _ (Sends-pure true) rest

  ensure_task-Sends : (t : Task) (r : Result Task) → Sends Q (ensure_task e t r)
  unfolding ensure_task
  ensure_task-Sends t (ok old) = Sends-if _ _ _ (Sends-pure tt) (Sends-ask _ _ (allow _ refl))
  ensure_task-Sends t (err x) = Sends-if _ _ _ (Sends-ask _ _ (allow _ refl)) (Sends-raise x)

  pub each_task-Sends : (ts : List Task) → Sends Q (each_task e ts)
  unfolding each_task
  each_task-Sends [] = Sends-pure tt
  each_task-Sends (t ∷ ts) =
      let rest = each_task-Sends ts in
      Sends-bind _ _ (Sends-attempt _ (Sends-ask _ _ (allow _ refl)))
        λ found. Sends-bind _ _ (ensure_task-Sends t found) λ u. rest

  pub ensure_tasks-Sends : (ts : List Task) → Sends Q (ensure_tasks e ts)
  unfolding ensure_tasks
  ensure_tasks-Sends ts = Sends-bind _ _ (each_task-Sends ts) λ u. remove_tasks-Sends _
