-- ===== src/Machine/Tasks.antt =====
-- controller/machine/template.go: the Tasks of a machine. A list of names stands for the map of
-- those to keep.
pub mod Calls
pub mod Gone
pub mod Store
pub mod Ensured
pub mod Removed
pub mod Exact
use cluster_api_provider_tin.Prelude.{
  String, Bool, true, false, ◌&&◌, ◌||◌, not, Option, none, some, List, [], ◌∷◌, ◌==◌, lookup,
  if◌then◌else◌,
}
use cluster_api_provider_tin.Objects.{TinkerbellMachine, Task, object_key}
use cluster_api_provider_tin.Kube.{
  Env, Error, Result, ok, err, is_not_found, Call, Exec, pure, raise, lift, gets, ask, attempt,
  continue, ◌>>=◌, ◌>>◌,
}
use cluster_api_provider_tin.Machine.Template.{owns_resource, mem_text}

abbrev has_text : Option String → String → Bool
has_text none v = false
has_text (some w) v = w == v

-- Whether each entry of the first map is one of the second.
within : List (String × String) → List (String × String) → Bool
within [] n = true
within ((k, v) ∷ m) n = has_text (lookup k n) v && within m n

-- equality.Semantic.DeepEqual of the specs and of the annotations
abbrev up_to_date : Task → Task → Bool
up_to_date existing task =
    (existing.spec == task.spec)
    && (within existing.meta.annotations task.meta.annotations
        && within task.meta.annotations existing.meta.annotations)

abbrev updated : Task → Task → Task
updated existing task =
    let meta = existing.meta in
    record { meta = record meta { annotations = task.meta.annotations }; spec = task.spec }

abbrev pub ignore_missing : Result (Unit {0}) → Result (Unit {0})
ignore_missing (ok u) = ok u
ignore_missing (err x) = if is_not_found x then ok tt else err x

-- The names to keep.
pub names : List Task → List String
names [] = []
names (t ∷ ts) = t.meta.name ∷ names ts

module _ (e : Env) where
  pub delete_unkept : List String → List Task → Exec (Unit {0})
  delete_unkept keep [] = pure tt
  delete_unkept keep (t ∷ ts) =
      let rest = delete_unkept keep ts in
      if mem_text t.meta.name keep
      then rest
      else (ask (Call.delete_task t) (λ c. ignore_missing (e.delete_task c t)) >> rest)

  unfoldable pub remove_tasks : List String → Exec (Unit {0})
  unfolding delete_unkept
  remove_tasks keep = do
    m ← gets (λ s. s.machine)
    tasks ←
        ask (Call.list_tasks m.status.target_namespace m.meta.name m.meta.namespace)
          (λ c. e.list_tasks c m.status.target_namespace m.meta.name m.meta.namespace)
    delete_unkept keep tasks

  conflict_with : TinkerbellMachine → Result Task → Exec Bool
  conflict_with m (err x) = if is_not_found x then pure false else raise x
  conflict_with m (ok existing) = pure (not (owns_resource m existing.meta))

  -- Whether the machine cannot use the Tasks.
  unfoldable pub task_conflict : TinkerbellMachine → List Task → Exec Bool
  unfolding conflict_with
  task_conflict m [] = pure false
  task_conflict m (t ∷ ts) =
      let rest = task_conflict m ts in
      do
        found ←
            attempt
              (ask (Call.get_task (object_key t.meta)) (λ c. e.get_task c (object_key t.meta)))
        foreign ← conflict_with m found
        if foreign then pure true else rest

  ensure_task : Task → Result Task → Exec (Unit {0})
  unfolding within
  ensure_task task (err x) =
      if is_not_found x then ask (Call.create_task task) (λ c. e.create_task c task) else raise x
  ensure_task task (ok existing) =
      if up_to_date existing task
      then pure tt
      else ask (Call.update_task (updated existing task))
          (λ c. e.update_task c (updated existing task))

  pub each_task : List Task → Exec (Unit {0})
  unfolding ensure_task
  each_task [] = pure tt
  each_task (t ∷ ts) =
      let rest = each_task ts in
      do
        found ←
            attempt
              (ask (Call.get_task (object_key t.meta)) (λ c. e.get_task c (object_key t.meta)))
        ensure_task t found
        rest

  unfoldable pub ensure_tasks : List Task → Exec (Unit {0})
  unfolding each_task names remove_tasks
  ensure_tasks tasks = do each_task tasks; remove_tasks (names tasks)
