-- ===== src/Examples/Tasks.antt =====
-- The theorems on the Tasks of a machine, at concrete servers.
use cluster_api_provider_tin.Prelude.{String, ◌≡◌, refl, List, [], ◌∷◌, lookup}
use cluster_api_provider_tin.Objects.{Task}
use cluster_api_provider_tin.Kube.{ok, pure, raise, gets, ask, attempt, ◌>>=◌}
use cluster_api_provider_tin.Machine.Claims.{label_machine_name, label_machine_namespace}
use cluster_api_provider_tin.Machine.Tasks.{ensure_tasks}
use cluster_api_provider_tin.Machine.Tasks.Store.{tasks_now}
use cluster_api_provider_tin.Machine.Tasks.Exact.{IsExactly, ensure_tasks-IsExactly}
use cluster_api_provider_tin.Examples.World.{meta_of, machine_named, start}
use cluster_api_provider_tin.Examples.TaskServer.{
  find, remove_key, task_list, select, with_tasks, with_tasks-IsTaskServer,
}

abbrev task_of : String → String → String → Task
task_of machine name spec =
    let meta = meta_of name in
    record {
      meta = record meta {
        labels = (label_machine_name, machine) ∷ (label_machine_namespace, "default") ∷ [];
      };
      spec = spec;
    }

-- A Task that an earlier attempt left behind, one of an old version, and one of another machine.
abbrev left_behind : List Task
left_behind = task_of "m1" "m1-old" "" ∷ task_of "m1" "m1" "v1" ∷ task_of "m2" "m2" "" ∷ []

abbrev wanted : List Task
wanted = task_of "m1" "m1" "v2" ∷ task_of "m1" "m1-1" "v2" ∷ []

succeeds : (ensure_tasks (with_tasks left_behind) wanted start).0 ≡ ok tt
unfolding ensure_tasks find remove_key task_list select pure raise gets ask attempt ◌>>=◌ lookup
succeeds = refl

ensure_tasks-IsExactly_example :
    IsExactly
      (machine_named "m1")
      wanted
      (λ j. find j left_behind)
      (tasks_now
        (with_tasks left_behind)
        (λ j. find j left_behind)
        (ensure_tasks (with_tasks left_behind) wanted start).1)
ensure_tasks-IsExactly_example =
    ensure_tasks-IsExactly (with_tasks left_behind) (λ j. find j left_behind) wanted start tt
      (with_tasks-IsTaskServer left_behind (refl, (refl, (refl, tt)))) (refl, (refl, tt)) succeeds
