-- ===== src/Examples/TaskServer.antt =====
-- A server that keeps the Tasks of the small world in a list, and that it answers as an API server
-- is relied on to.
use cluster_api_provider_tin.Prelude.{
  String, ◌≡◌, refl, sym, ◌∙◌, ap, true, false, Option, none, some, List, [], ◌∷◌, arith, eq_iff,
  if◌then◌else◌, Bool-cases, inl, inr, subst,
}
use cluster_api_provider_tin.Objects.{NamespacedName, Task, object_key}
use cluster_api_provider_tin.Kube.{Env, Result, ok, err, api, not_found, Call}
use cluster_api_provider_tin.Kube.Ensures.{ok-injective}
use cluster_api_provider_tin.Machine.Tasks.Store.{
  same_name, same_name-eq, same_name_self, tasks_after, is_selected, mem_key, Distinct,
  IsTaskServer,
}
use cluster_api_provider_tin.Examples.World.{world}

unfoldable pub find : NamespacedName → List Task → Option Task
find key [] = none
find key (t ∷ ts) = if same_name (object_key t.meta) key then some t else find key ts

unfoldable pub remove_key : NamespacedName → List Task → List Task
remove_key key [] = []
remove_key key (t ∷ ts) =
    let rest = remove_key key ts in if same_name (object_key t.meta) key then rest else t ∷ rest

abbrev write : Task → List Task → List Task
write t ts = t ∷ remove_key (object_key t.meta) ts

-- The list after the calls of a trace, all of which are accepted.
unfoldable pub task_list : List Task → List Call → List Task
task_list ts [] = ts
task_list ts (Call.create_task t ∷ before) = write t (task_list ts before)
task_list ts (Call.update_task t ∷ before) = write t (task_list ts before)
task_list ts (Call.delete_task t ∷ before) = remove_key (object_key t.meta) (task_list ts before)
task_list ts (_ ∷ before) = task_list ts before

unfoldable pub select : String → String → String → List Task → List Task
select ns name namespace [] = []
select ns name namespace (t ∷ ts) =
    let rest = select ns name namespace ts in
    if is_selected ns name namespace (object_key t.meta) (some t) then t ∷ rest else rest

abbrev answer : Option Task → Result Task
answer none = err (api not_found)
answer (some t) = ok t

abbrev pub with_tasks : List Task → Env
with_tasks ts = record world {
  get_task = λ before key. answer (find key (task_list ts before));
  list_tasks = λ before ns name namespace. ok (select ns name namespace (task_list ts before));
}

find-remove :
    (k j : NamespacedName) (ts : List Task)
    → find k (remove_key j ts) ≡ (if same_name j k then none else find k ts)
unfolding find remove_key
find-remove k j [] = ground arith
find-remove k j (t ∷ ts) = ground (
  arith,
  find-remove k j ts,
  eq_iff t.meta.namespace j.namespace,
  eq_iff t.meta.name j.name,
  eq_iff t.meta.namespace k.namespace,
  eq_iff t.meta.name k.name,
  eq_iff j.namespace k.namespace,
  eq_iff j.name k.name,
)

mem_key-remove :
    (k j : NamespacedName) (ts : List Task)
    → mem_key k ts ≡ false
    → mem_key k (remove_key j ts) ≡ false
unfolding remove_key
mem_key-remove k j [] h = refl
mem_key-remove k j (t ∷ ts) h = ground (arith, mem_key-remove k j ts)

mem_key-remove_self : (j : NamespacedName) (ts : List Task) → mem_key j (remove_key j ts) ≡ false
unfolding remove_key
mem_key-remove_self j [] = refl
mem_key-remove_self j (t ∷ ts) = ground (arith, mem_key-remove_self j ts)

Distinct-remove : (j : NamespacedName) (ts : List Task) → Distinct ts → Distinct (remove_key j ts)
unfolding remove_key
Distinct-remove j [] d = tt
Distinct-remove j (t ∷ ts) d =
    ground (arith, Distinct-remove j ts d.1, mem_key-remove (object_key t.meta) j ts d.0)

module _ (ts : List Task) where
  after-eq-find :
      (before : List Call) (k : NamespacedName)
      → tasks_after (with_tasks ts) (λ j. find j ts) before k ≡ find k (task_list ts before)
  unfolding task_list find
  after-eq-find [] k = refl
  after-eq-find (Call.create_task t ∷ before) k =
      ground
        (arith, after-eq-find before k, find-remove k (object_key t.meta) (task_list ts before))
  after-eq-find (Call.update_task t ∷ before) k =
      ground
        (arith, after-eq-find before k, find-remove k (object_key t.meta) (task_list ts before))
  after-eq-find (Call.delete_task t ∷ before) k =
      ground
        (arith, after-eq-find before k, find-remove k (object_key t.meta) (task_list ts before))
  after-eq-find (_ ∷ before) k = after-eq-find before k

  task_list-Distinct : (before : List Call) → Distinct ts → Distinct (task_list ts before)
  unfolding task_list
  task_list-Distinct [] d = d
  task_list-Distinct (Call.create_task t ∷ before) d = (
    mem_key-remove_self (object_key t.meta) (task_list ts before),
    Distinct-remove (object_key t.meta) (task_list ts before) (task_list-Distinct before d),
  )
  task_list-Distinct (Call.update_task t ∷ before) d = (
    mem_key-remove_self (object_key t.meta) (task_list ts before),
    Distinct-remove (object_key t.meta) (task_list ts before) (task_list-Distinct before d),
  )
  task_list-Distinct (Call.delete_task t ∷ before) d =
      Distinct-remove (object_key t.meta) (task_list ts before) (task_list-Distinct before d)
  task_list-Distinct (_ ∷ before) d = task_list-Distinct before d

found_key :
    (k : NamespacedName) (ts : List Task) (t : Task)
    → find k ts ≡ some t
    → same_name (object_key t.meta) k ≡ true
unfolding find
found_key k [] t h = absurd (ground (arith, h))
found_key k (u ∷ ts) t h = ground (arith, found_key k ts t)

unselected :
    (ns name namespace : String) (k : NamespacedName) (ts : List Task)
    → mem_key k ts ≡ false
    → mem_key k (select ns name namespace ts) ≡ false
unfolding select
unselected ns name namespace k [] h = refl
unselected ns name namespace k (t ∷ ts) h = ground (arith, unselected ns name namespace k ts)

module _ (ns name namespace : String) (t : Task) (ts : List Task) where
  listed_self :
      mem_key (object_key t.meta) ts ≡ false
      → mem_key (object_key t.meta) (select ns name namespace (t ∷ ts))
        ≡ is_selected ns name namespace (object_key t.meta) (find (object_key t.meta) (t ∷ ts))
  unfolding select find
  listed_self h =
      rw (same_name_self (object_key t.meta))
        (elim (Bool-cases (is_selected ns name namespace (object_key t.meta) (some t))) [
          | inl own ↦ rw (own, same_name_self (object_key t.meta)) refl
          | inr foreign ↦ rw foreign (unselected ns name namespace (object_key t.meta) ts h)
        ])

  listed_other :
      (k : NamespacedName)
      → same_name (object_key t.meta) k ≡ false
      → mem_key k (select ns name namespace (t ∷ ts)) ≡ mem_key k (select ns name namespace ts)
  unfolding select
  listed_other k h =
      elim (Bool-cases (is_selected ns name namespace (object_key t.meta) (some t))) [
        | inl own ↦ rw (own, h) refl
        | inr foreign ↦ rw foreign refl
      ]

  find_other :
      (k : NamespacedName) → same_name (object_key t.meta) k ≡ false → find k (t ∷ ts) ≡ find k ts
  unfolding find
  find_other k h = rw h refl

select-listed :
    (ns name namespace : String) (k : NamespacedName) (ts : List Task)
    → Distinct ts
    → mem_key k (select ns name namespace ts) ≡ is_selected ns name namespace k (find k ts)
unfolding select find
select-listed ns name namespace k [] d = refl
select-listed ns name namespace k (t ∷ ts) d = elim (Bool-cases (same_name (object_key t.meta) k)) [
  | inl same ↦
      subst
        (λ i.
          mem_key i (select ns name namespace (t ∷ ts))
          ≡ is_selected ns name namespace i (find i (t ∷ ts)))
        (same_name-eq (object_key t.meta) k same) (listed_self ns name namespace t ts d.0)
  | inr other ↦
      listed_other ns name namespace t ts k other
      ∙ select-listed ns name namespace k ts d.1
      ∙ ap (is_selected ns name namespace k) (sym (find_other ns name namespace t ts k other))
]

answer-find : (o : Option Task) (t : Task) → answer o ≡ ok t → o ≡ some t
answer-find none t h = absurd (ground (arith, h))
answer-find (some u) t h = ground (arith, h)

pub with_tasks-IsTaskServer :
    (ts : List Task) → Distinct ts → IsTaskServer (with_tasks ts) (λ j. find j ts)
with_tasks-IsTaskServer ts d = record {
  got = λ before key t h.
      let p = answer-find (find key (task_list ts before)) t h in
      (after-eq-find ts before key ∙ p, same_name-eq _ _ (found_key key _ t p));
  listed = λ before ns name namespace us h key.
      ap (mem_key key) (sym (ok-injective _ us h))
      ∙ select-listed ns name namespace key (task_list ts before) (task_list-Distinct ts before d)
      ∙ ap (is_selected ns name namespace key) (sym (after-eq-find ts before key));
  gone = λ before t x h. absurd (ground (arith, h));
}
