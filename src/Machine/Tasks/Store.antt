-- ===== src/Machine/Tasks/Store.antt =====
-- The Tasks on the Tinkerbell cluster while controller/machine/template.go works on them: what the
-- calls of a reconcile make of them, and what the API server is relied on for.
use cluster_api_provider_tin.Prelude.{
  String, ◌≡◌, ap, ◌∙◌, Bool, true, false, ◌&&◌, ◌||◌, Option, none, some, List, [], ◌∷◌, arith,
  ◌==◌, eq_iff, eq_refl, lookup, if◌then◌else◌,
}
use cluster_api_provider_tin.Objects.{NamespacedName, Task, object_key}
use cluster_api_provider_tin.Kube.{Env, Error, Result, ok, err, is_not_found, Call, ScopeState}
use cluster_api_provider_tin.Machine.Claims.{label_machine_name, label_machine_namespace}

abbrev pub TaskStore : Type 0
TaskStore = NamespacedName → Option Task

abbrev pub same_name : NamespacedName → NamespacedName → Bool
same_name a b = (a.namespace == b.namespace) && (a.name == b.name)

abbrev pub put : Task → TaskStore → TaskStore
put t store k = if same_name (object_key t.meta) k then some t else store k

abbrev pub drop : NamespacedName → TaskStore → TaskStore
drop key store k = if same_name key k then none else store k

abbrev pub when_ok : Result (Unit {0}) → TaskStore → TaskStore → TaskStore
when_ok (ok u) done old = done
when_ok (err x) done old = old

-- What a call, sent after the calls `before`, makes of the Tasks: only one that the server accepts
-- does something.
abbrev pub effect : Env → List Call → Call → TaskStore → TaskStore
effect e before (Call.create_task t) store = when_ok (e.create_task before t) (put t store) store
effect e before (Call.update_task t) store = when_ok (e.update_task before t) (put t store) store
effect e before (Call.delete_task t) store =
    when_ok (e.delete_task before t) (drop (object_key t.meta) store) store
effect e before _ store = store

-- The Tasks after the calls of a trace, the latest first.
abbrev pub tasks_after : Env → TaskStore → List Call → TaskStore
tasks_after e store [] = store
tasks_after e store (c ∷ before) = effect e before c (tasks_after e store before)

abbrev pub tasks_now : Env → TaskStore → ScopeState → TaskStore
tasks_now e store s = tasks_after e store s.trace

abbrev has_label : Option String → String → Bool
has_label none v = false
has_label (some w) v = w == v

-- InNamespace and MatchingLabels with the two labels of a machine.
abbrev pub is_selected : String → String → String → NamespacedName → Option Task → Bool
is_selected ns name namespace key none = false
is_selected ns name namespace key (some t) =
    (key.namespace == ns)
    && (has_label (lookup label_machine_name t.meta.labels) name
        && has_label (lookup label_machine_namespace t.meta.labels) namespace)

abbrev pub mem_key : NamespacedName → List Task → Bool
mem_key key [] = false
mem_key key (t ∷ ts) = same_name (object_key t.meta) key || mem_key key ts

-- No two of the Tasks have the same key.
abbrev pub Distinct : List Task → Type 0
Distinct [] = Unit
Distinct (t ∷ ts) = (mem_key (object_key t.meta) ts ≡ false) × Distinct ts

-- An API server that answers reads of Tasks by the calls that it has accepted, with no other
-- client at the Tasks meanwhile. Every call may still fail.
pub record IsTaskServer (e : Env) (store : TaskStore) : Type 0 where
  pub got :
      (before : List Call) (key : NamespacedName) (t : Task)
      → e.get_task before key ≡ ok t
      → (tasks_after e store before key ≡ some t) × (object_key t.meta ≡ key)
  pub listed :
      (before : List Call) (ns name namespace : String) (ts : List Task)
      → e.list_tasks before ns name namespace ≡ ok ts
      → (key : NamespacedName)
      → mem_key key ts ≡ is_selected ns name namespace key (tasks_after e store before key)
  pub gone :
      (before : List Call) (t : Task) (x : Error)
      → e.delete_task before t ≡ err x
      → is_not_found x ≡ true
      → tasks_after e store before (object_key t.meta) ≡ none

pub same_name-eq : (a b : NamespacedName) → same_name a b ≡ true → a ≡ b
same_name-eq a b h = ground (arith, eq_iff a.namespace b.namespace, eq_iff a.name b.name)

pub same_name_self : (a : NamespacedName) → same_name a a ≡ true
same_name_self a = ground (arith, eq_refl a.namespace, eq_refl a.name)

pub put_self :
    (t : Task) (store : TaskStore) (key : NamespacedName)
    → object_key t.meta ≡ key
    → put t store key ≡ some t
put_self t store key h =
    ap (λ b. if b then some t else store key) (ap (λ k. same_name k key) h ∙ same_name_self key)

pub put_other :
    (t : Task) (store : TaskStore) (key : NamespacedName)
    → same_name (object_key t.meta) key ≡ false
    → put t store key ≡ store key
put_other t store key h = ap (λ b. if b then some t else store key) h
