-- ===== src/Machine/Tasks/Exact.antt =====
-- What ensureTasks (controller/machine/template.go) leaves on the server: the Tasks that it is
-- given, and no other Task of the machine.
use cluster_api_provider_tin.Prelude.{
  String, ◌≡◌, refl, ◌∙◌, ap, inl, inr, Bool, true, false, Option, List, [], ◌∷◌, arith, eq_refl,
  All,
}
use cluster_api_provider_tin.Objects.{TinkerbellMachine, NamespacedName, Task, object_key}
use cluster_api_provider_tin.Kube.{Env, ok, ScopeState}
use cluster_api_provider_tin.Kube.Ensures.{Ensures, Ensures-bind}
use cluster_api_provider_tin.Machine.Template.{mem_text}
use cluster_api_provider_tin.Machine.Tasks.{remove_tasks, each_task, names, ensure_tasks}
use cluster_api_provider_tin.Machine.Tasks.Calls.{each_task-Sends}
use cluster_api_provider_tin.Machine.Tasks.Store.{
  TaskStore, tasks_now, is_selected, mem_key, Distinct, IsTaskServer,
}
use cluster_api_provider_tin.Machine.Tasks.Ensured.{IsPresent, each_task-Keeps, each_task-IsPresent}
use cluster_api_provider_tin.Machine.Tasks.Removed.{Removed, remove_tasks-Removed}

-- Whether the Task at a key is one of the machine's.
abbrev pub is_own : TinkerbellMachine → NamespacedName → Option Task → Bool
is_own m = is_selected m.status.target_namespace m.meta.name m.meta.namespace

-- The given Tasks are there, the machine has no other, and what is neither is as it was.
pub record IsExactly (m : TinkerbellMachine) (tasks : List Task) (before after : TaskStore)
    : Type 0 where
  pub present : All (λ t. IsPresent t after) tasks
  pub no_other :
      (key : NamespacedName)
      → is_own m key (after key) ≡ true
      → mem_text key.name (names tasks) ≡ true
  pub untouched :
      (key : NamespacedName)
      → mem_key key tasks ≡ false
      → is_own m key (before key) ≡ false
      → after key ≡ before key

keep_names :
    (keep : List String) (ts : List Task)
    → ((x : String) → mem_text x (names ts) ≡ true → mem_text x keep ≡ true)
    → All (λ t. mem_text t.meta.name keep ≡ true) ts
unfolding names
keep_names keep [] h = tt
keep_names keep (t ∷ ts) h = (
  h t.meta.name (ground (arith, eq_refl t.meta.name)),
  keep_names keep ts (λ x p. h x (ground (arith, p))),
)

module _ (e : Env) (store : TaskStore) (server : IsTaskServer e store) where
  abbrev now : ScopeState → TaskStore
  now = tasks_now e store

  -- The state between the loop and removeTasks.
  record Between (tasks : List Task) (first s : ScopeState) : Type 0 where
    all_present : All (λ t. IsPresent t (now s)) tasks
    same_machine : s.machine ≡ first.machine
    rest : (key : NamespacedName) → mem_key key tasks ≡ false → now s key ≡ now first key

  each_task-Between :
      (tasks : List Task) (first : ScopeState)
      → Distinct tasks
      → Ensures (λ s. s ≡ first) (each_task e tasks) (λ u s. Between tasks first s)
  each_task-Between tasks first d = record {
    at = λ s p u ran.
        let (new, q, r) = (each_task-Sends {Q = λ c. Unit} (λ c h. tt) e tasks).at s in
        record {
          all_present = (each_task-IsPresent e store server tasks d).at s tt u ran;
          same_machine = ap (λ t. t.machine) q ∙ ap (λ t. t.machine) p;
          rest = λ key h.
              (each_task-Keeps e store server key (now first key) tasks h).at s
                (ap (λ t. now t key) p) u ran;
        };
  }

  -- A Task that is kept is there after removeTasks as it was before.
  still_present :
      (keep : List String) (m : TinkerbellMachine) (t : Task) (s s' : ScopeState)
      → mem_text t.meta.name keep ≡ true
      → IsPresent t (now s)
      → Removed e store server keep m (object_key t.meta) (now s (object_key t.meta)) s'
      → IsPresent t (now s')
  still_present keep m t s s' kept p (inl (same, q)) = record {
    found = p.found;
    at_key = same ∙ p.at_key;
    same_spec = p.same_spec;
    same_annotations = p.same_annotations;
  }
  still_present keep m t s s' kept p (inr (absent, other, q)) = absurd (ground (arith, kept, other))

  All-still_present :
      (keep : List String) (m : TinkerbellMachine) (ts : List Task) (s s' : ScopeState)
      → All (λ t. mem_text t.meta.name keep ≡ true) ts
      → All (λ t. IsPresent t (now s)) ts
      → ((key : NamespacedName) → Removed e store server keep m key (now s key) s')
      → All (λ t. IsPresent t (now s')) ts
  All-still_present keep m [] s s' k p r = tt
  All-still_present keep m (t ∷ ts) s s' k p r = (
    still_present keep m t s s' k.0 p.0 (r (object_key t.meta)),
    All-still_present keep m ts s s' k.1 p.1 r,
  )

  own_is_kept :
      (keep : List String) (m : TinkerbellMachine) (key : NamespacedName) (s s' : ScopeState)
      → Removed e store server keep m key (now s key) s'
      → is_own m key (now s' key) ≡ true
      → mem_text key.name keep ≡ true
  own_is_kept keep m key s s' (inl (same, inl kept)) own = kept
  own_is_kept keep m key s s' (inl (same, inr foreign)) own =
      absurd (ground (arith, own, ap (is_own m key) same, foreign))
  own_is_kept keep m key s s' (inr (absent, other, q)) own =
      absurd (ground (arith, own, ap (is_own m key) absent))

  foreign_untouched :
      (keep : List String) (m : TinkerbellMachine) (key : NamespacedName) (s s' : ScopeState)
      → Removed e store server keep m key (now s key) s'
      → is_own m key (now s key) ≡ false
      → now s' key ≡ now s key
  foreign_untouched keep m key s s' (inl (same, q)) foreign = same
  foreign_untouched keep m key s s' (inr (absent, other, own)) foreign =
      absurd (ground (arith, own, foreign))

  remove_tasks-IsExactly :
      (tasks : List Task) (first : ScopeState)
      → Ensures
          (Between tasks first)
          (remove_tasks e (names tasks))
          (λ u s. IsExactly first.machine tasks (now first) (now s))
  remove_tasks-IsExactly tasks first = record {
    at = λ s p u ran.
        let s' = (remove_tasks e (names tasks) s).1 in
        let ends : ((key : NamespacedName)
            → Removed e store server (names tasks) first.machine key (now s key) s') =
          λ key.
            (remove_tasks-Removed e store server (names tasks) first.machine key (now s key)).at s
              (p.same_machine, refl) u ran in
        record {
          present =
              All-still_present (names tasks) first.machine tasks s s'
                (keep_names (names tasks) tasks (λ x h. h)) p.all_present ends;
          no_other = λ key own. own_is_kept (names tasks) first.machine key s s' (ends key) own;
          untouched = λ key h foreign.
              foreign_untouched (names tasks) first.machine key s s' (ends key)
                (ap (is_own first.machine key) (p.rest key h) ∙ foreign)
              ∙ p.rest key h;
        };
  }

-- With an API server that answers by the calls that it has accepted, and no other client at the
-- Tasks, a call of ensureTasks that succeeds leaves the given Tasks on the server with their specs
-- and annotations, no Task of the machine of another name, and as it was every Task that is
-- neither of a given key nor the machine's. No two of the given Tasks have the same key.
pub ensure_tasks-IsExactly :
    (e : Env) (store : TaskStore) (tasks : List Task) (s : ScopeState) (u : Unit {0})
    → IsTaskServer e store
    → Distinct tasks
    → (ensure_tasks e tasks s).0 ≡ ok u
    → IsExactly s.machine tasks (tasks_now e store s) (tasks_now e store (ensure_tasks e tasks s).1)
unfolding ensure_tasks
ensure_tasks-IsExactly e store tasks s u server d ran =
    (Ensures-bind _ _ (each_task-Between e store server tasks s d)
        λ v. remove_tasks-IsExactly e store server tasks s).at
      s refl u ran
