-- ===== src/Machine/Tasks/Removed.antt =====
-- What removeTasks (controller/machine/template.go) makes of the Tasks on the server.
use cluster_api_provider_tin.Prelude.{
  String, ◌≡◌, refl, sym, ◌∙◌, ap, ◌⊎◌, inl, inr, Bool, true, false, Option, none, List, [], ◌∷◌,
  arith, eq_iff, Bool-cases, if◌then◌else◌,
}
use cluster_api_provider_tin.Objects.{TinkerbellMachine, NamespacedName, Task, object_key}
use cluster_api_provider_tin.Kube.{Env, Result, ok, err, Call, ScopeState}
use cluster_api_provider_tin.Kube.Ensures.{
  Ensures, Ensures-pure, Ensures-gets, Ensures-ask, Ensures-if, Ensures-bind, Ensures-from,
}
use cluster_api_provider_tin.Machine.Template.{mem_text}
use cluster_api_provider_tin.Machine.Tasks.{ignore_missing, delete_unkept, remove_tasks}
use cluster_api_provider_tin.Machine.Tasks.Store.{
  TaskStore, same_name, same_name-eq, drop, when_ok, tasks_now, is_selected, mem_key, IsTaskServer,
}

module _ (e : Env) (store : TaskStore) (server : IsTaskServer e store) where
  abbrev now : ScopeState → TaskStore
  now = tasks_now e store

  -- The Task of a key is gone once its deletion is answered by success or by NotFound.
  deleted :
      (key : NamespacedName) (t : Task) (s : ScopeState) (r : Result (Unit {0})) (u : Unit {0})
      → e.delete_task s.trace t ≡ r
      → ignore_missing r ≡ ok u
      → same_name (object_key t.meta) key ≡ true
      → when_ok r (drop (object_key t.meta) (now s)) (now s) key ≡ none
  deleted key t s (ok u') u h p same = rw same refl
  deleted key t s (err x) u h p same =
      ap (now s) (sym (same_name-eq (object_key t.meta) key same))
      ∙ server.gone s.trace t x h (ground arith)

  -- A deletion leaves every other key alone.
  deleted_other :
      (key : NamespacedName) (t : Task) (s : ScopeState) (r : Result (Unit {0}))
      → same_name (object_key t.meta) key ≡ false
      → when_ok r (drop (object_key t.meta) (now s)) (now s) key ≡ now s key
  deleted_other key t s (ok u) other = ap (λ b. if b then none else now s key) other
  deleted_other key t s (err x) other = refl

  kept_name :
      (key : NamespacedName) (t : Task) (keep : List String)
      → mem_text key.name keep ≡ false
      → mem_text t.meta.name keep ≡ true
      → same_name (object_key t.meta) key ≡ false
  kept_name key t keep unkept kept = ground (arith, eq_iff t.meta.name key.name)

  module _ (key : NamespacedName) (keep : List String) where
    after_delete :
        (t : Task) (ts : List Task) (s : ScopeState) (u : Unit {0})
        → ignore_missing (e.delete_task s.trace t) ≡ ok u
        → (now s key ≡ none) ⊎ (mem_key key (t ∷ ts) ≡ true)
        → let s' : ScopeState = record s { trace = Call.delete_task t ∷ s.trace } in
          (now s' key ≡ none) ⊎ (mem_key key ts ≡ true)
    after_delete t ts s u answered p = elim (Bool-cases (same_name (object_key t.meta) key)) [
      | inl same ↦ inl (deleted key t s (e.delete_task s.trace t) u refl answered same)
      | inr other ↦ elim p [
        | inl absent ↦ inl (deleted_other key t s (e.delete_task s.trace t) other ∙ absent)
        | inr later ↦ inr (ground arith)
      ]
    ]

    delete_unkept-gone :
        (ts : List Task)
        → mem_text key.name keep ≡ false
        → Ensures
            (λ s. (now s key ≡ none) ⊎ (mem_key key ts ≡ true))
            (delete_unkept e keep ts)
            (λ u s. now s key ≡ none)
    unfolding delete_unkept
    delete_unkept-gone [] unkept =
        Ensures-pure tt λ s p. elim p [ inl absent ↦ absent | inr h ↦ absurd (ground (arith, h)) ]
    delete_unkept-gone (t ∷ ts) unkept =
        Ensures-if (mem_text t.meta.name keep) _ _
          (λ kept.
            Ensures-from
              (λ s p. elim p [
                | inl absent ↦ inl absent
                | inr h ↦ inr (ground (arith, kept_name key t keep unkept kept))
              ])
              (delete_unkept-gone ts unkept))
          (λ other.
            Ensures-bind _ _ (Ensures-ask _ _ (after_delete t ts))
              λ u. delete_unkept-gone ts unkept)

    delete_unkept-Keeps :
        (v : Option Task) (ts : List Task)
        → (mem_text key.name keep ≡ true) ⊎ (mem_key key ts ≡ false)
        → Ensures (λ s. now s key ≡ v) (delete_unkept e keep ts) (λ u s. now s key ≡ v)
    unfolding delete_unkept
    delete_unkept-Keeps v [] h = Ensures-pure tt λ s p. p
    delete_unkept-Keeps v (t ∷ ts) h =
        let later = delete_unkept-Keeps v ts (ground (arith, h)) in
        Ensures-if (mem_text t.meta.name keep) _ _ (λ kept. later)
          (λ other.
            Ensures-bind _ _
              (Ensures-ask _ _ λ s u q p.
                deleted_other key t s (e.delete_task s.trace t)
                  (ground (arith, h, eq_iff t.meta.name key.name))
                ∙ p)
              λ u. later)

  -- What removeTasks makes of the Task of a key, from the value `v` before it: one that is the
  -- machine's and is not to keep is gone, and every other is as it was.
  module _ (keep : List String) (m : TinkerbellMachine) (key : NamespacedName)
      (v : Option Task) where
    abbrev mine : Bool
    mine = is_selected m.status.target_namespace m.meta.name m.meta.namespace key v

    abbrev pub Removed : ScopeState → Type 0
    Removed s =
        ((now s key ≡ v) × ((mem_text key.name keep ≡ true) ⊎ (mine ≡ false)))
        ⊎ ((now s key ≡ none) × (mem_text key.name keep ≡ false) × (mine ≡ true))

    abbrev Listed : List Task → ScopeState → Type 0
    Listed ts s = (mem_key key ts ≡ mine) × (now s key ≡ v)

    delete_unkept-Removed :
        (ts : List Task) → Ensures (Listed ts) (delete_unkept e keep ts) (λ u s. Removed s)
    delete_unkept-Removed ts = elim (Bool-cases (mem_text key.name keep)) [
      | inl kept ↦ record {
        at = λ s p u ran.
            inl ((delete_unkept-Keeps key keep v ts (inl kept)).at s p.1 u ran, inl kept);
      }
      | inr other ↦ elim (Bool-cases mine) [
        | inl own ↦ record {
          at = λ s p u ran.
              inr ((delete_unkept-gone key keep ts other).at s (inr (p.0 ∙ own)) u ran, other, own);
        }
        | inr foreign ↦ record {
          at = λ s p u ran. inl (
            (delete_unkept-Keeps key keep v ts (inr (p.0 ∙ foreign))).at s p.1 u ran,
            inr foreign,
          );
        }
      ]
    ]

    list-Listed :
        (m' : TinkerbellMachine) (s : ScopeState) (ts : List Task)
        → e.list_tasks s.trace m'.status.target_namespace m'.meta.name m'.meta.namespace ≡ ok ts
        → (m' ≡ m) × (now s key ≡ v)
        → mem_key key ts ≡ mine
    list-Listed m' s ts answered (same, before) =
        server.listed s.trace m'.status.target_namespace m'.meta.name m'.meta.namespace ts answered
          key
        ∙ ap
            (λ (n : TinkerbellMachine).
              is_selected n.status.target_namespace n.meta.name n.meta.namespace key (now s key))
            same
        ∙ ap (is_selected m.status.target_namespace m.meta.name m.meta.namespace key) before

    pub remove_tasks-Removed :
        Ensures (λ s. (s.machine ≡ m) × (now s key ≡ v)) (remove_tasks e keep) (λ u s. Removed s)
    unfolding remove_tasks
    remove_tasks-Removed =
        Ensures-bind _ _
          (Ensures-gets {R = λ (m' : TinkerbellMachine) s. (m' ≡ m) × (now s key ≡ v)} _ λ s p. p)
          λ m'.
            Ensures-bind _ _
              (Ensures-ask {R = Listed} _ _ λ s ts q p. (list-Listed m' s ts q p, p.1))
              delete_unkept-Removed
