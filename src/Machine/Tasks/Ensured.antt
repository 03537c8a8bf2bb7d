-- ===== src/Machine/Tasks/Ensured.antt =====
-- What the loop of ensureTasks (controller/machine/template.go) makes of the Tasks on the server.
use cluster_api_provider_tin.Prelude.{
  String, ◌≡◌, refl, sym, ◌∙◌, ap, true, false, Option, none, some, List, [], ◌∷◌, arith, eq_iff,
  lookup, All, Option-cases, inl, inr,
}
use cluster_api_provider_tin.Objects.{NamespacedName, Task, object_key}
use cluster_api_provider_tin.Kube.{
  Env, Result, ok, err, is_not_found, Call, ScopeState, Exec, ask, attempt,
}
use cluster_api_provider_tin.Kube.Ensures.{
  Ensures, Ensures-pure, Ensures-raise, Ensures-ask, Ensures-if, Ensures-both, Ensures-attempt,
  Ensures-bind, Ensures-from,
}
use cluster_api_provider_tin.Machine.Tasks.{
  has_text, within, up_to_date, updated, ensure_task, each_task,
}
use cluster_api_provider_tin.Machine.Tasks.Store.{
  TaskStore, same_name, tasks_now, mem_key, IsTaskServer, when_ok, put, Distinct, put_self,
  put_other,
}

-- The server has the Task, with its spec and its annotations.
pub record IsPresent (t : Task) (store : TaskStore) : Type 0 where
  pub found : Task
  pub at_key : store (object_key t.meta) ≡ some found
  pub same_spec : found.spec ≡ t.spec
  pub same_annotations :
      (k : String) → lookup k found.meta.annotations ≡ lookup k t.meta.annotations

has_text-eq : (o : Option String) (v : String) → has_text o v ≡ true → o ≡ some v
has_text-eq none v h = ground (arith, h)
has_text-eq (some w) v h = ground (arith, eq_iff w v)

within-lookup :
    (m n : List (String × String)) (k v : String)
    → within m n ≡ true
    → lookup k m ≡ some v
    → lookup k n ≡ some v
unfolding within lookup
within-lookup [] n k v h p = absurd (ground (arith, p))
within-lookup ((j, w) ∷ m) n k v h p =
    ground (arith, within-lookup m n k v, eq_iff j k, has_text-eq (lookup j n) w)

same_lookup :
    (m n : List (String × String)) (k : String)
    → within m n ≡ true
    → within n m ≡ true
    → lookup k m ≡ lookup k n
same_lookup m n k h h' = elim (Option-cases (lookup k m)) [
  | inr (v, p) ↦ p ∙ sym (within-lookup m n k v h p)
  | inl p ↦ elim (Option-cases (lookup k n)) [
    | inl q ↦ p ∙ sym q
    | inr (v, q) ↦ within-lookup n m k v h' q ∙ sym q
  ]
]

module _ (e : Env) (store : TaskStore) (server : IsTaskServer e store) where
  abbrev now : ScopeState → TaskStore
  now = tasks_now e store

  -- What the answer to a read of a Task says.
  abbrev Answered : NamespacedName → Result Task → ScopeState → Type 0
  Answered key (err x) s = Unit
  Answered key (ok t) s = (now s key ≡ some t) × (object_key t.meta ≡ key)

  answer-Answered :
      (key : NamespacedName) (s : ScopeState) (r : Result Task)
      → e.get_task s.trace key ≡ r
      → Answered key r (record s { trace = Call.get_task key ∷ s.trace })
  answer-Answered key s (err x) h = tt
  answer-Answered key s (ok t) h = server.got s.trace key t h

  abbrev pub read_task : NamespacedName → Exec (Result Task)
  read_task key = attempt (ask (Call.get_task key) (λ c. e.get_task c key))

  read-Ensures :
      (key : NamespacedName) (P : ScopeState → Type 0)
      → ((s : ScopeState) → P s → P (record s { trace = Call.get_task key ∷ s.trace }))
      → Ensures P (read_task key) (λ r s. Answered key r s × P s)
  unfolding ask
  read-Ensures key P h =
      Ensures-attempt _ λ s p. (answer-Answered key s (e.get_task s.trace key) refl, h s p)

  created :
      (t : Task) (s : ScopeState) (u : Unit {0})
      → e.create_task s.trace t ≡ ok u
      → IsPresent t (now (record s { trace = Call.create_task t ∷ s.trace }))
  created t s u h = record {
    found = t;
    at_key = rw h (put_self t (now s) (object_key t.meta) refl);
    same_spec = refl;
    same_annotations = λ k. refl;
  }

  rewritten :
      (t old : Task) (s : ScopeState) (u : Unit {0})
      → object_key old.meta ≡ object_key t.meta
      → e.update_task s.trace (updated old t) ≡ ok u
      → IsPresent t (now (record s { trace = Call.update_task (updated old t) ∷ s.trace }))
  rewritten t old s u same h = record {
    found = updated old t;
    at_key = rw h (put_self (updated old t) (now s) (object_key t.meta) same);
    same_spec = refl;
    same_annotations = λ k. refl;
  }

  ensure_task-IsPresent :
      (t : Task) (r : Result Task)
      → Ensures (Answered (object_key t.meta) r) (ensure_task e t r) (λ u s. IsPresent t (now s))
  unfolding ensure_task
  ensure_task-IsPresent t (err x) =
      Ensures-if (is_not_found x) _ _ (λ h. Ensures-ask _ _ λ s u p a. created t s u p)
        (λ h. Ensures-raise x)
  ensure_task-IsPresent t (ok old) =
      Ensures-if (up_to_date old t) _ _
        (λ h. Ensures-pure tt λ s a. record {
          found = old;
          at_key = a.0;
          same_spec = ground (arith, eq_iff old.spec t.spec);
          same_annotations = λ k.
              same_lookup old.meta.annotations t.meta.annotations k (ground arith) (ground arith);
        })
        (λ h. Ensures-ask _ _ λ s u p a. rewritten t old s u a.1 p)

  -- The value at a key that a call is not about.
  module _ (key : NamespacedName) (v : Option Task) where
    abbrev Keeps : ScopeState → Type 0
    Keeps s = now s key ≡ v

    when_ok-Keeps :
        (t : Task) (r : Result (Unit {0})) (s : ScopeState)
        → same_name (object_key t.meta) key ≡ false
        → Keeps s
        → when_ok r (put t (now s)) (now s) key ≡ v
    when_ok-Keeps t (ok u) s h k = put_other t (now s) key h ∙ k
    when_ok-Keeps t (err x) s h k = k

    ensure_task-Keeps :
        (t : Task) (r : Result Task)
        → same_name (object_key t.meta) key ≡ false
        → Ensures
            (λ s. Answered (object_key t.meta) r s × Keeps s)
            (ensure_task e t r)
            (λ u s. Keeps s)
    unfolding ensure_task
    ensure_task-Keeps t (err x) h =
        Ensures-if (is_not_found x) _ _
          (λ p. Ensures-ask _ _ λ s u q k. when_ok-Keeps t (e.create_task s.trace t) s h k.1)
          (λ p. Ensures-raise x)
    ensure_task-Keeps t (ok old) h =
        Ensures-if (up_to_date old t) _ _ (λ p. Ensures-pure tt λ s k. k.1)
          (λ p. Ensures-ask _ _ λ s u q k.
            when_ok-Keeps (updated old t) (e.update_task s.trace (updated old t)) s
              (ap (λ i. same_name i key) k.0.1 ∙ h) k.1)

    pub each_task-Keeps :
        (ts : List Task) → mem_key key ts ≡ false → Ensures Keeps (each_task e ts) (λ u s. Keeps s)
    unfolding each_task
    each_task-Keeps [] h = Ensures-pure tt λ s k. k
    each_task-Keeps (t ∷ ts) h =
        Ensures-bind _ _ (read-Ensures (object_key t.meta) Keeps (λ s k. k)) λ r.
          Ensures-bind _ _ (ensure_task-Keeps t r (ground arith))
            λ u. each_task-Keeps ts (ground arith)

  IsPresent-Keeps :
      (t : Task) (m : Exec (Unit {0}))
      → ((v : Option Task)
          → Ensures (λ s. now s (object_key t.meta) ≡ v) m (λ u s. now s (object_key t.meta) ≡ v))
      → Ensures (λ s. IsPresent t (now s)) m (λ u s. IsPresent t (now s))
  IsPresent-Keeps t m h = record {
    at = λ s p u ran. record {
      found = p.found;
      at_key = (h (some p.found)).at s p.at_key u ran;
      same_spec = p.same_spec;
      same_annotations = p.same_annotations;
    };
  }

  -- After the loop the server has each of the Tasks.
  pub each_task-IsPresent :
      (ts : List Task)
      → Distinct ts
      → Ensures (λ s. Unit) (each_task e ts) (λ u s. All (λ t. IsPresent t (now s)) ts)
  unfolding each_task
  each_task-IsPresent [] d = Ensures-pure tt λ s p. tt
  each_task-IsPresent (t ∷ ts) d =
      Ensures-bind _ _ (read-Ensures (object_key t.meta) (λ s. Unit) (λ s p. tt)) λ r.
        Ensures-bind _ _ (Ensures-from (λ s p. p.0) (ensure_task-IsPresent t r)) λ u.
          Ensures-both _ (IsPresent-Keeps t _ (λ v. each_task-Keeps (object_key t.meta) v ts d.0))
            (Ensures-from (λ s p. tt) (each_task-IsPresent ts d.1))
