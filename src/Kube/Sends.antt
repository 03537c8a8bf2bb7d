-- ===== src/Kube/Sends.antt =====
-- What an action sends, and that it changes nothing but the trace: one rule for each way to build
-- an action.
use cluster_api_provider_tin.Prelude.{
  ◌≡◌, refl, sym, ◌∙◌, ap, Bool, true, false, List, [], ◌∷◌, ◌++◌, All, All-append, if◌then◌else◌,
}
use mathlib.Core.List.{append_assoc}
use cluster_api_provider_tin.Kube.Errors.{Error, Result, ok, err}
use cluster_api_provider_tin.Kube.Environment.{Call}
use cluster_api_provider_tin.Kube.Actions.{
  ScopeState, Exec, pure, raise, lift, gets, ask, attempt, continue, ◌>>=◌,
}

-- What a call is about.
pub data Target : Type 0 where
  hardware_target claim_read_target claim_target address_target workflow_target template_target :
      Target
  task_target job_target owner_target machine_target watch_target : Target

abbrev pub target : Call → Target
target (Call.get_hardware _) = hardware_target
target (Call.list_owned_hardware _ _) = hardware_target
target (Call.list_hardware _) = hardware_target
target (Call.patch_hardware _ _ _) = hardware_target
target (Call.get_claim _) = claim_read_target
target (Call.create_claim _) = claim_target
target (Call.patch_claim _ _ _) = claim_target
target (Call.delete_claim _) = claim_target
target (Call.get_address _) = address_target
target (Call.get_workflow _) = workflow_target
target (Call.create_workflow _) = workflow_target
target (Call.delete_workflow _) = workflow_target
target (Call.get_template _) = template_target
target (Call.create_template _) = template_target
target (Call.delete_template _) = template_target
target (Call.list_tasks _ _ _) = task_target
target (Call.get_task _) = task_target
target (Call.create_task _) = task_target
target (Call.update_task _) = task_target
target (Call.delete_task _) = task_target
target (Call.get_job _) = job_target
target (Call.create_job _) = job_target
target (Call.get_machine _) = owner_target
target (Call.patch_machine _) = machine_target
target (Call.merge_patch_machine _ _) = machine_target
target (Call.ensure_watch _) = watch_target

-- `Q` holds of every call about `t`.
abbrev pub Allows : (Call → Type 0) → Target → Type 0
Allows Q t = (c : Call) → target c ≡ t → Q c

-- `s` with the calls `new` sent after those of `s`.
abbrev pub after : List Call → ScopeState → ScopeState
after new s = record s { trace = new ++ s.trace }

pub after-after :
    (old new : List Call) (s t u : ScopeState)
    → t ≡ after old s
    → u ≡ after new t
    → u ≡ after (new ++ old) s
after-after old new s t u p q =
    q
    ∙ ap (after new) p
    ∙ ap (λ calls. record s { trace = calls }) (sym (append_assoc new old s.trace))

-- Whether or not it fails, `m` leaves the machine and the reserved address alone, and every call
-- that it sends meets `Q`.
pub record Sends (Q : Call → Type 0) {A : Type 0} (m : Exec A) : Type 0 where
  pub at : (s : ScopeState) → (new : List Call) × ((m s).1 ≡ after new s) × All Q new

module _ {Q : Call → Type 0} {A : Type 0} where
  pub Sends-pure : (a : A) → Sends Q (pure a)
  unfolding pure
  Sends-pure a = record { at = λ s. ([], refl, tt) }

  pub Sends-raise : (x : Error) → Sends Q (raise {A = A} x)
  unfolding raise
  Sends-raise x = record { at = λ s. ([], refl, tt) }

  pub Sends-lift : (r : Result A) → Sends Q (lift r)
  unfolding lift
  Sends-lift r = record { at = λ s. ([], refl, tt) }

  pub Sends-gets : (f : ScopeState → A) → Sends Q (gets f)
  unfolding gets
  Sends-gets f = record { at = λ s. ([], refl, tt) }

  pub Sends-ask : (c : Call) (answer : List Call → Result A) → Q c → Sends Q (ask c answer)
  unfolding ask
  Sends-ask c answer q = record { at = λ s. (c ∷ [], refl, (q, tt)) }

  pub Sends-attempt : (m : Exec A) → Sends Q m → Sends Q (attempt m)
  unfolding attempt
  Sends-attempt m h = record { at = λ s. h.at s }

  pub Sends-if : (b : Bool) (m n : Exec A) → Sends Q m → Sends Q n → Sends Q (if b then m else n)
  Sends-if true m n h k = h
  Sends-if false m n h k = k

module _ {Q : Call → Type 0} {A B : Type 0} where
  continue-Sends :
      (r : Result A) (f : A → Exec B) (s : ScopeState)
      → ((a : A) → Sends Q (f a))
      → (new : List Call) × ((continue r f s).1 ≡ after new s) × All Q new
  continue-Sends (ok a) f s h = (h a).at s
  continue-Sends (err x) f s h = ([], refl, tt)

  pub Sends-bind :
      (m : Exec A) (f : A → Exec B) → Sends Q m → ((a : A) → Sends Q (f a)) → Sends Q (m >>= f)
  unfolding ◌>>=◌
  Sends-bind m f h k = record {
    at = λ s.
        let (old, p, q) = h.at s in
        let (new, p', q') = continue-Sends (m s).0 f (m s).1 k in
        (new ++ old, after-after old new s (m s).1 _ p p', All-append Q new old q' q);
  }
