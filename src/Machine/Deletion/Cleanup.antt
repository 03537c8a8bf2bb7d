-- ===== src/Machine/Deletion/Cleanup.antt =====
-- What a deletion does before it gives anything up, and how a deletion can go
-- (DeleteMachineWithDependencies of controller/machine/scope.go).
use cluster_api_provider_tin.Prelude.{
  String, ◌≡◌, refl, sym, ◌∙◌, ap, subst, Bool, true, false, Option, List, [], ◌∷◌, ◌++◌, All,
  All-append,
}
use mathlib.Core.List.{append_assoc}
use cluster_api_provider_tin.Objects.{Hardware}
use cluster_api_provider_tin.Kube.{
  Env, Error, Result, ok, err, is_not_found, Call, Family, ScopeState, Scope, Exec, continue, ◌>>=◌,
}
use cluster_api_provider_tin.Kube.Sends.{
  Target, Allows, target, hardware_target, claim_target, template_target, task_target,
  workflow_target, job_target, machine_target, Sends, Sends-pure, Sends-raise, Sends-attempt,
  Sends-if, Sends-bind, after, after-after,
}
use cluster_api_provider_tin.Machine.Interfaces.{has_bmc}
use cluster_api_provider_tin.Machine.Ownership.{released}
use cluster_api_provider_tin.Machine.Bmc.Calls.{power_off-Sends}
use cluster_api_provider_tin.Machine.Template.Calls.{remove_template-Sends}
use cluster_api_provider_tin.Machine.Tasks.Calls.{remove_tasks-Sends}
use cluster_api_provider_tin.Machine.Workflow.Calls.{remove_workflow-Sends}
use cluster_api_provider_tin.Machine.Deletion.Dependencies.{
  DependenciesGone, remove_dependencies-DependenciesGone,
}
use cluster_api_provider_tin.Machine.Deletion.GivenUp.{GivenUp, GivenUp-later}
use cluster_api_provider_tin.Machine.Deletion.{unless_missing, remove_dependencies, power_off}

-- Calls that give up nothing: the Hardware and the machine are not patched, and the claim of the
-- address is at most read.
abbrev pub keeps_target : Target → Bool
keeps_target hardware_target = false
keeps_target claim_target = false
keeps_target machine_target = false
keeps_target _ = true

abbrev pub IsCleanup : Call → Type 0
IsCleanup c = keeps_target (target c) ≡ true

pub cleanup : (t : Target) → keeps_target t ≡ true → Allows IsCleanup t
cleanup t h c p = ap keeps_target p ∙ h

-- How the deletion of a machine on the Hardware `hw` can go, from the state `s` to the result `r`.
pub data Deletion (e : Env) (hw : Hardware) (s : ScopeState) (r : Result (Unit {0}) × ScopeState)
    : Type 0 where
  -- It fails having given up nothing: the machine is unchanged, its finalizers included.
  unfinished :
      (x : Error)
      → (new : List Call) → r ≡ (err x, after new s)
      → All IsCleanup new
      → Deletion e hw s r
  -- The release of the Hardware is sent after the cleanup and refused, and that is the last call.
  refused :
      (x : Error)
      → (reservation : Option (String × Option Family)) → (new : List Call)
      → r ≡ (err x, after (Call.patch_hardware hw (released e hw reservation) true ∷ new) s)
      → e.patch_hardware (new ++ s.trace) hw (released e hw reservation) true ≡ err x
      → All IsCleanup new
      → Deletion e hw s r
  -- The release of the Hardware is sent after the cleanup and accepted, and from there on the claim
  -- of the address and the machine's finalizers are given up.
  given_back :
      (reservation : Option (String × Option Family))
      → (answer : Hardware) → (new : List Call)
      → e.patch_hardware (new ++ s.trace) hw (released e hw reservation) true ≡ ok answer
      → All IsCleanup new
      → GivenUp e (after (Call.patch_hardware hw (released e hw reservation) true ∷ new) s) r
      → Deletion e hw s r

-- What ran on the Hardware, at the start of a deletion from the state `s` to the result `r`.
pub data CleanedUp (e : Env) (s : ScopeState) (r : Result (Unit {0}) × ScopeState) : Type 0 where
  -- Its removal fails, and so does the deletion, having given up nothing.
  stopped :
      (x : Error)
      → (new : List Call) → r ≡ (err x, after new s)
      → All IsCleanup new
      → CleanedUp e s r
  -- It is gone before the rest.
  gone :
      (calls later : List Call)
      → DependenciesGone e s.machine s.trace calls
      → r.1.trace ≡ later ++ calls
      → CleanedUp e s r

-- The answer to a patch that is sent after more calls.
answer_after :
    (e : Env) (hw : Hardware) (new more : List Call) (s t : ScopeState) (hw' : Hardware)
    (r : Result Hardware)
    → t ≡ after new s
    → e.patch_hardware (more ++ t.trace) hw hw' true ≡ r
    → e.patch_hardware ((more ++ new) ++ s.trace) hw hw' true ≡ r
answer_after e hw new more s t hw' r p h =
    ap (λ calls. e.patch_hardware calls hw hw' true)
      (append_assoc more new s.trace ∙ ap (λ u. more ++ u.trace) (sym p))
    ∙ h

module _ {e : Env} {hw : Hardware} where
  -- A deletion after calls of the cleanup.
  after_cleanup :
      (new : List Call) (s t : ScopeState) (r : Result (Unit {0}) × ScopeState)
      → t ≡ after new s
      → All IsCleanup new
      → Deletion e hw t r
      → Deletion e hw s r
  after_cleanup new s t r p q (unfinished x more p' q') =
      unfinished x (more ++ new) (p' ∙ ap (λ u. (err x, u)) (after-after new more s t _ p refl))
        (All-append IsCleanup more new q' q)
  after_cleanup new s t r p q (refused x reservation more p' h q') =
      let release = Call.patch_hardware hw (released e hw reservation) true in
      refused x reservation (more ++ new)
        (p' ∙ ap (λ u. (err x, u)) (after-after new (release ∷ more) s t _ p refl))
        (answer_after e hw new more s t (released e hw reservation) (err x) p h)
        (All-append IsCleanup more new q' q)
  after_cleanup new s t r p q (given_back reservation answer more h q' end) =
      let release = Call.patch_hardware hw (released e hw reservation) true in
      given_back reservation answer (more ++ new)
        (answer_after e hw new more s t (released e hw reservation) (ok answer) p h)
        (All-append IsCleanup more new q' q)
        (subst (λ u. GivenUp e u r) (after-after new (release ∷ more) s t _ p refl) end)

  -- The calls of a deletion come after those of its start.
  pub Deletion-later :
      (s : ScopeState) (r : Result (Unit {0}) × ScopeState)
      → Deletion e hw s r
      → (later : List Call) × (r.1.trace ≡ later ++ s.trace)
  Deletion-later s r (unfinished x new p q) =
      (new, ap (λ (t : Result (Unit {0}) × ScopeState). t.1.trace) p)
  Deletion-later s r (refused x reservation new p h q) = (
    Call.patch_hardware hw (released e hw reservation) true ∷ new,
    ap (λ (t : Result (Unit {0}) × ScopeState). t.1.trace) p,
  )
  Deletion-later s r (given_back reservation answer new h q end) =
      let release = Call.patch_hardware hw (released e hw reservation) true in
      let (later, p) = GivenUp-later (after (release ∷ new) s) r end in
      (later ++ (release ∷ new), p ∙ sym (append_assoc later (release ∷ new) s.trace))

  continue_cleanup :
      {A : Type 0}
      → (f : A → Exec (Unit {0})) → ((a : A) (t : ScopeState) → Deletion e hw t (f a t))
      → (r : Result A) → (new : List Call) → (s t : ScopeState) → t ≡ after new s
      → All IsCleanup new
      → Deletion e hw s (continue r f t)
  continue_cleanup f h (ok a) new s t p q = after_cleanup new s t _ p q (h a t)
  continue_cleanup f h (err x) new s t p q = unfinished x new (ap (λ u. (err x, u)) p) q

  pub bind_cleanup :
      {A : Type 0}
      → (m : Exec A) → (f : A → Exec (Unit {0})) → Sends IsCleanup m
      → ((a : A) (t : ScopeState) → Deletion e hw t (f a t))
      → (s : ScopeState) → Deletion e hw s ((m >>= f) s)
  unfolding ◌>>=◌
  bind_cleanup m f h k s =
      let (new, p, q) = h.at s in continue_cleanup f k (m s).0 new s (m s).1 p q

unless_missing-Sends : (r : Result (Unit {0})) → Sends IsCleanup (unless_missing r)
unless_missing-Sends (ok u) = Sends-pure tt
unless_missing-Sends (err x) = Sends-if (is_not_found x) _ _ (Sends-pure tt) (Sends-raise x)

pub remove_dependencies-Sends : (e : Env) (sc : Scope) → Sends IsCleanup (remove_dependencies e sc)
unfolding remove_dependencies
remove_dependencies-Sends e sc =
    Sends-bind _ _ (Sends-attempt _ (remove_template-Sends (cleanup template_target refl) e sc))
      λ t. Sends-bind _ _ (unless_missing-Sends t) λ u.
        Sends-bind _ _ (remove_tasks-Sends (cleanup task_target refl) e []) λ v.
          Sends-bind _ _
            (Sends-attempt _ (remove_workflow-Sends (cleanup workflow_target refl) e sc))
            unless_missing-Sends

pub power_off-IsCleanup :
    (e : Env) (sc : Scope) (hw : Hardware) → Sends IsCleanup (power_off e sc hw)
unfolding power_off
power_off-IsCleanup e sc hw =
    Sends-if (has_bmc e hw) _ _ (power_off-Sends (cleanup job_target refl) e sc hw) (Sends-pure tt)

-- The start of a deletion, whatever comes after it.
pub start-CleanedUp :
    (e : Env) (sc : Scope) (hw : Hardware) (f : Unit {0} → Exec (Unit {0}))
    → ((u : Unit {0}) (t : ScopeState) → Deletion e hw t (f u t))
    → (s : ScopeState) → CleanedUp e s ((remove_dependencies e sc >>= f) s)
unfolding ◌>>=◌
start-CleanedUp e sc hw f k s =
    let (new, p, q) = (remove_dependencies-Sends e sc).at s in
    let m = remove_dependencies e sc s in
    started m.0 m.1 new p q (remove_dependencies-DependenciesGone e sc s)
  where
    started :
        (r : Result (Unit {0})) (t : ScopeState) (new : List Call)
        → t ≡ after new s
        → All IsCleanup new
        → ((u : Unit {0}) → r ≡ ok u → DependenciesGone e s.machine s.trace t.trace)
        → CleanedUp e s (continue r f t)
    started (ok u) t new p q done =
        let (later, p') = Deletion-later t (f u t) (k u t) in gone t.trace later (done u refl) p'
    started (err x) t new p q done = stopped x new (ap (λ u. (err x, u)) p) q
