-- ===== src/Kube/Patched.antt =====
-- That a patch of a Hardware has been sent and accepted, and how a success of two actions in turn
-- comes about.
use cluster_api_provider_tin.Prelude.{◌≡◌, refl, ◌∙◌, ap, sym, List, [], ◌∷◌, ◌++◌, true, arith}
use mathlib.Core.List.{append_assoc}
use cluster_api_provider_tin.Objects.{Hardware}
use cluster_api_provider_tin.Kube.Errors.{Result, ok, err, requeue_conflict}
use cluster_api_provider_tin.Kube.Environment.{Env, Call}
use cluster_api_provider_tin.Kube.Actions.{ScopeState, Exec, continue}
use cluster_api_provider_tin.Kube.Ensures.{err-ne-ok}

-- Among the calls `calls`, after the calls `first`, the Hardware `old` is patched to `changed` with
-- the optimistic lock, and the server has answered with `answer`.
pub record Patched (e : Env) (first calls : List Call) (old changed answer : Hardware)
    : Type 0 where
  pub later : List Call
  pub earlier : List Call
  pub sent : calls ≡ later ++ (Call.patch_hardware old changed true ∷ (earlier ++ first))
  pub accepted : e.patch_hardware (earlier ++ first) old changed true ≡ ok answer

pub Patched-later :
    (e : Env) (first calls calls' more : List Call) (old changed answer : Hardware)
    → calls' ≡ more ++ calls
    → Patched e first calls old changed answer
    → Patched e first calls' old changed answer
Patched-later e first calls calls' more old changed answer same p = record {
  later = more ++ p.later;
  earlier = p.earlier;
  sent = same ∙ ap (λ l. more ++ l) p.sent ∙ sym (append_assoc more p.later _);
  accepted = p.accepted;
}

-- A patch as the last call.
pub Patched-last :
    (e : Env) (first calls earlier : List Call) (old changed answer : Hardware)
    → calls ≡ earlier ++ first
    → e.patch_hardware calls old changed true ≡ ok answer
    → Patched e first (Call.patch_hardware old changed true ∷ calls) old changed answer
Patched-last e first calls earlier old changed answer same accepted = record {
  later = [];
  earlier = earlier;
  sent = ap (λ l. Call.patch_hardware old changed true ∷ l) same;
  accepted = ap (λ l. e.patch_hardware l old changed true) (sym same) ∙ accepted;
}

module _ {A B : Type 0} where
  -- How `continue` has succeeded.
  pub continue-ok :
      (r : Result A) (f : A → Exec B) (s : ScopeState) (b : B)
      → (continue r f s).0 ≡ ok b
      → (a : A) × (r ≡ ok a) × (continue r f s ≡ f a s)
  continue-ok (ok a) f s b h = (a, refl, refl)
  continue-ok (err x) f s b h = absurd (err-ne-ok x b h)

pub requeue_conflict-ok :
    {A : Type 0} → (r : Result A) → (a : A) → requeue_conflict r ≡ ok a → r ≡ ok a
requeue_conflict-ok (ok b) a h = h
requeue_conflict-ok (err x) a h = ground (arith, h)
