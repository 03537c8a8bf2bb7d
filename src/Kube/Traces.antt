-- ===== src/Kube/Traces.antt =====
-- What an action sends, where it may also change the machine, and what it keeps of the machine: one
-- rule for each way to build an action.
use cluster_api_provider_tin.Prelude.{
  ◌≡◌, refl, sym, ◌∙◌, ap, Bool, true, false, List, [], ◌++◌, All, All-append, if◌then◌else◌,
}
use mathlib.Core.List.{append_assoc}
use cluster_api_provider_tin.Objects.{TinkerbellMachine}
use cluster_api_provider_tin.Kube.Errors.{Error, Result, ok, err}
use cluster_api_provider_tin.Kube.Environment.{Call}
use cluster_api_provider_tin.Kube.Actions.{
  ScopeState, Exec, raise, attempt, modify, continue, ◌>>=◌,
}
use cluster_api_provider_tin.Kube.Sends.{Sends}

-- How `t` comes after `s`: the calls between them, all with `Q`, and the part `f` of the machine
-- the same.
pub record Follows (Q : Call → Type 0) {X : Type 0} (f : TinkerbellMachine → X) (s t : ScopeState)
    : Type 0 where
  pub new : List Call
  pub sent : t.trace ≡ new ++ s.trace
  pub allowed : All Q new
  pub kept : f t.machine ≡ f s.machine

-- Whether or not it fails, `m` sends only calls with `Q`, and keeps the part `f` of the machine.
pub record Traces (Q : Call → Type 0) {X : Type 0} (f : TinkerbellMachine → X) {A : Type 0}
    (m : Exec A) : Type 0 where
  pub at : (s : ScopeState) → Follows Q f s (m s).1

module _ {Q : Call → Type 0} {X : Type 0} {f : TinkerbellMachine → X} where
  pub Follows-refl : (s : ScopeState) → Follows Q f s s
  Follows-refl s = record { new = []; sent = refl; allowed = tt; kept = refl }

  pub Follows-trans : (s t u : ScopeState) → Follows Q f s t → Follows Q f t u → Follows Q f s u
  Follows-trans s t u p q = record {
    new = q.new ++ p.new;
    sent = q.sent ∙ ap (λ l. q.new ++ l) p.sent ∙ sym (append_assoc q.new p.new s.trace);
    allowed = All-append Q q.new p.new q.allowed p.allowed;
    kept = q.kept ∙ p.kept;
  }

  module _ {A : Type 0} where
    pub Traces-Sends : (m : Exec A) → Sends Q m → Traces Q f m
    Traces-Sends m h = record {
      at = λ s.
          let (new, p, q) = h.at s in
          record {
            new = new;
            sent = ap (λ t. t.trace) p;
            allowed = q;
            kept = ap (λ t. f t.machine) p;
          };
    }

    pub Traces-raise : (x : Error) → Traces Q f (raise {A = A} x)
    unfolding raise
    Traces-raise x = record { at = Follows-refl }

    pub Traces-attempt : (m : Exec A) → Traces Q f m → Traces Q f (attempt m)
    unfolding attempt
    Traces-attempt m h = record { at = λ s. h.at s }

    pub Traces-if :
        (b : Bool) (m n : Exec A) → Traces Q f m → Traces Q f n → Traces Q f (if b then m else n)
    Traces-if true m n h k = h
    Traces-if false m n h k = k

  -- A change of the state that sends nothing.
  pub Traces-modify :
      (g : ScopeState → ScopeState)
      → ((s : ScopeState) → ((g s).trace ≡ s.trace) × (f (g s).machine ≡ f s.machine))
      → Traces Q f (modify g)
  unfolding modify
  Traces-modify g h = record {
    at = λ s. record { new = []; sent = (h s).0; allowed = tt; kept = (h s).1 };
  }

  module _ {A B : Type 0} where
    continue-Follows :
        (r : Result A) (k : A → Exec B) (s : ScopeState)
        → ((a : A) → Traces Q f (k a))
        → Follows Q f s (continue r k s).1
    continue-Follows (ok a) k s h = (h a).at s
    continue-Follows (err x) k s h = Follows-refl s

    pub Traces-bind :
        (m : Exec A) (k : A → Exec B)
        → Traces Q f m
        → ((a : A) → Traces Q f (k a))
        → Traces Q f (m >>= k)
    unfolding ◌>>=◌
    Traces-bind m k h t = record {
      at = λ s. Follows-trans s (m s).1 _ (h.at s) (continue-Follows (m s).0 k (m s).1 t);
    }
