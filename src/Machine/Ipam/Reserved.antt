-- ===== src/Machine/Ipam/Reserved.antt =====
-- What the success of reconcileIPAM promises (controller/machine/ipam.go).
use cluster_api_provider_tin.Prelude.{
  String, ◌≡◌, refl, sym, ◌∙◌, ap, subst, Bool, true, false, Option, none, some, List, ◌++◌, arith,
  is_set, ◌==◌, if◌then◌else◌,
}
use mathlib.Core.List.{append_assoc}
use cluster_api_provider_tin.Objects.{Hardware, IpPoolReference, IpAddressClaim, IpAddress}
use cluster_api_provider_tin.Kube.{
  Env, Error, Result, ok, err, interface_not_found, requeue_conflict, Call, HardwareAddress,
  ScopeState, Scope, Exec, pure, raise, gets, ask, attempt, modify, continue, ◌>>=◌,
}
use cluster_api_provider_tin.Kube.Ensures.{err-ne-ok, ok-injective}
use cluster_api_provider_tin.Kube.Patched.{
  Patched, Patched-later, Patched-last, requeue_conflict-ok,
}
use cluster_api_provider_tin.Kube.Sends.{Sends-ask}
use cluster_api_provider_tin.Kube.Traces.{Traces, Traces-Sends, Traces-attempt}
use cluster_api_provider_tin.Machine.Interfaces.{primary_interface_mac}
use cluster_api_provider_tin.Machine.Reservation.{
  held_by, interface_address, interface_at, reserve, set_interface,
}
use cluster_api_provider_tin.Machine.Claims.{
  set_claimed_condition, address_at, ensure_hardware_address,
}
use cluster_api_provider_tin.Machine.Claims.Calls.{spec_of, condition-Traces, ensure_claim-Traces}
use cluster_api_provider_tin.Machine.Ipam.{
  get_address, refuse_claim, after_write, write_address, found_address, apply_ip_address, use_claim,
  claim_for_mac, claim_for_pool, reconcile_ipam,
}

abbrev AnyCall : Call → Type 0
AnyCall c = Unit

-- A step on the Hardware `hw`, after the calls `first`.
module _ (e : Env) (first : List Call) (hw : Hardware) where
  -- Among `calls` the Hardware got the address, or had it: one of its interfaces holds the address
  -- and it stays as it is, or the server has accepted the patch that writes the address into the
  -- interface and no other, and has answered with `hw'`.
  pub data IsHeld (calls : List Call) (ip : HardwareAddress) (hw' : Hardware) : Type 0 where
    held_already :
        (key : String)
        → held_by ip (interface_address (interface_at hw key) ip.family) ≡ true
        → hw' ≡ hw
        → IsHeld calls ip hw'
    held_now :
        (key : String)
        → Patched e first calls hw (set_interface hw key (reserve ip (interface_at hw key))) hw'
        → IsHeld calls ip hw'

  abbrev pub Held : Hardware → ScopeState → Type 0
  Held hw' t = (ip : HardwareAddress) × (t.reserved_address ≡ some ip) × IsHeld t.trace ip hw'

  pub IsHeld-later :
      (calls calls' more : List Call) (ip : HardwareAddress) (hw' : Hardware)
      → calls' ≡ more ++ calls
      → IsHeld calls ip hw'
      → IsHeld calls' ip hw'
  IsHeld-later calls calls' more ip hw' same (held_already key held kept) =
      held_already key held kept
  IsHeld-later calls calls' more ip hw' same (held_now key p) =
      held_now key (Patched-later e first calls calls' more hw _ hw' same p)

  -- If `m` succeeds, an address is reserved, and the Hardware holds it.
  record Reserves (m : Exec Hardware) : Type 0 where
    at :
        (s : ScopeState) (earlier : List Call)
        → s.trace ≡ earlier ++ first
        → (hw' : Hardware) → (m s).0 ≡ ok hw'
        → Held hw' (m s).1

  Reserves-raise : (x : Error) → Reserves (raise x)
  unfolding raise
  Reserves-raise x = record { at = λ s earlier same a p. absurd (err-ne-ok x a p) }

  Reserves-if :
      (b : Bool) (m n : Exec Hardware) → Reserves m → Reserves n → Reserves (if b then m else n)
  Reserves-if true m n h k = h
  Reserves-if false m n h k = k

  module _ {A : Type 0} where
    continue-Reserves :
        (r : Result A) (f : A → Exec Hardware) (s : ScopeState) (earlier : List Call)
        → s.trace ≡ earlier ++ first
        → ((a : A) → Reserves (f a))
        → (hw' : Hardware) → (continue r f s).0 ≡ ok hw'
        → Held hw' (continue r f s).1
    continue-Reserves (ok a) f s earlier same h hw' p = (h a).at s earlier same hw' p
    continue-Reserves (err x) f s earlier same h hw' p = absurd (err-ne-ok x hw' p)

    Reserves-bind :
        (m : Exec A) (f : A → Exec Hardware)
        → Traces AnyCall spec_of m
        → ((a : A) → Reserves (f a))
        → Reserves (m >>= f)
    unfolding ◌>>=◌
    Reserves-bind m f t h = record {
      at = λ s earlier same.
          let p = t.at s in
          continue-Reserves (m s).0 f (m s).1 (p.new ++ earlier)
            (p.sent ∙ ap (λ l. p.new ++ l) same ∙ sym (append_assoc p.new earlier first)) h;
    }

  Reserves-refuse : (reason : String) (x : Error) → Reserves (refuse_claim e reason x)
  unfolding refuse_claim
  Reserves-refuse reason x = Reserves-bind _ _ (condition-Traces e _ reason) λ u. Reserves-raise x

  -- The write of the address, by whether the interface holds it.
  address_case :
      (ip : HardwareAddress) (key : String) (b : Bool) (s : ScopeState) (earlier : List Call)
      → held_by ip (interface_address (interface_at hw key) ip.family) ≡ b
      → s.trace ≡ earlier ++ first
      → (hw' : Hardware)
      → let changed = set_interface hw key (reserve ip (interface_at hw key)) in
        let r : Result Hardware × ScopeState =
          (if b
              then pure hw
              else ask
                  (Call.patch_hardware hw changed true)
                  (λ t. requeue_conflict (e.patch_hardware t hw changed true)))
            s in
        r.0 ≡ ok hw' → IsHeld r.1.trace ip hw'
  unfolding pure ask
  address_case ip key true s earlier held same hw' h =
      held_already key held (sym (ok-injective hw hw' h))
  address_case ip key false s earlier held same hw' h =
      held_now key
        (Patched-last e first s.trace earlier hw _ hw' same (requeue_conflict-ok _ hw' h))

  address_at-IsHeld :
      (ip : HardwareAddress) (key : Option String) (s : ScopeState) (earlier : List Call)
      → s.trace ≡ earlier ++ first
      → (hw' : Hardware) → (address_at e hw ip key s).0 ≡ ok hw'
      → IsHeld (address_at e hw ip key s).1.trace ip hw'
  unfolding address_at raise
  address_at-IsHeld ip none s earlier same hw' h = absurd (err-ne-ok _ hw' h)
  address_at-IsHeld ip (some key) s earlier same hw' h =
      address_case ip key (held_by ip (interface_address (interface_at hw key) ip.family)) s earlier
        refl same hw' h

  -- The end of the step, after the write.
  after_write-Held :
      (ip : HardwareAddress) (r : Result Hardware) (s : ScopeState)
      → ((h : Hardware) → r ≡ ok h → IsHeld s.trace ip h)
      → (hw' : Hardware) → (after_write e ip r s).0 ≡ ok hw'
      → Held hw' (after_write e ip r s).1
  unfolding after_write refuse_claim set_claimed_condition modify pure raise ◌>>=◌
  after_write-Held ip (ok h) s held hw' p =
      (ip, refl, subst (IsHeld s.trace ip) (ok-injective h hw' p) (held h refl))
  after_write-Held ip (err interface_not_found) s held hw' p = absurd (err-ne-ok _ hw' p)
  after_write-Held ip (err x) s held hw' p = absurd (err-ne-ok _ hw' p)

  write_address-Reserves :
      (claim : IpAddressClaim) (r : Result HardwareAddress) → Reserves (write_address e hw claim r)
  unfolding write_address attempt ensure_hardware_address ◌>>=◌
  write_address-Reserves claim (err x) = Reserves-refuse _ x
  write_address-Reserves claim (ok ip) = record {
    at = λ s earlier same hw' p.
        after_write-Held ip _ _ (address_at-IsHeld ip _ s earlier same) hw' p;
  }

  found_address-Reserves :
      (claim : IpAddressClaim) (r : Result IpAddress) → Reserves (found_address e hw claim r)
  unfolding found_address
  found_address-Reserves claim (err x) = Reserves-if _ _ _ (Reserves-refuse _ _) (Reserves-raise x)
  found_address-Reserves claim (ok a) = write_address-Reserves claim _

  use_claim-Reserves : (claim : IpAddressClaim) → Reserves (use_claim e hw claim)
  unfolding use_claim apply_ip_address get_address
  use_claim-Reserves claim =
      Reserves-if (is_set claim.meta.deletion_timestamp) _ _ (Reserves-refuse _ _) (
        Reserves-if (claim.address_ref == "") _ _ (Reserves-refuse _ _) (
          Reserves-bind _ _ (Traces-attempt _ (Traces-Sends _ (Sends-ask _ _ tt)))
            (found_address-Reserves claim)))

  claim_for_mac-Reserves :
      (sc : Scope) (pool : IpPoolReference) (r : Result String)
      → Reserves (claim_for_mac e sc hw pool r)
  unfolding claim_for_mac
  claim_for_mac-Reserves sc pool (err x) = Reserves-refuse _ x
  claim_for_mac-Reserves sc pool (ok mac) =
      Reserves-bind _ _ (ensure_claim-Traces (λ c p. tt) (λ c p. tt) e sc hw mac pool)
        use_claim-Reserves

  claim_for_pool-Reserves :
      (sc : Scope) (pool : Option IpPoolReference)
      → is_set pool ≡ true
      → Reserves (claim_for_pool e sc hw pool)
  unfolding claim_for_pool
  claim_for_pool-Reserves sc none h = ground (arith, h)
  claim_for_pool-Reserves sc (some pool) h =
      claim_for_mac-Reserves sc pool (primary_interface_mac e hw)

-- With a pool, the step succeeds only when an address is reserved, and the Hardware holds it.
pub reconcile_ipam-Held :
    (e : Env) (sc : Scope) (hw hw' : Hardware) (s : ScopeState) (first earlier : List Call)
    → is_set s.machine.spec.address_from_pool ≡ true
    → s.trace ≡ earlier ++ first
    → (reconcile_ipam e sc hw s).0 ≡ ok hw'
    → Held e first hw hw' (reconcile_ipam e sc hw s).1
unfolding reconcile_ipam gets ◌>>=◌
reconcile_ipam-Held e sc hw hw' s first earlier set same =
    (claim_for_pool-Reserves e first hw sc s.machine.spec.address_from_pool set).at s earlier same
      hw'
