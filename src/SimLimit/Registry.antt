-- ===== src/SimLimit/Registry.antt =====
-- The limiters of several SIMs.
use Prim.Native.String.{String}
use text.Mathlib.Text.{◌==◌}
use sms_gate.Prelude.{ℕ, ◌≡◌, refl, true, none, some, if◌then◌else◌}
use sms_gate.Prelude.Dict.{lookup, lookup-insert}
use sms_gate.SimLimit.{
  RateLimitConfig, SimRateLimiter, RateLimiterRegistry, new_sim_rate_limiter, allow_sim, register,
  allow_iccid, allow_found,
}

-- A SIM that was never registered is not limited.
pub allow_iccid_free :
    (iccid : String) (now : ℕ) (r : RateLimiterRegistry)
    → lookup iccid r ≡ none
    → allow_iccid iccid now r ≡ (r, true)
unfolding allow_iccid allow_found
allow_iccid_free iccid now r e = rw e

-- A send of a registered SIM is decided by that SIM's limiter alone, and changes that limiter as its
-- own decision does and no other.
pub allow_iccid_lem :
    (iccid other : String) (now : ℕ) (r : RateLimiterRegistry) (lim : SimRateLimiter)
    → lookup iccid r ≡ some lim
    → ((allow_iccid iccid now r).1 ≡ (allow_sim now lim).1)
      × (lookup other (allow_iccid iccid now r).0
          ≡ (if iccid == other then some (allow_sim now lim).0 else lookup other r))
unfolding allow_iccid allow_found
allow_iccid_lem iccid other now r lim e =
    rw e (refl, lookup-insert iccid other (allow_sim now lim).0 r)

-- `Register` gives the SIM a fresh limiter, whatever it had sent before, and leaves the others.
pub lookup-register :
    (iccid other : String) (cfg : RateLimitConfig) (r : RateLimiterRegistry)
    → lookup other (register iccid cfg r)
      ≡ (if iccid == other then some (new_sim_rate_limiter cfg) else lookup other r)
unfolding register
lookup-register iccid other cfg r = lookup-insert iccid other (new_sim_rate_limiter cfg) r
