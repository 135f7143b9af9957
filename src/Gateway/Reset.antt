-- ===== src/Gateway/Reset.antt =====
-- Which request resets which modem.
use Prim.Native.String.{String}
use text.Mathlib.Text.{◌==◌ as str_eq}
use text.Mathlib.TextEquality.{eq_iff}
use sms_gate.Prelude.{
  true, sym, ◌∙◌, ◌≡◌, refl, ◌≢◌, ◌↔◌, ◌&&◌, Option, none, some, arith, Bool-cases, Option-cases,
  inl, inr, if◌then◌else◌, ◌==◌,
}
use sms_gate.Prelude.Dict.{lookup, lookup-insert}
use sms_gate.Gateway.{Worker, Registry, Response, request_reset, modem_reset_handler, reset_found}

abbrev pub asked : Option Worker → Option Worker
asked none = none
asked (some w) = some (record w { reset_pending = true })

-- What is asked of the handler: it answers 202 exactly to a POST for a registered ICCID, then the
-- worker of that ICCID has a reset pending, and no other worker changes, nor any after another answer.
pub record IsReset (method iccid : String) (r : Registry) (result : Registry × Response)
    : Type 0 where
  pub accepted :
      (result.1.code ≡ 202) ↔ ((method ≡ "POST") × (iccid ≢ "") × (lookup iccid r ≢ none))
  pub only :
      (other : String)
      → lookup other result.0 ≡ (
          if str_eq iccid other && result.1.code == 202
          then asked (lookup iccid r)
          else lookup other r)

asked_some : (w : Worker) → asked (some w) ≡ some (request_reset w)
unfolding request_reset
asked_some w = refl

absent_worker : (w : Worker) → none ≡ some w → ⊥
absent_worker w e = cc

-- In any state of the registry the endpoint of resets answers 202 exactly to a POST for an ICCID that
-- is registered; then the reset flag of that modem is set, whatever it was, and nothing else of it nor any
-- other modem changes; after any other answer no modem changes.
pub modem_reset_handler-IsReset :
    (method iccid : String) (r : Registry)
    → IsReset method iccid r (modem_reset_handler method iccid r)
unfolding modem_reset_handler reset_found
modem_reset_handler-IsReset method iccid r = elim (Bool-cases (str_eq method "POST")) [
  | inr other_method ↦ rw other_method (record {
    accepted = (
      λ e. absurd (ground (arith, e)),
      λ p. absurd (ground (arith, eq_iff method "POST", p.0, other_method)),
    );
    only = λ other. ground arith;
  })
  | inl posted ↦ elim (Bool-cases (str_eq iccid "")) [
    | inl unnamed ↦
        rw (posted, unnamed)
          (record {
            accepted =
                (λ e. absurd (ground (arith, e)), λ p. absurd (p.1 ((eq_iff iccid "").0 unnamed)));
            only = λ other. ground arith;
          })
    | inr named ↦ elim (Option-cases (lookup iccid r)) [
      | inl absent ↦
          rw (posted, named, absent)
            (record {
              accepted = (λ e. absurd (ground (arith, e)), λ p. absurd (p.2 absent));
              only = λ other. ground arith;
            })
      | inr (w, there) ↦
          rw (posted, named, there)
            (record {
              accepted = (
                λ _. (
                  (eq_iff method "POST").0 posted,
                  (λ e. absurd (ground (arith, eq_iff iccid "", e, named))),
                  λ e. absurd (absent_worker w (sym e ∙ there)),
                ),
                λ _. refl,
              );
              only = λ other.
                  rw (lookup-insert iccid other (request_reset w) r, there)
                    (ground (arith, asked_some w));
            })
    ]
  ]
]
