-- ===== src/Lifecycle/Init.antt =====
-- The init sequence of a worker (internal/modem/worker.go: runInitSequence, retryN, retryNVal), over what
-- the serializer's commands return.
use sms_gate.Prelude.{
  ℕ, zero, suc, ◌≡◌, sym, ap, inl, inr, Bool, true, false, Option, none, some, List, [], ◌∷◌, ◌==◌,
  length, arith, Bool-cases, if◌then◌else◌,
}
use sms_gate.Prelude.Text.{eq_bytes}

-- retryN, with what the tries return; a try that is not listed fails.
unfoldable pub retry : ℕ → List Bool → Bool
retry zero tries = false
retry (suc n) [] = false
retry (suc n) (true ∷ tries) = true
retry (suc n) (false ∷ tries) = retry n tries

-- retryNVal
unfoldable pub retry_val : {A : Type 0} → ℕ → List (Option A) → Option A
retry_val zero tries = none
retry_val (suc n) [] = none
retry_val (suc n) (some a ∷ tries) = some a
retry_val (suc n) (none ∷ tries) = retry_val n tries

-- What the commands return: the pings and the readings of the ICCID by try.
pub record InitAnswers : Type 0 where
  pub pings : List Bool
  pub echo_off : Bool
  pub pdu_mode : Bool
  pub cmti_urcs : Bool
  pub capabilities : Option (List ℕ)
  pub iccids : List (Option (List ℕ))
  pub imsi : Option (List ℕ)
  pub operator : Option (List ℕ)

-- The fields of the worker that the sequence stores; they are empty before.
pub record Identity : Type 0 where
  pub iccid : List ℕ
  pub imsi : List ℕ
  pub operator : List ℕ

-- The step that failed.
pub data InitError : Type 0 where
  ping disable_echo set_pdu_mode enable_cmti_urcs read_iccid : InitError
  iccid_mismatch : List ℕ → InitError

pub data InitResult : Type 0 where
  started : Identity → InitResult
  stopped : InitError → InitResult

abbrev pub or_empty : Option (List ℕ) → List ℕ
or_empty none = []
or_empty (some s) = s

-- The guard on the SIM; no expectation is the empty text.
abbrev pub is_expected : List ℕ → List ℕ → Bool
is_expected expected iccid = if length expected == 0 then true else eq_bytes iccid expected

-- A step that does not fail for good stores its value or nothing.
unfoldable pub with_iccid : InitAnswers → List ℕ → Option (List ℕ) → InitResult
with_iccid a expected none = stopped read_iccid
with_iccid a expected (some iccid) =
    if is_expected expected iccid
    then started (record { iccid = iccid; imsi = or_empty a.imsi; operator = or_empty a.operator })
    else stopped (iccid_mismatch iccid)

unfoldable pub run_init_sequence : List ℕ → InitAnswers → InitResult
unfolding retry retry_val with_iccid
run_init_sequence expected a =
    if retry 3 a.pings
    then (if a.echo_off
        then (if a.pdu_mode
            then (if a.cmti_urcs
                then with_iccid a expected (retry_val 3 a.iccids)
                else stopped enable_cmti_urcs)
            else stopped set_pdu_mode)
        else stopped disable_echo)
    else stopped ping

-- What a worker that starts rests on.
pub record IsReady (expected : List ℕ) (a : InitAnswers) (w : Identity) : Type 0 where
  pub answers : retry 3 a.pings ≡ true
  pub echo : a.echo_off ≡ true
  pub mode : a.pdu_mode ≡ true
  pub urcs : a.cmti_urcs ≡ true
  pub is_read : retry_val 3 a.iccids ≡ some w.iccid
  pub guarded : is_expected expected w.iccid ≡ true

with_iccid-is_read :
    (expected : List ℕ) (a : InitAnswers) (w : Identity) (q : Option (List ℕ))
    → with_iccid a expected q ≡ started w
    → (q ≡ some w.iccid) × (is_expected expected w.iccid ≡ true)
unfolding with_iccid
with_iccid-is_read expected a w none e = absurd (ground arith)
with_iccid-is_read expected a w (some iccid) e = elim (Bool-cases (is_expected expected iccid)) [
  | inl good ↦
      let same : iccid ≡ w.iccid = ground (arith, rw good at e) in
      (ap (λ s. some s) same, rw (sym same) good)
  | inr bad ↦ absurd (ground (arith, rw bad at e))
]

-- The worker starts only if the modem has answered one of three pings, has taken the three settings (no
-- echo, PDU mode, message indications), and one of three readings has given its ICCID, which is the
-- expected one if there is an expectation.
pub run_init_sequence-IsReady :
    (expected : List ℕ) (a : InitAnswers) (w : Identity)
    → run_init_sequence expected a ≡ started w
    → IsReady expected a w
unfolding run_init_sequence
run_init_sequence-IsReady expected a w e = elim (Bool-cases (retry 3 a.pings)) [
  | inr no_ping ↦ absurd (ground (arith, rw no_ping at e))
  | inl pinged ↦ elim (Bool-cases a.echo_off) [
    | inr no_echo ↦ absurd (ground (arith, simp (pinged, no_echo) at e))
    | inl echo ↦ elim (Bool-cases a.pdu_mode) [
      | inr no_mode ↦ absurd (ground (arith, simp (pinged, echo, no_mode) at e))
      | inl mode ↦ elim (Bool-cases a.cmti_urcs) [
        | inr no_urcs ↦ absurd (ground (arith, simp (pinged, echo, mode, no_urcs) at e))
        | inl urcs ↦
            let rest =
              with_iccid-is_read expected a w (retry_val 3 a.iccids)
                (simp (pinged, echo, mode, urcs) at e) in
            record {
              answers = pinged;
              echo = echo;
              mode = mode;
              urcs = urcs;
              is_read = rest.0;
              guarded = rest.1;
            }
      ]
    ]
  ]
]
