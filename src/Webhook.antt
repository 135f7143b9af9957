-- ===== src/Webhook.antt =====
-- Notifications of messages to an HTTP endpoint (internal/webhook/webhook.go). A body is a list of
-- bytes. json.Marshal, HMAC-SHA256 and the check of a URL by http.NewRequest are parameters. What the
-- endpoint and the context do at each attempt is given, and the wait between attempts is recorded.
pub mod Posts
mod Tests
use Prim.Native.String.{String}
use text.Mathlib.Text.{◌==◌ as str_eq}
use sms_gate.Prelude.{
  zero, ℕ, suc, ◌+◌, Bool, true, false, ◌||◌, Option, none, some, List, [], ◌∷◌, ◌++◌, ltb, leb,
  if◌then◌else◌,
}
use sms_gate.Prelude.Int.{pos}
use sms_gate.Prelude.Text.{codes, encode_hex}
use sms_gate.Backoff.{Draw, compute}

abbrev pub max_attempts : ℕ
max_attempts = 3

pub record Payload : Type 0 where
  pub event : String
  pub iccid : String
  pub sender : String
  pub body : String
  pub timestamp : String

-- The client and the logger are left out.
pub record Notifier : Type 0 where
  pub url : String
  pub secret : String

pub new : String → String → Option Notifier
new url secret = if str_eq url "" then none else some (record { url = url; secret = secret })

-- A request with its headers, the signature as the bytes of its value.
pub record Request : Type 0 where
  pub url : String
  pub content_type : String
  pub signature : Option (List ℕ)
  pub body : List ℕ

pub data Answer : Type 0 where
  unreachable : Answer
  status : ℕ → Answer

-- What happens at one attempt: the context has ended before it or ends in the wait behind it, the
-- endpoint answers, and the random part of the wait.
pub record Round : Type 0 where
  pub cancelled : Bool
  pub answer : Answer
  pub cancelled_waiting : Bool
  pub draw : Draw

pub data PostError : Type 0 where
  invalid_url request_failed : PostError
  unexpected_status : ℕ → PostError

pub data NotifyError : Type 0 where
  marshal_failed context_cancelled cancelled_in_backoff : NotifyError
  all_failed : PostError → NotifyError

-- The requests that reached the client with their answers, the first one first, and the waits.
pub record Sent : Type 0 where
  pub posts : List (Request × Answer)
  pub delays : List ℕ

unfoldable pub after_answer : Answer → Option PostError
after_answer unreachable = some request_failed
after_answer (status code) =
    if ltb code 200 || leb 300 code then some (unexpected_status code) else none

module _ (marshal : Payload → Option (List ℕ)) (hmac_sha256 : List ℕ → List ℕ → List ℕ)
    (valid_url : String → Bool) where
  unfoldable pub sign : List ℕ → String → List ℕ
  unfolding encode_hex
  sign body secret = encode_hex (hmac_sha256 (codes secret) body)

  unfoldable pub request : Notifier → List ℕ → Request
  unfolding sign
  request n body = record {
    url = n.url;
    content_type = "application/json";
    signature = if str_eq n.secret "" then none else some (codes "sha256=" ++ sign body n.secret);
    body = body;
  }

  unfoldable pub post : Notifier → List ℕ → Answer → Sent → Sent × Option PostError
  unfolding request after_answer
  post n body answer sent =
      if valid_url n.url
      then (
        record sent { posts = sent.posts ++ (request n body, answer) ∷ [] },
        after_answer answer,
      )
      else (sent, some invalid_url)

  unfoldable pub wait : ℕ → Draw → Sent → Sent
  wait attempt draw sent = record sent { delays = sent.delays ++ compute (pos attempt) draw ∷ [] }

  -- The attempts that are left, with their rounds; the last error is that of the attempt before. The
  -- call is made under the tests that lead to it.
  unfoldable pub attempts :
      Notifier → List ℕ → ℕ → ℕ → (ℕ → Round) → PostError → Sent → Sent × Option NotifyError
  unfolding post wait
  attempts n body zero attempt rounds last sent = (sent, some (all_failed last))
  attempts n body (suc left) attempt rounds last sent =
      let round = rounds attempt in
      let (sent', result) = post n body round.answer sent in
      let waited = wait attempt round.draw sent' in
      if round.cancelled then (sent, some context_cancelled) else elim result [
        | none ↦ (sent', none)
        | some error ↦
            let go = attempts n body left (attempt + 1) rounds error in
            if ltb attempt max_attempts
            then (if round.cancelled_waiting
                then (waited, some cancelled_in_backoff)
                else go waited)
            else go sent'
      ]

  pub notify : Notifier → Payload → (ℕ → Round) → Sent × Option NotifyError
  unfolding attempts
  notify n payload rounds = elim (marshal payload) [
    | none ↦ (record { posts = []; delays = [] }, some marshal_failed)
    | some body ↦
        attempts n body max_attempts 1 rounds request_failed (record { posts = []; delays = [] })
  ]
