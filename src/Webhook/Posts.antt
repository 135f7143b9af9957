-- ===== src/Webhook/Posts.antt =====
-- Which requests are sent, and when the notifier reports success.
use Prim.Native.String.{String}
use sms_gate.Prelude.{
  ap, leb, ◌&&◌, ◌⊎◌, ℕ, zero, suc, ◌+◌, ◌≤◌, ◌<◌, ◌≡◌, refl, Bool, true, false, Option, none, some,
  List, [], ◌∷◌, ◌++◌, arith, Bool-cases, inl, inr, if◌then◌else◌, length, length-append, All, ltb,
}
use text.Mathlib.Text.{◌==◌ as str_eq}
use sms_gate.Prelude.Text.{codes, encode_hex}
use sms_gate.Webhook.{
  sign, context_cancelled, cancelled_in_backoff, request_failed, unexpected_status, request_failed,
  unexpected_status, Payload, Notifier, Request, Answer, unreachable, status, Round, PostError,
  NotifyError, Sent, max_attempts, after_answer, request, post, attempts, notify, wait,
}

-- A status from 200 to 299.
abbrev pub is_accepted : Answer → Bool
is_accepted unreachable = false
is_accepted (status code) = leb 200 code && ltb code 300

-- The number of accepted requests.
abbrev pub accepted : List (Request × Answer) → ℕ
accepted [] = 0
accepted ((request, answer) ∷ posts) =
    if is_accepted answer then suc (accepted posts) else accepted posts

-- An attempt that the next one follows.
pub record IsRetried (round : Round) : Type 0 where
  pub live : round.cancelled ≡ false
  pub refused : is_accepted round.answer ≡ false
  pub waited : round.cancelled_waiting ≡ false

after_answer_lem :
    (a : Answer)
    → ((after_answer a ≡ none) × (is_accepted a ≡ true))
      ⊎ ((e : PostError) × (after_answer a ≡ some e) × (is_accepted a ≡ false))
unfolding after_answer
after_answer_lem unreachable = inr (request_failed, refl, refl)
after_answer_lem (status code) = elim (Bool-cases (is_accepted (status code))) [
  | inl e ↦ inl (ground arith, e)
  | inr e ↦ inr (unexpected_status code, ground arith, e)
]

abbrev pub successes : Option NotifyError → ℕ
successes none = 1
successes (some error) = 0

-- Of a run of the loop that began with the posts `before`: one more is accepted if the run succeeds,
-- none if it fails; it makes `left` posts at most, all of them the same request.
pub record IsRun (request : Request) (left : ℕ) (before : List (Request × Answer))
    (r : Sent × Option NotifyError) : Type 0 where
  pub counted : accepted r.0.posts ≡ accepted before + successes r.1
  pub bounded : length r.0.posts ≤ length before + left
  pub same :
      All (λ (post : Request × Answer). post.0 ≡ request) before
      → All (λ (post : Request × Answer). post.0 ≡ request) r.0.posts

accepted-snoc :
    (posts : List (Request × Answer)) (req : Request) (a : Answer)
    → accepted (posts ++ (req, a) ∷ [])
      ≡ (if is_accepted a then suc (accepted posts) else accepted posts)
accepted-snoc [] req a = refl
accepted-snoc ((_, b) ∷ posts) req a = ground (arith, accepted-snoc posts req a)

Same-snoc :
    (req : Request) (posts : List (Request × Answer)) (a : Answer)
    → All (λ (post : Request × Answer). post.0 ≡ req) posts
    → All (λ (post : Request × Answer). post.0 ≡ req) (posts ++ (req, a) ∷ [])
Same-snoc req [] a s = (refl, tt)
Same-snoc req (post ∷ posts) a (s, ss) = (s, Same-snoc req posts a ss)

-- A refused post before a run.
IsRun-refused :
    (req : Request) (left : ℕ) (before : List (Request × Answer)) (a : Answer)
    {r : Sent × Option NotifyError}
    → is_accepted a ≡ false
    → IsRun req left (before ++ (req, a) ∷ []) r
    → IsRun req (suc left) before r
IsRun-refused req left before a {r} refused run = record {
  counted = ground (arith, run.counted, accepted-snoc before req a);
  bounded = omega (arith, run.bounded, length-append before ((req, a) ∷ []));
  same = λ s. run.same (Same-snoc req before a s);
}

module _ (marshal : Payload → Option (List ℕ)) (hmac_sha256 : List ℕ → List ℕ → List ℕ)
    (valid_url : String → Bool) (n : Notifier) (body : List ℕ) (valid : valid_url n.url ≡ true)
    (rounds : ℕ → Round) where
  abbrev req : Request
  req = request marshal hmac_sha256 valid_url n body

  posted : Answer → Sent → Sent
  posted a sent = record sent { posts = sent.posts ++ (req, a) ∷ [] }

  run : ℕ → ℕ → PostError → Sent → Sent × Option NotifyError
  run left attempt last sent =
      attempts marshal hmac_sha256 valid_url n body left attempt rounds last sent

  -- How one attempt ends: the context has ended, the post is accepted, or it is refused; then the
  -- run ends in the wait or goes on.
  data Once (left attempt : ℕ) (last : PostError) (sent : Sent) : Type 0 where
    stopped :
        (rounds attempt).cancelled ≡ true
        → run (suc left) attempt last sent ≡ (sent, some context_cancelled)
        → Once left attempt last sent
    taken :
        is_accepted (rounds attempt).answer ≡ true
        → run (suc left) attempt last sent ≡ (posted (rounds attempt).answer sent, none)
        → Once left attempt last sent
    waited_out :
        (waited : Sent)
        → (rounds attempt).cancelled_waiting ≡ true
        → is_accepted (rounds attempt).answer ≡ false
        → waited.posts ≡ sent.posts ++ (req, (rounds attempt).answer) ∷ []
        → run (suc left) attempt last sent ≡ (waited, some cancelled_in_backoff)
        → Once left attempt last sent
    goes_on :
        (e : PostError) (waited : Sent)
        → is_accepted (rounds attempt).answer ≡ false
        → waited.posts ≡ sent.posts ++ (req, (rounds attempt).answer) ∷ []
        → run (suc left) attempt last sent ≡ run left (attempt + 1) e waited
        → Once left attempt last sent

  once : (left attempt : ℕ) (last : PostError) (sent : Sent) → Once left attempt last sent
  unfolding run attempts post wait posted
  once left attempt last sent = elim (Bool-cases (rounds attempt).cancelled) [
    | inl gone ↦ stopped gone (simp gone)
    | inr live ↦ elim (after_answer_lem (rounds attempt).answer) [
      | inl (ok, good) ↦ taken good (simp (live, valid, ok))
      | inr (e, bad, refused) ↦ elim (Bool-cases (ltb attempt max_attempts)) [
        | inr last_one ↦
            goes_on e (posted (rounds attempt).answer sent) refused refl
              (simp (live, valid, bad, last_one))
        | inl more ↦ elim (Bool-cases (rounds attempt).cancelled_waiting) [
          | inl gone ↦
              waited_out
                (wait marshal hmac_sha256 valid_url attempt (rounds attempt).draw
                  (posted (rounds attempt).answer sent))
                gone refused refl (simp (live, valid, bad, more, gone))
          | inr stays ↦
              goes_on e
                (wait marshal hmac_sha256 valid_url attempt (rounds attempt).draw
                  (posted (rounds attempt).answer sent))
                refused refl (simp (live, valid, bad, more, stays))
        ]
      ]
    ]
  ]

  run-IsRun :
      (left attempt : ℕ) (last : PostError) (sent : Sent)
      → IsRun req left sent.posts (run left attempt last sent)
  unfolding run attempts posted
  run-IsRun zero attempt last sent = record {
    counted = omega arith;
    bounded = omega arith;
    same = λ s. s;
  }
  run-IsRun (suc left) attempt last sent = elim (once left attempt last sent) [
    | stopped _ e ↦ rw e (record { counted = omega arith; bounded = omega arith; same = λ s. s })
    | taken good e ↦ rw e (record {
      counted = ground (arith, accepted-snoc sent.posts req (rounds attempt).answer);
      bounded = omega (arith, length-append sent.posts ((req, (rounds attempt).answer) ∷ []));
      same = Same-snoc req sent.posts (rounds attempt).answer;
    })
    | waited_out waited _ refused p e ↦ rw e (
        IsRun-refused req left sent.posts (rounds attempt).answer refused
          (rw p (record { counted = omega arith; bounded = omega arith; same = λ s. s })))
    | goes_on error waited refused p e ↦ rw e (
        IsRun-refused req left sent.posts (rounds attempt).answer refused
          (rw (← p) (run-IsRun left (attempt + 1) error waited)))
  ]

  later :
      (before attempt : ℕ)
      → ((j : ℕ) → j < suc before → IsRetried (rounds (attempt + j)))
      → (j : ℕ) → j < before
      → IsRetried (rounds (attempt + 1 + j))
  later before attempt retried j h =
      let next : attempt + suc j ≡ attempt + 1 + j = omega arith in
      let here = retried (suc j) (omega arith) in (rw next at here)

  run_succeeds :
      (before left attempt : ℕ) (last : PostError) (sent : Sent)
      → before < left
      → ((j : ℕ) → j < before → IsRetried (rounds (attempt + j)))
      → (rounds (attempt + before)).cancelled ≡ false
      → is_accepted (rounds (attempt + before)).answer ≡ true
      → ((run left attempt last sent).1 ≡ none)
        × (length (run left attempt last sent).0.posts ≡ length sent.posts + suc before)
  unfolding posted
  run_succeeds before zero attempt last sent h retried live good = absurd (omega arith)
  run_succeeds zero (suc left) attempt last sent h retried live good =
      let same : attempt + 0 ≡ attempt = omega arith in
      let live' : (rounds attempt).cancelled ≡ false = (rw same at live) in
      let good' : is_accepted (rounds attempt).answer ≡ true = (rw same at good) in
      elim (once left attempt last sent) [
        | stopped gone e ↦ absurd cc
        | taken _ e ↦
            rw e
              (refl, omega (arith, length-append sent.posts ((req, (rounds attempt).answer) ∷ [])))
        | waited_out waited _ refused p e ↦ absurd cc
        | goes_on error waited refused p e ↦ absurd cc
      ]
  run_succeeds (suc before) (suc left) attempt last sent h retried live good =
      let same : attempt + 0 ≡ attempt = omega arith in
      let next : attempt + suc before ≡ attempt + 1 + before = omega arith in
      let now = retried 0 (omega arith) in
      let first : IsRetried (rounds attempt) = (rw same at now) in
      elim (once left attempt last sent) [
        | stopped gone e ↦ absurd cc
        | taken good e ↦ absurd cc
        | waited_out waited gone refused p e ↦ absurd cc
        | goes_on error waited refused p e ↦
            let live' = (rw next at live) in
            let good' = (rw next at good) in
            let (done, count) =
              run_succeeds before left (attempt + 1) error waited (omega arith)
                (later before attempt retried) live' good' in
            rw e (
              done,
              omega (
                arith,
                count,
                ap length p,
                length-append sent.posts ((req, (rounds attempt).answer) ∷ []),
              ),
            )
      ]

module _ (marshal : Payload → Option (List ℕ)) (hmac_sha256 : List ℕ → List ℕ → List ℕ)
    (valid_url : String → Bool) (n : Notifier) (payload : Payload) (body : List ℕ)
    (marshalled : marshal payload ≡ some body) (valid : valid_url n.url ≡ true)
    (rounds : ℕ → Round) where
  -- A notification whose payload can be marshalled, to a URL that parses, is posted three times at
  -- most, every time as the body in JSON to the URL, with `sha256=` and the hexadecimal HMAC of the body
  -- as its signature if the secret is not empty, and without a signature if it is; one of the posts is
  -- accepted if it reports success, and none if it reports an error.
  pub notify-posts :
      let r = notify marshal hmac_sha256 valid_url n payload rounds in
      (accepted r.0.posts ≡ successes r.1)
      × (length r.0.posts ≤ max_attempts)
      × All
          (λ (post : Request × Answer). post.0 ≡ record {
            url = n.url;
            content_type = "application/json";
            signature =
                if str_eq n.secret ""
                then none
                else some (codes "sha256=" ++ encode_hex (hmac_sha256 (codes n.secret) body));
            body = body;
          })
          r.0.posts
  unfolding notify run request sign
  notify-posts =
      rw (marshalled, notify)
        (let r =
            run-IsRun marshal hmac_sha256 valid_url n body valid rounds max_attempts 1
              request_failed (record { posts = []; delays = [] }) in
          (omega (arith, r.counted), omega (arith, r.bounded), r.same tt))

  -- If the payload can be marshalled, the URL parses, the endpoint accepts one of three attempts and
  -- refuses those before it, and the context lasts up to that one, then the notification reports
  -- success with it, and posts no more.
  pub notify_succeeds :
      (before : ℕ)
      → before < max_attempts
      → ((j : ℕ) → j < before → IsRetried (rounds (1 + j)))
      → (rounds (1 + before)).cancelled ≡ false
      → is_accepted (rounds (1 + before)).answer ≡ true
      → ((notify marshal hmac_sha256 valid_url n payload rounds).1 ≡ none)
        × (length (notify marshal hmac_sha256 valid_url n payload rounds).0.posts ≡ 1 + before)
  unfolding notify run
  notify_succeeds before h retried live good =
      rw (marshalled, notify)
        (let (done, count) =
            run_succeeds marshal hmac_sha256 valid_url n body valid rounds before max_attempts 1
              request_failed (record { posts = []; delays = [] }) h retried live good in
          (done, omega (arith, count)))
