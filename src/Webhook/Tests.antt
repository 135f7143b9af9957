-- ===== src/Webhook/Tests.antt =====
-- Runs of the notifier, and the theorems at concrete inputs.
use Prim.Native.String.{String}
use sms_gate.Prelude.{
  ◌<◌, ℕ, zero, suc, ◌+◌, ◌≤◌, ◌≡◌, refl, Bool, true, false, Option, none, some, List, [], ◌∷◌,
  ◌++◌, arith, length, All,
}
use sms_gate.Backoff.{Draw, compute}
use sms_gate.Webhook.{
  Payload, Notifier, Request, Answer, unreachable, status, Round, max_attempts, notify, new,
}
use text.Mathlib.Text.{◌==◌ as str_eq}
use sms_gate.Prelude.{◌++◌, if◌then◌else◌}
use sms_gate.Prelude.Text.{codes, encode_hex}
use sms_gate.Webhook.Posts.{accepted, successes, IsRetried, notify-posts, notify_succeeds}

abbrev even : Draw
even = record { coin = 1; part = record { num = 0; den = 1 } }

abbrev round : Answer → Round
round answer = record { cancelled = false; answer = answer; cancelled_waiting = false; draw = even }

-- Unreachable, then a status 503, then accepted.
abbrev third : ℕ → Round
third zero = round unreachable
third (suc zero) = round unreachable
third (suc (suc zero)) = round (status 503)
third (suc (suc (suc k))) = round (status 204)

abbrev marshal : Payload → Option (List ℕ)
marshal p = some (123 ∷ 125 ∷ [])

-- A stand-in for the hash: the key and the text.
abbrev hash : List ℕ → List ℕ → List ℕ
hash key text = key ++ text

abbrev any_url : String → Bool
any_url url = true

abbrev hook : Notifier
hook = record { url = "http://localhost/sms"; secret = "k" }

abbrev message : Payload
message = record {
  event = "sms.received";
  iccid = "8949";
  sender = "+491";
  body = "hi";
  timestamp = "t";
}

disabled : new "" "k" ≡ none
unfolding new
disabled = refl

delays_of_third :
    (notify marshal hash any_url hook message third).0.delays ≡ 1_000_000_000 ∷ 2_000_000_000 ∷ []
unfolding notify compute
delays_of_third = refl

notify-posts_example :
    let r = notify marshal hash any_url hook message third in
    (accepted r.0.posts ≡ successes r.1)
    × (length r.0.posts ≤ max_attempts)
    × All
        (λ (post : Request × Answer). post.0 ≡ record {
          url = hook.url;
          content_type = "application/json";
          signature =
              if str_eq hook.secret ""
              then none
              else some (codes "sha256=" ++ encode_hex (hash (codes hook.secret) (123 ∷ 125 ∷ [])));
          body = 123 ∷ 125 ∷ [];
        })
        r.0.posts
notify-posts_example =
    notify-posts marshal hash any_url hook message (123 ∷ 125 ∷ []) refl refl third

retried : (j : ℕ) → j < 2 → IsRetried (third (1 + j))
retried zero h = record { live = refl; refused = refl; waited = refl }
retried (suc zero) h = record { live = refl; refused = refl; waited = refl }
retried (suc (suc j)) h = absurd (omega arith)

notify_succeeds_example :
    ((notify marshal hash any_url hook message third).1 ≡ none)
    × (length (notify marshal hash any_url hook message third).0.posts ≡ 1 + 2)
notify_succeeds_example =
    notify_succeeds marshal hash any_url hook message (123 ∷ 125 ∷ []) refl refl third 2
      (omega arith) retried refl refl
