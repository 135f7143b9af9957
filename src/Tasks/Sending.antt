-- ===== src/Tasks/Sending.antt =====
-- What an acknowledgement promises.
use Prim.Native.String.{String}
use sms_gate.Prelude.{
  ℕ, ◌≡◌, refl, ap, inl, inr, Bool, true, false, Option, none, some, List, [], ◌∷◌, ◌++◌, length,
  All, arith, Bool-cases,
}
use sms_gate.SimLimit.{RateLimiterRegistry, allow_iccid}
use sms_gate.Pdu.Submit.{EncodedPdu, Encoded, ok, unsupported, encode_pdu}
use sms_gate.Tasks.{
  success, SendPayload, Sender, rejected, send_parts, after_parts, after_encode, after_allow,
  do_send_sms,
}

module _ (send : EncodedPdu → Bool) where
  abbrev Took : EncodedPdu → Type 0
  Took part = send part ≡ true

  -- All parts were tried in order and the modem took each.
  record Complete (parts : List EncodedPdu) (r : List EncodedPdu × Bool) : Type 0 where
    tried : r.0 ≡ parts
    taken : All Took parts

  send_parts-Complete :
      (parts : List EncodedPdu)
      → (send_parts send parts).1 ≡ true
      → Complete parts (send_parts send parts)
  unfolding send_parts
  send_parts-Complete [] e = record { tried = refl; taken = tt }
  send_parts-Complete (part ∷ parts) e = elim (Bool-cases (send part)) [
    | inl took ↦
        let there = send_parts-Complete parts (rw took at e) in
        rw took (record { tried = ap (◌∷◌ part) there.tried; taken = (took, there.taken) })
    | inr lost ↦ absurd (ground arith)
  ]

-- A message that was sent: its payload and its parts.
pub record Sent (send : EncodedPdu → Bool) (iccid : String) (now : ℕ) (payload : Option SendPayload)
    (st : Sender) (n : ℕ) (st' : Sender) : Type 0 where
  pub p : SendPayload
  pub parts : List EncodedPdu
  pub asked : payload ≡ some p
  pub checked : rejected p ≡ false
  pub allowed : (allow_iccid iccid now st.limiter).1 ≡ true
  pub encoded : encode_pdu p.to p.body p.encoding ≡ ok parts
  pub count : n ≡ length parts
  pub given : st'.given ≡ st.given ++ parts
  pub taken : All (λ part. send part ≡ true) parts

module _ (send : EncodedPdu → Bool) (iccid : String) (now : ℕ) where
  after_parts-Sent :
      (p : SendPayload) (st st0 : Sender) (parts : List EncodedPdu) (n : ℕ)
      (r : List EncodedPdu × Bool)
      → st.given ≡ st0.given
      → rejected p ≡ false
      → (allow_iccid iccid now st0.limiter).1 ≡ true
      → encode_pdu p.to p.body p.encoding ≡ ok parts
      → (r.1 ≡ true → Complete send parts r)
      → (after_parts send (length parts) st r).1 ≡ success n
      → Sent send iccid now (some p) st0 n (after_parts send (length parts) st r).0
  unfolding after_parts
  after_parts-Sent p st st0 parts n (tried, true) g c a enc complete e =
      let all = complete refl in
      record {
        p = p;
        parts = parts;
        asked = refl;
        checked = c;
        allowed = a;
        encoded = enc;
        count = cc;
        given = rw (g, all.tried);
        taken = all.taken;
      }
  after_parts-Sent p st st0 parts n (tried, false) g c a enc complete e = absurd (ground arith)

  after_encode-Sent :
      (p : SendPayload) (st st0 : Sender) (n : ℕ) (o : Encoded)
      → st.given ≡ st0.given
      → rejected p ≡ false
      → (allow_iccid iccid now st0.limiter).1 ≡ true
      → encode_pdu p.to p.body p.encoding ≡ o
      → (after_encode send st o).1 ≡ success n
      → Sent send iccid now (some p) st0 n (after_encode send st o).0
  unfolding after_encode
  after_encode-Sent p st st0 n (ok parts) g c a enc e =
      after_parts-Sent p st st0 parts n (send_parts send parts) g c a enc
        (send_parts-Complete send parts) e
  after_encode-Sent p st st0 n (unsupported encoding) g c a enc e = absurd (ground arith)

  after_allow-Sent :
      (p : SendPayload) (st : Sender) (n : ℕ) (r : RateLimiterRegistry × Bool)
      → rejected p ≡ false
      → (allow_iccid iccid now st.limiter).1 ≡ r.1
      → (after_allow send p st r).1 ≡ success n
      → Sent send iccid now (some p) st n (after_allow send p st r).0
  unfolding after_allow
  after_allow-Sent p st n (limiter, true) c a e =
      after_encode-Sent p (record st { limiter = limiter }) st n _ refl c a refl e
  after_allow-Sent p st n (limiter, false) c a e = absurd (ground arith)

-- A task is acknowledged as sent only if its payload passed every check, the limiter of the SIM
-- admitted it, and every part that EncodePDU made of it was given to the modem, in order, and taken;
-- the acknowledgement counts the parts.
pub do_send_sms-Sent :
    (send : EncodedPdu → Bool) (iccid : String) (now : ℕ) (payload : Option SendPayload)
    (st : Sender) (n : ℕ)
    → (do_send_sms send iccid now payload st).1 ≡ success n
    → Sent send iccid now payload st n (do_send_sms send iccid now payload st).0
unfolding do_send_sms
do_send_sms-Sent send iccid now none st n e = absurd (ground arith)
do_send_sms-Sent send iccid now (some p) st n e = elim (Bool-cases (rejected p)) [
  | inl bad ↦ absurd (ground arith)
  | inr good ↦ rw good (
      after_allow-Sent send iccid now p st n (allow_iccid iccid now st.limiter) good refl
        (rw good at e))
]
