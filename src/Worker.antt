-- ===== src/Worker.antt =====
-- A message on its way in (internal/modem/worker.go: receiveSMS, which `+CMTI` indications call). What
-- the worker uses is an interface: the AT serializer of its port, the local buffer and the function
-- that pushes events, each from one state of the world to the next. An error is `none` or `false`. The
-- envelope of an event (its random id and its time) is left out.
pub mod Laws
pub mod NoLoss
mod Tests
use sms_gate.Prelude.{ℕ, ◌+◌, Bool, Option, none, some, List, [], ◌∷◌, if◌then◌else◌}
use sms_gate.Prelude.Int.{ℤ}
use sms_gate.Pdu.Address.{Stamp}
use sms_gate.Pdu.Deliver.{DecodedSms, Outcome, decoded, failed, panic, decode_pdu}

-- The arguments of `Buffer.Insert`.
pub record Row : Type 0 where
  pub iccid : List ℕ
  pub sender : List ℕ
  pub body : List ℕ
  pub pdu_hash : List ℕ
  pub smsc : List ℕ
  pub received_at : ℤ

pub record SmsReceivedEvent : Type 0 where
  pub gateway_id : List ℕ
  pub iccid : List ℕ
  pub sender : List ℕ
  pub body : List ℕ
  pub received_at : ℤ
  pub smsc : List ℕ
  pub pdu_hash : List ℕ
  pub buffer_id : ℕ

-- ReadSMS, DeleteSMS, Insert (the row's id, and whether it was there before) and eventFn.
pub record Services (S : Type 0) : Type 0 where
  pub read_sms : ℕ → S → S × Option (List ℕ)
  pub delete_sms : ℕ → S → S × Bool
  pub insert : Row → S → S × Option (ℕ × Bool)
  pub push : SmsReceivedEvent → S → S

-- The fields of a worker that `receiveSMS` reads or writes.
pub record Worker : Type 0 where
  pub gateway_id : List ℕ
  pub iccid : List ℕ
  pub recv_1h : ℕ
  pub last_activity : ℕ

-- SHA-256 and `time.Time.UnixMilli` are parameters.
module _ {S : Type 0} (svc : Services S) (sha256 : List ℕ → List ℕ) (unix_milli : Stamp → ℤ) where
  abbrev pub row_of : Worker → DecodedSms → Row
  row_of w d = record {
    iccid = w.iccid;
    sender = d.sender;
    body = d.body;
    pdu_hash = d.pdu_hash;
    smsc = d.smsc;
    received_at = unix_milli d.timestamp;
  }

  abbrev pub event_of : Worker → DecodedSms → ℕ → SmsReceivedEvent
  event_of w d id = record {
    gateway_id = w.gateway_id;
    iccid = w.iccid;
    sender = d.sender;
    body = d.body;
    received_at = unix_milli d.timestamp;
    smsc = d.smsc;
    pdu_hash = d.pdu_hash;
    buffer_id = id;
  }

  -- Steps 4 and 5, after the message has been kept or not.
  unfoldable pub after_insert : ℕ → ℕ → Worker → DecodedSms → S × Option (ℕ × Bool) → Worker × S
  after_insert index now w d (s, none) = (w, s)
  after_insert index now w d (s, some (id, is_duplicate)) =
      let s' = (svc.delete_sms index s).0 in
      if is_duplicate then (w, s') else (
        record w { recv_1h = w.recv_1h + 1; last_activity = now },
        svc.push (event_of w d id) s',
      )

  -- Step 3. A PDU that cannot be decoded is deleted.
  unfoldable pub after_decode : ℕ → ℕ → Worker → S → Outcome DecodedSms → Worker × S
  unfolding after_insert
  after_decode index now w s (decoded d) = after_insert index now w d (svc.insert (row_of w d) s)
  after_decode index now w s (failed err) = (w, (svc.delete_sms index s).0)
  after_decode index now w s panic = (w, s)

  unfoldable pub after_read : ℕ → ℕ → Worker → S × Option (List ℕ) → Worker × S
  unfolding after_decode
  after_read index now w (s, none) = (w, s)
  after_read index now w (s, some pdu_hex) = after_decode index now w s (decode_pdu sha256 pdu_hex)

  unfoldable pub receive_sms : ℕ → ℕ → Worker → S → Worker × S
  unfolding after_read
  receive_sms index now w s = after_read index now w (svc.read_sms index s)

  -- Indications one after another: their slots and times.
  unfoldable pub receive_all : List (ℕ × ℕ) → Worker → S → Worker × S
  receive_all [] w s = (w, s)
  receive_all ((index, now) ∷ more) w s =
      let (w', s') = receive_sms index now w s in receive_all more w' s'
