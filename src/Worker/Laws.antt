-- ===== src/Worker/Laws.antt =====
-- What the worker relies on of the modem and of the buffer.
use sms_gate.Prelude.{ℕ, ◌≡◌, ◌≢◌, Bool, some, List}
use sms_gate.Worker.{Services, Row, SmsReceivedEvent}

-- `OnSim i pdu s`: slot `i` of the SIM holds the PDU. `Stored hash s`: a row of the buffer has the hash.
pub record Laws {S : Type 0} (svc : Services S) (OnSim : ℕ → List ℕ → S → Type 0)
    (Stored : List ℕ → S → Type 0) : Type 0 where
  pub read-OnSim :
      (i j : ℕ) (pdu : List ℕ) (s : S) → OnSim j pdu s → OnSim j pdu (svc.read_sms i s).0
  pub read-Stored :
      (i : ℕ) (hash : List ℕ) (s : S) → Stored hash s → Stored hash (svc.read_sms i s).0
  -- What is read of a slot is what it holds.
  pub read_right :
      (i : ℕ) (pdu got : List ℕ) (s : S)
      → OnSim i pdu s
      → (svc.read_sms i s).1 ≡ some got
      → got ≡ pdu
  -- A deletion reaches one slot.
  pub delete-OnSim :
      (i j : ℕ) (pdu : List ℕ) (s : S) → i ≢ j → OnSim j pdu s → OnSim j pdu (svc.delete_sms i s).0
  pub delete-Stored :
      (i : ℕ) (hash : List ℕ) (s : S) → Stored hash s → Stored hash (svc.delete_sms i s).0
  pub insert-OnSim :
      (row : Row) (j : ℕ) (pdu : List ℕ) (s : S) → OnSim j pdu s → OnSim j pdu (svc.insert row s).0
  pub insert-Stored :
      (row : Row) (hash : List ℕ) (s : S) → Stored hash s → Stored hash (svc.insert row s).0
  -- A row that was inserted, or found to be there, is there.
  pub insert_right :
      (row : Row) (s : S) (result : ℕ × Bool)
      → (svc.insert row s).1 ≡ some result
      → Stored row.pdu_hash (svc.insert row s).0
  pub push-OnSim :
      (e : SmsReceivedEvent) (j : ℕ) (pdu : List ℕ) (s : S)
      → OnSim j pdu s
      → OnSim j pdu (svc.push e s)
  pub push-Stored :
      (e : SmsReceivedEvent) (hash : List ℕ) (s : S) → Stored hash s → Stored hash (svc.push e s)
