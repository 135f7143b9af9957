-- ===== src/Buffer/Serves.antt =====
-- The buffer behind a worker (Insert of internal/buffer/buffer.go, called by receiveSMS of
-- internal/modem/worker.go): with any port, it is the services that the worker uses.
use sms_gate.Prelude.{
  ◌⊎◌, ℕ, ◌≡◌, ◌≢◌, refl, inl, inr, Bool, true, Option, some, List, [], ◌∷◌, arith, Bool-cases,
}
use sms_gate.Prelude.Int.{ℤ, pos}
use sms_gate.Prelude.Text.{eq_bytes_refl}
use sms_gate.Pdu.Address.{Stamp}
use sms_gate.Pdu.Deliver.{DecodedSms, decoded, decode_pdu}
use sms_gate.Worker.{Row, Services, SmsReceivedEvent, Worker, receive_all}
use sms_gate.Worker.Laws.{Laws}
use sms_gate.Worker.NoLoss.{receive_all-Held}
use sms_gate.Buffer.{
  Buffer, has_hash, new_record, insert_or_ignore, Fault, no_fault, exec_fails, last_id_fails,
  affected_fails, insert_valid, insert, valid_iccid,
}
use sms_gate.Buffer.Rows.{has_hash-snoc}

-- The part of the services that is not the buffer: the AT serializer of a SIM, and the tunnel.
pub record Port (S : Type 0) : Type 0 where
  pub read_sms : ℕ → S → S × Option (List ℕ)
  pub delete_sms : ℕ → S → S × Bool
  pub push : SmsReceivedEvent → S → S

-- `OnSim i pdu s`: slot `i` of the SIM holds the PDU.
pub record PortLaws {S : Type 0} (port : Port S) (OnSim : ℕ → List ℕ → S → Type 0) : Type 0 where
  pub read-OnSim :
      (i j : ℕ) (pdu : List ℕ) (s : S) → OnSim j pdu s → OnSim j pdu (port.read_sms i s).0
  -- What is read of a slot is what it holds.
  pub read_right :
      (i : ℕ) (pdu got : List ℕ) (s : S)
      → OnSim i pdu s
      → (port.read_sms i s).1 ≡ some got
      → got ≡ pdu
  -- A deletion reaches one slot.
  pub delete-OnSim :
      (i j : ℕ) (pdu : List ℕ) (s : S) → i ≢ j → OnSim j pdu s → OnSim j pdu (port.delete_sms i s).0
  pub push-OnSim :
      (e : SmsReceivedEvent) (j : ℕ) (pdu : List ℕ) (s : S)
      → OnSim j pdu s
      → OnSim j pdu (port.push e s)

-- The port, the buffer, and for each insertion to come the call that fails in it and its time. When
-- none is left, none fails.
pub record World (S : Type 0) : Type 0 where
  pub port : S
  pub buffer : Buffer
  pub faults : List (Fault × ℤ)

abbrev pub next_fault : List (Fault × ℤ) → Fault × ℤ
next_fault [] = (no_fault, pos 0)
next_fault (f ∷ faults) = f

abbrev pub later_faults : List (Fault × ℤ) → List (Fault × ℤ)
later_faults [] = []
later_faults (f ∷ faults) = faults

has_hash-insert_or_ignore :
    (hash : List ℕ) (row : Row) (now : ℤ) (b : Buffer)
    → has_hash hash b.rows ≡ true
    → has_hash hash (insert_or_ignore row now b).0.rows ≡ true
unfolding insert_or_ignore
has_hash-insert_or_ignore hash row now b h = elim (Bool-cases (has_hash row.pdu_hash b.rows)) [
  | inl there ↦ rw there h
  | inr fresh ↦ rw (fresh, has_hash-snoc hash b.rows (new_record row now b), h) refl
]

has_hash-insert_valid :
    (hash : List ℕ) (fault : Fault) (row : Row) (now : ℤ) (b : Buffer)
    → has_hash hash b.rows ≡ true
    → has_hash hash (insert_valid fault row now b).0.rows ≡ true
unfolding insert_valid
has_hash-insert_valid hash no_fault row now b h = has_hash-insert_or_ignore hash row now b h
has_hash-insert_valid hash exec_fails row now b h = h
has_hash-insert_valid hash last_id_fails row now b h = has_hash-insert_or_ignore hash row now b h
has_hash-insert_valid hash affected_fails row now b h = has_hash-insert_or_ignore hash row now b h

insert_or_ignore-has_hash :
    (row : Row) (now : ℤ) (b : Buffer)
    → has_hash row.pdu_hash (insert_or_ignore row now b).0.rows ≡ true
unfolding insert_or_ignore
insert_or_ignore-has_hash row now b = elim (Bool-cases (has_hash row.pdu_hash b.rows)) [
  | inl there ↦ rw there there
  | inr fresh ↦
      rw
        (
          fresh,
          has_hash-snoc row.pdu_hash b.rows (new_record row now b),
          fresh,
          eq_bytes_refl row.pdu_hash,
        )
        refl
]

insert_valid-has_hash :
    (fault : Fault) (row : Row) (now : ℤ) (b : Buffer) (result : ℕ × Bool)
    → (insert_valid fault row now b).1 ≡ some result
    → has_hash row.pdu_hash (insert_valid fault row now b).0.rows ≡ true
unfolding insert_valid
insert_valid-has_hash no_fault row now b result e = insert_or_ignore-has_hash row now b
insert_valid-has_hash exec_fails row now b result e = absurd (ground arith)
insert_valid-has_hash last_id_fails row now b result e = absurd (ground arith)
insert_valid-has_hash affected_fails row now b result e = absurd (ground arith)

pub has_hash-insert :
    (hash : List ℕ) (fault : Fault) (row : Row) (now : ℤ) (b : Buffer)
    → has_hash hash b.rows ≡ true
    → has_hash hash (insert fault row now b).0.rows ≡ true
unfolding insert
has_hash-insert hash fault row now b h = elim (Bool-cases (valid_iccid row.iccid)) [
  | inl valid ↦ rw valid (has_hash-insert_valid hash fault row now b h)
  | inr bad ↦ rw bad h
]

-- What Insert reports as there is there.
pub insert-has_hash :
    (fault : Fault) (row : Row) (now : ℤ) (b : Buffer) (result : ℕ × Bool)
    → (insert fault row now b).1 ≡ some result
    → has_hash row.pdu_hash (insert fault row now b).0.rows ≡ true
unfolding insert
insert-has_hash fault row now b result e = elim (Bool-cases (valid_iccid row.iccid)) [
  | inl valid ↦ rw valid (insert_valid-has_hash fault row now b result (rw valid at e))
  | inr bad ↦ absurd (ground (arith, rw bad at e))
]

module _ {S : Type 0} (port : Port S) where
  -- The worker's services.
  abbrev pub services_of : Services (World S)
  services_of = record {
    read_sms = λ i w. let (s, pdu) = port.read_sms i w.port in (record w { port = s }, pdu);
    delete_sms = λ i w. let (s, done) = port.delete_sms i w.port in (record w { port = s }, done);
    insert = λ row w.
        let (fault, now) = next_fault w.faults in
        let (b, result) = insert fault row now w.buffer in
        (record w { buffer = b; faults = later_faults w.faults }, result);
    push = λ e w. record w { port = port.push e w.port };
  }

  module _ (OnSim : ℕ → List ℕ → S → Type 0) (laws : PortLaws port OnSim) where
    abbrev pub InSlot : ℕ → List ℕ → World S → Type 0
    InSlot i pdu w = OnSim i pdu w.port

    abbrev pub InTable : List ℕ → World S → Type 0
    InTable hash w = has_hash hash w.buffer.rows ≡ true

    pub services_of-Laws : Laws services_of InSlot InTable
    services_of-Laws = record {
      read-OnSim = λ i j pdu w h. laws.read-OnSim i j pdu w.port h;
      read-Stored = λ i hash w h. h;
      read_right = λ i pdu got w h e. laws.read_right i pdu got w.port h e;
      delete-OnSim = λ i j pdu w ne h. laws.delete-OnSim i j pdu w.port ne h;
      delete-Stored = λ i hash w h. h;
      insert-OnSim = λ row j pdu w h. h;
      insert-Stored = λ row hash w h.
          has_hash-insert hash (next_fault w.faults).0 row (next_fault w.faults).1 w.buffer h;
      insert_right = λ row w result e.
          insert-has_hash (next_fault w.faults).0 row (next_fault w.faults).1 w.buffer result e;
      push-OnSim = λ e j pdu w h. laws.push-OnSim e j pdu w.port h;
      push-Stored = λ e hash w h. h;
    }

    -- Whatever indications arrive, and whichever reads, deletions and calls of the database fail: a
    -- message that can be decoded and was on the SIM is still there, or the table has a row with its hash.
    -- This rests on `PortLaws` alone, which speak of the modem.
    pub receive_all-kept :
        (sha256 : List ℕ → List ℕ) (unix_milli : Stamp → ℤ) (more : List (ℕ × ℕ)) (j : ℕ)
        (w : Worker) (d : DecodedSms) (pdu : List ℕ) (world : World S)
        → decode_pdu sha256 pdu ≡ decoded d
        → InSlot j pdu world
        → let world' = (receive_all services_of sha256 unix_milli more w world).1 in
          InSlot j pdu world' ⊎ InTable d.pdu_hash world'
    receive_all-kept sha256 unix_milli more j w d pdu world dec h =
        receive_all-Held services_of sha256 unix_milli InSlot InTable services_of-Laws more j w d
          pdu world dec (inl h)
