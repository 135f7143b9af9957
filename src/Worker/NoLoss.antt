-- ===== src/Worker/NoLoss.antt =====
-- Safe deletion.
use sms_gate.Prelude.{
  ℕ, ◌≡◌, ◌≢◌, refl, ◌⊎◌, inl, inr, Bool, true, false, Option, none, some, List, [], ◌∷◌, ◌==◌,
  arith, Bool-cases,
}
use sms_gate.Prelude.Int.{ℤ}
use sms_gate.Pdu.Address.{Stamp}
use sms_gate.Pdu.Deliver.{DecodedSms, Outcome, decoded, failed, panic, decode_pdu}
use sms_gate.Worker.{
  Services, Worker, row_of, after_insert, after_decode, after_read, receive_sms, receive_all,
}
use sms_gate.Worker.Laws.{Laws}

module _ {S : Type 0} (svc : Services S) (sha256 : List ℕ → List ℕ) (unix_milli : Stamp → ℤ)
    (OnSim : ℕ → List ℕ → S → Type 0) (Stored : List ℕ → S → Type 0)
    (laws : Laws svc OnSim Stored) where
  after_insert-Stored :
      (i now : ℕ) (w : Worker) (d : DecodedSms) (hash : List ℕ) (r : S × Option (ℕ × Bool))
      → Stored hash r.0
      → Stored hash (after_insert svc sha256 unix_milli i now w d r).1
  unfolding after_insert
  after_insert-Stored i now w d hash (s, none) h = h
  after_insert-Stored i now w d hash (s, some (id, true)) h = laws.delete-Stored i hash s h
  after_insert-Stored i now w d hash (s, some (id, false)) h =
      laws.push-Stored _ hash _ (laws.delete-Stored i hash s h)

  after_decode-Stored :
      (i now : ℕ) (w : Worker) (hash : List ℕ) (s : S) (o : Outcome DecodedSms)
      → Stored hash s
      → Stored hash (after_decode svc sha256 unix_milli i now w s o).1
  unfolding after_decode
  after_decode-Stored i now w hash s (decoded d) h =
      after_insert-Stored i now w d hash _ (laws.insert-Stored _ hash s h)
  after_decode-Stored i now w hash s (failed err) h = laws.delete-Stored i hash s h
  after_decode-Stored i now w hash s panic h = h

  after_read-Stored :
      (i now : ℕ) (w : Worker) (hash : List ℕ) (r : S × Option (List ℕ))
      → Stored hash r.0
      → Stored hash (after_read svc sha256 unix_milli i now w r).1
  unfolding after_read
  after_read-Stored i now w hash (s, none) h = h
  after_read-Stored i now w hash (s, some pdu) h = after_decode-Stored i now w hash s _ h

  -- Another slot is left alone.
  after_insert-OnSim :
      (i j now : ℕ) (w : Worker) (d : DecodedSms) (pdu : List ℕ) (r : S × Option (ℕ × Bool))
      → i ≢ j
      → OnSim j pdu r.0
      → OnSim j pdu (after_insert svc sha256 unix_milli i now w d r).1
  unfolding after_insert
  after_insert-OnSim i j now w d pdu (s, none) ne h = h
  after_insert-OnSim i j now w d pdu (s, some (id, true)) ne h = laws.delete-OnSim i j pdu s ne h
  after_insert-OnSim i j now w d pdu (s, some (id, false)) ne h =
      laws.push-OnSim _ j pdu _ (laws.delete-OnSim i j pdu s ne h)

  after_decode-OnSim :
      (i j now : ℕ) (w : Worker) (pdu : List ℕ) (s : S) (o : Outcome DecodedSms)
      → i ≢ j
      → OnSim j pdu s
      → OnSim j pdu (after_decode svc sha256 unix_milli i now w s o).1
  unfolding after_decode
  after_decode-OnSim i j now w pdu s (decoded d) ne h =
      after_insert-OnSim i j now w d pdu _ ne (laws.insert-OnSim _ j pdu s h)
  after_decode-OnSim i j now w pdu s (failed err) ne h = laws.delete-OnSim i j pdu s ne h
  after_decode-OnSim i j now w pdu s panic ne h = h

  after_read-OnSim :
      (i j now : ℕ) (w : Worker) (pdu : List ℕ) (r : S × Option (List ℕ))
      → i ≢ j
      → OnSim j pdu r.0
      → OnSim j pdu (after_read svc sha256 unix_milli i now w r).1
  unfolding after_read
  after_read-OnSim i j now w pdu (s, none) ne h = h
  after_read-OnSim i j now w pdu (s, some got) ne h = after_decode-OnSim i j now w pdu s _ ne h

  -- The message is on the SIM or in the buffer.
  abbrev pub Held : ℕ → List ℕ → List ℕ → S → Type 0
  Held i pdu hash s = OnSim i pdu s ⊎ Stored hash s

  after_insert-Held :
      (i now : ℕ) (w : Worker) (d : DecodedSms) (pdu : List ℕ) (s : S) (result : Option (ℕ × Bool))
      → OnSim i pdu s
      → ((found : ℕ × Bool) → result ≡ some found → Stored d.pdu_hash s)
      → Held i pdu d.pdu_hash (after_insert svc sha256 unix_milli i now w d (s, result)).1
  unfolding after_insert
  after_insert-Held i now w d pdu s none h kept = inl h
  after_insert-Held i now w d pdu s (some found) h kept =
      inr (after_insert-Stored i now w d d.pdu_hash (s, some found) (kept found refl))

  after_decode-Held :
      (i now : ℕ) (w : Worker) (d : DecodedSms) (pdu : List ℕ) (s : S)
      → OnSim i pdu s
      → Held i pdu d.pdu_hash (after_decode svc sha256 unix_milli i now w s (decoded d)).1
  unfolding after_decode
  after_decode-Held i now w d pdu s h =
      after_insert-Held i now w d pdu (svc.insert (row_of svc sha256 unix_milli w d) s).0
        (svc.insert (row_of svc sha256 unix_milli w d) s).1 (laws.insert-OnSim _ i pdu s h)
        (λ found e. laws.insert_right _ s found e)

  after_read-Held :
      (i now : ℕ) (w : Worker) (d : DecodedSms) (pdu : List ℕ) (s : S) (result : Option (List ℕ))
      → decode_pdu sha256 pdu ≡ decoded d
      → ((got : List ℕ) → result ≡ some got → got ≡ pdu)
      → OnSim i pdu s
      → Held i pdu d.pdu_hash (after_read svc sha256 unix_milli i now w (s, result)).1
  unfolding after_read
  after_read-Held i now w d pdu s none dec right h = inl h
  after_read-Held i now w d pdu s (some got) dec right h =
      rw (right got refl, dec) (after_decode-Held i now w d pdu s h)

  receive_sms-Held :
      (i j now : ℕ) (w : Worker) (d : DecodedSms) (pdu : List ℕ) (s : S)
      → decode_pdu sha256 pdu ≡ decoded d
      → Held j pdu d.pdu_hash s
      → Held j pdu d.pdu_hash (receive_sms svc sha256 unix_milli i now w s).1
  unfolding receive_sms
  receive_sms-Held i j now w d pdu s dec (inr stored) =
      inr (after_read-Stored i now w d.pdu_hash _ (laws.read-Stored i d.pdu_hash s stored))
  receive_sms-Held i j now w d pdu s dec (inl h) = elim (Bool-cases (i == j)) [
    | inl same ↦
        let e : i ≡ j = ground arith in
        rw e (
          after_read-Held j now w d pdu (svc.read_sms j s).0 (svc.read_sms j s).1 dec
            (λ got f. laws.read_right j pdu got s h f) (laws.read-OnSim j j pdu s h))
    | inr other ↦
        let ne : i ≢ j = ground arith in
        inl (after_read-OnSim i j now w pdu _ ne (laws.read-OnSim i j pdu s h))
  ]

  -- Whatever indications arrive, and whichever of the reads, insertions and deletions fail: a message
  -- that can be decoded and was on the SIM is still there, or a row with its hash is in the buffer. This
  -- rests on what `Laws` says of the modem and the buffer.
  pub receive_all-Held :
      (more : List (ℕ × ℕ)) (j : ℕ) (w : Worker) (d : DecodedSms) (pdu : List ℕ) (s : S)
      → decode_pdu sha256 pdu ≡ decoded d
      → Held j pdu d.pdu_hash s
      → Held j pdu d.pdu_hash (receive_all svc sha256 unix_milli more w s).1
  unfolding receive_all
  receive_all-Held [] j w d pdu s dec h = h
  receive_all-Held ((i, now) ∷ more) j w d pdu s dec h =
      receive_all-Held more j (receive_sms svc sha256 unix_milli i now w s).0 d pdu _ dec
        (receive_sms-Held i j now w d pdu s dec h)
