-- ===== src/Worker/Tests.antt =====
-- A modem and a buffer that hold what they are given, runs of the worker with them, and the theorem at
-- a concrete input.
use sms_gate.Prelude.{
  ℕ, ◌≡◌, ◌≢◌, refl, inl, inr, Bool, true, false, ◌||◌, Option, none, some, List, [], ◌∷◌, ◌++◌,
  ◌==◌, leb, length, arith, Bool-cases, if◌then◌else◌,
}
use sms_gate.Prelude.Int.{ℤ, pos}
use sms_gate.Prelude.Text.{codes, eq_bytes, eq_bytes_refl, encode_hex}
use sms_gate.Pdu.Septets.{unpack_gsm7}
use sms_gate.Pdu.Address.Indexed.{decode_smsc}
use sms_gate.Pdu.Alphabet.{decode_gsm7_text, extension_rune, rune_of}
use sms_gate.Pdu.Address.{Stamp, decode_scts, decode_bcd_address, nibble_at, dcs_encoding}
use sms_gate.Pdu.Submit.{to_upper}
use sms_gate.Pdu.Deliver.{DecodedSms, decoded, decode_pdu}
use sms_gate.Worker.{Services, Worker, SmsReceivedEvent, receive_all}
use sms_gate.Worker.Laws.{Laws}
use sms_gate.Worker.NoLoss.{Held, receive_all-Held}

record Store : Type 0 where
  sim : ℕ → Option (List ℕ)
  rows : List (List ℕ)
  pushed : List SmsReceivedEvent

abbrev has : List ℕ → List (List ℕ) → Bool
has hash [] = false
has hash (row ∷ rows) = eq_bytes row hash || has hash rows

-- The buffer takes two rows, and slot 9 cannot be deleted.
abbrev services : Services Store
services = record {
  read_sms = λ i s. (s, s.sim i);
  delete_sms = λ i s.
      if i == 9
      then (s, false)
      else (record s { sim = λ j. if i == j then none else s.sim j }, true);
  insert = λ row s.
      if has row.pdu_hash s.rows
      then (s, some (0, true))
      else (if leb 2 (length s.rows)
          then (s, none)
          else (record s { rows = row.pdu_hash ∷ s.rows }, some (length s.rows, false)));
  push = λ e s. record s { pushed = s.pushed ++ e ∷ [] };
}

abbrev OnSim : ℕ → List ℕ → Store → Type 0
OnSim j pdu s = s.sim j ≡ some pdu

abbrev Stored : List ℕ → Store → Type 0
Stored hash s = has hash s.rows ≡ true

delete-sim :
    (i j : ℕ) (pdu : List ℕ) (s : Store)
    → i ≢ j
    → OnSim j pdu s
    → OnSim j pdu (services.delete_sms i s).0
delete-sim i j pdu s ne h =
    let other : (i == j) ≡ false = ground arith in
    elim (Bool-cases (i == 9)) [ inl stuck ↦ rw stuck h | inr gone ↦ rw (gone, other) h ]

services-Laws : Laws services OnSim Stored
services-Laws = record {
  read-OnSim = λ i j pdu s h. h;
  read-Stored = λ i hash s h. h;
  read_right = λ i pdu got s h e. cc;
  delete-OnSim = λ i j pdu s ne h. delete-sim i j pdu s ne h;
  delete-Stored = λ i hash s h. ground arith;
  insert-OnSim = λ row j pdu s h. ground arith;
  insert-Stored = λ row hash s h. ground arith;
  insert_right = λ row s result e. ground (arith, eq_bytes_refl row.pdu_hash);
  push-OnSim = λ e j pdu s h. h;
  push-Stored = λ e hash s h. h;
}

-- From +491, at noon: "hi".
abbrev hi : List ℕ
hi = codes "0004039194F100006211116221520402E834"

abbrev no_hash : List ℕ → List ℕ
no_hash s = []

abbrev hi_decoded : DecodedSms
hi_decoded = record {
  smsc = [];
  sender = codes "+491";
  body = codes "hi";
  timestamp = decode_scts (0x62 ∷ 0x11 ∷ 0x11 ∷ 0x62 ∷ 0x21 ∷ 0x52 ∷ 0x04 ∷ []);
  pdu_hash = codes "sha256:";
}

hi_decodes : decode_pdu no_hash hi ≡ decoded hi_decoded
unfolding decode_pdu to_upper decode_smsc decode_bcd_address nibble_at unpack_gsm7 decode_gsm7_text
    extension_rune rune_of dcs_encoding decode_scts encode_hex
hi_decodes = refl

abbrev worker : Worker
worker = record { gateway_id = codes "gw"; iccid = codes "89"; recv_1h = 0; last_activity = 0 }

abbrev start : Store
start = record {
  sim = λ i. if i == 3 then some hi else (if i == 9 then some (codes "0") else none);
  rows = [];
  pushed = [];
}

abbrev milli : Stamp → ℤ
milli t = pos 0

receive_all-Held_example :
    Held services no_hash milli OnSim Stored services-Laws 3 hi
      (codes "sha256:")
      (receive_all services no_hash milli ((9, 50) ∷ (3, 100) ∷ (3, 200) ∷ []) worker start).1
receive_all-Held_example =
    receive_all-Held services no_hash milli OnSim Stored services-Laws
      ((9, 50) ∷ (3, 100) ∷ (3, 200) ∷ []) 3 worker hi_decoded hi start hi_decodes (inl refl)
