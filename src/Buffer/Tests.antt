-- ===== src/Buffer/Tests.antt =====
-- Runs of the buffer, a SIM in memory, and the theorems at concrete inputs.
use sms_gate.Prelude.{
  ℕ, ◌≡◌, ◌⊎◌, refl, true, false, Option, none, some, List, [], ◌∷◌, ◌==◌, arith, if◌then◌else◌,
}
use sms_gate.Prelude.Int.{ℤ, pos}
use sms_gate.Prelude.Text.{codes, eq_bytes, encode_hex}
use sms_gate.Pdu.Submit.{to_upper}
use sms_gate.Pdu.Deliver.{decoded, decode_pdu}
use sms_gate.Pdu.Address.{Stamp, decode_scts, decode_bcd_address, nibble_at, dcs_encoding}
use sms_gate.Pdu.Septets.{unpack_gsm7}
use sms_gate.Pdu.Address.Indexed.{decode_smsc}
use sms_gate.Pdu.Alphabet.{decode_gsm7_text, extension_rune, rune_of}
use sms_gate.Pdu.Deliver.{DecodedSms}
use sms_gate.Worker.{Row, Worker, receive_all}
use sms_gate.Buffer.{
  empty, no_fault, exec_fails, last_id_fails, insert, valid_iccid, pending_rows, pending_count, run,
  Op, inserts, marks, purges, open_error, newer,
}
use sms_gate.Buffer.Rows.{IsTable, Between, Unique}
use sms_gate.Buffer.Order.{Selects, pending_rows-Selects}
use sms_gate.Buffer.Keeps.{Waits, pending_rows-insert, leaves}
use sms_gate.Buffer.Serves.{Port, PortLaws, World, services_of, InSlot, InTable, receive_all-kept}

abbrev iccid : List ℕ
iccid = codes "8949020000012345678"

abbrev message : ℕ → Row
message n = record {
  iccid = iccid;
  sender = codes "+491";
  body = codes "hi";
  pdu_hash = n ∷ [];
  smsc = [];
  received_at = pos 0;
}

padded_iccid : valid_iccid (codes "8949020000012345678F") ≡ false
unfolding valid_iccid
padded_iccid = refl

empty-IsTable : IsTable empty
unfolding Between Unique
empty-IsTable = record { ascending = omega arith; unique = tt }

-- The third insertion meets the first message's hash, the fourth fails late.
abbrev some_ops : List Op
some_ops =
    inserts no_fault (message 1) (pos 10)
    ∷ inserts no_fault (message 2) (pos 20)
    ∷ inserts no_fault (message 1) (pos 30)
    ∷ inserts last_id_fails (message 3) (pos 40)
    ∷ marks true 1 (pos 50)
    ∷ purges true true (pos 15)
    ∷ []

waiting : pending_count (run some_ops empty) ≡ 2
unfolding pending_count run eq_bytes
waiting = refl

pending_rows-Selects_example :
    Selects (run some_ops empty).rows (pending_rows (run some_ops empty))
    × Between 0 (pending_rows (run some_ops empty)) (run some_ops empty).last_id
pending_rows-Selects_example = pending_rows-Selects some_ops empty empty-IsTable

pending_rows-insert_example : Waits 1 (message 7) (
    pending_rows (
      run
        (inserts no_fault (message 7) (pos 5)
          ∷ marks true 2 (pos 6)
          ∷ purges true true (pos 90)
          ∷ [])
        empty))
unfolding insert leaves
pending_rows-insert_example =
    pending_rows-insert no_fault (message 7) (pos 5) empty 1
      (marks true 2 (pos 6) ∷ purges true true (pos 90) ∷ []) empty-IsTable refl (refl, (refl, tt))

too_new : open_error true true (some (pos 2)) true ≡ some (newer (pos 2))
unfolding open_error
too_new = refl

unstamped : open_error true true (some (pos 0)) true ≡ none
unfolding open_error
unstamped = refl

-- A SIM: what its slots hold. Reading and deleting do not fail.
abbrev Sim : Type 0
Sim = ℕ → Option (List ℕ)

abbrev sim_port : Port Sim
sim_port = record {
  read_sms = λ i sim. (sim, sim i);
  delete_sms = λ i sim. ((λ j. if i == j then none else sim j), true);
  push = λ e sim. sim;
}

abbrev OnSim : ℕ → List ℕ → Sim → Type 0
OnSim i pdu sim = sim i ≡ some pdu

sim_port-PortLaws : PortLaws sim_port OnSim
sim_port-PortLaws = record {
  read-OnSim = λ i j pdu sim h. h;
  read_right = λ i pdu got sim h e. cc;
  delete-OnSim = λ i j pdu sim ne h. let other : (i == j) ≡ false = ground arith in rw other h;
  push-OnSim = λ e j pdu sim h. h;
}

abbrev hi : List ℕ
hi = codes "0004039194F100006211116221520402E834"

abbrev no_hash : List ℕ → List ℕ
no_hash s = []

abbrev milli : Stamp → ℤ
milli t = pos 0

abbrev hi_decoded : DecodedSms
hi_decoded = record {
  smsc = [];
  sender = codes "+491";
  body = codes "hi";
  timestamp = decode_scts (0x62 ∷ 0x11 ∷ 0x11 ∷ 0x62 ∷ 0x21 ∷ 0x52 ∷ 0x04 ∷ []);
  pdu_hash = codes "sha256:";
}

hi_decodes : decode_pdu no_hash hi ≡ decoded hi_decoded
unfolding decode_pdu to_upper decode_smsc decode_bcd_address nibble_at unpack_gsm7 decode_gsm7_text
    extension_rune rune_of dcs_encoding decode_scts encode_hex
hi_decodes = refl

abbrev worker : Worker
worker = record { gateway_id = codes "gw"; iccid = iccid; recv_1h = 0; last_activity = 0 }

-- The first insertion fails, the second does not.
abbrev world : World Sim
world = record {
  port = λ i. if i == 3 then some hi else none;
  buffer = empty;
  faults = (exec_fails, pos 1) ∷ [];
}

receive_all-kept_example :
    let world' =
      (receive_all
        (services_of sim_port)
        no_hash
        milli
        ((3, 100) ∷ (3, 200) ∷ [])
        worker
        world).1 in
    InSlot sim_port OnSim sim_port-PortLaws 3 hi world'
    ⊎ InTable sim_port OnSim sim_port-PortLaws (codes "sha256:") world'
receive_all-kept_example =
    receive_all-kept sim_port OnSim sim_port-PortLaws no_hash milli ((3, 100) ∷ (3, 200) ∷ []) 3
      worker hi_decoded hi world hi_decodes refl
