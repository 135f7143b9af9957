-- ===== src/Dedup/Tests.antt =====
-- Runs of the duplicate detector over a stand-in for the hash, and the theorems at concrete inputs.
use sms_gate.Prelude.{ℕ, ◌≡◌, refl, true, false, List, [], ◌∷◌, arith}
use sms_gate.Prelude.Int.{pos}
use sms_gate.Prelude.Text.{codes}
use sms_gate.Prelude.Text.{eq_bytes, encode_hex}
use sms_gate.Dedup.{new, is_duplicate, Message, handle, run}
use sms_gate.Dedup.Window.{is_duplicate-run}

-- Any function may stand for SHA-256.
abbrev id_hash : List ℕ → List ℕ
id_hash xs = xs

abbrev message : ℕ → Message
message n = record { iccid = codes "1"; to = codes "2"; body = codes "hi"; now = n }

abbrev other : ℕ → Message
other n = record { iccid = codes "1"; to = codes "3"; body = codes "hi"; now = n }

first_fresh : (handle id_hash (message 10) (new (pos 3) 60)).1 ≡ false
unfolding is_duplicate new
first_fresh = refl

second_found :
    (handle id_hash (message 60) (run id_hash (message 10 ∷ other 20 ∷ []) (new (pos 3) 60))).1
    ≡ true
unfolding is_duplicate new run eq_bytes encode_hex
second_found = refl

window_over :
    (handle id_hash (message 70) (run id_hash (message 10 ∷ other 20 ∷ []) (new (pos 3) 60))).1
    ≡ false
unfolding is_duplicate new run eq_bytes encode_hex
window_over = refl

is_duplicate-run_example :
    (handle id_hash
      (message 60)
      (run id_hash (other 20 ∷ other 30 ∷ []) (handle id_hash (message 10) (new (pos 3) 60)).0)).1
    ≡ true
unfolding new
is_duplicate-run_example =
    is_duplicate-run id_hash (message 10) (other 20 ∷ other 30 ∷ []) 60 (new (pos 3) 60) first_fresh
      (omega arith) (omega arith)
