-- ===== src/Serializer/Tests.antt =====
-- Runs of the serializer, and the theorems at concrete inputs.
use sms_gate.Serializer.Commands.{delete_sms}
use sms_gate.Prelude.{ℕ, none, ◌≡◌, refl, true, some, List, [], ◌∷◌, ◌++◌, arith}
use sms_gate.Prelude.Int.{pos, negsuc}
use sms_gate.Prelude.Text.{codes, eq_bytes}
use sms_gate.Prelude.Strings.{
  itoa, has_prefix, scan_int, trim_prefix, trim_space, without, split, atoi,
}
use sms_gate.Serializer.{
  Result, ok, Line, Line, unreadable, new_serializer, arrive, receive_line, timer_fires, Action,
  execute, ok, err, send_prompt, trim_cr, is_urc,
}
use sms_gate.Serializer.Responses.{
  parse_csq, parse_creg, read_iccid, registration_status, storage_status, read_sms,
}
use sms_gate.Serializer.Send.{execute_send, command_text, pdu_text}
use sms_gate.Serializer.Delivery.{responses, Ends, execute-Ends}
use sms_gate.Serializer.Prompted.{Sends, execute_send-Sends}

-- An unsolicited line comes between those of a response.
abbrev csq_events : List Action
csq_events =
    arrive (codes "+CSQ: 18,0" ++ 13 ∷ [])
    ∷ arrive (codes "+CMTI: 5")
    ∷ receive_line
    ∷ arrive (codes "OK")
    ∷ receive_line
    ∷ []

csq_result : (execute true csq_events new_serializer).1 ≡ some (ok (codes "+CSQ: 18,0" ∷ []))
unfolding execute has_prefix eq_bytes
csq_result = refl

execute-Ends_example : Ends (responses csq_events) (execute true csq_events new_serializer).1
unfolding responses trim_cr is_urc has_prefix
execute-Ends_example = execute-Ends true csq_events new_serializer (omega arith)

abbrev send_events : List Action
send_events =
    arrive (codes "> ")
    ∷ receive_line
    ∷ arrive (codes "+CMGS: 7")
    ∷ receive_line
    ∷ arrive (codes "OK")
    ∷ receive_line
    ∷ []

send_result :
    (execute_send true true (codes "0001") 18 send_events new_serializer).1
    ≡ (command_text 18 ∷ pdu_text (codes "0001") ∷ [], some (ok (pos 7)))
unfolding execute_send has_prefix scan_int trim_prefix eq_bytes
send_result = refl

no_prompt :
    (execute_send true true (codes "0001") 18 (timer_fires ∷ []) new_serializer).1
    ≡ (command_text 18 ∷ [], some (err send_prompt))
unfolding execute_send
no_prompt = refl

execute_send-Sends_example :
    Sends
      (command_text 18)
      (pdu_text (codes "0001"))
      (responses send_events)
      (execute_send true true (codes "0001") 18 send_events new_serializer).1
unfolding responses trim_cr is_urc has_prefix
execute_send-Sends_example =
    execute_send-Sends true true (codes "0001") 18 send_events new_serializer (omega arith)

strength : parse_csq (codes "+CSQ: 18,0") ≡ ok (negsuc 76)
unfolding parse_csq has_prefix trim_space scan_int trim_prefix
strength = refl

abbrev registration : List Line
registration = codes "+CREG: 3" ∷ codes "+CMTI: SM,4" ∷ codes "OK" ∷ []

-- A rejection code of the modem is not in range.
no_strength : parse_csq (codes "+CSQ: 45,99") ≡ err unreadable
unfolding parse_csq has_prefix trim_space scan_int trim_prefix
no_strength = refl

iccid_second :
    read_iccid (err send_prompt ∷ ok (codes "+ICCID: 8949020000012345678f" ∷ []) ∷ [])
    ≡ ok (codes "8949020000012345678F")
unfolding read_iccid trim_space trim_prefix without
iccid_second = refl

registered : registration_status (ok (codes "+CREG: 0,5" ∷ [])) ≡ ok (pos 5)
unfolding registration_status has_prefix split trim_prefix atoi trim_space
registered = refl

-- The unsolicited form with a cell has the location code in second place.
creg_with_cell : parse_creg (codes "+CREG: 3,00A1,0B") ≡ pos 0
unfolding parse_creg atoi split trim_space trim_prefix
creg_with_cell = refl

storage : storage_status (ok (codes "+CPMS: SM,3,30" ∷ [])) ≡ ok (pos 3, pos 30)
unfolding storage_status has_prefix split trim_prefix atoi trim_space
storage = refl

long_pdu : read_sms (ok (codes "+CMGR: 0,,24" ∷ codes "07" ∷ codes "91 " ∷ [])) ≡ ok (codes "0791")
unfolding read_sms has_prefix trim_space
long_pdu = refl

-- An Execute that records the commands and answers OK.
abbrev recorded : Line → ℕ → List Line → List Line × Result (List Line)
recorded cmd timeout sent = (sent ++ cmd ∷ [], ok [])

deletes_twelve : delete_sms recorded 12 [] ≡ (codes "AT+CMGD=12" ∷ [], none)
unfolding delete_sms itoa
deletes_twelve = refl
