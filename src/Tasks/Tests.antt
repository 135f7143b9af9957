-- ===== src/Tasks/Tests.antt =====
-- Runs of doSendSMS, and the theorem at a concrete input.
use sms_gate.Prelude.{◌≡◌, refl, true, false, some, []}
use sms_gate.Prelude.Text.{codes}
use sms_gate.Prelude.Dict.{lookup}
use sms_gate.SimLimit.{allow_iccid}
use sms_gate.Pdu.Alphabet.{encode_gsm7_text, encode_rune, rune_to_gsm7, code_of}
use sms_gate.Pdu.Submit.{encode_pdu, encode_as, encode_gsm7_pdus, encode_parts}
use sms_gate.Tasks.{success, failed, send_failed, SendPayload, Sender, valid_e164, do_send_sms}
use sms_gate.Tasks.Sending.{Sent, do_send_sms-Sent}

abbrev hi : SendPayload
hi = record { iccid = "89"; to = codes "+4917012345"; body = codes "hi"; encoding = "GSM7" }

abbrev idle : Sender
idle = record { limiter = []; sent_1h = 0; given = [] }

short_number : valid_e164 (codes "+491701") ≡ false
unfolding valid_e164
short_number = refl

hi_sent : (do_send_sms (λ part. true) "89" 7 (some hi) idle).1 ≡ success 1
unfolding do_send_sms allow_iccid lookup encode_pdu encode_as encode_gsm7_pdus encode_parts
    encode_gsm7_text encode_rune rune_to_gsm7 code_of
hi_sent = refl

hi_lost : (do_send_sms (λ part. false) "89" 7 (some hi) idle).1 ≡ failed send_failed
unfolding do_send_sms allow_iccid lookup encode_pdu encode_as encode_gsm7_pdus encode_parts
    encode_gsm7_text encode_rune rune_to_gsm7 code_of
hi_lost = refl

do_send_sms-Sent_example :
    Sent (λ part. true) "89" 7 (some hi) idle 1 (do_send_sms (λ part. true) "89" 7 (some hi) idle).0
do_send_sms-Sent_example = do_send_sms-Sent (λ part. true) "89" 7 (some hi) idle 1 hi_sent
