-- ===== src/Serializer/Send.antt =====
-- ExecuteSend of internal/at/serializer.go: the command, the prompt, the PDU, the reference. The caller is
-- in one of two loops; each waits for one timer.
use sms_gate.Prelude.{ℕ, Bool, ◌||◌, Option, none, some, List, [], ◌∷◌, ◌++◌, if◌then◌else◌}
use sms_gate.Prelude.Int.{ℤ, pos}
use sms_gate.Prelude.Text.{codes, eq_bytes}
use sms_gate.Prelude.Strings.{has_prefix, trim_prefix, scan_int, itoa}
use sms_gate.Serializer.{
  Line, Serializer, AtError, at_error, timed_out, serializer_closed, write_failed, send_prompt,
  rejected, unreadable, Result, ok, err, is_error, Action, arrive, receive_line, timer_fires,
  sees_closed, reader_stops, read_line, reader_ends, close,
}

-- The loop that the caller is in: for the prompt, or for the answer with the reference so far.
pub data Stage : Type 0 where
  prompting : Stage
  answering : ℤ → Stage

-- What the caller has written to the port, in order, and its loop.
pub record Sending : Type 0 where
  pub written : List Line
  pub stage : Stage

pub data Step : Type 0 where
  goes : Sending → Step
  ends : List Line → Result ℤ → Step

abbrev pub command_text : ℕ → Line
command_text size = codes "AT+CMGS=" ++ (itoa size ++ 13 ∷ 10 ∷ [])

abbrev pub pdu_text : Line → Line
pdu_text pdu = pdu ++ 26 ∷ []

-- The second write.
unfoldable pub write_pdu : Bool → Line → List Line → Step
write_pdu write_ok pdu written =
    let written' = written ++ pdu_text pdu ∷ [] in
    if write_ok
    then goes (record { written = written'; stage = answering (pos 0) })
    else ends written' (err write_failed)

unfoldable pub prompt_line : Bool → Line → Line → List Line → Step
unfolding write_pdu
prompt_line write_ok pdu line written =
    if has_prefix (codes ">") line
    then write_pdu write_ok pdu written
    else (if eq_bytes line (codes "ERROR") || has_prefix (codes "+CME") line
        then ends written (err (rejected line))
        else goes (record { written = written; stage = prompting }))

abbrev pub reference_step : List Line → Option (ℤ × List ℕ) → Step
reference_step written none = ends written (err unreadable)
reference_step written (some (mr, rest)) = goes (record { written = written; stage = answering mr })

unfoldable pub answer_line : Line → ℤ → List Line → Step
unfolding is_error
answer_line line mr written =
    if has_prefix (codes "+CMGS:") line
    then reference_step written (scan_int (trim_prefix (codes "+CMGS:") line))
    else (if eq_bytes line (codes "OK")
        then ends written (ok mr)
        else (if is_error line
            then ends written (err (at_error line))
            else goes (record { written = written; stage = answering mr })))

unfoldable pub send_line : Bool → Line → Line → List Line → Stage → Step
unfolding prompt_line answer_line
send_line write_ok pdu line written prompting = prompt_line write_ok pdu line written
send_line write_ok pdu line written (answering mr) = answer_line line mr written

-- The error when the timer of the loop fires.
abbrev pub late : Stage → AtError
late prompting = send_prompt
late (answering mr) = timed_out

-- The select of a loop.
unfoldable pub send_receive :
    Bool → Line → List Line → Stage → Option (List Line) → Option (List Line) × Step
unfolding send_line
send_receive write_ok pdu written stage none =
    (none, goes (record { written = written; stage = stage }))
send_receive write_ok pdu written stage (some []) =
    (some [], goes (record { written = written; stage = stage }))
send_receive write_ok pdu written stage (some (line ∷ queue)) =
    (some queue, send_line write_ok pdu line written stage)

unfoldable pub send_step : Bool → Line → Action → Serializer → List Line → Stage → Serializer × Step
unfolding send_receive read_line close
send_step write_ok pdu (arrive text) s written stage =
    (read_line text s, goes (record { written = written; stage = stage }))
send_step write_ok pdu receive_line s written stage =
    let (pending, step) = send_receive write_ok pdu written stage s.pending in
    (record s { pending = pending }, step)
send_step write_ok pdu timer_fires s written stage = (close s, ends written (err (late stage)))
send_step write_ok pdu sees_closed s written stage = (
  s,
  if s.closed
      then ends written (err serializer_closed)
      else goes (record { written = written; stage = stage }),
)
send_step write_ok pdu reader_stops s written stage =
    (reader_ends s, goes (record { written = written; stage = stage }))

-- The serializer, what was written, and the result; `none` while the caller waits.
abbrev pub Outcome : Type 0
Outcome = Serializer × (List Line × Option (Result ℤ))

unfoldable pub send_with : (List Line → Stage → Outcome) → Serializer → Step → Outcome
send_with loop s (goes sending) = loop sending.written sending.stage
send_with loop s (ends written r) = (record s { pending = none }, (written, some r))

unfoldable pub send_loop : Bool → Line → List Action → Serializer → List Line → Stage → Outcome
unfolding send_step send_with
send_loop write_ok pdu [] s written stage = (s, (written, none))
send_loop write_ok pdu (a ∷ actions) s written stage =
    let (s', step) = send_step write_ok pdu a s written stage in
    send_with (send_loop write_ok pdu actions s') s' step

-- ExecuteSend, with what the two writes return.
unfoldable pub execute_send : Bool → Bool → Line → ℕ → List Action → Serializer → Outcome
unfolding send_loop
execute_send command_ok pdu_ok pdu size actions s =
    if s.closed
    then (s, ([], some (err serializer_closed)))
    else (if command_ok
        then send_loop pdu_ok pdu actions (record s { pending = some [] }) (command_text size ∷ [])
            prompting
        else (record s { pending = none }, (command_text size ∷ [], some (err write_failed))))
