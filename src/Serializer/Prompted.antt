-- ===== src/Serializer/Prompted.antt =====
-- What ExecuteSend hands to the modem, and what its result says of the lines the port delivered.
use sms_gate.Prelude.{
  All, ℕ, ◌+◌, ◌≤◌, ◌≡◌, refl, sym, ◌∙◌, inl, inr, Bool, true, false, ◌||◌, Option, none, some,
  List, [], ◌∷◌, ◌++◌, length, length-append, arith, Bool-cases, if◌then◌else◌,
}
use sms_gate.Prelude.Int.{ℤ, pos}
use sms_gate.Prelude.Text.{codes, eq_bytes}
use sms_gate.Prelude.Strings.{has_prefix}
use sms_gate.Serializer.{
  Line, channel_size, Serializer, trim_cr, read_line, reader_ends, AtError, serializer_closed,
  write_failed, send_prompt, rejected, Result, err, Action, arrive, receive_line, timer_fires,
  sees_closed, reader_stops,
}
use sms_gate.Serializer.Send.{
  prompting, goes, ends, command_text, pdu_text, write_pdu, prompt_line, send_line, send_receive,
  send_step, send_with, send_loop, execute_send,
}
use sms_gate.Serializer.Delivery.{All-snoc, is_response, responses, append-snoc, pending-read_line}
use sms_gate.Serializer.Answered.{Answer, no_answer, answer_loop-Answer, reference}

-- A line that the first loop passes over: no prompt, not ERROR, and not +CME. A +CMS ERROR is one.
abbrev pub is_early : Line → Bool
is_early l =
    if has_prefix (codes ">") l
    then false
    else (if eq_bytes l (codes "ERROR") || has_prefix (codes "+CME") l then false else true)

-- What was written, and the result, against all lines of the response.
pub data Sends (command pdu : Line) (all : List Line) : List Line × Option (Result ℤ) → Type 0 where
  nothing : Sends command pdu all ([], some (err serializer_closed))
  before_prompt : Sends command pdu all (command ∷ [], none)
  no_prompt : (e : AtError) → Sends command pdu all (command ∷ [], some (err e))
  after_prompt :
      (early later : List Line) (prompt : Line) (outcome : List Line × Option (Result ℤ))
      → All (λ l. is_early l ≡ true) early
      → has_prefix (codes ">") prompt ≡ true
      → all ≡ early ++ prompt ∷ later
      → Answer (command ∷ pdu ∷ []) later outcome
      → Sends command pdu all outcome

-- One line in the first loop.
prompt_line-Sends :
    (write_ok : Bool) (command pdu : Line) (actions : List Action) (s : Serializer) (line : Line)
    (early queue : List Line)
    → s.pending ≡ some queue
    → All (λ l. is_early l ≡ true) early
    → length queue + length (responses actions) ≤ channel_size
    → (All (λ l. is_early l ≡ true) (early ++ line ∷ [])
        → Sends command
            (pdu_text pdu)
            ((early ++ line ∷ []) ++ (queue ++ responses actions))
            (send_loop write_ok pdu actions s (command ∷ []) prompting).1)
    → Sends command
        (pdu_text pdu)
        (early ++ line ∷ (queue ++ responses actions))
        (send_with
          (send_loop write_ok pdu actions s)
          s
          (prompt_line write_ok pdu line (command ∷ []))).1
unfolding prompt_line write_pdu send_with reference
prompt_line-Sends write_ok command pdu actions s line early queue e h room later =
    elim (Bool-cases (has_prefix (codes ">") line)) [
      | inl prompt ↦ elim (Bool-cases write_ok) [
        | inl written ↦
            rw (prompt, written)
              (after_prompt early (queue ++ responses actions) line _ h prompt refl (
                answer_loop-Answer true pdu actions s queue [] (command ∷ pdu_text pdu ∷ []) (pos 0)
                  e refl room))
        | inr lost ↦
            rw (prompt, lost)
              (after_prompt early (queue ++ responses actions) line _ h prompt refl
                (no_answer write_failed))
      ]
      | inr miss ↦ elim (Bool-cases (is_early line)) [
        | inl on ↦
            let calm : (eq_bytes line (codes "ERROR") || has_prefix (codes "+CME") line) ≡ false =
              ground (arith, rw miss at on) in
            rw (miss, calm, sym (append-snoc early (queue ++ responses actions) line))
              (later (All-snoc (λ l. is_early l) early line h on))
        | inr ended ↦
            let refused : (eq_bytes line (codes "ERROR") || has_prefix (codes "+CME") line) ≡ true =
              ground (arith, rw miss at ended) in
            rw (miss, refused) (no_prompt (rejected line))
      ]
    ]

closed-Sends :
    (write_ok : Bool) (command pdu : Line) (actions : List Action) (s : Serializer)
    (all : List Line) (shut : Bool)
    → Sends command (pdu_text pdu) all (send_loop write_ok pdu actions s (command ∷ []) prompting).1
    → Sends command
        (pdu_text pdu)
        all
        (send_with (send_loop write_ok pdu actions s) s (
          if shut
          then ends (command ∷ []) (err serializer_closed)
          else goes (record { written = command ∷ []; stage = prompting }))).1
unfolding send_with
closed-Sends write_ok command pdu actions s all true h = no_prompt serializer_closed
closed-Sends write_ok command pdu actions s all false h = h

prompt_loop-Sends :
    (write_ok : Bool) (command pdu : Line) (actions : List Action) (s : Serializer)
    (queue early : List Line)
    → s.pending ≡ some queue
    → All (λ l. is_early l ≡ true) early
    → length queue + length (responses actions) ≤ channel_size
    → Sends command
        (pdu_text pdu)
        (early ++ (queue ++ responses actions))
        (send_loop write_ok pdu actions s (command ∷ []) prompting).1
unfolding send_loop send_step send_receive send_line responses send_with
prompt_loop-Sends write_ok command pdu [] s queue early e h room = before_prompt
prompt_loop-Sends write_ok command pdu (arrive text ∷ actions) s queue early e h room =
    elim (Bool-cases (is_response text)) [
      | inl mine ↦
          let next = pending-read_line text s queue e (ground (arith, mine)) in
          rw (mine, sym (append-snoc queue (responses actions) (trim_cr text)))
            (prompt_loop-Sends write_ok command pdu actions (read_line text s)
              (queue ++ trim_cr text ∷ []) early (next ∙ rw mine) h
              (ground (arith, mine, length-append queue (trim_cr text ∷ []))))
      | inr other ↦
          let next = pending-read_line text s queue e (ground (arith, other)) in
          rw other (
            prompt_loop-Sends write_ok command pdu actions (read_line text s) queue early
              (next ∙ rw other) h (ground (arith, other)))
    ]
prompt_loop-Sends write_ok command pdu (receive_line ∷ actions) s [] early e h room = rw e (
    prompt_loop-Sends write_ok command pdu actions (record s { pending = some [] }) [] early refl h
      room)
prompt_loop-Sends write_ok command pdu (receive_line ∷ actions) s (line ∷ queue) early e h room =
    rw e (
      prompt_line-Sends write_ok command pdu actions (record s { pending = some queue }) line early
        queue refl h (omega arith)
        (λ h'.
          prompt_loop-Sends write_ok command pdu actions (record s { pending = some queue }) queue
            (early ++ line ∷ []) refl h' (omega arith)))
prompt_loop-Sends write_ok command pdu (timer_fires ∷ actions) s queue early e h room =
    no_prompt send_prompt
prompt_loop-Sends write_ok command pdu (sees_closed ∷ actions) s queue early e h room =
    closed-Sends write_ok command pdu actions s (early ++ (queue ++ responses actions)) s.closed
      (prompt_loop-Sends write_ok command pdu actions s queue early e h room)
prompt_loop-Sends write_ok command pdu (reader_stops ∷ actions) s queue early e h room =
    prompt_loop-Sends write_ok command pdu actions (reader_ends s) queue early e h room

execute_send_with-Sends :
    (command_ok pdu_ok : Bool) (pdu : Line) (size : ℕ) (actions : List Action) (s : Serializer)
    (shut : Bool)
    → length (responses actions) ≤ channel_size
    → Sends
        (command_text size)
        (pdu_text pdu)
        (responses actions)
        (if shut
          then (s, ([], some (err serializer_closed)))
          else (if command_ok
              then send_loop pdu_ok pdu actions
                  (record s { pending = some [] })
                  (command_text size ∷ [])
                  prompting
              else (
                record s { pending = none },
                (command_text size ∷ [], some (err write_failed)),
              ))).1
execute_send_with-Sends command_ok pdu_ok pdu size actions s true room = nothing
execute_send_with-Sends false pdu_ok pdu size actions s false room = no_prompt write_failed
execute_send_with-Sends true pdu_ok pdu size actions s false room =
    prompt_loop-Sends pdu_ok (command_text size) pdu actions (record s { pending = some [] }) [] []
      refl tt (omega arith)

-- In every order of events, on a port that delivers at most 64 lines of a response, ExecuteSend writes
-- nothing, the command, or the command and then the PDU, once each. The PDU is written only after a line
-- that begins with `>`, the first such line, before which no line is ERROR or begins with +CME; a line
-- that begins with +CMS may precede it. The result is `ok` only after the PDU: it is the number of the
-- last +CMGS line between the prompt and the first OK behind it (0 without one), with no error line
-- between.
pub execute_send-Sends :
    (command_ok pdu_ok : Bool) (pdu : Line) (size : ℕ) (actions : List Action) (s : Serializer)
    → length (responses actions) ≤ channel_size
    → Sends
        (command_text size)
        (pdu_text pdu)
        (responses actions)
        (execute_send command_ok pdu_ok pdu size actions s).1
unfolding execute_send
execute_send-Sends command_ok pdu_ok pdu size actions s room =
    execute_send_with-Sends command_ok pdu_ok pdu size actions s s.closed room
