-- ===== src/Serializer/Answered.antt =====
-- The second loop of ExecuteSend, which reads the answer to a PDU.
use sms_gate.Prelude.{
  ℕ, ◌+◌, ◌≤◌, ◌≡◌, refl, sym, ap, ◌∙◌, inl, inr, Bool, true, false, Option, none, some, List, [],
  ◌∷◌, ◌++◌, length, length-append, arith, Bool-cases, if◌then◌else◌,
}
use sms_gate.Prelude.Int.{ℤ, pos}
use sms_gate.Prelude.Text.{codes, eq_bytes, eq_bytes_iff}
use sms_gate.Prelude.Strings.{has_prefix, trim_prefix, scan_int}
use sms_gate.Serializer.{
  Line, channel_size, Serializer, trim_cr, read_line, reader_ends, AtError, at_error, timed_out,
  serializer_closed, unreadable, Result, ok, err, is_error, Action, arrive, receive_line,
  timer_fires, sees_closed, reader_stops,
}
use sms_gate.Serializer.Send.{
  answering, goes, ends, reference_step, answer_line, send_line, send_receive, send_step, send_with,
  send_loop,
}
use sms_gate.Serializer.Delivery.{is_response, responses, goes_on, append-snoc, pending-read_line}

-- The reference that the lines before an OK leave: the last +CMGS line's, from the one so far. Nothing, if
-- a line ends the exchange earlier.
abbrev pub reference_from : (ℤ → Option ℤ) → Option (ℤ × List ℕ) → Option ℤ
reference_from later none = none
reference_from later (some (mr, rest)) = later mr

unfoldable pub reference : ℤ → List Line → Option ℤ
reference mr [] = some mr
reference mr (l ∷ lines) =
    let later = reference mr lines in
    if has_prefix (codes "+CMGS:") l
    then reference_from (λ mr'. reference mr' lines) (scan_int (trim_prefix (codes "+CMGS:") l))
    else (if goes_on l then later else none)

-- The answer to a PDU against the lines that follow the prompt; what was written stays.
pub data Answer (written all : List Line) : List Line × Option (Result ℤ) → Type 0 where
  waits : Answer written all (written, none)
  accepted :
      (got rest : List Line) (mr : ℤ)
      → reference (pos 0) got ≡ some mr
      → all ≡ got ++ codes "OK" ∷ rest
      → Answer written all (written, some (ok mr))
  no_answer : (e : AtError) → Answer written all (written, some (err e))

-- A line of the exchange as far as it is in `reference`.
abbrev pub reference_by : ℤ → Line → Option ℤ
reference_by mr l =
    if has_prefix (codes "+CMGS:") l
    then reference_from (λ mr'. some mr') (scan_int (trim_prefix (codes "+CMGS:") l))
    else (if goes_on l then some mr else none)

reference_from-snoc :
    (q : Option (ℤ × List ℕ)) (mr' : ℤ) (lines : List Line) (l : Line)
    → reference_from (λ mr. reference mr lines) q ≡ some mr'
    → ((mr : ℤ)
        → reference mr lines ≡ some mr'
        → reference mr (lines ++ l ∷ []) ≡ reference_by mr' l)
    → reference_from (λ mr. reference mr (lines ++ l ∷ [])) q ≡ reference_by mr' l
reference_from-snoc none mr' lines l e later = absurd (ground arith)
reference_from-snoc (some (mr, rest)) mr' lines l e later = later mr e

reference-snoc :
    (lines : List Line) (mr mr' : ℤ) (l : Line)
    → reference mr lines ≡ some mr'
    → reference mr (lines ++ l ∷ []) ≡ reference_by mr' l
unfolding reference
reference-snoc [] mr mr' l e = let same : mr ≡ mr' = ground arith in rw same refl
reference-snoc (x ∷ lines) mr mr' l e = elim (Bool-cases (has_prefix (codes "+CMGS:") x)) [
  | inl hit ↦ rw hit (
      reference_from-snoc (scan_int (trim_prefix (codes "+CMGS:") x)) mr' lines l (rw hit at e)
        (λ mr''. reference-snoc lines mr'' mr' l))
  | inr miss ↦ elim (Bool-cases (goes_on x)) [
    | inl plain ↦ rw (miss, plain) (reference-snoc lines mr mr' l (rw (miss, plain) at e))
    | inr ended ↦ absurd (ground (arith, rw (miss, ended) at e))
  ]
]

abbrev Looks : Bool → Line → List Action → Serializer → List Line → List Line → ℤ → Type 0
Looks write_ok pdu actions s written all mr =
    Answer written all (send_loop write_ok pdu actions s written (answering mr)).1

abbrev number_of : Option (ℤ × List ℕ) → Option ℤ
number_of q = reference_from (λ mr. some mr) q

numbered-Answer :
    (write_ok : Bool) (pdu : Line) (actions : List Action) (s : Serializer) (line : Line)
    (got rest written : List Line) (q : Option (ℤ × List ℕ))
    → ((mr : ℤ)
        → number_of q ≡ some mr
        → Looks write_ok pdu actions s written ((got ++ line ∷ []) ++ rest) mr)
    → Answer written
        (got ++ line ∷ rest)
        (send_with (send_loop write_ok pdu actions s) s (reference_step written q)).1
unfolding send_with
numbered-Answer write_ok pdu actions s line got rest written none later = no_answer unreadable
numbered-Answer write_ok pdu actions s line got rest written (some (mr, text)) later =
    rw (sym (append-snoc got rest line)) (later mr refl)

-- One line in the second loop.
answer_line-Answer :
    (write_ok : Bool) (pdu : Line) (actions : List Action) (s : Serializer) (line : Line)
    (got rest written : List Line) (mr : ℤ)
    → reference (pos 0) got ≡ some mr
    → ((mr' : ℤ)
        → reference (pos 0) (got ++ line ∷ []) ≡ some mr'
        → Looks write_ok pdu actions s written ((got ++ line ∷ []) ++ rest) mr')
    → Answer written
        (got ++ line ∷ rest)
        (send_with (send_loop write_ok pdu actions s) s (answer_line line mr written)).1
unfolding answer_line send_with
answer_line-Answer write_ok pdu actions s line got rest written mr h later =
    let next = reference-snoc got (pos 0) mr line h in
    elim (Bool-cases (has_prefix (codes "+CMGS:") line)) [
      | inl hit ↦ rw hit (
          numbered-Answer write_ok pdu actions s line got rest written
            (scan_int (trim_prefix (codes "+CMGS:") line))
            (λ mr' q. later mr' (next ∙ rw (hit, q) refl)))
      | inr miss ↦ elim (Bool-cases (eq_bytes line (codes "OK"))) [
        | inl last ↦
            let same : line ≡ codes "OK" = (eq_bytes_iff line (codes "OK")).0 last in
            rw (miss, last) (accepted got rest mr h (ap (λ l. got ++ l ∷ rest) same))
        | inr other ↦ elim (Bool-cases (is_error line)) [
          | inl bad ↦ rw (miss, other, bad) (no_answer (at_error line))
          | inr plain ↦
              let on : goes_on line ≡ true = ground arith in
              let looks = later mr (next ∙ rw (miss, on) refl) in
              rw (miss, other, plain, sym (append-snoc got rest line)) looks
        ]
      ]
    ]

closed-Answer :
    (write_ok : Bool) (pdu : Line) (actions : List Action) (s : Serializer)
    (written all : List Line) (mr : ℤ) (shut : Bool)
    → Looks write_ok pdu actions s written all mr
    → Answer written all
        (send_with (send_loop write_ok pdu actions s) s (
          if shut
          then ends written (err serializer_closed)
          else goes (record { written = written; stage = answering mr }))).1
unfolding send_with
closed-Answer write_ok pdu actions s written all mr true h = no_answer serializer_closed
closed-Answer write_ok pdu actions s written all mr false h = h

-- The second loop, from a channel with `queue` in it, `got` taken and the reference of those.
pub answer_loop-Answer :
    (write_ok : Bool) (pdu : Line) (actions : List Action) (s : Serializer) (queue got : List Line)
    (written : List Line) (mr : ℤ)
    → s.pending ≡ some queue
    → reference (pos 0) got ≡ some mr
    → length queue + length (responses actions) ≤ channel_size
    → Looks write_ok pdu actions s written (got ++ (queue ++ responses actions)) mr
unfolding send_loop send_step send_receive send_line responses send_with
answer_loop-Answer write_ok pdu [] s queue got written mr e h room = waits
answer_loop-Answer write_ok pdu (arrive text ∷ actions) s queue got written mr e h room =
    elim (Bool-cases (is_response text)) [
      | inl mine ↦
          let next = pending-read_line text s queue e (ground (arith, mine)) in
          rw (mine, sym (append-snoc queue (responses actions) (trim_cr text)))
            (answer_loop-Answer write_ok pdu actions (read_line text s) (queue ++ trim_cr text ∷ [])
              got written mr (next ∙ rw mine) h
              (ground (arith, mine, length-append queue (trim_cr text ∷ []))))
      | inr other ↦
          let next = pending-read_line text s queue e (ground (arith, other)) in
          rw other (
            answer_loop-Answer write_ok pdu actions (read_line text s) queue got written mr
              (next ∙ rw other) h (ground (arith, other)))
    ]
answer_loop-Answer write_ok pdu (receive_line ∷ actions) s [] got written mr e h room = rw e (
    answer_loop-Answer write_ok pdu actions (record s { pending = some [] }) [] got written mr refl
      h room)
answer_loop-Answer write_ok pdu (receive_line ∷ actions) s (line ∷ queue) got written mr e h room =
    rw e (
      answer_line-Answer write_ok pdu actions (record s { pending = some queue }) line got
        (queue ++ responses actions) written mr h
        (λ mr' h'.
          answer_loop-Answer write_ok pdu actions (record s { pending = some queue }) queue
            (got ++ line ∷ []) written mr' refl h' (omega arith)))
answer_loop-Answer write_ok pdu (timer_fires ∷ actions) s queue got written mr e h room =
    no_answer timed_out
answer_loop-Answer write_ok pdu (sees_closed ∷ actions) s queue got written mr e h room =
    closed-Answer write_ok pdu actions s written (got ++ (queue ++ responses actions)) mr s.closed
      (answer_loop-Answer write_ok pdu actions s queue got written mr e h room)
answer_loop-Answer write_ok pdu (reader_stops ∷ actions) s queue got written mr e h room =
    answer_loop-Answer write_ok pdu actions (reader_ends s) queue got written mr e h room
