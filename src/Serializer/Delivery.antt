-- ===== src/Serializer/Delivery.antt =====
-- What a command returns, whatever else happens on the port.
use sms_gate.Prelude.{
  All, ◌+◌, ◌≤◌, ◌≡◌, refl, sym, ap, ◌∙◌, inl, inr, Bool, true, false, Option, none, some, List, [],
  ◌∷◌, ◌++◌, ltb, ◌==◌, length, length-append, arith, Bool-cases, if◌then◌else◌,
}
use sms_gate.Prelude.Text.{codes, eq_bytes, eq_bytes_iff}
use sms_gate.Serializer.{
  exec_with, Line, is_urc, channel_size, offer, Serializer, trim_cr, to_pending, route, read_line,
  reader_ends, at_error, timed_out, serializer_closed, write_failed, Result, ok, err, is_error,
  Progress, more, finished, take_line, receive, Action, arrive, receive_line, timer_fires,
  sees_closed, reader_stops, exec_step, exec_loop, execute,
}

-- The lines of the response among those that the port delivers: not empty, and not unsolicited.
abbrev pub is_response : Line → Bool
is_response text =
    if length (trim_cr text) == 0 then false else (if is_urc (trim_cr text) then false else true)

unfoldable pub responses : List Action → List Line
responses [] = []
responses (arrive text ∷ actions) =
    let rest = responses actions in if is_response text then trim_cr text ∷ rest else rest
responses (receive_line ∷ actions) = responses actions
responses (timer_fires ∷ actions) = responses actions
responses (sees_closed ∷ actions) = responses actions
responses (reader_stops ∷ actions) = responses actions

-- A line that does not end a command.
abbrev pub goes_on : Line → Bool
goes_on line = if eq_bytes line (codes "OK") then false else (if is_error line then false else true)

-- A result against all the lines of the response: `ok` has those before the first line that ends a
-- command, which is OK; an error of the modem is that line.
pub data Ends (all : List Line) : Option (Result (List Line)) → Type 0 where
  waits : Ends all none
  succeeds :
      (got rest : List Line)
      → All (λ line. goes_on line ≡ true) got
      → all ≡ got ++ codes "OK" ∷ rest
      → Ends all (some (ok got))
  fails :
      (got rest : List Line) (line : Line)
      → All (λ line'. goes_on line' ≡ true) got
      → is_error line ≡ true
      → all ≡ got ++ line ∷ rest
      → Ends all (some (err (at_error line)))
  no_answer : Ends all (some (err timed_out))
  no_reader : Ends all (some (err serializer_closed))
  no_write : Ends all (some (err write_failed))

pub append-snoc : (xs ys : List Line) (x : Line) → (xs ++ x ∷ []) ++ ys ≡ xs ++ x ∷ ys
append-snoc [] ys x = refl
append-snoc (y ∷ xs) ys x = ap (◌∷◌ y) (append-snoc xs ys x)

pub All-snoc :
    (test : Line → Bool) (got : List Line) (line : Line)
    → All (λ l. test l ≡ true) got
    → test line ≡ true
    → All (λ l. test l ≡ true) (got ++ line ∷ [])
All-snoc test [] line h e = (e, tt)
All-snoc test (x ∷ got) line (hx, h) e = (hx, All-snoc test got line h e)

-- What the reader does to the channel of the command.
pub pending-read_line :
    (text : Line) (s : Serializer) (queue : List Line)
    → s.pending ≡ some queue
    → length queue + (if is_response text then 1 else 0) ≤ channel_size
    → (read_line text s).pending
      ≡ some (if is_response text then queue ++ trim_cr text ∷ [] else queue)
unfolding read_line route to_pending offer
pending-read_line text s queue e room = elim (Bool-cases (length (trim_cr text) == 0)) [
  | inl empty ↦ rw empty e
  | inr full ↦ elim (Bool-cases (is_urc (trim_cr text))) [
    | inl urc ↦ rw (full, urc) e
    | inr plain ↦
        let fits : ltb (length queue) channel_size ≡ true = ground (arith, full, plain) in
        rw (full, plain, e, fits)
  ]
]

-- The end of the loop by one line.
take_line-Ends :
    (line : Line) (lines rest : List Line) (r : Result (List Line))
    → All (λ l. goes_on l ≡ true) lines
    → take_line line lines ≡ finished r
    → Ends (lines ++ line ∷ rest) (some r)
unfolding take_line
take_line-Ends line lines rest r h e = elim (Bool-cases (eq_bytes line (codes "OK"))) [
  | inl last ↦
      let same : line ≡ codes "OK" = (eq_bytes_iff line (codes "OK")).0 last in
      let result : r ≡ ok lines = ground arith in rw (result, same) (succeeds lines rest h refl)
  | inr other ↦ elim (Bool-cases (is_error line)) [
    | inl bad ↦
        let result : r ≡ err (at_error line) = ground arith in
        rw result (fails lines rest line h bad refl)
    | inr plain ↦ absurd (ground arith)
  ]
]

take_line-more :
    (line : Line) (lines lines' : List Line)
    → take_line line lines ≡ more lines'
    → (lines' ≡ lines ++ line ∷ []) × (goes_on line ≡ true)
unfolding take_line
take_line-more line lines lines' e = ground arith

-- The loop, from a channel with `queue` in it and with `lines` taken.
Answers : List Action → Serializer → List Line → List Line → Type 0
Answers actions s lines all = Ends all (exec_loop actions s lines).1

exec_with-Ends :
    (actions : List Action) (s : Serializer) (line : Line) (lines rest : List Line) (p : Progress)
    → All (λ l. goes_on l ≡ true) lines
    → take_line line lines ≡ p
    → ((lines' : List Line)
        → All (λ l. goes_on l ≡ true) lines'
        → Ends (lines' ++ rest) (exec_loop actions s lines').1)
    → Ends (lines ++ line ∷ rest) (exec_with (exec_loop actions s) s p).1
unfolding exec_with
exec_with-Ends actions s line lines rest (more lines') h e later =
    let (grown, plain) = take_line-more line lines lines' e in
    rw (sym (append-snoc lines rest line), sym grown)
      (later lines' (rw grown (All-snoc (λ l. goes_on l) lines line h plain)))
exec_with-Ends actions s line lines rest (finished r) h e later =
    take_line-Ends line lines rest r h e

exec_with_closed-Ends :
    (actions : List Action) (s : Serializer) (lines all : List Line) (shut : Bool)
    → Ends all (exec_loop actions s lines).1
    → Ends all
        (exec_with
          (exec_loop actions s)
          s
          (if shut then finished (err serializer_closed) else more lines)).1
unfolding exec_with
exec_with_closed-Ends actions s lines all true h = no_reader
exec_with_closed-Ends actions s lines all false h = h

exec_loop-Ends :
    (actions : List Action) (s : Serializer) (queue lines : List Line)
    → s.pending ≡ some queue
    → All (λ l. goes_on l ≡ true) lines
    → length queue + length (responses actions) ≤ channel_size
    → Answers actions s lines (lines ++ (queue ++ responses actions))
unfolding exec_loop exec_step receive responses Answers
exec_loop-Ends [] s queue lines e h room = waits
exec_loop-Ends (arrive text ∷ actions) s queue lines e h room =
    elim (Bool-cases (is_response text)) [
      | inl mine ↦
          let next = pending-read_line text s queue e (ground (arith, mine)) in
          rw (mine, sym (append-snoc queue (responses actions) (trim_cr text)))
            (exec_loop-Ends actions (read_line text s) (queue ++ trim_cr text ∷ []) lines
              (next ∙ rw mine) h (ground (arith, mine, length-append queue (trim_cr text ∷ []))))
      | inr other ↦
          let next = pending-read_line text s queue e (ground (arith, other)) in
          rw other (
            exec_loop-Ends actions (read_line text s) queue lines (next ∙ rw other) h
              (ground (arith, other)))
    ]
exec_loop-Ends (receive_line ∷ actions) s [] lines e h room =
    rw e (exec_loop-Ends actions (record s { pending = some [] }) [] lines refl h room)
exec_loop-Ends (receive_line ∷ actions) s (line ∷ queue) lines e h room = rw e (
    exec_with-Ends actions (record s { pending = some queue }) line lines
      (queue ++ responses actions) (take_line line lines) h refl
      (λ lines' h'.
        exec_loop-Ends actions (record s { pending = some queue }) queue lines' refl h'
          (omega arith)))
exec_loop-Ends (timer_fires ∷ actions) s queue lines e h room = no_answer
exec_loop-Ends (sees_closed ∷ actions) s queue lines e h room =
    exec_with_closed-Ends actions s lines (lines ++ (queue ++ responses actions)) s.closed
      (exec_loop-Ends actions s queue lines e h room)
exec_loop-Ends (reader_stops ∷ actions) s queue lines e h room =
    exec_loop-Ends actions (reader_ends s) queue lines e h room

execute_with-Ends :
    (write_ok : Bool) (actions : List Action) (s : Serializer) (shut : Bool)
    → length (responses actions) ≤ channel_size
    → Ends
        (responses actions)
        (if shut
          then (s, some (err serializer_closed))
          else (if write_ok
              then exec_loop actions (record s { pending = some [] }) []
              else (record s { pending = none }, some (err write_failed)))).1
unfolding Answers
execute_with-Ends write_ok actions s true room = no_reader
execute_with-Ends false actions s false room = no_write
execute_with-Ends true actions s false room =
    exec_loop-Ends actions (record s { pending = some [] }) [] [] refl tt (omega arith)

-- Whatever the order of events, a command on a port that delivers at most 64 lines of a response returns
-- what those lines say: `ok` with exactly the lines before the first that ends a command, when that is
-- OK; the error with that line, when it is an error; else it still waits, has timed out, found the reader
-- ended, or could not write. Unsolicited lines are never among the lines it returns, whatever was
-- pending before.
pub execute-Ends :
    (write_ok : Bool) (actions : List Action) (s : Serializer)
    → length (responses actions) ≤ channel_size
    → Ends (responses actions) (execute write_ok actions s).1
unfolding execute
execute-Ends write_ok actions s room = execute_with-Ends write_ok actions s s.closed room
