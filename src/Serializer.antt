-- ===== src/Serializer.antt =====
-- The AT serializer of a port (internal/at/serializer.go: isURC, reader, Execute, Close). A line is its
-- bytes. The reader goroutine and the caller of Execute take turns in an order that nobody fixes: that
-- order is a list of actions. Locks are held for one action only. Logs and latencies are left out.
pub mod Responses
pub mod Send
pub mod Delivery
pub mod Answered
pub mod Prompted
pub mod Index
pub mod Urcs
pub mod Commands
mod Tests
use sms_gate.Prelude.{
  ℕ, ◌+◌, Bool, true, false, ◌&&◌, ◌||◌, Option, none, some, List, [], ◌∷◌, ◌++◌, ltb, leb, ◌==◌,
  length, drop, if◌then◌else◌,
}
use sms_gate.Prelude.Text.{codes, eq_bytes}
use sms_gate.Prelude.Strings.{has_prefix}

abbrev pub Line : Type 0
Line = List ℕ

-- What is always unsolicited.
abbrev pub urc_prefixes : List Line
urc_prefixes =
    codes "+CMTI:"
    ∷ codes "+RING"
    ∷ codes "+CLIP:"
    ∷ codes "+CUSD:"
    ∷ codes "+CMT:"
    ∷ codes "+CDSI:"
    ∷ codes "+CRING:"
    ∷ []

unfoldable pub any_prefix : List Line → Line → Bool
any_prefix [] line = false
any_prefix (prefix ∷ prefixes) line = has_prefix prefix line || any_prefix prefixes line

unfoldable pub is_urc : Line → Bool
unfolding any_prefix
is_urc line = any_prefix urc_prefixes line

-- The capacity of URCCH and of linesCh.
abbrev pub channel_size : ℕ
channel_size = 64

-- A send with a default: a full channel takes nothing.
unfoldable pub offer : Line → List Line → List Line
offer line queue = if ltb (length queue) channel_size then queue ++ line ∷ [] else queue

-- pending is the linesCh of the command in flight. closed is the channel of that name, which the reader
-- closes; port_open is what Close ends.
pub record Serializer : Type 0 where
  pub urcs : List Line
  pub pending : Option (List Line)
  pub port_open : Bool
  pub closed : Bool

abbrev pub new_serializer : Serializer
new_serializer = record { urcs = []; pending = none; port_open = true; closed = false }

-- strings.TrimRight(line, "\r")
unfoldable pub trim_cr : Line → Line
trim_cr [] = []
trim_cr (c ∷ s) = let rest = trim_cr s in if c == 13 && length rest == 0 then [] else c ∷ rest

-- Into URCCH: when it is full, the oldest goes and the line is offered again.
unfoldable pub push_urc : Line → List Line → List Line
unfolding offer
push_urc line urcs =
    if ltb (length urcs) channel_size then urcs ++ line ∷ [] else offer line (drop 1 urcs)

unfoldable pub to_pending : Line → Option (List Line) → Option (List Line)
unfolding offer
to_pending line none = none
to_pending line (some queue) = some (offer line queue)

-- One line that the scanner delivers.
unfoldable pub route : Line → Serializer → Serializer
unfolding push_urc to_pending is_urc
route line s =
    if length line == 0
    then s
    else (if is_urc line
        then record s { urcs = push_urc line s.urcs }
        else record s { pending = to_pending line s.pending })

unfoldable pub read_line : Line → Serializer → Serializer
unfolding route trim_cr
read_line text s = route (trim_cr text) s

-- The scanner has ended.
abbrev pub reader_ends : Serializer → Serializer
reader_ends s = record s { closed = true }

unfoldable pub close : Serializer → Serializer
close s = record s { port_open = false }

-- The errors of a command. The modem's own line comes with the first. `unreadable` is an error of strconv,
-- of Sscanf or of ParseCSQ, which wrap no error of the package.
pub data AtError : Type 0 where
  at_error : Line → AtError
  timed_out serializer_closed write_failed send_prompt : AtError
  rejected : Line → AtError
  malformed unreadable : AtError

pub data Result (A : Type 0) : Type 0 where
  ok : A → Result A
  err : AtError → Result A

-- The lines that end a command with an error.
unfoldable pub is_error : Line → Bool
is_error line =
    eq_bytes line (codes "ERROR")
    || has_prefix (codes "+CME ERROR:") line
    || has_prefix (codes "+CMS ERROR:") line

-- One line in the loop of Execute: the lines so far, or the result.
pub data Progress : Type 0 where
  more : List Line → Progress
  finished : Result (List Line) → Progress

unfoldable pub take_line : Line → List Line → Progress
unfolding is_error
take_line line lines =
    if eq_bytes line (codes "OK")
    then finished (ok lines)
    else (if is_error line then finished (err (at_error line)) else more (lines ++ line ∷ []))

-- The select of the loop: a line of linesCh, if there is one.
unfoldable pub receive : List Line → Option (List Line) → Option (List Line) × Progress
unfolding take_line
receive lines none = (none, more lines)
receive lines (some []) = (some [], more lines)
receive lines (some (line ∷ queue)) = (some queue, take_line line lines)

-- What happens next: the port delivers a line, the caller receives one, its timer fires, the caller sees
-- that the reader has ended, or the reader ends.
pub data Action : Type 0 where
  arrive : Line → Action
  receive_line timer_fires sees_closed reader_stops : Action

unfoldable pub exec_step : Action → Serializer → List Line → Serializer × Progress
unfolding read_line receive close
exec_step (arrive text) s lines = (read_line text s, more lines)
exec_step receive_line s lines =
    let (pending, progress) = receive lines s.pending in (record s { pending = pending }, progress)
exec_step timer_fires s lines = (close s, finished (err timed_out))
exec_step sees_closed s lines =
    (s, if s.closed then finished (err serializer_closed) else more lines)
exec_step reader_stops s lines = (reader_ends s, more lines)

-- The loop over such actions; with none left it still waits, and `none` is its result. The deferred
-- assignment ends the command.
unfoldable pub exec_with :
    (List Line → Serializer × Option (Result (List Line)))
    → Serializer
    → Progress
    → Serializer × Option (Result (List Line))
exec_with loop s (more lines) = loop lines
exec_with loop s (finished r) = (record s { pending = none }, some r)

unfoldable pub exec_loop :
    List Action → Serializer → List Line → Serializer × Option (Result (List Line))
unfolding exec_step exec_with
exec_loop [] s lines = (s, none)
exec_loop (a ∷ actions) s lines =
    let (s', progress) = exec_step a s lines in exec_with (exec_loop actions s') s' progress

-- Execute: refused when the reader has ended, or by the write; else the loop.
unfoldable pub execute : Bool → List Action → Serializer → Serializer × Option (Result (List Line))
unfolding exec_loop
execute write_ok actions s =
    if s.closed
    then (s, some (err serializer_closed))
    else (if write_ok
        then exec_loop actions (record s { pending = some [] }) []
        else (record s { pending = none }, some (err write_failed)))
