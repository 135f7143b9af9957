-- ===== src/Tunnel/Tests.antt =====
-- Runs of the tunnel, and the theorems at concrete inputs.
use sms_gate.Backoff.{Draw}
use sms_gate.Tunnel.Reconnects.{round_delays, dial, rejected_pause, IsNear, round_delays-IsNear}
use sms_gate.Prelude.Dict.{lookup}
use Prim.Native.String.{String}
use sms_gate.Prelude.{false, ℕ, ◌≡◌, refl, true, false, Option, none, some, List, [], ◌∷◌, arith}
use sms_gate.Prelude.Int.{pos}
use sms_gate.Prelude.Text.{codes, eq_bytes}
use sms_gate.Worker.{Row}
use sms_gate.Buffer.{Buffer, empty, insert, inserts, no_fault, pending_only, pending_rows}
use sms_gate.Buffer as Table
use sms_gate.Buffer.Rows.{IsTable, run-IsTable, Between, Unique}
use sms_gate.Buffer.Keeps.{Waits, first, later}
use sms_gate.Router.{Router, Task, busy, dispatch}
use sms_gate.Tunnel.{
  Round, task, new_manager, connected, sms_delivered_ack, dial_fails, session, run_tunnel,
  handle_inbound,
}
use sms_gate.Tunnel.Session.{
  Session, Action, starts, reads, read_fails, flush_begins, flush_goes, flush_expires, flush_stops,
  drains, run,
}
use sms_gate.Tunnel.Kept.{not_acked, pending_rows-run_tunnel}
use sms_gate.Tunnel.Delivers.{IsDelivered, acked_steps, messages_of, flushing, run-IsDelivered}
use sms_gate.Tunnel.Routed.{Told, handle_inbound-Told}

abbrev message : ℕ → Row
message n = record {
  iccid = codes "8949020000012345678";
  sender = codes "+491";
  body = codes "hi";
  pdu_hash = n ∷ [];
  smsc = [];
  received_at = pos 0;
}

abbrev two_rows : Buffer
two_rows =
    Table.run (inserts no_fault (message 5) (pos 1) ∷ inserts no_fault (message 6) (pos 2) ∷ [])
      empty

abbrev no_modems : Router
no_modems = record { registry = []; dropped = [] }

abbrev start : Session
start = record {
  manager = new_manager two_rows;
  router = no_modems;
  flush = none;
  written = [];
  live = false;
}

abbrev no_json : String → String → Option String
no_json action payload = none

-- The first row is acknowledged before the flush waits for it, so that the wait runs into its timeout; the
-- session ends while the second is waited for.
abbrev late_steps : List Action
late_steps =
    starts true true (pos 0) true
    ∷ flush_begins true
    ∷ flush_goes true
    ∷ reads true (pos 9) (sms_delivered_ack 1)
    ∷ flush_goes true
    ∷ flush_goes true
    ∷ flush_expires
    ∷ flush_goes true
    ∷ read_fails
    ∷ drains
    ∷ flush_goes true
    ∷ flush_stops
    ∷ []

-- The id that the flush registered after the drain stays in the map.
left_behind : (run (codes "gw") no_json late_steps start).manager.pending ≡ 2 ∷ []
unfolding run pending_rows Table.run eq_bytes
left_behind = refl

two_rows-IsTable : IsTable two_rows
unfolding Between Unique
two_rows-IsTable = run-IsTable _ empty (record { ascending = omega arith; unique = tt })

two_rows-Waits : Waits 2 (message 6) two_rows.rows
unfolding Table.run eq_bytes
two_rows-Waits = later _ _ (first _ _ refl refl refl)

pending_rows-run_tunnel_example :
    Waits 2 (message 6) (pending_rows (run (codes "gw") no_json late_steps start).manager.buffer)
unfolding not_acked
pending_rows-run_tunnel_example =
    pending_rows-run_tunnel (codes "gw") no_json 2 (message 6) late_steps start two_rows-IsTable
      two_rows-Waits
      (
        refl,
        (refl, (refl, (refl, (refl, (refl, (refl, (refl, (refl, (refl, (refl, (refl, tt))))))))))),
      )

run-IsDelivered_example : IsDelivered (messages_of (codes "gw") (pending_only two_rows.rows)) (
    run
      (codes "gw")
      no_json
      (flush_begins true ∷ acked_steps (pos 9) (pending_only two_rows.rows))
      (record (flushing connected 0 [] two_rows no_modems [] []) { flush = none }))
run-IsDelivered_example =
    run-IsDelivered (codes "gw") no_json (pos 9) connected 0 [] two_rows no_modems []
      two_rows-IsTable

abbrev iccid_field : String → String → Option String
iccid_field action payload = some "89"

-- The modem's queue is full.
abbrev full : Router
full = record { registry = ("89", record { tasks = []; capacity = 0 }) ∷ []; dropped = [] }

abbrev reboot : Task
reboot = record { message_id = "t1"; action = "REBOOT_MODEM"; payload = "" }

is_busy : (dispatch iccid_field reboot full).1 ≡ busy
unfolding dispatch lookup
is_busy = refl

handle_inbound-Told_example :
    Told reboot []
      (handle_inbound iccid_field true (pos 0) (task reboot) (new_manager empty) full).0.outbox
      (dispatch iccid_field reboot full).1
handle_inbound-Told_example =
    handle_inbound-Told iccid_field true (pos 0) reboot (new_manager empty) full (omega arith)

-- Two failed dials, a session, another failure: the attempt is 1 after the session, then 2.
attempts :
    (run_tunnel
      (dial_fails 0 ∷ dial_fails 503 ∷ session (λ m. m) ∷ dial_fails 0 ∷ [])
      (new_manager empty)).attempt
    ≡ 2
unfolding run_tunnel
attempts = refl

-- Two dials fail, a session comes and goes, and a dial fails: 1, 2, 1 and 2 seconds, without jitter.
abbrev even_draw : Draw
even_draw = record { coin = 1; part = record { num = 0; den = 1 } }

abbrev four_rounds : List (Round × Draw)
four_rounds =
    (dial_fails 0, even_draw)
    ∷ (dial_fails 403, even_draw)
    ∷ (session (λ m. m), even_draw)
    ∷ (dial_fails 503, even_draw)
    ∷ []

four_waits :
    round_delays 1_000_000_000 60_000_000_000 four_rounds (new_manager empty)
    ≡ 1_000_000_000 ∷ 32_000_000_000 ∷ 1_000_000_000 ∷ 2_000_000_000 ∷ []
unfolding round_delays
four_waits = refl

dial_headers :
    (dial "wss://c" "t" "gw" (pos 0) false (new_manager empty)).1.authorization ≡ "Bearer t"
unfolding dial
dial_headers = refl

forbidden_pause : rejected_pause 403 ≡ 30_000_000_000
unfolding rejected_pause
forbidden_pause = refl

round_delays-IsNear_example :
    IsNear 1_000_000_000 60_000_000_000 0 four_rounds
      (round_delays 1_000_000_000 60_000_000_000 four_rounds (new_manager empty))
round_delays-IsNear_example =
    round_delays-IsNear 1_000_000_000 60_000_000_000 four_rounds (new_manager empty) (
      (tt, omega arith),
      ((tt, omega arith), (((λ m. refl), omega arith), ((tt, omega arith), tt))),
    )
