-- ===== src/Lib.antt =====
-- Verification of the SMS gateway: the pure core of the daemon that drives USB modems with AT commands
-- and relays their messages.
--
-- The program. A modem worker (internal/modem/worker.go) owns one port. What comes in is read from the
-- SIM as a PDU, decoded (internal/at/pdu.go), kept in a local buffer and pushed through the tunnel to
-- the cloud; what goes out comes as a task through the router to the worker of its SIM, passes the send
-- limits of that SIM (internal/modem/ratelimit.go), is encoded into PDUs by the same codec and sent. A
-- detector of repeated messages (internal/dedup), a circuit breaker (internal/breaker) and a queue of
-- messages that could not be sent (internal/dlq) stand beside it.
--
-- What models what. Pdu is internal/at/pdu.go, in the parts of that file:
--   Pdu/Septets   unpackGSM7, packGSM7, repackWithFill
--   Pdu/Alphabet  gsm7Charset, gsm7Extension, IsGSM7, encodeGSM7Text, decodeGSM7Text
--   Pdu/Address   swapNibbles, decodeBCDAddress, encodeBCDAddress, decodeSMSC, decodeSCTS, dcsEncoding
--   Pdu/Ucs2      encodeUCS2, decodeUCS2
--   Pdu/Submit    EncodePDU, encodeGSM7PDUs, encodeUCS2PDUs, buildGSM7PDU, buildUCS2PDU
--   Pdu/Deliver   DecodePDU
-- SimLimit is internal/modem/ratelimit.go: the window, the limiter of three windows (Allow, tryAll) and
-- the registry of limiters by ICCID.
-- Worker is receiveSMS of internal/modem/worker.go, over an interface (Services) of the serializer's
-- ReadSMS and DeleteSMS, the buffer's Insert and eventFn; Worker/Laws is what it relies on of them.
-- Modem is the state machine of internal/modem/worker.go (enterBanned, enterRecovery, enterReset,
-- runKeepalive, checkCapacity, pollSignalStrength, doCheckSignal and the loop of Run), over what the
-- serializer answers.
-- Tasks is doSendSMS of internal/modem/worker.go, on the limiters of SimLimit and the codec of Pdu.
-- Lifecycle is the rest of the loop of Run there: the init sequence, executeTask with the tasks that reboot
-- and delete, and drainInboundCh; Lifecycle/Acks is about acknowledgements.
-- Config is internal/config/config.go, with the YAML decoder as a parameter.
-- Router is internal/router/router.go with the part of internal/modem/registry.go that it calls: a
-- worker is the queue of its channel there.
-- Serializer is internal/at/serializer.go: the reader and Execute, whose steps interleave in any order.
-- Serializer/Send is ExecuteSend, Serializer/Responses the commands that read a response and the parsers of
-- unsolicited lines, with ParseCSQ of internal/at/csq.go.
-- Buffer is internal/buffer/buffer.go: the table is the list of its rows. Buffer/Serves puts it behind the
-- Services of Worker.
-- Tunnel is internal/tunnel/manager.go with the messages of internal/tunnel/protocol.go, over Buffer and
-- Router; Tunnel/Flush is flushBuffer, Tunnel/Session the goroutines of a session in any order,
-- Tunnel/Reconnects dial and the waits of backOff.
-- Breaker is internal/breaker/breaker.go, Dedup internal/dedup/dedup.go, Dlq internal/dlq/dlq.go.
-- Backoff is internal/backoff/backoff.go, Supervisor internal/modem/supervisor.go over the states of Modem,
-- Webhook internal/webhook/webhook.go, TokenBucket internal/ratelimit (limiter.go, and registry.go in
-- TokenBucket/Registry), DiskQueue internal/diskqueue/diskqueue.go with its files as a map from names.
-- Gateway is the HTTP endpoints of internal/gateway/gateway.go with the statuses that they show, from
-- internal/modem/worker.go and registry.go. Watchdog is internal/watchdog/watchdog.go, Watchdog/Stall the
-- goroutine of a worker that finds its loop stalled. Lifecycle/Open is NewWorker and openPort of
-- internal/modem/worker.go, Serializer/Commands the wrappers that send a fixed command.
-- Prelude holds what they share: tests on the native numbers, lists with native lengths, bit operations
-- as arithmetic, association lists for Go's maps, the bounded list that Dedup and Dlq append to,
-- hexadecimal digits, and what the code uses of Go's strings, strconv and fmt.Sscanf.
-- In each part the root file has the data and the operations, its children the theorems, and Tests runs
-- at concrete inputs.
--
-- How state and operations correspond. A method that holds a mutex is one function from the state
-- before to the state after, with its result; a sequence of calls is a list, run from the left. The
-- time that a method reads is an argument, in nanoseconds. A byte is a number below 256, and where the
-- code cuts to a byte the model has `% 256`; `int` is not bounded, since every number in the modelled
-- code is far below 2 ^ 63. A text is the list of its runes, or of its bytes where the code reads
-- bytes. An index or a slice that is out of range is a result of its own in DecodePDU, decodeSMSC, decodeBCDAddress
-- and unpackGSM7 (Pdu/Deliver, Pdu/Address/Indexed, Pdu/Septets/Indexed); elsewhere the
-- loops' own tests keep the indices inside, and the comments say so. All loops are structural
-- recursion, without fuel, but for itoa, whose 20 digits hold every number of 64 bits. SHA-256 is a parameter, with
-- nothing assumed of it; unicode/utf16, encoding/hex, strings.ToUpper and strings.TrimSpace are translated from their documentation, the last
-- two on ASCII.
--
-- Floating-point numbers (the tokens of internal/ratelimit, the delay of internal/backoff) are exact
-- fractions, scaled to whole numbers, so their rounding is not modelled; what math/rand returns is an
-- argument. Calls of the operating system, of HTTP and of JSON are parameters or given results.
--
-- Goroutines that interleave (the reader of a port and its caller; the writer, reader and flush of a
-- session) are steps of one state, and a theorem holds for every list of steps; time-outs, failed writes
-- and failed statements are in the steps. The stall watchdog of a worker is in Watchdog/Stall and not a step of Modem.run. The
-- SQL statements of the buffer are functions on its rows.
--
-- Not modelled: the JSON and the WebSocket of the tunnel, the watcher of the configuration
-- file, TLS, metrics, and the start of goroutines and servers in internal/gateway and cmd/gateway, which
-- are input and output; gen_gsm7.go generates code and is no part of the program.
pub mod Prelude
pub mod Pdu
pub mod Serializer
pub mod SimLimit
pub mod Worker
pub mod Buffer
pub mod Router
pub mod Tunnel
pub mod Modem
pub mod Tasks
pub mod Lifecycle
pub mod Config
pub mod Breaker
pub mod Dedup
pub mod Dlq
pub mod Backoff
pub mod Supervisor
pub mod Webhook
pub mod TokenBucket
pub mod DiskQueue
pub mod Gateway
pub mod Watchdog
