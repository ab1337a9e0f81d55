-- ===== src/Events.antt =====
-- .devkit/scripts/container_event_handler.py: how the events of the container are read and
-- dispatched, and the loop of the listener. The sockets are parameters: what `accept` and `recv`
-- give in each round.
pub mod Dispatch
pub mod Listener
pub mod Threads
pub mod Invariant
pub mod Cancelled
pub mod Quiet
use encrypted_zone_sdk.Base.{
  ℕ, Bool, true, false, Option, none, some, List, [], ◌∷◌, ◌++◌, text_eq, ◌==◌,
}
use encrypted_zone_sdk.Base.Decimal.{parse_int}
use encrypted_zone_sdk.Base.Int.{ℤ, pos, negsuc, ◌-ℤ◌, ltz}
use encrypted_zone_sdk.Base.Text.{Text, codes, split_once, strip}

-- What is logged.
pub data Log : Type 0 where
  listening event_received : Log
  event_data parsed_end_time : Text → Log
  latency_ms : ℤ → Log
  start_time_invalid : Text → Log
  start_time_missing end_time_invalid : Log
  unknown_event malformed_event : Text → Log
  socket_error unexpected_error listener_failed : Log

-- An exception that is no `ValueError`: an `OSError`, or another one.
pub data Failure : Type 0 where
  os_error other_error : Failure

-- What `datetime.fromtimestamp(…).isoformat()` gives or raises.
pub data IsoTime : Type 0 where
  iso : Text → IsoTime
  value_error : IsoTime
  failure : Failure → IsoTime

-- A call that logs, and may fail.
abbrev pub Logged : Type 0
Logged = List Log × Option Failure

-- The latency, from the environment's `DEVKIT_START_TIME_MS`.
unfoldable pub latency_log : Option Text → ℤ → Log
latency_log none ts_end = start_time_missing
latency_log (some []) ts_end = start_time_missing
latency_log (some (c ∷ cs)) ts_end = elim (parse_int (c ∷ cs)) [
  | none ↦ start_time_invalid (c ∷ cs)
  | some ts_start ↦ latency_ms (ts_end -ℤ ts_start)
]

-- What follows once the end time is a datetime, or not.
unfoldable pub end_time_log : Option Text → ℤ → IsoTime → Logged
unfolding latency_log
end_time_log start_time ts_end (iso text) =
    (parsed_end_time text ∷ latency_log start_time ts_end ∷ [], none)
end_time_log start_time ts_end value_error = (end_time_invalid ∷ [], none)
end_time_log start_time ts_end (failure f) = ([], some f)

-- What the handler asks of the system: `bytes.decode(errors="replace")`, the datetime of a number
-- of milliseconds, and the environment's `DEVKIT_START_TIME_MS`.
pub record System : Type 0 where
  pub decode : List ℕ → Text
  pub fromtimestamp : ℤ → IsoTime
  pub start_time : Option Text

module _ (system : System) where
  open system use {decode, fromtimestamp, start_time}

  unfoldable pub handle_entrypoint_end_time_ms : Text → Logged
  unfolding end_time_log
  handle_entrypoint_end_time_ms value = elim (parse_int (strip value)) [
    | none ↦ (end_time_invalid ∷ [], none)
    | some ts_end ↦ elim (ltz ts_end (pos 0)) [
      | true ↦ (end_time_invalid ∷ [], none)
      | false ↦ end_time_log start_time ts_end (fromtimestamp ts_end)
    ]
  ]

  -- The dispatch on the name of the event.
  unfoldable pub dispatch : Text → Text → Logged
  unfolding handle_entrypoint_end_time_ms
  dispatch event_name event_value = elim (event_name == codes "entrypoint_end_time_ms") [
    | true ↦ handle_entrypoint_end_time_ms event_value
    | false ↦ (unknown_event event_name ∷ [], none)
  ]

  unfoldable pub process_decoded : Text → Logged
  unfolding dispatch split_once
  process_decoded decoded_data = elim (split_once b':' decoded_data) [
    | none ↦ (malformed_event decoded_data ∷ [], none)
    | some (event_name, event_value) ↦ dispatch event_name event_value
  ]

  unfoldable pub process_container_event : List ℕ → Logged
  unfolding process_decoded
  process_container_event data_bytes =
      let decoded_data = strip (decode data_bytes) in
      let (logs, failed) = process_decoded decoded_data in (event_data decoded_data ∷ logs, failed)

  -- What `accept` and `recv` give in a round: the bytes, or an exception.
  abbrev pub Received : Type 0
  Received = Option Failure × List ℕ

  -- The work of a round: nothing for a connection that is closed without a byte.
  unfoldable pub receive : Received → Logged
  unfolding process_container_event
  receive (some f, data_bytes) = ([], some f)
  receive (none, []) = ([], none)
  receive (none, c ∷ cs) =
      let (logs, failed) = process_container_event (c ∷ cs) in (event_received ∷ logs, failed)

-- A round of the loop: whether the event is set as the loop asks, what comes in, and whether the
-- event is set as a handler of exceptions asks.
pub record Round : Type 0 where
  pub cancelled : Bool
  pub incoming : Option Failure × List ℕ
  pub cancelled_after : Bool

-- The two handlers of the loop, which both leave it.
unfoldable pub failure_log : Bool → Failure → List Log
failure_log true f = []
failure_log false os_error = socket_error ∷ []
failure_log false other_error = unexpected_error ∷ []

-- The listener has closed its socket, or waits for a connection.
pub data ListenerState : Type 0 where
  closed waiting : ListenerState

-- The loop, over the rounds there are.
unfoldable pub listen : System → List Round → List Log × ListenerState
unfolding receive failure_log
listen system [] = ([], waiting)
listen system (r ∷ rs) =
    let (later, state) = listen system rs in
    let (logs, failed) = receive system r.incoming in
    elim (r.cancelled) [
      | true ↦ ([], closed)
      | false ↦ elim failed [
        | none ↦ (logs ++ later, state)
        | some f ↦ (logs ++ failure_log r.cancelled_after f, closed)
      ]
    ]

-- `container_event_listener`; the flag says whether `listen` and `getsockname` raise nothing.
unfoldable pub container_event_listener : System → Bool → List Round → List Log × ListenerState
unfolding listen
container_event_listener system false rounds = (listener_failed ∷ [], closed)
container_event_listener system true rounds =
    let (logs, state) = listen system rounds in (listening ∷ logs, state)
