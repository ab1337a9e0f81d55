-- ===== src/Events/Threads.antt =====
-- `SocketCancelEvent` of .devkit/scripts/container_event_handler.py, and the two threads that
-- `start_container_event_handler` leaves: the listener, and the one that calls `set`, once. They
-- and the client of the connection take steps in any order.
use encrypted_zone_sdk.Base.{
  ◌≡◌, ℕ, suc, Bool, true, false, Option, none, some, List, [], ◌∷◌, ◌++◌,
}
use encrypted_zone_sdk.Events.{
  Log, System, Failure, Received, receive, failure_log, listening, listener_failed,
}

-- The server socket: bound, listening, shut down while it listens, or closed.
pub data Socket : Type 0 where
  is_bound is_listening is_shut is_closed : Socket

-- `shutdown` raises an `OSError` on a socket that is not connected and does not listen, which `set`
-- passes over.
unfoldable pub after_shutdown : Socket → Socket
after_shutdown is_listening = is_shut
after_shutdown is_bound = is_bound
after_shutdown is_shut = is_shut
after_shutdown is_closed = is_closed

-- What the threads share: the event, the socket and the log.
pub record Shared : Type 0 where
  pub event : Bool
  pub socket : Socket
  pub log : List Log

-- Where the listener stands: before `listen`, at the head of the loop, in `accept`, in `recv`, behind
-- it, at the handlers of exceptions, which ask for the event, behind their question where the event
-- was not set, before `close`, and at its end.
pub data Pc : Type 0 where
  starting checking accepting receiving : Pc
  handling : Option Failure × List ℕ → Pc
  failing reporting : Failure → Pc
  closing ended : Pc

-- Where the other thread stands: before `set`, between its two steps, and behind it.
pub data Caller : Type 0 where
  idle has_set returned : Caller

abbrev pub next_pc : Option Failure → Pc
next_pc none = checking
next_pc (some f) = failing f

abbrev pub logged : Shared → List Log → Shared
logged m more = record m { log = m.log ++ more }

module _ (system : System) where
  -- A step of the listener. `accept` gives a connection only while the socket listens.
  pub data Move (m : Shared) : Pc → Shared → Pc → Type 0 where
    starts :
        m.socket ≡ is_bound
        → Move m starting (record (logged m (listening ∷ [])) { socket = is_listening }) checking
    cannot_start : Move m starting (logged m (listener_failed ∷ [])) closing
    sees_unset : m.event ≡ false → Move m checking m accepting
    sees_set : m.event ≡ true → Move m checking m closing
    accepts : m.socket ≡ is_listening → Move m accepting m receiving
    accept_fails : (f : Failure) → Move m accepting m (failing f)
    handles :
        {incoming : Received system}
        → Move m
            (handling incoming)
            (logged m ((receive system incoming).0))
            (next_pc ((receive system incoming).1))
    leaves_quietly :
        {f : Failure} → m.event ≡ true → Move m (failing f) (logged m (failure_log true f)) closing
    fails_unset : {f : Failure} → m.event ≡ false → Move m (failing f) m (reporting f)
    reports : {f : Failure} → Move m (reporting f) (logged m (failure_log false f)) closing
    closes : Move m closing (record m { socket = is_closed }) ended

  -- A step of `SocketCancelEvent.set`.
  pub data Call (m : Shared) : Caller → Shared → Caller → Type 0 where
    sets_event : Call m idle (record m { event = true }) has_set
    shuts_down : Call m has_set (record m { socket = after_shutdown m.socket }) returned

  pub record State : Type 0 where
    pub mem : Shared
    pub pc : Pc
    pub caller : Caller

  pub data Step (s : State) : State → Type 0 where
    listener : {m : Shared} {p : Pc} → Move s.mem s.pc m p → Step s (record s { mem = m; pc = p })
    canceller :
        {m : Shared} {c : Caller}
        → Call s.mem s.caller m c
        → Step s (record s { mem = m; caller = c })
    -- The client of the connection sends, or closes or breaks it; till then `recv` blocks.
    client :
        (incoming : Received system)
        → s.pc ≡ receiving
        → Step s (record s { pc = handling incoming })

  -- What `start_container_event_handler` leaves.
  abbrev pub start : State
  start = record {
    mem = record { event = false; socket = is_bound; log = [] };
    pc = starting;
    caller = idle;
  }

  -- So many steps from a state to another.
  pub data Steps (s : State) : ℕ → State → Type 0 where
    here : Steps s 0 s
    next : {n : ℕ} {t u : State} → Steps s n t → Step t u → Steps s (suc n) u
