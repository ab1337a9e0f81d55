-- ===== src/Tests/SmallTools.antt =====
-- The small tools at concrete inputs: find_project_root.py and container_event_handler.py.
use encrypted_zone_sdk.Base.{
  ◌≡◌, refl, ◌⊎◌, ◌≤◌, ◌++◌, Bool, true, false, Option, none, some, List, [], ◌∷◌, any, ◌==◌,
  text_eq,
}
use encrypted_zone_sdk.Base.Decimal.{show_ℕ}
use encrypted_zone_sdk.Base.Int.{pos, ◌-ℤ◌}
use encrypted_zone_sdk.Base.Result.{ok}
use encrypted_zone_sdk.Base.Text.{Text, codes, strip}
use encrypted_zone_sdk.FilePath.{FilePath, path_of, path_eq, parent}
use encrypted_zone_sdk.FindRoot.{search_from}
use encrypted_zone_sdk.FindRoot.Nearest.{Nearest, search_from-Nearest}
use encrypted_zone_sdk.Events.{
  Log, System, Round, os_error, failure_log, listening, iso, waiting, event_data, parsed_end_time,
  latency_ms, process_container_event, container_event_listener,
}
use encrypted_zone_sdk.Events.Threads.{
  is_listening, is_shut, is_closed, after_shutdown, accepting, failing, ended, idle, has_set,
  returned, starts, sees_unset, accept_fails, leaves_quietly, closes, sets_event, shuts_down,
  receiving, Shared, Pc, Move, State, listener, canceller, start, Steps, here, next,
}
use encrypted_zone_sdk.Events.Cancelled.{set-ends_listener}
use encrypted_zone_sdk.Events.Quiet.{is_error, set-IsQuiet}
use encrypted_zone_sdk.Events.Dispatch.{end_time_event, process_container_event-end_time}
use encrypted_zone_sdk.Events.Listener.{
  Event, malformed, unknown, end_time, AllCarry, logs_of, container_event_listener-logs_of,
}

abbrev project : FilePath
project = path_of true (codes "w" ∷ codes "p" ∷ [])

abbrev sources : FilePath
sources = path_of true (codes "w" ∷ codes "p" ∷ codes "src" ∷ [])

abbrev has_file : FilePath → Bool
has_file p = p == path_of true (codes "w" ∷ codes "p" ∷ codes "devkit" ∷ [])

found_above : search_from has_file sources ≡ ok project
unfolding search_from path_eq parent text_eq
found_above = refl

search_from-Nearest_example : Nearest has_file sources (search_from has_file sources)
search_from-Nearest_example = search_from-Nearest has_file sources

abbrev system : System
system = record {
  decode = λ data_bytes. data_bytes;
  fromtimestamp = λ ms. iso (codes "then");
  start_time = some (show_ℕ 40);
}

process_container_event-end_time_example : process_container_event system (end_time_event 100) ≡ (
  event_data (end_time_event 100)
      ∷ parsed_end_time (codes "then")
      ∷ latency_ms (pos 100 -ℤ pos 40)
      ∷ [],
  none,
)
process_container_event-end_time_example =
    process_container_event-end_time system (end_time_event 100) 100 40 (codes "then") refl refl
      refl

abbrev round_of : Text → Round
round_of data_bytes = record {
  cancelled = false;
  incoming = (none, data_bytes);
  cancelled_after = false;
}

abbrev some_rounds : List Round
some_rounds =
    round_of (codes "hello")
    ∷ round_of []
    ∷ round_of (codes "a:b")
    ∷ round_of (end_time_event 100)
    ∷ []

abbrev some_events : List (Option Event)
some_events =
    some (malformed (codes "hello"))
    ∷ none
    ∷ some (unknown (codes "a") (codes "b"))
    ∷ some (end_time 100 (codes "then"))
    ∷ []

some_rounds-AllCarry : AllCarry system some_rounds some_events
unfolding text_eq strip show_ℕ
some_rounds-AllCarry = (
  (refl, (_, _, refl, refl), (refl, (refl, (refl, (refl, (refl, tt)))))),
  (
    (refl, refl),
    ((refl, (_, _, refl, refl), ((refl, tt), (λ e. cc))), ((refl, (_, _, refl, refl), refl), tt)),
  ),
)

container_event_listener-logs_of_example :
    container_event_listener system true some_rounds ≡ (listening ∷ logs_of 40 some_events, waiting)
container_event_listener-logs_of_example =
    container_event_listener-logs_of system 40 refl some_rounds some_events some_rounds-AllCarry

-- The listener waits in `accept` as `set` is called.
abbrev waits_in_accept : State system
waits_in_accept = record {
  mem = record { event = false; socket = is_listening; log = listening ∷ [] };
  pc = accepting;
  caller = idle;
}

reaches_accept : Steps system (start system) 2 waits_in_accept
reaches_accept = next (next here (listener (starts refl))) (listener (sees_unset refl))

abbrev after_event : State system
after_event = record {
  mem = record { event = true; socket = is_listening; log = listening ∷ [] };
  pc = accepting;
  caller = has_set;
}

abbrev after_set : State system
after_set = record {
  mem = record { event = true; socket = is_shut; log = listening ∷ [] };
  pc = accepting;
  caller = returned;
}

reaches_event : Steps system (start system) 3 after_event
reaches_event = next reaches_accept (canceller sets_event)

reaches_set : Steps system (start system) 4 after_set
unfolding after_shutdown
reaches_set = next reaches_event (canceller shuts_down)

abbrev woken : State system
woken = record {
  mem = record { event = true; socket = is_shut; log = listening ∷ [] };
  pc = failing os_error;
  caller = returned;
}

abbrev closed_down : State system
closed_down = record {
  mem = record { event = true; socket = is_closed; log = listening ∷ [] };
  pc = ended;
  caller = returned;
}

ends : Steps system after_set 3 closed_down
unfolding failure_log
ends =
    next (next (next here (listener (accept_fails os_error))) (listener (leaves_quietly refl)))
      (listener closes)

set-ends_listener_example :
    (3 ≤ 4)
    × (ended ≡ accepting → is_closed ≡ is_shut)
    × ((ended ≡ ended) × (is_closed ≡ is_closed)
        ⊎ (ended ≡ receiving)
        ⊎ ((m : Shared) × (p : Pc) × Move system closed_down.mem ended m p))
set-ends_listener_example = set-ends_listener system reaches_set refl ends

set-IsQuiet_example :
    (more : List Log) × (closed_down.mem.log ≡ after_set.mem.log ++ more)
    × (any is_error more ≡ false)
set-IsQuiet_example = set-IsQuiet system reaches_set (λ e. cc) refl ends
