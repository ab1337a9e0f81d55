-- ===== src/Events/Listener.antt =====
-- What the listener of .devkit/scripts/container_event_handler.py logs of the events that come in.
use encrypted_zone_sdk.Base.{
  ◌≡◌, refl, ap, ◌∙◌, ◌≢◌, ℕ, true, false, Bool-cases, none, some, Option, List, [], ◌∷◌, ◌++◌,
  ◌==◌, ==_iff, text_eq, inl, inr,
}
use encrypted_zone_sdk.Base.Decimal.{show_ℕ}
use encrypted_zone_sdk.Base.Int.{pos, ◌-ℤ◌}
use encrypted_zone_sdk.Base.KeyValue.{split_once-append, split_once-Lacks}
use encrypted_zone_sdk.Base.Text.{Text, codes, strip, Lacks}
use encrypted_zone_sdk.Events.{
  Log, event_received, event_data, parsed_end_time, latency_ms, unknown_event, malformed_event,
  System, iso, Round, dispatch, process_decoded, process_container_event, receive, listen, waiting,
  listening, container_event_listener,
}
use encrypted_zone_sdk.Events.Dispatch.{end_time_event, handle-show_ℕ}

-- What a container may send: an event with no colon, one with a name that is not known, or the end
-- time `n`, with its datetime.
pub data Event : Type 0 where
  malformed : Text → Event
  unknown : Text → Text → Event
  end_time : ℕ → Text → Event

abbrev pub text_of : Event → Text
text_of (malformed text) = text
text_of (unknown name value) = name ++ (b':' ∷ value)
text_of (end_time n text) = end_time_event n

abbrev pub IsEvent : System → Event → Type 0
IsEvent system (malformed text) = Lacks b':' text
IsEvent system (unknown name value) = Lacks b':' name × (name ≢ codes "entrypoint_end_time_ms")
IsEvent system (end_time n text) = system.fromtimestamp (pos n) ≡ iso text

-- The last message of an event, where the environment has the start time `start`.
abbrev pub answer_to : ℕ → Event → List Log
answer_to start (malformed text) = malformed_event text ∷ []
answer_to start (unknown name value) = unknown_event name ∷ []
answer_to start (end_time n text) = parsed_end_time text ∷ latency_ms (pos n -ℤ pos start) ∷ []

-- What is logged of a connection, which sends an event, or is closed without a byte.
abbrev pub log_of : ℕ → Option Event → List Log
log_of start none = []
log_of start (some event) = event_received ∷ event_data (text_of event) ∷ answer_to start event

abbrev pub logs_of : ℕ → List (Option Event) → List Log
logs_of start [] = []
logs_of start (event ∷ events) = log_of start event ++ logs_of start events

-- A round in which the event is not set, and a connection sends this event, perhaps with white space
-- around it.
abbrev pub Carries : System → Round → Option Event → Type 0
Carries system r none = (r.cancelled ≡ false) × (r.incoming ≡ (none, []))
Carries system r (some event) =
    (r.cancelled ≡ false)
    × ((byte : ℕ) × (bytes : List ℕ) × (r.incoming ≡ (none, byte ∷ bytes))
        × (strip (system.decode (byte ∷ bytes)) ≡ text_of event))
    × IsEvent system event

abbrev pub AllCarry : System → List Round → List (Option Event) → Type 0
AllCarry system [] [] = Unit
AllCarry system (r ∷ rs) (event ∷ events) = Carries system r event × AllCarry system rs events
AllCarry system _ _ = ⊥

module _ (system : System) (start : ℕ) (started : system.start_time ≡ some (show_ℕ start)) where
  process_decoded-text_of :
      (event : Event)
      → IsEvent system event
      → process_decoded system (text_of event) ≡ (answer_to start event, none)
  unfolding process_decoded dispatch text_eq
  process_decoded-text_of (malformed text) h =
      rw (split_once-Lacks b':' text h, process_decoded) refl
  process_decoded-text_of (unknown name value) (lacks, other) =
      rw (split_once-append b':' name value lacks, process_decoded)
        (elim (Bool-cases (name == codes "entrypoint_end_time_ms")) [
          | inl same ↦ absurd (other ((==_iff name (codes "entrypoint_end_time_ms")).0 same))
          | inr different ↦ rw (different, dispatch) refl
        ])
  process_decoded-text_of (end_time n text) h =
      rw (handle-show_ℕ system n start text h started) refl

  receive-log_of :
      (r : Round) (event : Option Event)
      → Carries system r event
      → receive system r.incoming ≡ (log_of start event, none)
  unfolding receive process_container_event
  receive-log_of r none (unset, empty) = rw (empty, receive) refl
  receive-log_of r (some event) (unset, (byte, bytes, sent, decoded), known) =
      ap (receive system) sent
      ∙ rw (decoded, process_container_event) (rw (process_decoded-text_of event known) refl)

  Carries-unset : (r : Round) (event : Option Event) → Carries system r event → r.cancelled ≡ false
  Carries-unset r none h = h.0
  Carries-unset r (some event) h = h.0

  listen-logs_of :
      (rounds : List Round) (events : List (Option Event))
      → AllCarry system rounds events
      → listen system rounds ≡ (logs_of start events, waiting)
  unfolding listen
  listen-logs_of [] [] _ = refl
  listen-logs_of [] (event ∷ events) h = absurd h
  listen-logs_of (r ∷ rs) [] h = absurd h
  listen-logs_of (r ∷ rs) (event ∷ events) (h, hs) = rw (Carries-unset r event h) (
      rw (ap (λ x. x.1) (receive-log_of r event h), listen-logs_of rs events hs)
        (rw (ap (λ x. x.0) (receive-log_of r event h)) refl))

  -- If the environment has a start time, and each connection sends an event or nothing, an end time
  -- with a datetime, while the event is not set: the listener logs each event that comes in, with its
  -- data and what follows from it, in order, and waits on: neither a malformed nor an unknown event
  -- nor a connection without a byte ends it.
  pub container_event_listener-logs_of :
      (rounds : List Round) (events : List (Option Event))
      → AllCarry system rounds events
      → container_event_listener system true rounds ≡ (listening ∷ logs_of start events, waiting)
  unfolding container_event_listener
  container_event_listener-logs_of rounds events h = rw (listen-logs_of rounds events h) refl
