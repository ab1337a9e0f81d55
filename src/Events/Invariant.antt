-- ===== src/Events/Invariant.antt =====
-- What holds of the two threads of .devkit/scripts/container_event_handler.py after any steps.
use encrypted_zone_sdk.Base.{
  ◌≡◌, refl, sym, subst, ◌∙◌, ◌⊎◌, inl, inr, ℕ, Bool, true, false, Option, none, some, arith,
}
use encrypted_zone_sdk.Events.{System, Failure, receive}
use encrypted_zone_sdk.Events.Threads.{
  Socket, is_bound, is_listening, is_shut, is_closed, after_shutdown, Pc, starting, checking,
  accepting, receiving, handling, failing, reporting, closing, ended, Caller, idle, has_set,
  returned, next_pc, starts, cannot_start, sees_unset, sees_set, accepts, accept_fails, handles,
  leaves_quietly, fails_unset, reports, closes, sets_event, shuts_down, State, Step, listener,
  canceller, client, start, Steps, here, next,
}

-- The event is set exactly behind the first step of `set`.
abbrev pub has_begun : Caller → Bool
has_begun idle = false
has_begun has_set = true
has_begun returned = true

-- The socket at each place of the listener.
abbrev pub Placed : Pc → Socket → Type 0
Placed starting socket = socket ≡ is_bound
Placed closing socket = Unit
Placed ended socket = socket ≡ is_closed
Placed _ socket = (socket ≡ is_listening) ⊎ (socket ≡ is_shut)

-- The listener does not wait in `accept` on a socket that listens, once `set` has returned.
abbrev pub Woken : Pc → Caller → Socket → Type 0
Woken accepting returned socket = socket ≡ is_shut
Woken _ _ _ = Unit

Woken-unset : (c : Caller) (socket : Socket) → has_begun c ≡ false → Woken accepting c socket
Woken-unset idle socket h = tt
Woken-unset has_set socket h = absurd (cc)
Woken-unset returned socket h = absurd (cc)

Woken-has_set : (p : Pc) (socket : Socket) → Woken p has_set socket
Woken-has_set accepting socket = tt
Woken-has_set _ socket = tt

-- Behind the work of a round.
Placed-next_pc :
    (failed : Option Failure) (socket : Socket)
    → (socket ≡ is_listening) ⊎ (socket ≡ is_shut)
    → Placed (next_pc failed) socket
Placed-next_pc none socket h = h
Placed-next_pc (some f) socket h = h

Woken-next_pc :
    (failed : Option Failure) (c : Caller) (socket : Socket) → Woken (next_pc failed) c socket
Woken-next_pc none c socket = tt
Woken-next_pc (some f) c socket = tt

-- `shutdown` on a socket that listens or is shut down leaves it shut down.
after_shutdown-is_shut :
    (socket : Socket)
    → (socket ≡ is_listening) ⊎ (socket ≡ is_shut)
    → after_shutdown socket ≡ is_shut
unfolding after_shutdown
after_shutdown-is_shut is_listening h = refl
after_shutdown-is_shut is_shut h = refl
after_shutdown-is_shut is_bound h = absurd (ground arith)
after_shutdown-is_shut is_closed h = absurd (ground arith)

Placed-after_shutdown :
    (p : Pc) (socket : Socket) → Placed p socket → Placed p (after_shutdown socket)
unfolding after_shutdown
Placed-after_shutdown starting socket h = rw h refl
Placed-after_shutdown checking socket h = inr (after_shutdown-is_shut socket h)
Placed-after_shutdown accepting socket h = inr (after_shutdown-is_shut socket h)
Placed-after_shutdown receiving socket h = inr (after_shutdown-is_shut socket h)
Placed-after_shutdown (handling incoming) socket h = inr (after_shutdown-is_shut socket h)
Placed-after_shutdown (failing f) socket h = inr (after_shutdown-is_shut socket h)
Placed-after_shutdown (reporting f) socket h = inr (after_shutdown-is_shut socket h)
Placed-after_shutdown closing socket h = tt
Placed-after_shutdown ended socket h = rw h refl

Woken-after_shutdown :
    (p : Pc) (socket : Socket) → Placed p socket → Woken p returned (after_shutdown socket)
Woken-after_shutdown accepting socket h = after_shutdown-is_shut socket h
Woken-after_shutdown _ socket h = tt

module _ (system : System) where
  pub record Inv (s : State system) : Type 0 where
    pub event_set : s.mem.event ≡ has_begun s.caller
    pub placed : Placed s.pc s.mem.socket
    pub woken : Woken s.pc s.caller s.mem.socket

  pub start-Inv : Inv (start system)
  start-Inv = record { event_set = refl; placed = refl; woken = tt }

  Step-Inv : {s t : State system} → Step system s t → Inv s → Inv t
  Step-Inv (listener (starts e)) inv = record {
    event_set = inv.event_set;
    placed = inl refl;
    woken = tt;
  }
  Step-Inv (listener cannot_start) inv = record {
    event_set = inv.event_set;
    placed = tt;
    woken = tt;
  }
  Step-Inv {s} (listener (sees_unset e)) inv = record {
    event_set = inv.event_set;
    placed = inv.placed;
    woken = Woken-unset s.caller s.mem.socket (sym inv.event_set ∙ e);
  }
  Step-Inv (listener (sees_set e)) inv = record {
    event_set = inv.event_set;
    placed = tt;
    woken = tt;
  }
  Step-Inv (listener (accepts e)) inv = record {
    event_set = inv.event_set;
    placed = inv.placed;
    woken = tt;
  }
  Step-Inv (listener (accept_fails f)) inv = record {
    event_set = inv.event_set;
    placed = inv.placed;
    woken = tt;
  }
  Step-Inv {s} (listener (handles {incoming})) inv = record {
    event_set = inv.event_set;
    placed = Placed-next_pc ((receive system incoming).1) s.mem.socket inv.placed;
    woken = Woken-next_pc ((receive system incoming).1) s.caller s.mem.socket;
  }
  Step-Inv (listener (leaves_quietly e)) inv = record {
    event_set = inv.event_set;
    placed = tt;
    woken = tt;
  }
  Step-Inv (listener (fails_unset e)) inv = record {
    event_set = inv.event_set;
    placed = inv.placed;
    woken = tt;
  }
  Step-Inv (listener reports) inv = record { event_set = inv.event_set; placed = tt; woken = tt }
  Step-Inv {s} (client incoming e) inv = record {
    event_set = inv.event_set;
    placed = subst (λ p. Placed p s.mem.socket) e inv.placed;
    woken = tt;
  }
  Step-Inv (listener closes) inv = record { event_set = inv.event_set; placed = refl; woken = tt }
  Step-Inv {s} (canceller sets_event) inv = record {
    event_set = refl;
    placed = inv.placed;
    woken = Woken-has_set s.pc s.mem.socket;
  }
  Step-Inv {s} (canceller shuts_down) inv = record {
    event_set = inv.event_set;
    placed = Placed-after_shutdown s.pc s.mem.socket inv.placed;
    woken = Woken-after_shutdown s.pc s.mem.socket inv.placed;
  }

  pub Steps-Inv : {s t : State system} {n : ℕ} → Inv s → Steps system s n t → Inv t
  Steps-Inv inv here = inv
  Steps-Inv inv (next r st) = Step-Inv st (Steps-Inv inv r)

  pub event-has_begun :
      {n : ℕ} {s : State system}
      → Steps system (start system) n s
      → s.mem.event ≡ has_begun s.caller
  event-has_begun before = Inv.event_set (Steps-Inv start-Inv before)
