-- ===== src/Events/Cancelled.antt =====
-- `SocketCancelEvent.set` ends the listener of .devkit/scripts/container_event_handler.py.
use encrypted_zone_sdk.Base.{
  ◌≡◌, refl, sym, ap, subst, ◌∙◌, ◌⊎◌, inl, inr, ℕ, ◌+◌, ◌≤◌, Option, none, some, arith,
}
use encrypted_zone_sdk.Events.{System, Failure, os_error, receive}
use encrypted_zone_sdk.Events.Threads.{
  is_shut, is_closed, Shared, Pc, starting, checking, accepting, receiving, handling, failing,
  reporting, closing, ended, Caller, returned, next_pc, starts, cannot_start, sees_unset, sees_set,
  accepts, accept_fails, handles, leaves_quietly, fails_unset, reports, closes, sets_event,
  shuts_down, State, Step, listener, canceller, client, Move, start, Steps, here, next,
}
use encrypted_zone_sdk.Events.Invariant.{has_begun, Woken, Inv, start-Inv, Steps-Inv}

module _ (system : System) where
  -- A bound on the steps that are left once `set` has returned.
  abbrev left : Pc → ℕ
  left starting = 3
  left checking = 2
  left accepting = 3
  left receiving = 4
  left (handling incoming) = 3
  left (failing f) = 2
  left (reporting f) = 2
  left closing = 1
  left ended = 0

  left-next_pc : (failed : Option Failure) → left (next_pc failed) ≡ 2
  left-next_pc none = refl
  left-next_pc (some f) = refl

  left-le : (p : Pc) → left p ≤ 4
  left-le starting = omega arith
  left-le checking = omega arith
  left-le accepting = omega arith
  left-le receiving = omega arith
  left-le (handling incoming) = omega arith
  left-le (failing f) = omega arith
  left-le (reporting f) = omega arith
  left-le closing = omega arith
  left-le ended = omega arith

  -- Each step uses one up.
  Step-left :
      {s t : State system}
      → Step system s t
      → Inv system s
      → s.caller ≡ returned
      → (left t.pc + 1 ≤ left s.pc) × (t.caller ≡ returned)
  Step-left (listener (starts e)) inv r = (omega arith, r)
  Step-left (listener cannot_start) inv r = (omega arith, r)
  Step-left (listener (sees_unset e)) inv r = absurd (cc (sym e ∙ inv.event_set ∙ ap has_begun r))
  Step-left (listener (sees_set e)) inv r = (omega arith, r)
  Step-left {s} (listener (accepts e)) inv r =
      absurd (cc (sym e ∙ subst (λ c. Woken accepting c s.mem.socket) r inv.woken))
  Step-left (listener (accept_fails f)) inv r = (omega arith, r)
  Step-left (listener (handles {incoming})) inv r =
      (omega (arith, left-next_pc ((receive system incoming).1)), r)
  Step-left (listener (leaves_quietly e)) inv r = (omega arith, r)
  Step-left (listener (fails_unset e)) inv r = absurd (cc (sym e ∙ inv.event_set ∙ ap has_begun r))
  Step-left (listener reports) inv r = (omega arith, r)
  Step-left (client incoming e) inv r = (omega (arith, ap left e), r)
  Step-left (listener closes) inv r = (omega arith, r)
  Step-left (canceller sets_event) inv r = absurd (cc)
  Step-left (canceller shuts_down) inv r = absurd (cc)

  Steps-left :
      {s t : State system} {n : ℕ}
      → Inv system s
      → s.caller ≡ returned
      → Steps system s n t
      → (left t.pc + n ≤ left s.pc) × (t.caller ≡ returned)
  Steps-left inv r here = (omega arith, r)
  Steps-left inv r (next run step) =
      let (less, r') = Steps-left inv r run in
      let (less', r'') = Step-left step (Steps-Inv system inv run) r' in (omega arith, r'')

  -- The listener can go on, unless it is at its end, or waits in `recv`.
  goes_on :
      (m : Shared) (p : Pc) (c : Caller)
      → Inv system (record { mem = m; pc = p; caller = c })
      → c ≡ returned
      → (p ≡ ended) × (m.socket ≡ is_closed)
        ⊎ (p ≡ receiving)
        ⊎ ((m' : Shared) × (p' : Pc) × Move system m p m' p')
  goes_on m starting c inv r = inr (inr (_, _, starts inv.placed))
  goes_on m checking c inv r = inr (inr (_, _, sees_set (inv.event_set ∙ ap has_begun r)))
  goes_on m accepting c inv r = inr (inr (_, _, accept_fails os_error))
  goes_on m receiving c inv r = inr (inl refl)
  goes_on m (handling incoming) c inv r = inr (inr (_, _, handles))
  goes_on m (failing f) c inv r = inr (inr (_, _, leaves_quietly (inv.event_set ∙ ap has_begun r)))
  goes_on m (reporting f) c inv r = inr (inr (_, _, reports))
  goes_on m closing c inv r = inr (inr (_, _, closes))
  goes_on m ended c inv r = inl (refl, inv.placed)

  in_accept :
      (m : Shared) (p : Pc) (c : Caller)
      → Inv system (record { mem = m; pc = p; caller = c })
      → c ≡ returned
      → p ≡ accepting
      → m.socket ≡ is_shut
  in_accept m accepting c inv r e = subst (λ c. Woken accepting c m.socket) r inv.woken
  in_accept m starting c inv r e = absurd (cc)
  in_accept m checking c inv r e = absurd (cc)
  in_accept m receiving c inv r e = absurd (cc)
  in_accept m (handling incoming) c inv r e = absurd (cc)
  in_accept m (failing f) c inv r e = absurd (cc)
  in_accept m (reporting f) c inv r e = absurd (cc)
  in_accept m closing c inv r e = absurd (cc)
  in_accept m ended c inv r e = absurd (cc)

  -- However the threads are interleaved and whatever comes in: once `set` has returned, the
  -- listener and its client take at most four more steps; if the listener is in `accept` then, the
  -- socket is shut down, so that no connection is waited for; and the listener has a next step of its
  -- own, unless it is at its end, where its socket is closed, or in `recv`, which waits for the client
  -- of a connection that was accepted before.
  pub set-ends_listener :
      {n k : ℕ} {s t : State system}
      → Steps system (start system) n s
      → s.caller ≡ returned
      → Steps system s k t
      → (k ≤ 4)
        × (t.pc ≡ accepting → t.mem.socket ≡ is_shut)
        × ((t.pc ≡ ended) × (t.mem.socket ≡ is_closed)
            ⊎ (t.pc ≡ receiving)
            ⊎ ((m : Shared) × (p : Pc) × Move system t.mem t.pc m p))
  set-ends_listener {s} {t} before r run =
      let inv = Steps-Inv system (start-Inv system) before in
      let (less, r') = Steps-left inv r run in
      let inv' = Steps-Inv system inv run in
      (
        omega (arith, left-le s.pc),
        in_accept t.mem t.pc t.caller inv' r',
        goes_on t.mem t.pc t.caller inv' r',
      )
