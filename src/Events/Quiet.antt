-- ===== src/Events/Quiet.antt =====
-- After `SocketCancelEvent.set` has set its event, the listener of
-- .devkit/scripts/container_event_handler.py logs no error of its socket.
use encrypted_zone_sdk.Base.{
  ◌≡◌, refl, sym, ap, append_assoc, arith, ◌∙◌, ◌≢◌, ℕ, Bool, true, false, Option, none, some, List,
  [], ◌∷◌, ◌++◌, any, append-nil, Bool-cases, Option-cases, inl, inr, ◌==◌, text_eq,
}
use encrypted_zone_sdk.Base.Decimal.{parse_int}
use encrypted_zone_sdk.Base.Int.{ℤ, pos, ltz}
use encrypted_zone_sdk.Base.Text.{Text, codes, split_once, strip}
use encrypted_zone_sdk.Events.{
  Log, socket_error, unexpected_error, System, Failure, IsoTime, iso, value_error, failure,
  latency_log, end_time_log, handle_entrypoint_end_time_ms, dispatch, process_decoded,
  process_container_event, Received, receive, failure_log,
}
use encrypted_zone_sdk.Events.Invariant.{has_begun, event-has_begun}
use encrypted_zone_sdk.Events.Threads.{
  Pc, reporting, next_pc, Caller, idle, has_set, returned, starts, cannot_start, sees_unset,
  sees_set, accepts, accept_fails, handles, leaves_quietly, fails_unset, reports, closes,
  sets_event, shuts_down, State, Step, listener, canceller, client, start, Steps, here, next,
}

-- The two messages of the handlers in the loop.
abbrev pub is_error : Log → Bool
is_error socket_error = true
is_error unexpected_error = true
is_error _ = false

abbrev IsQuiet : List Log → Type 0
IsQuiet logs = any is_error logs ≡ false

latency_log-IsQuiet : (t : Option Text) (e : ℤ) → IsQuiet (latency_log t e ∷ [])
unfolding latency_log
latency_log-IsQuiet none e = refl
latency_log-IsQuiet (some []) e = refl
latency_log-IsQuiet (some (c ∷ cs)) e = elim (Option-cases (parse_int (c ∷ cs))) [
  | inl x ↦ rw (x, latency_log) refl
  | inr (n, x) ↦ rw (x, latency_log) refl
]

end_time_log-IsQuiet : (t : Option Text) (e : ℤ) (i : IsoTime) → IsQuiet ((end_time_log t e i).0)
unfolding end_time_log
end_time_log-IsQuiet t e (iso text) = latency_log-IsQuiet t e
end_time_log-IsQuiet t e value_error = refl
end_time_log-IsQuiet t e (failure f) = refl

IsQuiet-append : (xs ys : List Log) → IsQuiet xs → IsQuiet ys → IsQuiet (xs ++ ys)
IsQuiet-append [] ys h h' = h'
IsQuiet-append (x ∷ xs) ys h h' = ground (arith, h, h', IsQuiet-append xs ys)

-- The listener has found the event not set, and is about to log an error.
abbrev pub is_reporting : Pc → Bool
is_reporting (reporting f) = true
is_reporting _ = false

is_reporting-next_pc : (failed : Option Failure) → is_reporting (next_pc failed) ≡ false
is_reporting-next_pc none = refl
is_reporting-next_pc (some f) = refl

begun-has_begun : (c : Caller) → c ≢ idle → has_begun c ≡ true
begun-has_begun idle h = absurd (h refl)
begun-has_begun has_set h = refl
begun-has_begun returned h = refl

module _ (system : System) where
  handle-IsQuiet : (value : Text) → IsQuiet ((handle_entrypoint_end_time_ms system value).0)
  unfolding handle_entrypoint_end_time_ms
  handle-IsQuiet value = elim (Option-cases (parse_int (strip value))) [
    | inl x ↦ rw (x, handle_entrypoint_end_time_ms) refl
    | inr (n, x) ↦ elim (Bool-cases (ltz n (pos 0))) [
      | inl neg ↦ rw (x, neg, handle_entrypoint_end_time_ms) refl
      | inr fine ↦
          rw (x, fine, handle_entrypoint_end_time_ms)
            (end_time_log-IsQuiet system.start_time n (system.fromtimestamp n))
    ]
  ]

  dispatch-IsQuiet : (name value : Text) → IsQuiet ((dispatch system name value).0)
  unfolding dispatch
  dispatch-IsQuiet name value = elim (Bool-cases (name == codes "entrypoint_end_time_ms")) [
    | inl x ↦ rw (x, dispatch) (handle-IsQuiet value)
    | inr x ↦ rw (x, dispatch) refl
  ]

  process_decoded-IsQuiet : (decoded : Text) → IsQuiet ((process_decoded system decoded).0)
  unfolding process_decoded
  process_decoded-IsQuiet decoded = elim (Option-cases (split_once b':' decoded)) [
    | inl x ↦ rw (x, process_decoded) refl
    | inr ((name, value), x) ↦ rw (x, process_decoded) (dispatch-IsQuiet name value)
  ]

  receive-IsQuiet : (incoming : Received system) → IsQuiet ((receive system incoming).0)
  unfolding receive process_container_event
  receive-IsQuiet (some f, data_bytes) = refl
  receive-IsQuiet (none, []) = refl
  receive-IsQuiet (none, c ∷ cs) = process_decoded-IsQuiet (strip (system.decode (c ∷ cs)))

  -- What a step logs.
  Logs : State system → State system → Type 0
  Logs s t = (more : List Log) × (t.mem.log ≡ s.mem.log ++ more) × IsQuiet more

  Logs-nil : (s : State system) (t : State system) → t.mem.log ≡ s.mem.log → Logs s t
  unfolding Logs
  Logs-nil s t e = ([], e ∙ sym (append-nil s.mem.log), refl)

  -- The event is set, and no error is about to be logged.
  abbrev IsCalm : State system → Type 0
  IsCalm s = (s.mem.event ≡ true) × (is_reporting s.pc ≡ false)

  Step-Logs : {s t : State system} → IsCalm s → Step system s t → IsCalm t × Logs s t
  unfolding Logs failure_log
  Step-Logs (set, calm) (listener (starts e)) = ((set, refl), (_, refl, refl))
  Step-Logs (set, calm) (listener cannot_start) = ((set, refl), (_, refl, refl))
  Step-Logs (set, calm) (listener (sees_unset e)) = absurd (cc)
  Step-Logs {s} {t} (set, calm) (listener (sees_set e)) = ((set, refl), Logs-nil s t refl)
  Step-Logs {s} {t} (set, calm) (listener (accepts e)) = ((set, refl), Logs-nil s t refl)
  Step-Logs {s} {t} (set, calm) (listener (accept_fails f)) = ((set, refl), Logs-nil s t refl)
  Step-Logs (set, calm) (listener (handles {incoming})) = (
    (set, is_reporting-next_pc ((receive system incoming).1)),
    (_, refl, receive-IsQuiet incoming),
  )
  Step-Logs (set, calm) (listener (leaves_quietly e)) = ((set, refl), (_, refl, refl))
  Step-Logs (set, calm) (listener (fails_unset e)) = absurd (cc)
  Step-Logs (set, calm) (listener reports) = absurd (cc)
  Step-Logs {s} {t} (set, calm) (listener closes) = ((set, refl), Logs-nil s t refl)
  Step-Logs {s} {t} (set, calm) (canceller sets_event) = ((refl, calm), Logs-nil s t refl)
  Step-Logs {s} {t} (set, calm) (canceller shuts_down) = ((set, calm), Logs-nil s t refl)
  Step-Logs {s} {t} (set, calm) (client incoming e) = ((set, refl), Logs-nil s t refl)

  Steps-Logs : {s t : State system} {k : ℕ} → IsCalm s → Steps system s k t → IsCalm t × Logs s t
  unfolding Logs
  Steps-Logs {s} {t} calm here = (calm, Logs-nil s t refl)
  Steps-Logs {s} calm (next run step) =
      let (calm', (more, e, quiet)) = Steps-Logs calm run in
      let (calm'', (more', e', quiet')) = Step-Logs calm' step in
      (
        calm'',
        (
          more ++ more',
          e' ∙ ap (λ log. log ++ more') e ∙ append_assoc s.mem.log more more',
          IsQuiet-append more more' quiet quiet',
        ),
      )

  -- However the threads are interleaved: from any state behind the first step of `set` on, the
  -- listener logs no error of its loop any more, whatever the socket raises as it is shut down, unless
  -- it had asked for the event before `set`, and is about to log an error.
  pub set-IsQuiet :
      {n k : ℕ} {s t : State system}
      → Steps system (start system) n s
      → s.caller ≢ idle
      → is_reporting s.pc ≡ false
      → Steps system s k t
      → (more : List Log) × (t.mem.log ≡ s.mem.log ++ more) × (any is_error more ≡ false)
  unfolding Logs
  set-IsQuiet {s} before begun calm run =
      (Steps-Logs (event-has_begun system before ∙ begun-has_begun s.caller begun, calm) run).1
