-- ===== src/Events/Dispatch.antt =====
-- How the one known event of .devkit/scripts/container_event_handler.py is read.
use encrypted_zone_sdk.Base.{
  all, not, true, ◌≡◌, refl, ℕ, false, none, some, List, [], ◌∷◌, ◌++◌, arith, All-append, ◌≢◌,
  text_eq,
}
use encrypted_zone_sdk.Base.Decimal.{
  show_ℕ, show_ℕ-Solid, show_ℕ-ne-nil, parse_int, parse_int-show_ℕ,
}
use encrypted_zone_sdk.Base.Int.{pos, ◌-ℤ◌, ltz}
use encrypted_zone_sdk.Base.Text.{Text, codes, Solid, strip-Solid, is_space}
use encrypted_zone_sdk.Events.{
  event_data, parsed_end_time, latency_ms, System, iso, latency_log, dispatch, end_time_log,
  handle_entrypoint_end_time_ms, process_decoded, process_container_event,
}

-- What the container sends at the end of its entrypoint.
abbrev pub end_time_event : ℕ → Text
end_time_event n = codes "entrypoint_end_time_ms:" ++ show_ℕ n

all-Solid : (s : Text) → all (λ c. not (is_space c)) s ≡ true → Solid s
all-Solid [] _ = tt
all-Solid (c ∷ s) h = (ground arith, all-Solid s (ground arith))

end_time_event-Solid : (n : ℕ) → Solid (end_time_event n)
unfolding is_space
end_time_event-Solid n =
    All-append _ (codes "entrypoint_end_time_ms:") (show_ℕ n)
      (all-Solid (codes "entrypoint_end_time_ms:") refl) (show_ℕ-Solid n)

latency_log-parsed :
    (s : Text) (n m : ℕ)
    → s ≢ []
    → parse_int s ≡ some (pos m)
    → latency_log (some s) (pos n) ≡ latency_ms (pos n -ℤ pos m)
unfolding latency_log
latency_log-parsed [] n m ne e = absurd (ne refl)
latency_log-parsed (c ∷ cs) n m ne e = rw (e, latency_log) refl

not_negative : (n : ℕ) → ltz (pos n) (pos 0) ≡ false
not_negative n = ground arith

pub handle-show_ℕ :
    (system : System) (n m : ℕ) (text : Text)
    → system.fromtimestamp (pos n) ≡ iso text
    → system.start_time ≡ some (show_ℕ m)
    → handle_entrypoint_end_time_ms system (show_ℕ n)
      ≡ (parsed_end_time text ∷ latency_ms (pos n -ℤ pos m) ∷ [], none)
unfolding handle_entrypoint_end_time_ms end_time_log
handle-show_ℕ system n m text t s =
    rw
      (
        strip-Solid (show_ℕ n) (show_ℕ-Solid n),
        handle_entrypoint_end_time_ms,
        parse_int-show_ℕ n,
        not_negative n,
        s,
        t,
        latency_log-parsed (show_ℕ m) n m (show_ℕ-ne-nil m) (parse_int-show_ℕ m),
      )
      refl

-- If the bytes decode to the event of an end time `n`, the start time in the environment is `m`
-- and `n` has a datetime, then both are logged, with the difference `n - m` of the two as an
-- integer, and nothing is raised.
pub process_container_event-end_time :
    (system : System) (data_bytes : List ℕ) (n m : ℕ) (text : Text)
    → system.decode data_bytes ≡ end_time_event n
    → system.fromtimestamp (pos n) ≡ iso text
    → system.start_time ≡ some (show_ℕ m)
    → process_container_event system data_bytes ≡ (
      event_data (end_time_event n) ∷ parsed_end_time text ∷ latency_ms (pos n -ℤ pos m) ∷ [],
      none,
    )
unfolding process_container_event process_decoded dispatch text_eq
process_container_event-end_time system data_bytes n m text d t s =
    rw
      (
        d,
        strip-Solid (end_time_event n) (end_time_event-Solid n),
        handle-show_ℕ system n m text t s,
      )
      refl
