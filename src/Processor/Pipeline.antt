-- ===== src/Processor/Pipeline.antt =====
-- internal/processor/pipeline.go, Process, with the handlers of live.go, RunCanaryAndExport of
-- canary.go and the stamp of server_version.go. What the world answers in a cycle is an argument;
-- the cycle's clock readings are one time, in nanoseconds.
pub mod Cycles
pub mod Gauge
use click_dog.Common.{
  ℕ, ◌+◌, ◌*◌, Bool, true, false, ◌&&◌, ◌||◌, not, String, str_eq, Option, none, some, List, [],
  ◌∷◌, ◌++◌, ltb, leb, is_some, if◌then◌else◌,
}
use click_dog.Model.{
  Error, sentinel, wrap, circuit_open, canary_ran, health_check, leader_standby, is_error,
}
use click_dog.Resilience.Breaker.{
  CircuitState, closed, opened, half_open, CircuitBreaker, allow, record_success, record_failure,
}
use click_dog.Metrics.{
  Metrics, record_cycle, ran, skipped_cycle, skip_leader_standby, skip_circuit_open, set_leader,
  set_circuit_breaker_state,
}

pub data WebhookEvent : Type 0 where
  circuit_breaker_opened circuit_breaker_closed error_spike : WebhookEvent

-- The stamp with what the exporter carries. An exporter or a reader that has no version to stamp is
-- not asked.
pub record ServerVersionStamp : Type 0 where
  pub last : String
  pub attempted_at : Option ℕ
  pub force : Bool
  pub exported_version : String

unfoldable pub clear : ServerVersionStamp → ServerVersionStamp
clear s = record s { force = true; last = ""; exported_version = "" }

abbrev due : Option ℕ → ℕ → Bool
due none now = true
due (some t) now = leb (t + 300_000_000_000) now

-- `version` is what the server answers, `none` for an error.
unfoldable pub refresh : Option String → ℕ → ServerVersionStamp → ServerVersionStamp
refresh version now s =
    if not s.force && not (due s.attempted_at now)
    then s
    else let tried = record s { attempted_at = some now; force = false } in
      elim version [
        | none ↦ record tried { last = ""; exported_version = "" }
        | some v ↦ record tried { last = v; exported_version = v }
      ]

-- What the world answers in one cycle.
pub record World : Type 0 where
  pub now : ℕ
  pub now_unix : ℕ
  pub duration_ms : ℕ
  pub leader_gate : Option Bool
  pub elevated : Bool  -- the poller's interval is above twice the base interval
  pub canary_enabled : Bool  -- configured, with a querier
  pub canary_query : Option Error
  pub canary_export : Option Error
  pub healthy : Bool
  pub server_version : Option String
  pub live_counts : ℕ × ℕ × ℕ  -- exported, filtered and duplicates of fetchAndProcessSpans
  pub live_error : Option Error

-- The state that a cycle changes. No breaker is `none`.
pub record Pipeline : Type 0 where
  pub circuit_breaker : Option CircuitBreaker
  pub metrics : Metrics
  pub server_version : ServerVersionStamp
  pub notified : List WebhookEvent

abbrev pub on_breaker :
    (CircuitBreaker → CircuitBreaker) → Option CircuitBreaker → Option CircuitBreaker
on_breaker f none = none
on_breaker f (some cb) = some (f cb)

unfoldable pub run_canary_and_export : World → Option CircuitBreaker → Option CircuitBreaker × Error
run_canary_and_export w cb = elim w.canary_query [
  | some e ↦ (on_breaker (record_failure w.now) cb, wrap "canary query failed" e)
  | none ↦ elim w.canary_export [
    | some e ↦ (on_breaker (record_failure w.now) cb, wrap "canary span export failed" e)
    | none ↦ (on_breaker record_success cb, sentinel canary_ran)
  ]
]

abbrev recovered : CircuitState → CircuitState → Bool
recovered closed closed = false
recovered closed opened = false
recovered closed half_open = false
recovered opened closed = true
recovered opened opened = false
recovered opened half_open = false
recovered half_open closed = true
recovered half_open opened = false
recovered half_open half_open = false

abbrev tripped : CircuitState → CircuitState → Bool
tripped closed opened = true
tripped closed closed = false
tripped closed half_open = false
tripped half_open opened = true
tripped half_open closed = false
tripped half_open half_open = false
tripped opened _ = false

unfoldable pub notify_on_recovery : Option CircuitBreaker → Pipeline → Pipeline
notify_on_recovery none p = p
notify_on_recovery (some before) p = elim p.circuit_breaker [
  | none ↦ p
  | some cb ↦
      if recovered before.state cb.state
      then record p {
        metrics = set_circuit_breaker_state closed p.metrics;
        notified = p.notified ++ circuit_breaker_closed ∷ [];
      }
      else p
]

-- The notifications of a failure that has opened the breaker.
unfoldable pub notify_on_trip : Option CircuitBreaker → Pipeline → Pipeline
notify_on_trip none p = p
notify_on_trip (some before) p = elim p.circuit_breaker [
  | none ↦ p
  | some cb ↦
      if tripped before.state cb.state
      then record p {
        metrics = set_circuit_breaker_state opened p.metrics;
        notified = p.notified ++ circuit_breaker_opened ∷ error_spike ∷ [];
      }
      else p
]

-- The canary in place of a cycle, for an open breaker and for an elevated backoff alike. The
-- sentinel of a canary that ran is not recorded as an error.
unfoldable pub canary_cycle : World → Pipeline → Pipeline × Option Error
unfolding run_canary_and_export notify_on_recovery
canary_cycle w p =
    let (cb, e) = run_canary_and_export w p.circuit_breaker in
    let told = notify_on_recovery p.circuit_breaker (record p { circuit_breaker = cb }) in
    let real = if is_error canary_ran e then none else some e in
    (
      record told { metrics = record_cycle w.now_unix w.duration_ms (ran 0 0 0 real) told.metrics },
      some e,
    )

unfoldable pub handle_circuit_open : World → Pipeline → Pipeline × Option Error
unfolding canary_cycle
handle_circuit_open w p = if w.canary_enabled then canary_cycle w p else (
  record p {
    metrics = record_cycle w.now_unix w.duration_ms (skipped_cycle skip_circuit_open) p.metrics;
  },
  some (sentinel circuit_open),
)

unfoldable pub handle_health_check_failure : World → Pipeline → Pipeline × Option Error
unfolding notify_on_trip
handle_health_check_failure w p =
    let told =
      notify_on_trip p.circuit_breaker
        (record p { circuit_breaker = on_breaker (record_failure w.now) p.circuit_breaker }) in
    (
      record told {
        metrics =
            record_cycle w.now_unix w.duration_ms (ran 0 0 0 (some (sentinel health_check)))
              told.metrics;
      },
      some (sentinel health_check),
    )

unfoldable pub update_circuit_breaker_state : World → Option Error → Pipeline → Pipeline
unfolding notify_on_trip notify_on_recovery
update_circuit_breaker_state w (some e) p =
    notify_on_trip p.circuit_breaker
      (record p { circuit_breaker = on_breaker (record_failure w.now) p.circuit_breaker })
update_circuit_breaker_state w none p =
    notify_on_recovery p.circuit_breaker
      (record p { circuit_breaker = on_breaker record_success p.circuit_breaker })

-- Behind the gate and the breaker: canary, health check, or the live cycle.
unfoldable pub process_admitted : World → Pipeline → Pipeline × Option Error
unfolding canary_cycle clear refresh handle_health_check_failure update_circuit_breaker_state
process_admitted w p =
    if w.canary_enabled && w.elevated
    then canary_cycle w (record p { server_version = clear p.server_version })
    else if not w.healthy
    then handle_health_check_failure w (record p { server_version = clear p.server_version })
    else let recorded = record p {
      server_version = refresh w.server_version w.now p.server_version;
      metrics =
          record_cycle w.now_unix w.duration_ms
            (ran w.live_counts.0 w.live_counts.1 w.live_counts.2 w.live_error) p.metrics;
    } in
      (update_circuit_breaker_state w w.live_error recorded, w.live_error)

abbrev pub answer_of : ℕ → Option CircuitBreaker → Option CircuitBreaker × Bool
answer_of now none = (none, true)
answer_of now (some cb) = let (asked, ok) = allow now cb in (some asked, ok)

abbrev probes : Option CircuitBreaker → Bool
probes none = false
probes (some cb) = elim cb.state [ half_open ↦ true | _ ↦ false ]

unfoldable pub process_led : World → Pipeline → Pipeline × Option Error
unfolding handle_circuit_open process_admitted clear
process_led w p =
    let (cb, ok) = answer_of w.now p.circuit_breaker in
    let asked = record p { circuit_breaker = cb } in
    if not ok
    then handle_circuit_open w (record asked { server_version = clear p.server_version })
    else process_admitted w (
        if probes cb
        then record asked { metrics = set_circuit_breaker_state half_open p.metrics }
        else asked)

unfoldable pub process : World → Pipeline → Pipeline × Option Error
unfolding process_led
process w p = elim w.leader_gate [
  | none ↦ process_led w p
  | some leads ↦
      let m = set_leader leads p.metrics in
      if leads then process_led w (record p { metrics = m }) else (
        record p {
          metrics = record_cycle w.now_unix w.duration_ms (skipped_cycle skip_leader_standby) m;
        },
        some (sentinel leader_standby),
      )
]

-- `UpdatePollerState`: whether the poller is left alone, and else whether it records a success.
unfoldable pub touches_poller : Option Error → Bool
touches_poller none = true
touches_poller (some e) =
    not (is_error circuit_open e || is_error canary_ran e || is_error leader_standby e)
