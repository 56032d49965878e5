-- ===== src/Processor/Pipeline/Gauge.antt =====
-- The gauge that /status reads for the breaker's state, against the breaker.
use click_dog.Common.{
  ℕ, ◌+◌, ◌≤◌, ◌≡◌, ◌≢◌, ◌⊎◌, ◌∙◌, sym, refl, inl, inr, true, false, ◌&&◌, Option, none, some,
  Bool-cases, Option-cases, arith,
}
use click_dog.Model.{Error}
use click_dog.Resilience.Breaker.{
  closed, opened, half_open, CircuitBreaker, allow, record_success, record_failure,
}
use click_dog.Metrics.{Metrics, Recorded, record_cycle, set_leader, set_circuit_breaker_state}
use click_dog.Processor.Pipeline.{
  clear, World, Pipeline, on_breaker, run_canary_and_export, notify_on_recovery, notify_on_trip,
  canary_cycle, handle_circuit_open, handle_health_check_failure, update_circuit_breaker_state,
  process_admitted, answer_of, probes, process_led, process,
}
use click_dog.Processor.Pipeline.Cycles.{after_live, live-process_admitted}

abbrev pub Shows : Option CircuitBreaker → Metrics → Type 0
Shows none m = Unit
Shows (some cb) m = m.circuit_breaker_state ≡ cb.state

abbrev pub IsSynced : Pipeline → Type 0
IsSynced p = Shows p.circuit_breaker p.metrics

same-record_cycle :
    (now duration : ℕ) (r : Recorded) (m : Metrics)
    → (record_cycle now duration r m).circuit_breaker_state ≡ m.circuit_breaker_state
unfolding record_cycle
same-record_cycle now duration r m = ground arith

Shows-record_cycle :
    (cb : Option CircuitBreaker) (now duration : ℕ) (r : Recorded) (m : Metrics)
    → Shows cb m
    → Shows cb (record_cycle now duration r m)
Shows-record_cycle none now duration r m s = tt
Shows-record_cycle (some cb) now duration r m s = same-record_cycle now duration r m ∙ s

-- A failure, and what is notified of it.
trip-IsSynced :
    (now : ℕ) (cb : Option CircuitBreaker) (p : Pipeline)
    → Shows cb p.metrics
    → IsSynced
        (notify_on_trip cb (record p { circuit_breaker = on_breaker (record_failure now) cb }))
unfolding notify_on_trip record_failure
trip-IsSynced now none p s = tt
trip-IsSynced now (some cb) p s = ground arith

recovery-IsSynced :
    (cb : Option CircuitBreaker) (p : Pipeline)
    → Shows cb p.metrics
    → IsSynced (notify_on_recovery cb (record p { circuit_breaker = on_breaker record_success cb }))
unfolding notify_on_recovery record_success
recovery-IsSynced none p s = tt
recovery-IsSynced (some cb) p s = ground arith

-- A canary in the place of a cycle that an open breaker refused.
canary_cycle-IsSynced :
    (w : World) (cb : CircuitBreaker) (p : Pipeline)
    → cb.state ≡ opened
    → Shows (some cb) p.metrics
    → IsSynced (canary_cycle w (record p { circuit_breaker = some cb })).0
unfolding canary_cycle run_canary_and_export notify_on_recovery record_success record_failure
    record_cycle
canary_cycle-IsSynced w cb p o s = ground arith

open-IsSynced :
    (w : World) (cb : CircuitBreaker) (p : Pipeline)
    → cb.state ≡ opened
    → Shows (some cb) p.metrics
    → IsSynced (handle_circuit_open w (record p { circuit_breaker = some cb })).0
unfolding handle_circuit_open
open-IsSynced w cb p o s = elim (Bool-cases w.canary_enabled) [
  | inl on ↦ rw on (canary_cycle-IsSynced w cb p o s)
  | inr off ↦ rw off (Shows-record_cycle (some cb) w.now_unix w.duration_ms _ p.metrics s)
]

update-IsSynced :
    (w : World) (error : Option Error) (p : Pipeline)
    → IsSynced p
    → IsSynced (update_circuit_breaker_state w error p)
unfolding update_circuit_breaker_state
update-IsSynced w none p s = recovery-IsSynced p.circuit_breaker p s
update-IsSynced w (some e) p s = trip-IsSynced w.now p.circuit_breaker p s

health-IsSynced :
    (w : World) (p : Pipeline) → IsSynced p → IsSynced (handle_health_check_failure w p).0
unfolding handle_health_check_failure
health-IsSynced w p s =
    Shows-record_cycle _ w.now_unix w.duration_ms _ _ (trip-IsSynced w.now p.circuit_breaker p s)

process_admitted-IsSynced :
    (w : World) (p : Pipeline)
    → w.canary_enabled && w.elevated ≡ false
    → IsSynced p
    → IsSynced (process_admitted w p).0
unfolding process_admitted
process_admitted-IsSynced w p usual s = elim (Bool-cases w.healthy) [
  | inr sick ↦
      rw (usual, sick) (health-IsSynced w (record p { server_version = clear p.server_version }) s)
  | inl well ↦ rw (live-process_admitted w p usual well) (
      update-IsSynced w w.live_error (after_live w p)
        (Shows-record_cycle p.circuit_breaker w.now_unix w.duration_ms _ p.metrics s))
]

-- What `Allow` leaves: refused is still open, a probe is half-open, and else nothing has changed.
answer-cases :
    (now : ℕ) (cb : CircuitBreaker) (m : Metrics)
    → Shows (some cb) m
    → (((allow now cb).1 ≡ false)
        × ((allow now cb).0.state ≡ opened)
        × Shows (some (allow now cb).0) m)
      ⊎ (((allow now cb).1 ≡ true)
          × (probes (some (allow now cb).0) ≡ true)
          × ((allow now cb).0.state ≡ half_open))
      ⊎ (((allow now cb).1 ≡ true)
          × (probes (some (allow now cb).0) ≡ false)
          × Shows (some (allow now cb).0) m)
unfolding allow
answer-cases now cb m s = ground arith

led-IsSynced :
    (w : World) (cb : Option CircuitBreaker) (p : Pipeline)
    → ((answer_of w.now cb).1 ≡ true → w.canary_enabled && w.elevated ≡ false)
    → Shows cb p.metrics
    → IsSynced (process_led w (record p { circuit_breaker = cb })).0
unfolding process_led
led-IsSynced w none p usual s =
    process_admitted-IsSynced w (record p { circuit_breaker = none }) (usual refl) tt
led-IsSynced w (some cb) p usual s = elim (answer-cases w.now cb p.metrics s) [
  | inl (refused, still_open, shows) ↦ rw refused (
      open-IsSynced w (allow w.now cb).0 (record p { server_version = clear p.server_version })
        still_open shows)
  | inr (inl (admitted, probing, state)) ↦
      rw (admitted, probing)
        (process_admitted-IsSynced w
          (record p {
            circuit_breaker = some (allow w.now cb).0;
            metrics = set_circuit_breaker_state half_open p.metrics;
          })
          (usual admitted) (sym state))
  | inr (inr (admitted, not_probing, shows)) ↦
      rw (admitted, not_probing)
        (process_admitted-IsSynced w (record p { circuit_breaker = some (allow w.now cb).0 })
          (usual admitted) shows)
]

-- A gauge that shows the breaker's state shows it after a cycle as well: in a standby, behind a
-- breaker that refuses the cycle, its canary included, and else unless the canary is configured and
-- the backoff elevated.
pub process-IsSynced :
    (w : World) (p : Pipeline)
    → (w.leader_gate ≢ some false
        → (answer_of w.now p.circuit_breaker).1 ≡ true
        → w.canary_enabled && w.elevated ≡ false)
    → IsSynced p
    → IsSynced (process w p).0
unfolding process
process-IsSynced w p usual s = elim (Option-cases w.leader_gate) [
  | inl no_gate ↦
      rw no_gate (led-IsSynced w p.circuit_breaker p (usual (λ shut. cc (sym no_gate ∙ shut))) s)
  | inr (true, gate) ↦ rw gate (
      led-IsSynced w p.circuit_breaker (record p { metrics = set_leader true p.metrics })
        (usual (λ shut. ground (arith, sym gate ∙ shut))) (led_too p.circuit_breaker p.metrics s))
  | inr (false, gate) ↦ rw gate (
      Shows-record_cycle p.circuit_breaker w.now_unix w.duration_ms _ (set_leader false p.metrics)
        (stood_by p.circuit_breaker p.metrics s))
]
  where
    led_too : (cb : Option CircuitBreaker) (m : Metrics) → Shows cb m → Shows cb (set_leader true m)
    led_too none m s = tt
    led_too (some cb) m s = s

    stood_by :
        (cb : Option CircuitBreaker) (m : Metrics) → Shows cb m → Shows cb (set_leader false m)
    stood_by none m s = tt
    stood_by (some cb) m s = s

-- In an elevated backoff a failing canary can open a closed breaker, and neither the gauge nor the
-- webhook is told.
pub canary_cycle-silent :
    (w : World) (cb : CircuitBreaker) (p : Pipeline) (e : Error)
    → cb.state ≡ closed
    → cb.failure_threshold ≤ cb.failures + 1
    → w.canary_enabled && w.elevated ≡ true
    → w.canary_query ≡ some e
    → let q = (process_admitted w (record p { circuit_breaker = some cb })).0 in
      (q.circuit_breaker ≡ some (record_failure w.now cb))
      × ((record_failure w.now cb).state ≡ opened)
      × (q.metrics.circuit_breaker_state ≡ p.metrics.circuit_breaker_state)
      × (q.notified ≡ p.notified)
unfolding process_admitted canary_cycle run_canary_and_export notify_on_recovery record_failure
    record_cycle
canary_cycle-silent w cb p e c t canary fails = ground arith
