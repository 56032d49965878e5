-- ===== src/Processor/Pipeline/Cycles.antt =====
-- Every way through a cycle: what it counts, what version the exporter carries, and whether the
-- breaker's gauge follows the breaker.
use click_dog.Common.{
  ℕ, ◌+◌, ◌≡◌, ◌⊎◌, ◌∙◌, ◌≢◌, ap, refl, inl, inr, true, false, ◌&&◌, Option, none, some, Bool-cases,
  Option-cases, arith,
}
use click_dog.Model.{Error}
use click_dog.Resilience.Breaker.{half_open, CircuitBreaker, record_failure}
use click_dog.Metrics.{Metrics, Recorded, record_cycle, ran, set_leader, set_circuit_breaker_state}
use click_dog.Processor.Pipeline.{
  ServerVersionStamp, clear, refresh, World, Pipeline, on_breaker, run_canary_and_export,
  notify_on_recovery, notify_on_trip, canary_cycle, handle_circuit_open,
  handle_health_check_failure, update_circuit_breaker_state, process_admitted, answer_of, probes,
  process_led, process,
}

abbrev pub cycles : Metrics → ℕ
cycles m = m.cycles_error + m.cycles_skipped + m.cycles_success

-- What a cycle adds to the counters, by the error it returns.
abbrev pub IsOneMore : Metrics → Metrics → Option Error → Type 0
IsOneMore before after error =
    (cycles after ≡ cycles before + 1)
    × (error ≡ none → after.cycles_success ≡ before.cycles_success + 1)

cycles-record_cycle :
    (now duration : ℕ) (r : Recorded) (m : Metrics)
    → (cycles (record_cycle now duration r m) ≡ cycles m + 1)
      × (r.error ≡ none
          → r.skipped ≡ false
          → (record_cycle now duration r m).cycles_success ≡ m.cycles_success + 1)
      × ((record_cycle now duration r m).circuit_breaker_state ≡ m.circuit_breaker_state)
unfolding record_cycle
cycles-record_cycle now duration r m = ground arith

-- The counters and the stamp are not touched by a notification.
same-recovery :
    (before : Option CircuitBreaker) (p : Pipeline)
    → (cycles (notify_on_recovery before p).metrics ≡ cycles p.metrics)
      × ((notify_on_recovery before p).metrics.cycles_success ≡ p.metrics.cycles_success)
      × ((notify_on_recovery before p).server_version ≡ p.server_version)
unfolding notify_on_recovery
same-recovery none p = (refl, refl, refl)
same-recovery (some before) p = ground arith

same-trip :
    (before : Option CircuitBreaker) (p : Pipeline)
    → (cycles (notify_on_trip before p).metrics ≡ cycles p.metrics)
      × ((notify_on_trip before p).metrics.cycles_success ≡ p.metrics.cycles_success)
      × ((notify_on_trip before p).server_version ≡ p.server_version)
unfolding notify_on_trip
same-trip none p = (refl, refl, refl)
same-trip (some before) p = ground arith

canary_cycle-IsOneMore :
    (w : World) (p : Pipeline)
    → IsOneMore p.metrics (canary_cycle w p).0.metrics (canary_cycle w p).1
      × ((canary_cycle w p).0.server_version ≡ p.server_version)
unfolding canary_cycle
canary_cycle-IsOneMore w p =
    let r = run_canary_and_export w p.circuit_breaker in
    let q = record p { circuit_breaker = r.0 } in
    let s = same-recovery p.circuit_breaker q in
    (
      (
        (cycles-record_cycle w.now_unix w.duration_ms _ _).0 ∙ omega (arith, s.0),
        λ h. ground arith,
      ),
      s.2,
    )

handle_circuit_open-IsOneMore :
    (w : World) (p : Pipeline)
    → IsOneMore p.metrics (handle_circuit_open w p).0.metrics (handle_circuit_open w p).1
      × ((handle_circuit_open w p).0.server_version ≡ p.server_version)
unfolding handle_circuit_open
handle_circuit_open-IsOneMore w p = elim (Bool-cases w.canary_enabled) [
  | inl on ↦ rw on (canary_cycle-IsOneMore w p)
  | inr off ↦
      rw off
        (((cycles-record_cycle w.now_unix w.duration_ms _ p.metrics).0, λ h. ground arith), refl)
]

health-IsOneMore :
    (w : World) (p : Pipeline)
    → IsOneMore p.metrics
        (handle_health_check_failure w p).0.metrics
        (handle_health_check_failure w p).1
      × ((handle_health_check_failure w p).0.server_version ≡ p.server_version)
unfolding handle_health_check_failure
health-IsOneMore w p =
    let q = record p { circuit_breaker = on_breaker (record_failure w.now) p.circuit_breaker } in
    let s = same-trip p.circuit_breaker q in
    (
      (
        (cycles-record_cycle w.now_unix w.duration_ms _ _).0 ∙ omega (arith, s.0),
        λ h. ground arith,
      ),
      s.2,
    )

update-same :
    (w : World) (error : Option Error) (p : Pipeline)
    → (cycles (update_circuit_breaker_state w error p).metrics ≡ cycles p.metrics)
      × ((update_circuit_breaker_state w error p).metrics.cycles_success ≡ p.metrics.cycles_success)
      × ((update_circuit_breaker_state w error p).server_version ≡ p.server_version)
unfolding update_circuit_breaker_state
update-same w none p = same-recovery p.circuit_breaker _
update-same w (some e) p = same-trip p.circuit_breaker _

-- The version on the exporter: none, one that the server named in this cycle, or the one it had,
-- in a cycle whose health check passed.
abbrev pub IsConfirmed : World → ServerVersionStamp → ServerVersionStamp → Type 0
IsConfirmed w before after =
    (after.exported_version ≡ "")
    ⊎ ((w.healthy ≡ true)
        × ((w.server_version ≡ some after.exported_version)
            ⊎ ((before.force ≡ false) × (after.exported_version ≡ before.exported_version))))

refresh-IsConfirmed :
    (w : World) (s : ServerVersionStamp)
    → w.healthy ≡ true
    → IsConfirmed w s (refresh w.server_version w.now s)
unfolding refresh
refresh-IsConfirmed w s h = ground arith

cleared : (s : ServerVersionStamp) → (clear s).exported_version ≡ ""
unfolding clear
cleared s = refl

-- The accounts of a cycle that went the whole way, before the breaker is told.
abbrev pub after_live : World → Pipeline → Pipeline
after_live w p = record p {
  server_version = refresh w.server_version w.now p.server_version;
  metrics =
      record_cycle w.now_unix w.duration_ms
        (ran w.live_counts.0 w.live_counts.1 w.live_counts.2 w.live_error) p.metrics;
}

pub live-process_admitted :
    (w : World) (p : Pipeline)
    → w.canary_enabled && w.elevated ≡ false
    → w.healthy ≡ true
    → process_admitted w p
      ≡ (update_circuit_breaker_state w w.live_error (after_live w p), w.live_error)
unfolding process_admitted
live-process_admitted w p usual well = ground arith

process_admitted-facts :
    (w : World) (p : Pipeline)
    → IsOneMore p.metrics (process_admitted w p).0.metrics (process_admitted w p).1
      × IsConfirmed w p.server_version (process_admitted w p).0.server_version
unfolding process_admitted
process_admitted-facts w p = elim (Bool-cases (w.canary_enabled && w.elevated)) [
  | inl canary ↦
      let c = canary_cycle-IsOneMore w (record p { server_version = clear p.server_version }) in
      rw canary (c.0, inl (ap (λ v. v.exported_version) c.1 ∙ cleared p.server_version))
  | inr usual ↦ elim (Bool-cases w.healthy) [
    | inr sick ↦
        let c = health-IsOneMore w (record p { server_version = clear p.server_version }) in
        rw (usual, sick) (c.0, inl (ap (λ v. v.exported_version) c.1 ∙ cleared p.server_version))
    | inl well ↦
        let u = update-same w w.live_error (after_live w p) in
        let one =
          cycles-record_cycle w.now_unix w.duration_ms
            (ran w.live_counts.0 w.live_counts.1 w.live_counts.2 w.live_error) p.metrics in
        let v = refresh-IsConfirmed w p.server_version well in
        rw (live-process_admitted w p usual well) ((u.0 ∙ one.0, λ h. u.1 ∙ one.1 h refl), rw u.2 v)
  ]
]

process_led-facts :
    (w : World) (p : Pipeline)
    → IsOneMore p.metrics (process_led w p).0.metrics (process_led w p).1
      × IsConfirmed w p.server_version (process_led w p).0.server_version
unfolding process_led
process_led-facts w p = elim (Bool-cases (answer_of w.now p.circuit_breaker).1) [
  | inr refused ↦
      let asked = record p {
        circuit_breaker = (answer_of w.now p.circuit_breaker).0;
        server_version = clear p.server_version;
      } in
      let c = handle_circuit_open-IsOneMore w asked in
      rw refused (c.0, inl (ap (λ v. v.exported_version) c.1 ∙ cleared p.server_version))
  | inl admitted ↦ elim (Bool-cases (probes (answer_of w.now p.circuit_breaker).0)) [
    | inl probing ↦
        rw (admitted, probing)
          (process_admitted-facts w (record p {
            circuit_breaker = (answer_of w.now p.circuit_breaker).0;
            metrics = set_circuit_breaker_state half_open p.metrics;
          }))
    | inr not_probing ↦
        rw (admitted, not_probing)
          (process_admitted-facts w
            (record p { circuit_breaker = (answer_of w.now p.circuit_breaker).0 }))
  ]
]

-- Every cycle, on whichever path and with whatever error, is counted exactly once, as a success if
-- it returns no error.
pub process-IsOneMore :
    (w : World) (p : Pipeline) → IsOneMore p.metrics (process w p).0.metrics (process w p).1
unfolding process
process-IsOneMore w p = elim (Option-cases w.leader_gate) [
  | inl no_gate ↦ rw no_gate (process_led-facts w p).0
  | inr (true, gate) ↦
      rw gate (process_led-facts w (record p { metrics = set_leader true p.metrics })).0
  | inr (false, gate) ↦ rw gate (
    (cycles-record_cycle w.now_unix w.duration_ms _ (set_leader false p.metrics)).0,
    λ h. ground arith,
  )
]

-- After a cycle that the gate let run, the exporter carries no server version, or one that the
-- server named in this cycle, or, if its stamp was not cleared before, the one it had; a version
-- only if the cycle's health check passed.
pub process-IsConfirmed :
    (w : World) (p : Pipeline)
    → w.leader_gate ≢ some false
    → IsConfirmed w p.server_version (process w p).0.server_version
unfolding process
process-IsConfirmed w p led = elim (Option-cases w.leader_gate) [
  | inl no_gate ↦ rw no_gate (process_led-facts w p).1
  | inr (true, gate) ↦
      rw gate (process_led-facts w (record p { metrics = set_leader true p.metrics })).1
  | inr (false, gate) ↦ absurd (led gate)
]
