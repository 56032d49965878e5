-- ===== src/Model.antt =====
-- internal/model/types.go: spans, query_log rows, export results, and Go's error values.
use click_dog.Common.{
  ℕ, Bool, true, false, ◌&&◌, ◌||◌, ◌≡◌, ◌↔◌, String, Option, List, [], ◌==◌, arith,
}
use click_dog.Common.Int.{ℤ}
use click_dog.Common.Sets.{Equality}

-- The error values that the program compares by `errors.Is`.
pub data Sentinel : Type 0 where
  circuit_open canary_ran health_check leader_standby deadline_exceeded canceled : Sentinel

-- `external` is an error of a library or a server; `wrap` is `fmt.Errorf("…: %w", err)`, and
-- `join` is `errors.Join` of errors that each carry a sink's name.
mutual
  pub data Error : Type 0 where
    sentinel : Sentinel → Error
    external : String → Error
    wrap : String → Error → Error
    join : Errors → Error

  pub data Errors : Type 0 where
    end : Errors
    named : String → Error → Errors → Errors

abbrev pub same_sentinel : Sentinel → Sentinel → Bool
same_sentinel circuit_open circuit_open = true
same_sentinel canary_ran canary_ran = true
same_sentinel health_check health_check = true
same_sentinel leader_standby leader_standby = true
same_sentinel deadline_exceeded deadline_exceeded = true
same_sentinel canceled canceled = true
same_sentinel _ _ = false

-- `errors.Is(err, target)`.
unfoldable mutual
  pub is_error : Sentinel → Error → Bool
  is_error s (sentinel t) = same_sentinel s t
  is_error s (external m) = false
  is_error s (wrap m e) = is_error s e
  is_error s (join es) = is_any s es

  pub is_any : Sentinel → Errors → Bool
  is_any s end = false
  is_any s (named n e es) = is_error s e || is_any s es

-- A trace ID is a UUID, read as its 128-bit number.
pub record SpanKey : Type 0 where
  pub trace_id : ℕ
  pub span_id : ℕ

abbrev pub key_same : SpanKey → SpanKey → Bool
key_same a b = a.trace_id == b.trace_id && a.span_id == b.span_id

pub key_same_iff : (a b : SpanKey) → (key_same a b ≡ true) ↔ (a ≡ b)
key_same_iff a b = ground arith

instance abbrev pub key_equality : Equality SpanKey
key_equality = record { same = key_same; same_iff = key_same_iff }

pub record OpenTelemetrySpan : Type 0 where
  pub hostname : String
  pub trace_id : ℕ
  pub span_id : ℕ
  pub parent_span_id : ℕ
  pub operation_name : String
  pub kind : String
  pub start_time_us : ℕ
  pub finish_time_us : ℕ
  pub attributes : List (String × String)
  pub string_slice_attributes : List (String × List String)

abbrev pub key_of : OpenTelemetrySpan → SpanKey
key_of s = record { trace_id = s.trace_id; span_id = s.span_id }

-- A row of query_log. A time is in nanoseconds, the unsigned columns are below 2 ^ 64.
pub record QueryLog : Type 0 where
  pub query_id : String
  pub query_kind : String
  pub query_operation : String
  pub event_time : ℤ
  pub query_duration_ms : ℕ
  pub elapsed_ms : ℕ
  pub query : String
  pub normalized_query_hash : ℕ
  pub normalized_query : String
  pub user : String
  pub client_name : String
  pub client_hostname : String
  pub client_address : String
  pub initial_address : String
  pub databases_visited : List String
  pub tables_visited : List String
  pub exception_code : ℤ
  pub read_rows : ℕ
  pub read_bytes : ℕ
  pub written_rows : ℕ
  pub written_bytes : ℕ
  pub result_rows : ℕ
  pub result_bytes : ℕ
  pub memory_usage : ℕ

pub record ExportSinkStatus : Type 0 where
  pub name : String
  pub sent : ℕ
  pub accepted : ℕ
  pub error : Option Error

pub record ExportResult : Type 0 where
  pub accepted : List SpanKey
  pub total_sent : ℕ
  pub total_accepted : ℕ
  pub sinks : List ExportSinkStatus

abbrev pub no_result : ExportResult
no_result = record { accepted = []; total_sent = 0; total_accepted = 0; sinks = [] }
