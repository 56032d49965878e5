-- ===== src/Tests/Boundary.antt =====
-- A span with a statement, an exception's text and a URI that carries a query, under the mode that lets
-- no text pass.
use click_dog.Common.{
  ◌≡◌, refl, inl, inr, Bool, false, none, some, List, [], ◌∷◌, any, All, is_some, Option-cases,
  if◌then◌else◌, arith,
}
use click_dog.Common.Maps.{lookup}
use click_dog.Common.Sets.{string_equality}
use click_dog.Common.Text.{bytes_same}
use click_dog.Model.{external, OpenTelemetrySpan, key_of, no_result}
use click_dog.Export.Multi.{Outcome}
use click_dog.Filter.{QueryFilter, raw, no_text}
use click_dog.Filter.Shape.{UrlText, raw_statement, shape_span_for_export}
use click_dog.Filter.Shape.Boundary.{IsPrivate, shape_span_for_export-IsPrivate}
use click_dog.Processor.Export.{export_spans_with_deadline}
use click_dog.Processor.Export.Private.{IsPrivateSpan, export_spans_with_deadline-IsPrivate}
use click_dog.Tests.Family.{ascii}

abbrev silent : QueryFilter
silent = record {
  query_text_mode = no_text;
  operation_patterns = [];
  query_blacklist_patterns = [];
  redaction_rules = [];
  whitelist_ips = [];
  whitelist_cidrs = [];
  whitelist_users = [];
  blacklist_users = [];
  has_operation_whitelist = false;
  has_ip_whitelist = false;
  has_user_whitelist = false;
  has_user_blacklist = false;
}

-- No escapes, and no folding of letters.
abbrev plain_url : UrlText
plain_url = record { query_unescape = λ t. some t; equal_fold = bytes_same }

abbrev telling : OpenTelemetrySpan
telling = record {
  hostname = "h";
  trace_id = 7;
  span_id = 1;
  parent_span_id = 0;
  operation_name = "query";
  kind = "SERVER";
  start_time_us = 10;
  finish_time_us = 20;
  attributes =
      ("db.statement", "SELECT 1")
      ∷ ("clickhouse.exception", "near 1")
      ∷ ("http.url", "/?query=SELECT")
      ∷ ("user", "u")
      ∷ [];
  string_slice_attributes = ("db.statement", "SELECT" ∷ []) ∷ [];
}

not_raw : no_text ≡ raw → ⊥
not_raw h = ground (arith, h)

shape_span_for_export-IsPrivate_example :
    IsPrivate ascii plain_url silent no_text
      (shape_span_for_export ascii plain_url silent telling).attributes
      (shape_span_for_export ascii plain_url silent telling).string_slice_attributes
    × (key_of (shape_span_for_export ascii plain_url silent telling) ≡ key_of telling)
shape_span_for_export-IsPrivate_example =
    shape_span_for_export-IsPrivate ascii plain_url silent telling not_raw

-- An exporter that takes every batch, and one that fails if it sees a statement.
abbrev discreet : List OpenTelemetrySpan → Outcome
discreet batch = (no_result, none)

abbrev has_statement : OpenTelemetrySpan → Bool
has_statement s = is_some (lookup raw_statement s.attributes)

abbrev curious : List OpenTelemetrySpan → Outcome
curious batch =
    if any has_statement batch then (no_result, some (external "statement")) else (no_result, none)

no_statement :
    (s : OpenTelemetrySpan) → IsPrivateSpan ascii plain_url silent s → has_statement s ≡ false
no_statement s p = elim (Option-cases (lookup raw_statement s.attributes)) [
  | inl nothing ↦ rw nothing refl
  | inr (v, found) ↦ elim (p.attribute raw_statement v found) [
    | inl (safe, other) ↦
        absurd
          (ground (arith, other, (string_equality.same_iff raw_statement raw_statement).1 refl))
    | inr (mode, key, statement) ↦ absurd (ground (arith, mode))
  ]
]

no_statements :
    (batch : List OpenTelemetrySpan)
    → All (IsPrivateSpan ascii plain_url silent) batch
    → any has_statement batch ≡ false
no_statements [] p = refl
no_statements (s ∷ ss) p = ground (arith, no_statement s p.0, no_statements ss p.1)

alike :
    (batch : List OpenTelemetrySpan)
    → All (IsPrivateSpan ascii plain_url silent) batch
    → discreet batch ≡ curious batch
alike batch p = ground (arith, no_statements batch p)

export_spans_with_deadline-IsPrivate_example :
    export_spans_with_deadline ascii plain_url 5 discreet (some silent) (telling ∷ [])
    ≡ export_spans_with_deadline ascii plain_url 5 curious (some silent) (telling ∷ [])
export_spans_with_deadline-IsPrivate_example =
    export_spans_with_deadline-IsPrivate ascii plain_url silent 5 discreet curious (telling ∷ [])
      not_raw alike
