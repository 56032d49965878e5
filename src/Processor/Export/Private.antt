-- ===== src/Processor/Export/Private.antt =====
-- What the exporter can learn of a batch.
use click_dog.Common.{ℕ, ◌≡◌, ap, some, List, [], ◌∷◌, All}
use click_dog.Family.Tokens.{Unicode}
use click_dog.Model.{OpenTelemetrySpan}
use click_dog.Export.Multi.{Outcome}
use click_dog.Filter.{QueryFilter, raw}
use click_dog.Filter.Shape.{UrlText, shape_spans_for_export}
use click_dog.Filter.Shape.Boundary.{IsPrivate, shape_span_for_export-IsPrivate}
use click_dog.Processor.Export.{bounded_by, export_spans_with_deadline}

module _ (u : Unicode) (url : UrlText) (f : QueryFilter) where
  abbrev pub IsPrivateSpan : OpenTelemetrySpan → Type 0
  IsPrivateSpan s = IsPrivate u url f f.query_text_mode s.attributes s.string_slice_attributes

  shape_spans_for_export-IsPrivate :
      (spans : List OpenTelemetrySpan)
      → (f.query_text_mode ≡ raw → ⊥)
      → All IsPrivateSpan (shape_spans_for_export u url f spans)
  unfolding shape_spans_for_export
  shape_spans_for_export-IsPrivate [] private = tt
  shape_spans_for_export-IsPrivate (s ∷ ss) private = (
    (shape_span_for_export-IsPrivate u url f s private).0,
    shape_spans_for_export-IsPrivate ss private,
  )

  -- Under a mode that restricts the query text, an export shows the exporter private spans only: two
  -- exporters that answer alike to every batch of spans without exception text, without URIs that carry
  -- a query, and with no statement but one that the redaction rules made, cannot be told apart by the
  -- export of any batch, with a deadline or without.
  pub export_spans_with_deadline-IsPrivate :
      (timeout : ℕ) (exporter other : List OpenTelemetrySpan → Outcome)
      (spans : List OpenTelemetrySpan)
      → (f.query_text_mode ≡ raw → ⊥)
      → ((batch : List OpenTelemetrySpan) → All IsPrivateSpan batch → exporter batch ≡ other batch)
      → export_spans_with_deadline u url timeout exporter (some f) spans
        ≡ export_spans_with_deadline u url timeout other (some f) spans
  unfolding export_spans_with_deadline
  export_spans_with_deadline-IsPrivate timeout exporter other spans private alike =
      ap (bounded_by timeout) (
        alike (shape_spans_for_export u url f spans)
          (shape_spans_for_export-IsPrivate spans private))
