-- ===== src/Filter/Shape.antt =====
-- internal/filter/filter.go: ShapeSpanForExport and the attributes that carry a statement's text. A text
-- is read by its runes; Go's `url.QueryUnescape` and `strings.EqualFold` are parameters.
pub mod Boundary
use click_dog.Common.{
  ℕ, String, Bool, true, false, not, ◌&&◌, ◌||◌, Option, none, some, List, [], ◌∷◌, ◌++◌, map, any,
  is_empty, ◌==◌, if◌then◌else◌,
}
use click_dog.Common.Maps.{lookup, put, drop_if, delete}
use click_dog.Common.Sets.{keep, string_equality}
use click_dog.Common.Text.{Text, codes, bytes_same}
use click_dog.Family.Tokens.{Unicode, take_while, drop_while, trim, tail}
use click_dog.Model.{OpenTelemetrySpan}
use click_dog.Filter.{
  QueryTextMode, raw, redacted, normalized_only, no_text, QueryFilter, redact_query_for_export,
}
use mathlib.Core.List.{reverse}

-- `none` is an error of `url.QueryUnescape`.
pub record UrlText : Type 0 where
  pub query_unescape : Text → Option Text
  pub equal_fold : Text → Text → Bool

abbrev pub Attributes : Type 0
Attributes = List (String × String)

abbrev pub SliceAttributes : Type 0
SliceAttributes = List (String × List String)

abbrev pub raw_statement : String
raw_statement = "db.statement"

abbrev normalized_statement : String
normalized_statement = "db.normalized_query"

abbrev enriched_normalized_query : String
enriched_normalized_query = "query_log.normalized_query"

-- Go's `strings.HasPrefix`, `HasSuffix` and `Contains`.
unfoldable pub has_prefix : Text → Text → Bool
has_prefix cs [] = true
has_prefix [] (d ∷ ds) = false
has_prefix (c ∷ cs) (d ∷ ds) = c == d && has_prefix cs ds

unfoldable pub has_suffix : Text → Text → Bool
unfolding has_prefix
has_suffix cs ds = has_prefix (reverse cs) (reverse ds)

unfoldable pub has_part : Text → Text → Bool
unfolding has_prefix
has_part [] ds = is_empty ds
has_part (c ∷ cs) ds = has_prefix (c ∷ cs) ds || has_part cs ds

-- `strings.FieldsFunc`, with the field that is being read.
unfoldable pub fields_by : (ℕ → Bool) → Text → Text → List Text
fields_by p field [] = if is_empty field then [] else field ∷ []
fields_by p field (c ∷ cs) =
    let rest = fields_by p (if p c then [] else field ++ c ∷ []) cs in
    if p c && not (is_empty field) then field ∷ rest else rest

abbrev is_one_of : List String → Text → Bool
is_one_of words t = any (λ w. bytes_same (codes w) t) words

abbrev last_is : (Text → Bool) → List Text → Bool
last_is p [] = false
last_is p (t ∷ []) = p t
last_is p (t ∷ s ∷ ts) = last_is p (s ∷ ts)

abbrev has_rune : ℕ → Text → Bool
has_rune c cs = any (λ d. d == c) cs

-- The text in front of the first such rune, and behind it.
abbrev before_rune : ℕ → Text → Text
before_rune c cs = take_while (λ d. not (d == c)) cs

abbrev after_rune : ℕ → Text → Text
after_rune c cs = tail (drop_while (λ d. not (d == c)) cs)

module _ (u : Unicode) where
  abbrev lower : Text → Text
  lower cs = map u.to_lower cs

  unfoldable pub is_exception_text_attribute : String → Bool
  unfolding has_part has_suffix
  is_exception_text_attribute key =
      has_part (lower (codes key)) (codes "exception")
      && not (has_suffix (lower (codes key)) (codes "exception_code"))

  unfoldable pub is_uri_query_component_attribute : String → Bool
  is_uri_query_component_attribute key =
      is_one_of ("url.query" ∷ "http.query" ∷ "http.query_string" ∷ "request.query_string" ∷ [])
        (lower (trim u.is_space (codes key)))

  unfoldable pub is_uri_attribute : String → Bool
  unfolding has_prefix fields_by
  is_uri_attribute key =
      let k = lower (trim u.is_space (codes key)) in
      if is_one_of ("log_comment" ∷ []) k || has_prefix k (codes "log_comment.")
      then false
      else if is_one_of
          ("http.url" ∷ "http.urls" ∷ "http.target" ∷ "http.targets" ∷ "url.full" ∷ "url.query"
            ∷ "http.query" ∷ "http.query_string" ∷ "request.target" ∷ "request.uri" ∷ "request.url"
            ∷ "request.query_string" ∷ [])
          k
      then true
      else last_is (is_one_of ("url" ∷ "urls" ∷ "uri" ∷ "uris" ∷ []))
          (fields_by (λ c. c == b'.' || c == b'_' || c == b'-' || c == b'/') [] k)

-- The attributes with the statement redacted, by what was found under its key.
abbrev pub redacted_by : QueryFilter → String → Option String → Attributes → Attributes
redacted_by qf key none attrs = attrs
redacted_by qf key (some text) attrs =
    if (redact_query_for_export qf text).1
    then put key (redact_query_for_export qf text).0 attrs
    else delete key attrs

module _ (u : Unicode) (url : UrlText) where
  -- The query component, if the value has one.
  unfoldable pub query_component : String → Text → Option Text
  unfolding is_uri_query_component_attribute
  query_component key value =
      if is_uri_query_component_attribute u key
      then (if has_rune b'?' value
            && not (any (λ c. c == b'=' || c == b'&' || c == b';') (before_rune b'?' value))
          then some (after_rune b'?' value)
          else some value)
      else if has_rune b'?' value
      then some (after_rune b'?' value)
      else none

  abbrev names_query : Text → Bool
  names_query field = elim (url.query_unescape (before_rune b'=' field)) [
    | none ↦ false
    | some decoded ↦ url.equal_fold (trim u.is_space decoded) (codes "query")
  ]

  unfoldable pub contains_raw_query_parameter : String → String → Bool
  unfolding query_component fields_by
  contains_raw_query_parameter key value = elim (query_component key (codes value)) [
    | none ↦ false
    | some query ↦
        any names_query (fields_by (λ c. c == b'&' || c == b';') [] (before_rune b'#' query))
  ]

  abbrev pub carries_query : String → String → Bool
  carries_query key value = is_uri_attribute u key && contains_raw_query_parameter key value

  unfoldable pub remove_uri_slices : SliceAttributes → SliceAttributes
  unfolding keep
  remove_uri_slices [] = []
  remove_uri_slices ((key, values) ∷ m) =
      let rest = remove_uri_slices m in
      let kept = keep (λ v. not (contains_raw_query_parameter key v)) values in
      if not (is_uri_attribute u key)
      then (key, values) ∷ rest
      else if is_empty kept
      then rest
      else (key, kept) ∷ rest

  unfoldable pub remove_from_attributes : Attributes → Attributes
  unfolding drop_if
  remove_from_attributes attrs =
      drop_if (λ k v. is_exception_text_attribute u k) (drop_if carries_query attrs)

  unfoldable pub remove_from_slices : SliceAttributes → SliceAttributes
  unfolding drop_if remove_uri_slices
  remove_from_slices slices =
      drop_if (λ k v. is_exception_text_attribute u k) (remove_uri_slices slices)

  abbrev pub delete_all {ℓ} : {V : Type ℓ} → List String → List (String × V) → List (String × V)
  delete_all [] m = m
  delete_all (k ∷ ks) m = delete_all ks (delete k m)

  abbrev pub all_statements : List String
  all_statements = raw_statement ∷ normalized_statement ∷ enriched_normalized_query ∷ []

  -- The two maps of a span, as a mode lets them pass.
  abbrev pub shape_by :
      QueryTextMode → QueryFilter → Attributes → SliceAttributes → Attributes × SliceAttributes
  shape_by raw qf attrs slices = (attrs, slices)
  shape_by redacted qf attrs slices =
      let kept = remove_from_attributes attrs in
      (
        redacted_by qf raw_statement (lookup raw_statement kept) kept,
        delete raw_statement (remove_from_slices slices),
      )
  shape_by normalized_only qf attrs slices = (
    delete raw_statement (remove_from_attributes attrs),
    delete raw_statement (remove_from_slices slices),
  )
  shape_by no_text qf attrs slices = (
    delete_all all_statements (remove_from_attributes attrs),
    delete_all all_statements (remove_from_slices slices),
  )

  unfoldable pub shape_span_for_export : QueryFilter → OpenTelemetrySpan → OpenTelemetrySpan
  unfolding remove_from_attributes remove_from_slices lookup put delete redact_query_for_export
  shape_span_for_export qf span =
      let shaped = shape_by qf.query_text_mode qf span.attributes span.string_slice_attributes in
      record span { attributes = shaped.0; string_slice_attributes = shaped.1 }

  unfoldable pub shape_spans_for_export :
      QueryFilter → List OpenTelemetrySpan → List OpenTelemetrySpan
  unfolding shape_span_for_export
  shape_spans_for_export qf [] = []
  shape_spans_for_export qf (s ∷ ss) = shape_span_for_export qf s ∷ shape_spans_for_export qf ss
