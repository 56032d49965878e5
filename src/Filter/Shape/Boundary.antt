-- ===== src/Filter/Shape/Boundary.antt =====
-- What a shaped span carries across the export boundary.
use click_dog.Common.{
  String, ◌≡◌, ◌⊎◌, refl, sym, ap, subst, inl, inr, Bool, true, false, not, Option, none, some,
  List, [], ◌∷◌, any, is_empty, Bool-cases, Option-cases, if◌then◌else◌, arith,
}
use click_dog.Common.Maps.{lookup, drop_if, delete, lookup-put, lookup-delete}
use click_dog.Common.Sets.{Equality, string_equality, keep}
use click_dog.Family.Tokens.{Unicode}
use click_dog.Model.{OpenTelemetrySpan, key_of}
use click_dog.Filter.{
  QueryTextMode, raw, redacted, normalized_only, no_text, QueryFilter, redact_query_for_export,
}
use click_dog.Filter.Shape.{
  UrlText, Attributes, SliceAttributes, raw_statement, is_exception_text_attribute,
  is_uri_attribute, contains_raw_query_parameter, carries_query, remove_from_attributes,
  remove_from_slices, remove_uri_slices, redacted_by, shape_by, shape_span_for_export,
}

module _ {ℓ κ} {K : Type ℓ} {V : Type κ} ⦃q : Equality K⦄ where
  -- What is found behind `drop_if` was not dropped.
  lookup-drop_if :
      (p : K → V → Bool) (k : K) (v : V) (m : List (K × V))
      → lookup k (drop_if p m) ≡ some v
      → p k v ≡ false
  unfolding lookup drop_if
  lookup-drop_if p k v [] h = absurd (ground (arith, h))
  lookup-drop_if p k v ((j, w) ∷ m) h = elim (Bool-cases (p j w)) [
    | inl gone ↦ lookup-drop_if p k v m (rw gone at h)
    | inr kept ↦ ground (arith, kept, h, q.same_iff j k, lookup-drop_if p k v m)
  ]

  lookup-drop_if_key :
      (p : K → Bool) (k : K) (m : List (K × V))
      → lookup k (drop_if (λ j w. p j) m) ≡ (if p k then none else lookup k m)
  unfolding lookup drop_if
  lookup-drop_if_key p k [] = ground arith
  lookup-drop_if_key p k ((j, w) ∷ m) =
      ground (arith, q.same_iff j k, lookup-drop_if_key p k m, ap p {x = j} {y = k})

  lookup-delete-some :
      (j k : K) (v : V) (m : List (K × V)) → lookup k (delete j m) ≡ some v → lookup k m ≡ some v
  lookup-delete-some j k v m h = ground (arith, lookup-delete j k m, h)

module _ (u : Unicode) (url : UrlText) where
  -- Neither exception text nor a URI with a query.
  abbrev pub IsSafe : String → String → Type 0
  IsSafe k v = (is_exception_text_attribute u k ≡ false) × (carries_query u url k v ≡ false)

  remove_from_attributes-IsSafe :
      (k v : String) (m : Attributes)
      → lookup k (remove_from_attributes u url m) ≡ some v
      → IsSafe k v
  unfolding remove_from_attributes
  remove_from_attributes-IsSafe k v m h =
      let inner = drop_if (carries_query u url) m in
      let outer = lookup-drop_if (λ j w. is_exception_text_attribute u j) k v inner h in
      let e = lookup-drop_if_key (λ j. is_exception_text_attribute u j) k inner in
      (outer, lookup-drop_if (carries_query u url) k v m (ground (arith, outer, e, h)))

  -- A slice under a URI's key holds no query.
  abbrev pub IsSafeSlice : String → List String → Type 0
  IsSafeSlice k vs =
      (is_exception_text_attribute u k ≡ false)
      × ((is_uri_attribute u k ≡ false) ⊎ (any (contains_raw_query_parameter u url k) vs ≡ false))

  any-keep : (p : String → Bool) (vs : List String) → any p (keep (λ v. not (p v)) vs) ≡ false
  unfolding keep
  any-keep p [] = refl
  any-keep p (v ∷ vs) = ground (arith, any-keep p vs)

  -- What one entry becomes.
  abbrev clean_entry : String → List String → Option (List String)
  clean_entry j ws =
      let kept = keep (λ v. not (contains_raw_query_parameter u url j v)) ws in
      if not (is_uri_attribute u j) then some ws else if is_empty kept then none else some kept

  clean_entry-safe :
      (j : String) (ws vs : List String)
      → is_uri_attribute u j ≡ true
      → clean_entry j ws ≡ some vs
      → any (contains_raw_query_parameter u url j) vs ≡ false
  clean_entry-safe j ws vs e h =
      let kept = keep (λ v. not (contains_raw_query_parameter u url j v)) ws in
      let same : kept ≡ vs = ground (arith, e, h) in
      subst (λ l. any (contains_raw_query_parameter u url j) l ≡ false) same
        (any-keep (contains_raw_query_parameter u url j) ws)

  lookup-remove_uri_slices :
      (k : String) (vs : List String) (m : SliceAttributes)
      → is_uri_attribute u k ≡ true
      → lookup k (remove_uri_slices u url m) ≡ some vs
      → any (contains_raw_query_parameter u url k) vs ≡ false
  unfolding lookup remove_uri_slices
  lookup-remove_uri_slices k vs [] e h = absurd (ground (arith, h))
  lookup-remove_uri_slices k vs ((j, ws) ∷ m) e h = elim (Option-cases (clean_entry j ws)) [
    | inl nothing ↦ lookup-remove_uri_slices k vs m e (ground (arith, h, nothing, e))
    | inr (kept, found) ↦ elim (Bool-cases (string_equality.same j k)) [
      | inr other ↦ lookup-remove_uri_slices k vs m e (ground (arith, h, found, other))
      | inl same ↦
          let at : j ≡ k = (string_equality.same_iff j k).0 same in
          let is : kept ≡ vs = ground (arith, h, found, same) in
          subst (λ l. any (contains_raw_query_parameter u url k) l ≡ false) is
            (subst (λ x. any (contains_raw_query_parameter u url x) kept ≡ false) at
              (clean_entry-safe j ws kept (subst (λ x. is_uri_attribute u x ≡ true) (sym at) e)
                found))
    ]
  ]

  remove_from_slices-IsSafe :
      (k : String) (vs : List String) (m : SliceAttributes)
      → lookup k (remove_from_slices u url m) ≡ some vs
      → IsSafeSlice k vs
  unfolding remove_from_slices
  remove_from_slices-IsSafe k vs m h =
      let inner = remove_uri_slices u url m in
      let outer = lookup-drop_if (λ j w. is_exception_text_attribute u j) k vs inner h in
      let e = lookup-drop_if_key (λ j. is_exception_text_attribute u j) k inner in
      (
        outer,
        elim (Bool-cases (is_uri_attribute u k)) [
          | inl uri ↦ inr (lookup-remove_uri_slices k vs m uri (ground (arith, outer, e, h)))
          | inr other ↦ inl other
        ],
      )

  module _ (qf : QueryFilter) where
    -- The statement that the redaction rules made, one of which has matched.
    abbrev pub IsRedacted : String → Type 0
    IsRedacted v =
        (text : String) × ((redact_query_for_export qf text).1 ≡ true)
        × (v ≡ (redact_query_for_export qf text).0)

    -- What may stand under a key behind the boundary, `key` being that of the statement.
    abbrev Passes : String → String → String → Type 0
    Passes key k v =
        (IsSafe k v × (string_equality.same key k ≡ false)) ⊎ ((key ≡ k) × IsRedacted v)

    elsewhere :
        (key k v : String) (m : Attributes) (found : Option String)
        → string_equality.same key k ≡ false
        → lookup k (redacted_by qf key found m) ≡ some v
        → lookup k m ≡ some v
    elsewhere key k v m none other h = h
    elsewhere key k v m (some text) other h = ground (
      arith,
      h,
      other,
      lookup-put key k (redact_query_for_export qf text).0 m,
      lookup-delete key k m,
    )

    at_key :
        (key v : String) (m : Attributes) (found : Option String)
        → lookup key m ≡ found
        → lookup key (redacted_by qf key found m) ≡ some v
        → IsRedacted v
    at_key key v m none e h = absurd (ground (arith, e, h))
    at_key key v m (some text) e h = elim (Bool-cases (redact_query_for_export qf text).1) [
      | inl matched ↦ (
        text,
        matched,
        ground (
          arith,
          h,
          matched,
          (string_equality.same_iff key key).1 refl,
          lookup-put key key (redact_query_for_export qf text).0 m,
        ),
      )
      | inr unmatched ↦ absurd (
          ground (
            arith,
            h,
            unmatched,
            (string_equality.same_iff key key).1 refl,
            lookup-delete key key m,
          ))
    ]

    redacted_by-Passes :
        (key k v : String) (m : Attributes)
        → ((j w : String) → lookup j m ≡ some w → IsSafe j w)
        → lookup k (redacted_by qf key (lookup key m) m) ≡ some v
        → Passes key k v
    redacted_by-Passes key k v m safe h = elim (Bool-cases (string_equality.same key k)) [
      | inr other ↦ inl (safe k v (elsewhere key k v m (lookup key m) other h), other)
      | inl same ↦
          let e = (string_equality.same_iff key k).0 same in
          inr (
            e,
            at_key key v m (lookup key m) refl
                (subst (λ j. lookup j (redacted_by qf key (lookup key m) m) ≡ some v) (sym e) h),
          )
    ]

    -- An attribute behind the boundary is safe, or it is the redacted statement; a slice is safe and
    -- is not the statement.
    pub record IsPrivate (mode : QueryTextMode) (attrs : Attributes) (slices : SliceAttributes)
        : Type 0 where
      pub attribute :
          (k v : String)
          → lookup k attrs ≡ some v
          → (IsSafe k v × (string_equality.same raw_statement k ≡ false))
            ⊎ ((mode ≡ redacted) × (raw_statement ≡ k) × IsRedacted v)
      pub slice :
          (k : String) (vs : List String)
          → lookup k slices ≡ some vs
          → IsSafeSlice k vs × (string_equality.same raw_statement k ≡ false)

    gone {ℓ} :
        {V : Type ℓ} (key k : String) (v : V) (m : List (String × V))
        → lookup k (delete key m) ≡ some v
        → (lookup k m ≡ some v) × (string_equality.same key k ≡ false)
    gone key k v m h = (lookup-delete-some key k v m h, ground (arith, h, lookup-delete key k m))

    gone_all {ℓ} :
        {V : Type ℓ} (key a b k : String) (v : V) (m : List (String × V))
        → lookup k (delete b (delete a (delete key m))) ≡ some v
        → (lookup k m ≡ some v) × (string_equality.same key k ≡ false)
    gone_all key a b k v m h = gone key k v m (
        lookup-delete-some a k v (delete key m)
          (lookup-delete-some b k v (delete a (delete key m)) h))

    shape_by-IsPrivate :
        (mode : QueryTextMode) (attrs : Attributes) (slices : SliceAttributes)
        → (mode ≡ raw → ⊥)
        → IsPrivate mode
            (shape_by u url mode qf attrs slices).0
            (shape_by u url mode qf attrs slices).1
    shape_by-IsPrivate raw attrs slices private = absurd (private refl)
    shape_by-IsPrivate redacted attrs slices private = record {
      attribute = λ k v h.
          elim (redacted_by-Passes raw_statement k v (remove_from_attributes u url attrs)
            (λ j w. remove_from_attributes-IsSafe j w attrs) h) [
              | inl safe ↦ inl safe
              | inr statement ↦ inr (refl, statement.0, statement.1)
            ];
      slice = λ k vs h.
          let g = gone raw_statement k vs (remove_from_slices u url slices) h in
          (remove_from_slices-IsSafe k vs slices g.0, g.1);
    }
    shape_by-IsPrivate normalized_only attrs slices private = record {
      attribute = λ k v h.
          let g = gone raw_statement k v (remove_from_attributes u url attrs) h in
          inl (remove_from_attributes-IsSafe k v attrs g.0, g.1);
      slice = λ k vs h.
          let g = gone raw_statement k vs (remove_from_slices u url slices) h in
          (remove_from_slices-IsSafe k vs slices g.0, g.1);
    }
    shape_by-IsPrivate no_text attrs slices private = record {
      attribute = λ k v h.
          let g =
            gone_all raw_statement "db.normalized_query" "query_log.normalized_query" k v
              (remove_from_attributes u url attrs) h in
          inl (remove_from_attributes-IsSafe k v attrs g.0, g.1);
      slice = λ k vs h.
          let g =
            gone_all raw_statement "db.normalized_query" "query_log.normalized_query" k vs
              (remove_from_slices u url slices) h in
          (remove_from_slices-IsSafe k vs slices g.0, g.1);
    }

-- Under a mode that restricts the query text, no attribute that leaves in a span is exception text or a
-- URI that carries a query; the statement is absent, or the mode is redacted and it is a text that the
-- redaction rules made, one of which has matched; no slice is exception text or the statement, and
-- one under a URI's key holds no query; the span keeps its identity.
pub shape_span_for_export-IsPrivate :
    (u : Unicode) (url : UrlText) (qf : QueryFilter) (span : OpenTelemetrySpan)
    → (qf.query_text_mode ≡ raw → ⊥)
    → let out = shape_span_for_export u url qf span in
      IsPrivate u url qf qf.query_text_mode out.attributes out.string_slice_attributes
      × (key_of out ≡ key_of span)
unfolding shape_span_for_export
shape_span_for_export-IsPrivate u url qf span private = (
  shape_by-IsPrivate u url qf qf.query_text_mode span.attributes span.string_slice_attributes
      private,
  refl,
)
