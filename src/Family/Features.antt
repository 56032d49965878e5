-- ===== src/Family/Features.antt =====
-- internal/queryfamily/rollup.go: ExtractFeatures, the clauses and the shingles of a statement.
use click_dog.Common.{
  ℕ, String, Bool, true, false, not, ◌||◌, List, [], ◌∷◌, map, take, is_empty, if◌then◌else◌,
}
use click_dog.Common.Sets.{insert_all, keep}
use click_dog.Common.Text.{Text, codes, text_equality}
use click_dog.Family.Tokens.{Unicode, join_with, tokenize_sql, clean_identifier}
use click_dog.Family.Tables.{is_word, is_punctuation, upper, extract_tables}

pub record ClauseStructure : Type 0 where
  pub where_ : Bool
  pub join : Bool
  pub group_by : Bool
  pub order_by : Bool
  pub limit : Bool

pub record Features : Type 0 where
  pub statement_kind : Text
  pub tables : List Text
  pub clauses : ClauseStructure
  pub tokens : List Text
  pub token_set : List Text
  pub shingles : List Text

abbrev no_clauses : ClauseStructure
no_clauses = record {
  where_ = false;
  join = false;
  group_by = false;
  order_by = false;
  limit = false;
}

abbrev named_if : Bool → String → List Text → List Text
named_if b name names = if b then codes name ∷ names else names

unfoldable pub names : ClauseStructure → List Text
names c = named_if c.where_ "WHERE" (
    named_if c.join "JOIN" (
      named_if c.group_by "GROUP BY"
        (named_if c.order_by "ORDER BY" (named_if c.limit "LIMIT" []))))

unfoldable pub make_set : List Text → List Text
make_set ts = insert_all (keep (λ t. not (is_empty t)) ts) []

-- The shingles of three tokens each, from each token on that has two behind it.
unfoldable pub triples : List Text → List Text
unfolding join_with
triples [] = []
triples (a ∷ []) = []
triples (a ∷ b ∷ []) = []
triples (a ∷ b ∷ c ∷ ts) = join_with (31 ∷ []) (a ∷ b ∷ c ∷ []) ∷ triples (b ∷ c ∷ ts)

abbrev pub windows : List Text → List Text
windows [] = []
windows (a ∷ []) = join_with (31 ∷ []) (a ∷ []) ∷ []
windows (a ∷ b ∷ []) = join_with (31 ∷ []) (a ∷ b ∷ []) ∷ []
windows (a ∷ b ∷ c ∷ ts) = triples (a ∷ b ∷ c ∷ ts)

unfoldable pub build_shingles : List Text → List Text
unfolding triples
build_shingles ts = insert_all (windows ts) []

abbrev pub max_similarity_toks : ℕ
max_similarity_toks = 200

module _ (u : Unicode) where
  unfoldable pub statement_kind_of : List Text → Text
  statement_kind_of [] = []
  statement_kind_of (t ∷ ts) =
      if is_empty t || is_punctuation t then statement_kind_of ts else upper u t

  abbrev next_upper : String → List Text → Bool
  next_upper word [] = false
  next_upper word (t ∷ ts) = is_word word (upper u t)

  -- One token of the statement's clauses.
  abbrev clause_token : Text → List Text → ClauseStructure → ClauseStructure
  clause_token t ts c =
      if is_word "WHERE" (upper u t)
      then record c { where_ = true }
      else if is_word "JOIN" (upper u t)
      then record c { join = true }
      else if is_word "GROUP" (upper u t)
      then (if next_upper "BY" ts then record c { group_by = true } else c)
      else if is_word "ORDER" (upper u t)
      then (if next_upper "BY" ts then record c { order_by = true } else c)
      else if is_word "LIMIT" (upper u t)
      then record c { limit = true }
      else c

  clauses_in : List Text → ClauseStructure → ClauseStructure
  clauses_in [] c = c
  clauses_in (t ∷ ts) c = clauses_in ts (clause_token t ts c)

  unfoldable pub extract_clause_structure : List Text → ClauseStructure
  unfolding clauses_in
  extract_clause_structure ts = clauses_in ts no_clauses

  unfoldable pub semantic_tokens : List Text → List Text
  semantic_tokens ts =
      map (λ t. map u.to_lower (clean_identifier u t))
        (keep (λ t. not (is_empty t || is_word "," t || is_word "(" t || is_word ")" t)) ts)

  unfoldable pub extract_features : Text → Features
  extract_features query =
      let ts = tokenize_sql u query in
      let semantic = take max_similarity_toks (semantic_tokens ts) in
      record {
        statement_kind = statement_kind_of ts;
        tables = extract_tables u ts;
        clauses = extract_clause_structure ts;
        tokens = semantic;
        token_set = make_set semantic;
        shingles = build_shingles semantic;
      }
