-- ===== src/Family/Tables.antt =====
-- internal/queryfamily/rollup.go: extractTables and its helpers. An index into the tokens is the list
-- of the tokens from there on.
pub mod Names
use click_dog.Common.{
  ℕ, zero, suc, ◌+◌, ◌-◌, String, Bool, true, false, not, ◌&&◌, ◌||◌, Option, none, some, List, [],
  ◌∷◌, ◌++◌, map, any, length, ◌==◌, is_empty, if◌then◌else◌,
}
use click_dog.Common.Sets.{contains}
use click_dog.Common.Sorting.{sort_by}
use click_dog.Common.Text.{Text, codes, bytes_lt, bytes_same, text_equality}
use click_dog.Family.Tokens.{Unicode, clean_identifier}

unfoldable pub is_word : String → Text → Bool
is_word word t = bytes_same (codes word) t

abbrev pub is_punctuation : Text → Bool
is_punctuation t = is_word "," t || is_word "(" t || is_word ")" t || is_word "*" t

abbrev boundary_words : List String
boundary_words =
    "WHERE" ∷ "PREWHERE" ∷ "GROUP" ∷ "ORDER" ∷ "LIMIT" ∷ "HAVING" ∷ "SETTINGS" ∷ "UNION" ∷ "FORMAT"
    ∷ []

unfoldable pub add_table : Text → List Text → List Text
add_table table tables =
    if is_empty table || contains tables table then tables else tables ++ table ∷ []

-- Behind the parenthesis that closes the first one; none closes it: behind the last token.
unfoldable pub skip_balanced : ℕ → List Text → List Text
unfolding is_word
skip_balanced depth [] = []
skip_balanced depth (t ∷ ts) =
    if is_word "(" t
    then skip_balanced (depth + 1) ts
    else if is_word ")" t
    then (if depth == 1 then ts else skip_balanced (depth - 1) ts)
    else skip_balanced depth ts

abbrev opens : List Text → Bool
opens [] = false
opens (t ∷ ts) = is_word "(" t

module _ (u : Unicode) where
  unfoldable pub upper : Text → Text
  upper t = map u.to_upper t

  unfoldable pub is_clause_boundary : Text → Bool
  unfolding is_word upper
  is_clause_boundary t = any (λ w. is_word w (upper t)) boundary_words

  unfoldable pub table_candidate : Text → List Text → Bool
  unfolding is_clause_boundary
  table_candidate t rest =
      not (
        is_empty t
        || is_punctuation t
        || is_word "AS" (upper t)
        || is_word "SELECT" (upper t)
        || is_clause_boundary t)
      && not (opens rest)

  -- One token of a FROM list: `none` at its end, else whether a table is expected behind it, the
  -- tokens to go on with, and the tables.
  unfoldable pub from_token :
      Bool → Text → List Text → List Text → Option (Bool × List Text × List Text)
  from_token expect t ts tables =
      if is_clause_boundary t || is_word "JOIN" (upper t)
      then none
      else if is_word "(" t
      then some (false, skip_balanced 0 (t ∷ ts), tables)
      else if is_word "," t
      then some (true, ts, tables)
      else if expect && table_candidate t ts
      then some (false, ts, add_table (clean_identifier u t) tables)
      else some (expect, ts, tables)

  unfoldable pub collect_from_tables : ℕ → Bool → List Text → List Text → List Text × List Text
  collect_from_tables zero expect ts tables = (ts, tables)
  collect_from_tables (suc turns) expect [] tables = ([], tables)
  collect_from_tables (suc turns) expect (t ∷ ts) tables = elim (from_token expect t ts tables) [
    | none ↦ (t ∷ ts, tables)
    | some (expect', rest, tables') ↦ collect_from_tables turns expect' rest tables'
  ]

  unfoldable pub table_after_keyword : List Text → Option Text
  unfolding is_clause_boundary table_candidate
  table_after_keyword [] = none
  table_after_keyword (t ∷ ts) =
      if is_word "(" t || is_clause_boundary t
      then none
      else if table_candidate t ts
      then some (clean_identifier u t)
      else table_after_keyword ts

  -- What one token of the statement adds, and where the loop goes on.
  unfoldable pub statement_token : Text → List Text → List Text → List Text × List Text
  statement_token t ts tables =
      if is_word "FROM" (upper t)
      then collect_from_tables (length ts) true ts tables
      else if is_word "JOIN" (upper t) || is_word "INTO" (upper t) || is_word "UPDATE" (upper t)
      then elim (table_after_keyword ts) [
        | none ↦ (ts, tables)
        | some table ↦ (ts, add_table table tables)
      ]
      else (ts, tables)

  unfoldable pub tables_in : ℕ → List Text → List Text → List Text
  tables_in zero ts tables = tables
  tables_in (suc turns) [] tables = tables
  tables_in (suc turns) (t ∷ ts) tables =
      let step = statement_token t ts tables in tables_in turns step.0 step.1

  unfoldable pub extract_tables : List Text → List Text
  unfolding tables_in sort_by
  extract_tables ts = sort_by bytes_lt (tables_in (length ts) ts [])
