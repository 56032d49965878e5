-- ===== src/Family/Similarity.antt =====
-- internal/queryfamily/rollup.go: Compare and ShouldMerge, the structural similarity of two statements.
pub mod Symmetry
use click_dog.Common.{
  ℕ, zero, suc, ◌+◌, ◌-◌, String, Bool, true, false, not, ◌&&◌, ◌||◌, List, [], ◌∷◌, ◌++◌, map,
  length, ltb, is_empty, if◌then◌else◌,
}
use click_dog.Common.Sets.{contains, insert_all, keep}
use click_dog.Common.Sorting.{sort_by}
use click_dog.Common.Text.{Text, codes, bytes_lt, bytes_same, text_equality}
use click_dog.Family.Tokens.{join_with}
use click_dog.Family.Features.{ClauseStructure, Features, names, make_set}

-- float64, by its operations. `ratio m n` is `float64(m) / float64(n)`, and so Go's reading of the
-- constant that is written as that quotient in decimals.
pub record Float64 : Type 1 where
  pub F : Type 0
  pub ratio : ℕ → ℕ → F
  pub plus : F → F → F
  pub times : F → F → F
  pub max : F → F → F
  pub leq : F → F → Bool
  pub lt : F → F → Bool
  pub two_places : F → Text

pub record SimilarityResult (F : Type 0) : Type 0 where
  pub score : F
  pub token_similarity : F
  pub shingle_similarity : F
  pub clause_similarity : F
  pub shared_tables : List Text
  pub reasons : List Text
  pub blocked_reason : Text

-- The members of the one that are in the other.
unfoldable pub common_count : List Text → List Text → ℕ
common_count a b = length (keep (contains b) a)

unfoldable pub intersection : List Text → List Text → List Text
unfolding sort_by
intersection a b = if is_empty a || is_empty b then [] else sort_by bytes_lt (keep (contains a) b)

abbrev reason_if : Bool → Text → List Text → List Text
reason_if b reason rest = if b then reason ∷ rest else rest

abbrev pub different_kinds : Text → Text → Bool
different_kinds a b = not (is_empty a) && not (is_empty b) && not (bytes_same a b)

abbrev pub no_shared_table : Features → Features → Bool
no_shared_table a b =
    not (is_empty a.tables) && not (is_empty b.tables) && is_empty (intersection a.tables b.tables)

module _ (fl : Float64) where
  open fl use {F, ratio, plus, times, leq, lt, two_places}

  -- The smaller set is walked.
  unfoldable pub jaccard : List Text → List Text → F
  unfolding common_count
  jaccard a b =
      if is_empty a && is_empty b
      then ratio 1 1
      else if is_empty a || is_empty b
      then ratio 0 1
      else let shared = if ltb (length b) (length a) then common_count b a else common_count a b in
        ratio shared (length a + length b - shared)

  unfoldable pub clause_similarity : ClauseStructure → ClauseStructure → F
  clause_similarity a b = jaccard (make_set (names a)) (make_set (names b))

  abbrev no_result : Text → SimilarityResult F
  no_result reason = record {
    score = ratio 0 1;
    token_similarity = ratio 0 1;
    shingle_similarity = ratio 0 1;
    clause_similarity = ratio 0 1;
    shared_tables = [];
    reasons = [];
    blocked_reason = reason;
  }

  unfoldable pub comparison_reasons : Features → Features → F → F → F → List Text
  comparison_reasons a b token shingle clause =
      let tables = intersection a.tables b.tables in
      let clauses = intersection (names a.clauses) (names b.clauses) in
      reason_if (not (is_empty a.statement_kind) && bytes_same a.statement_kind b.statement_kind)
        (codes "same statement kind: " ++ a.statement_kind)
        (reason_if (not (is_empty tables))
          (codes "shared tables: " ++ join_with (codes ", ") tables)
          (reason_if (not (is_empty clauses))
            (codes "shared clause structure: " ++ join_with (codes ", ") clauses)
            ((codes "token similarity "
                ++ (two_places token
                    ++ (codes ", shingle similarity "
                        ++ (two_places shingle
                            ++ (codes ", clause similarity " ++ two_places clause)))))
              ∷ [])))

  unfoldable pub compare_features : Features → Features → SimilarityResult F
  compare_features a b =
      if different_kinds a.statement_kind b.statement_kind
      then no_result (
          codes "different statement kinds: "
          ++ (a.statement_kind ++ (codes " vs " ++ b.statement_kind)))
      else if no_shared_table a b
      then no_result (codes "no shared referenced tables")
      else (let token = jaccard a.token_set b.token_set in
          let shingle = jaccard a.shingles b.shingles in
          let clause = clause_similarity a.clauses b.clauses in
          record {
            score =
                plus (plus (times (ratio 85 100) token) (times (ratio 10 100) shingle))
                  (times (ratio 5 100) clause);
            token_similarity = token;
            shingle_similarity = shingle;
            clause_similarity = clause;
            shared_tables = intersection a.tables b.tables;
            reasons = comparison_reasons a b token shingle clause;
            blocked_reason = [];
          })

  abbrev pub valid_threshold : F → F
  valid_threshold t = if leq t (ratio 0 1) || lt (ratio 1 1) t then ratio 75 100 else t

  unfoldable pub should_merge : Features → Features → F → SimilarityResult F × Bool
  should_merge a b threshold =
      let result = compare_features a b in
      if not (is_empty result.blocked_reason)
      then (result, false)
      else if (is_empty a.tables || is_empty b.tables) && lt result.token_similarity (ratio 90 100)
      then (
        record result {
          blocked_reason =
              codes
                "no safely extracted shared table and token similarity below tableless threshold";
        },
        false,
      )
      else (result, leq (valid_threshold threshold) result.score)
