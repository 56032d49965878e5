-- ===== src/Family/Similarity/Symmetry.antt =====
-- Whether two statements merge does not depend on which of them is asked first.
use click_dog.Common.{
  ◌+◌, ◌≡◌, refl, sym, false, not, ◌||◌, List, [], ◌∷◌, inl, inr, length, ◌==◌, is_empty,
  if◌then◌else◌, Bool-cases, arith,
}
use click_dog.Common.Sets.{contains, keep, Distinct, insert_all-Distinct}
use click_dog.Common.Sorting.{insert_by, sort_by}
use click_dog.Common.Text.{Text, bytes_lt, text_equality}
use click_dog.Family.Tokens.{Unicode, tokenize_sql}
use click_dog.Family.Tables.Names.{extract_tables-Names}
use click_dog.Family.Features.{
  ClauseStructure, Features, names, make_set, windows, build_shingles, extract_features,
}
use click_dog.Family.Similarity.{
  Float64, common_count, intersection, jaccard, clause_similarity, different_kinds, no_shared_table,
  compare_features, should_merge,
}

count-cons :
    (x : Text) (xs b : List Text)
    → contains xs x ≡ false
    → Distinct b
    → length (keep (contains (x ∷ xs)) b)
      ≡ length (keep (contains xs) b) + (if contains b x then 1 else 0)
unfolding contains keep
count-cons x xs [] h d = refl
count-cons x xs (y ∷ b) h d =
    ground (
      arith,
      count-cons x xs b h d.1,
      text_equality.same_iff x y,
      text_equality.same_iff y x,
      d.0,
      h,
    )

count-nil : (b : List Text) → length (keep (contains []) b) ≡ 0
unfolding contains keep
count-nil [] = refl
count-nil (y ∷ b) = count-nil b

pub common_count-sym :
    (a b : List Text) → Distinct a → Distinct b → common_count a b ≡ common_count b a
unfolding common_count keep
common_count-sym [] b d e = sym (count-nil b)
common_count-sym (x ∷ xs) b d e = elim (Bool-cases (contains b x)) [
  | inl both ↦
      let shared = count-cons x xs b d.0 e in
      let rest = common_count-sym xs b d.1 e in ground (arith, both, shared, rest)
  | inr one ↦
      let shared = count-cons x xs b d.0 e in
      let rest = common_count-sym xs b d.1 e in ground (arith, one, shared, rest)
]

make_set-Distinct : (ts : List Text) → Distinct (make_set ts)
unfolding make_set
make_set-Distinct ts = insert_all-Distinct (keep (λ t. not (is_empty t)) ts) [] tt

build_shingles-Distinct : (ts : List Text) → Distinct (build_shingles ts)
unfolding build_shingles
build_shingles-Distinct ts = insert_all-Distinct (windows ts) [] tt

-- A set shared is a set shared from the other side.
is_empty-insert_by : (x : Text) (ys : List Text) → is_empty (insert_by bytes_lt x ys) ≡ false
unfolding insert_by
is_empty-insert_by x [] = refl
is_empty-insert_by x (y ∷ ys) = ground arith

is_empty-sort_by : (xs : List Text) → is_empty (sort_by bytes_lt xs) ≡ (length xs == 0)
unfolding sort_by
is_empty-sort_by [] = refl
is_empty-sort_by (x ∷ xs) = ground (arith, is_empty-insert_by x (sort_by bytes_lt xs))

is_empty-intersection :
    (a b : List Text)
    → is_empty (intersection a b) ≡ (is_empty a || is_empty b || common_count b a == 0)
unfolding intersection common_count
is_empty-intersection a b = ground (arith, is_empty-sort_by (keep (contains a) b))

no_shared_table-sym :
    (a b : Features)
    → Distinct a.tables
    → Distinct b.tables
    → no_shared_table a b ≡ no_shared_table b a
no_shared_table-sym a b d e = ground (
  arith,
  is_empty-intersection a.tables b.tables,
  is_empty-intersection b.tables a.tables,
  common_count-sym a.tables b.tables d e,
)

different_kinds-sym : (a b : Text) → different_kinds a b ≡ different_kinds b a
different_kinds-sym a b = ground (arith, text_equality.same_iff a b, text_equality.same_iff b a)

module _ (fl : Float64) where
  open fl use {F, ratio, plus, times, leq, lt}

  jaccard-sym : (a b : List Text) → Distinct a → Distinct b → jaccard fl a b ≡ jaccard fl b a
  unfolding jaccard
  jaccard-sym a b d e = ground (arith, common_count-sym a b d e)

  clause_similarity-sym :
      (a b : ClauseStructure) → clause_similarity fl a b ≡ clause_similarity fl b a
  unfolding clause_similarity
  clause_similarity-sym a b =
      jaccard-sym (make_set (names a)) (make_set (names b)) (make_set-Distinct (names a))
        (make_set-Distinct (names b))

  abbrev pub IsReady : Features → Type 0
  IsReady a = Distinct a.tables × Distinct a.token_set × Distinct a.shingles

  extract_features-IsReady : (u : Unicode) (query : Text) → IsReady (extract_features u query)
  unfolding extract_features
  extract_features-IsReady u query = (
    (extract_tables-Names u (tokenize_sql u query)).1,
    make_set-Distinct (extract_features u query).tokens,
    build_shingles-Distinct (extract_features u query).tokens,
  )

  compare_features-sym :
      (a b : Features)
      → IsReady a
      → IsReady b
      → (is_empty (compare_features fl a b).blocked_reason
          ≡ is_empty (compare_features fl b a).blocked_reason)
        × ((compare_features fl a b).score ≡ (compare_features fl b a).score)
        × ((compare_features fl a b).token_similarity ≡ (compare_features fl b a).token_similarity)
  unfolding compare_features
  compare_features-sym a b p q = ground (
    arith,
    different_kinds-sym a.statement_kind b.statement_kind,
    no_shared_table-sym a b p.0 q.0,
    jaccard-sym a.token_set b.token_set p.1 q.1,
    jaccard-sym a.shingles b.shingles p.2 q.2,
    clause_similarity-sym a.clauses b.clauses,
  )

  -- Two queries merge or do not, and have one score, whichever of them is the candidate and whichever
  -- the member, at every threshold.
  pub should_merge-sym :
      (u : Unicode) (p q : Text) (threshold : F)
      → let a = extract_features u p in
        let b = extract_features u q in
        ((should_merge fl a b threshold).1 ≡ (should_merge fl b a threshold).1)
        × ((should_merge fl a b threshold).0.score ≡ (should_merge fl b a threshold).0.score)
  unfolding should_merge
  should_merge-sym u p q threshold =
      let a = extract_features u p in
      let b = extract_features u q in
      let same =
        compare_features-sym a b (extract_features-IsReady u p) (extract_features-IsReady u q) in
      ground (arith, same.0, same.1, same.2)
