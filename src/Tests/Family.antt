-- ===== src/Tests/Family.antt =====
-- The clustering over ASCII letters, with thousandths for float64: two queries of one shape, a third of
-- another, and one of the first twice.
use mathlib.Core.List.{Permᴰ}
use click_dog.Common.{
  ℕ, ◌+◌, ◌-◌, ◌*◌, ◌/◌, ◌<◌, ◌≤◌, ◌≡◌, refl, inl, inr, Bool, true, false, not, ◌&&◌, ◌||◌, Option,
  none, List, [], ◌∷◌, map, All, length, ltb, leb, ◌==◌, is_empty, if◌then◌else◌, arith,
}
use click_dog.Common.Int.{pos}
use click_dog.Common.Sets.{contains, Distinct, nat_equality}
use click_dog.Common.Sorting.{Pairs, NotAfter, perm_refl}
use click_dog.Common.Text.{Text, codes, text_equality, bytes_lt}
use click_dog.Model.{Error}
use click_dog.Family.Tokens.{
  Unicode, join_with, next_token, add_token, tokenize_sql, clean_identifier,
}
use click_dog.Family.Tokens.Termination.{tokenize_sql-step}
use click_dog.Family.Tokens.Reading.{IsStandard, tokenize_sql-join_with}
use click_dog.Family.Preview.{truncate_preview}
use click_dog.Family.Preview.Idempotent.{truncate_preview-idempotent}
use click_dog.Family.Tables.{extract_tables}
use click_dog.Family.Tables.Names.{text_order, extract_tables-Names}
use click_dog.Family.Features.{extract_features}
use click_dog.Family.Similarity.{Float64, should_merge}
use click_dog.Family.Similarity.Symmetry.{should_merge-sym}
use click_dog.Family.Stats.{QueryFamilyExactGroup}
use click_dog.Family.Rollup.{Options, QueryFamilyRollup, families, rollup}
use click_dog.Family.Rollup.Links.{IsClustered, families-IsClustered}
use click_dog.Family.Rollup.Hashes.{member_hashes, rollup-hashes, rollup-uncanceled}
use click_dog.Family.Rollup.Order.{rollup-ranged}
use click_dog.Family.Rollup.Totals.{total, ◌≡₆₄◌, rollup-executions}

abbrev pub in_range : ℕ → ℕ → ℕ → Bool
in_range lo hi c = leb lo c && leb c hi

abbrev pub ascii : Unicode
ascii = record {
  is_space = λ c. c == 32;
  is_letter = λ c. in_range b'a' b'z' c || in_range b'A' b'Z' c;
  is_digit = in_range b'0' b'9';
  to_lower = λ c. if in_range b'A' b'Z' c then c + 32 else c;
  to_upper = λ c. if in_range b'a' b'z' c then c - 32 else c;
}

ascii-IsStandard : IsStandard ascii
ascii-IsStandard = record {
  blank = refl;
  words_visible = λ c h. ground (arith, h);
  symbols_visible = λ c h. ground (arith, h);
  symbols_apart = λ c h. ground (arith, h);
  minus = refl;
  slash = refl;
  backtick = refl;
  quote = refl;
}

abbrev thousandths : Float64
thousandths = record {
  F = ℕ;
  ratio = λ m n. m * 1000 / n;
  plus = ◌+◌;
  times = λ m n. m * n / 1000;
  max = λ m n. if ltb m n then n else m;
  leq = leb;
  lt = ltb;
  two_places = λ n. [];
}

abbrev group : ℕ → Text → ℕ → QueryFamilyExactGroup ℕ
group hash query count = record {
  normalized_query_hash = hash;
  normalized_query = query;
  execution_count = count;
  successful_count = count;
  failed_count = 0;
  p95_duration_ms = 1;
  p99_duration_ms = 1;
  top_exceptions = [];
  max_memory_usage = 1;
  p95_read_rows = 1;
  p95_read_bytes = 1;
  top_users = [];
  top_clients = [];
  top_tables = [];
  first_seen = 1;
  last_seen = 2;
}

abbrev from_t : Text
from_t = codes "FROM t"

abbrev groups : List (QueryFamilyExactGroup ℕ)
groups =
    group 3 from_t 5
    ∷ group 4 (codes "x") 1
    ∷ group 7 from_t 2
    ∷ group 3 from_t 4
    ∷ group 0 from_t 9
    ∷ []

abbrev options : Options ℕ
options = record { similarity_threshold = 0; max_preview_length = pos 0 }

abbrev no_cancel : ℕ → Option Error
no_cancel k = none

abbrev as_is {ℓ} : {A : Type ℓ} → List A → List A
as_is l = l

abbrev swapped {ℓ} : {A : Type ℓ} → List A → List A
swapped [] = []
swapped (x ∷ []) = x ∷ []
swapped (x ∷ y ∷ l) = y ∷ x ∷ l

swapped-perm {ℓ} : {A : Type ℓ} (l : List A) → Permᴰ (swapped l) l
swapped-perm [] = Permᴰ.nil
swapped-perm (x ∷ []) = perm_refl (x ∷ [])
swapped-perm (x ∷ y ∷ l) = Permᴰ.swap refl refl

tokenize_sql-step_example :
    (tokenize_sql ascii (b'a' ∷ b'(' ∷ [])
      ≡ add_token
          (next_token ascii b'a' (b'(' ∷ [])).0
          (tokenize_sql ascii (next_token ascii b'a' (b'(' ∷ [])).1))
    × (length (next_token ascii b'a' (b'(' ∷ [])).1 < 2)
tokenize_sql-step_example = tokenize_sql-step ascii b'a' (b'(' ∷ [])

tokenize_sql-join_with_example :
    tokenize_sql ascii (join_with (32 ∷ []) (codes "FROM" ∷ codes "(" ∷ codes "a.b" ∷ []))
    ≡ codes "FROM" ∷ codes "(" ∷ codes "a.b" ∷ []
tokenize_sql-join_with_example =
    tokenize_sql-join_with ascii ascii-IsStandard (codes "FROM" ∷ codes "(" ∷ codes "a.b" ∷ []) (
      inl (refl, (refl, (refl, (refl, tt)))),
      (inr (refl, refl), (inl (refl, (refl, (refl, tt))), tt)),
    )

truncate_preview-idempotent_example :
    (truncate_preview ascii (truncate_preview ascii (codes " SELECT  a ") (pos 5)) (pos 5)
      ≡ truncate_preview ascii (codes " SELECT  a ") (pos 5))
    × (length (truncate_preview ascii (codes " SELECT  a ") (pos 5)) ≤ 5)
truncate_preview-idempotent_example =
    truncate_preview-idempotent ascii (codes " SELECT  a ") 5 refl refl (omega arith)

abbrev statement : List Text
statement = codes "SELECT" ∷ codes "x" ∷ codes "FROM" ∷ codes "B" ∷ codes "," ∷ codes "a" ∷ []

extract_tables-Names_example :
    Pairs (NotAfter bytes_lt text_order) (extract_tables ascii statement)
    × Distinct (extract_tables ascii statement)
    × All
        (λ t. (is_empty t ≡ false) × (contains (map (clean_identifier ascii) statement) t ≡ true))
        (extract_tables ascii statement)
extract_tables-Names_example = extract_tables-Names ascii statement

should_merge-sym_example :
    ((should_merge thousandths
        (extract_features ascii from_t)
        (extract_features ascii (codes "x"))
        750).1
      ≡ (should_merge thousandths
          (extract_features ascii (codes "x"))
          (extract_features ascii from_t)
          750).1)
    × ((should_merge thousandths
          (extract_features ascii from_t)
          (extract_features ascii (codes "x"))
          750).0.score
        ≡ (should_merge thousandths
            (extract_features ascii (codes "x"))
            (extract_features ascii from_t)
            750).0.score)
should_merge-sym_example = should_merge-sym thousandths ascii from_t (codes "x") 750

families-IsClustered_example :
    IsClustered thousandths ascii 750 (pos 500) (families thousandths ascii 750 (pos 500) groups)
families-IsClustered_example = families-IsClustered thousandths ascii 750 (pos 500) groups

rollup-ranged_example :
    rollup thousandths ascii no_cancel as_is groups options
    ≡ rollup thousandths ascii no_cancel swapped groups options
rollup-ranged_example =
    rollup-ranged thousandths ascii no_cancel as_is swapped groups options perm_refl swapped-perm

done :
    (rs : List (QueryFamilyRollup ℕ)) × (rollup thousandths ascii no_cancel swapped groups options
      ≡ inr rs)
done = rollup-uncanceled thousandths ascii no_cancel swapped groups options (λ k. refl)

rollup-hashes_example :
    Distinct (member_hashes done.0)
    × ((j : ℕ)
        → contains (member_hashes done.0) j ≡ not (j == 0) && contains (3 ∷ 4 ∷ 7 ∷ 3 ∷ 0 ∷ []) j)
rollup-hashes_example =
    rollup-hashes thousandths ascii no_cancel swapped groups options done.0 swapped-perm done.1

-- All but the executions of the group without a hash.
rollup-executions_example : total (λ r. r.stats.execution_count) done.0 ≡₆₄ 12
rollup-executions_example =
    rollup-executions thousandths ascii no_cancel swapped groups options done.0 swapped-perm done.1
