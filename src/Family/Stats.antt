-- ===== src/Family/Stats.antt =====
-- internal/queryfamily/rollup.go: aggregateStats and what it counts; internal/model/types.go: exact
-- groups and the statistics of a family. A time is a number, the zero time 0.
use click_dog.Common.{
  ℕ, ◌+◌, ◌^◌, ◌%◌, Bool, not, ◌&&◌, ◌||◌, List, [], ◌∷◌, map, take, ltb, ◌==◌, is_empty,
  if◌then◌else◌,
}
use click_dog.Common.Maps.{lookup_or, put}
use click_dog.Common.Sets.{contains, nat_equality}
use click_dog.Common.Sorting.{sort_by}
use click_dog.Common.Text.{Text, bytes_lt, text_equality}
use click_dog.Family.Tokens.{Unicode, trim}
use click_dog.Family.Similarity.{Float64}

abbrev pub u64 : ℕ
u64 = 2 ^ 64

-- A code is an int32, by its order among them: the code plus 2 ^ 31.
pub record QueryExceptionCount : Type 0 where
  pub code : ℕ
  pub count : ℕ

pub record QueryFamilyExactGroup (F : Type 0) : Type 0 where
  pub normalized_query_hash : ℕ
  pub normalized_query : Text
  pub execution_count : ℕ
  pub successful_count : ℕ
  pub failed_count : ℕ
  pub p95_duration_ms : F
  pub p99_duration_ms : F
  pub top_exceptions : List QueryExceptionCount
  pub max_memory_usage : ℕ
  pub p95_read_rows : F
  pub p95_read_bytes : F
  pub top_users : List Text
  pub top_clients : List Text
  pub top_tables : List Text
  pub first_seen : ℕ
  pub last_seen : ℕ

pub record QueryFamilyStats (F : Type 0) : Type 0 where
  pub execution_count : ℕ
  pub successful_count : ℕ
  pub failed_count : ℕ
  pub failure_rate : F
  pub p95_duration_ms : F
  pub p99_duration_ms : F
  pub top_exceptions : List QueryExceptionCount
  pub max_memory_usage : ℕ
  pub p95_read_rows : F
  pub p95_read_bytes : F
  pub top_users : List Text
  pub top_clients : List Text
  pub top_tables : List Text
  pub first_seen : ℕ
  pub last_seen : ℕ

abbrev pub top_k_limit : ℕ
top_k_limit = 5

abbrev count_exceptions : List QueryExceptionCount → List (ℕ × ℕ) → List (ℕ × ℕ)
count_exceptions [] counts = counts
count_exceptions (e ∷ es) counts = count_exceptions es (
    if ltb 0 e.count
    then put e.code ((lookup_or 0 e.code counts + e.count) % u64) counts
    else counts)

abbrev pub more_frequent : QueryExceptionCount → QueryExceptionCount → Bool
more_frequent a b = if not (a.count == b.count) then ltb b.count a.count else ltb a.code b.code

-- The values of one group, each counted once.
weigh : Unicode → ℕ → List Text → List Text → List (Text × ℕ) → List (Text × ℕ)
unfolding put lookup_or contains
weigh u executions [] seen weights = weights
weigh u executions (v ∷ vs) seen weights =
    let value = trim u.is_space v in
    let skip = is_empty value || contains seen value in
    weigh u executions vs (if skip then seen else value ∷ seen)
      (if skip then weights else put value ((lookup_or 0 value weights + executions) % u64) weights)

abbrev pub heavier : Text × ℕ → Text × ℕ → Bool
heavier a b = if not (a.1 == b.1) then ltb b.1 a.1 else bytes_lt a.0 b.0

module _ {F : Type 0} where
  exceptions_in : List (QueryFamilyExactGroup F) → List (ℕ × ℕ) → List (ℕ × ℕ)
  unfolding put lookup_or
  exceptions_in [] counts = counts
  exceptions_in (g ∷ gs) counts = exceptions_in gs (count_exceptions g.top_exceptions counts)

  unfoldable pub aggregate_top_exceptions :
      List (QueryFamilyExactGroup F) → List QueryExceptionCount
  unfolding exceptions_in sort_by
  aggregate_top_exceptions gs =
      take top_k_limit (
        sort_by more_frequent (map (λ e. record { code = e.0; count = e.1 }) (exceptions_in gs [])))

  weights_in :
      Unicode
      → (QueryFamilyExactGroup F → List Text)
      → List (QueryFamilyExactGroup F)
      → List (Text × ℕ)
      → List (Text × ℕ)
  unfolding weigh
  weights_in u values [] weights = weights
  weights_in u values (g ∷ gs) weights =
      weights_in u values gs (weigh u g.execution_count (values g) [] weights)

  unfoldable pub weighted_top_values :
      Unicode → (QueryFamilyExactGroup F → List Text) → List (QueryFamilyExactGroup F) → List Text
  unfolding weights_in sort_by
  weighted_top_values u values gs =
      map (λ e. e.0) (take top_k_limit (sort_by heavier (weights_in u values gs [])))

module _ (fl : Float64) where
  open fl use {F, ratio, max}

  unfoldable pub failure_rate : ℕ → ℕ → F
  failure_rate successful failed =
      let total = (successful + failed) % u64 in
      if total == 0 then ratio 0 1 else ratio failed total

  abbrev pub no_stats : QueryFamilyStats F
  no_stats = record {
    execution_count = 0;
    successful_count = 0;
    failed_count = 0;
    failure_rate = ratio 0 1;
    p95_duration_ms = ratio 0 1;
    p99_duration_ms = ratio 0 1;
    top_exceptions = [];
    max_memory_usage = 0;
    p95_read_rows = ratio 0 1;
    p95_read_bytes = ratio 0 1;
    top_users = [];
    top_clients = [];
    top_tables = [];
    first_seen = 0;
    last_seen = 0;
  }

  -- One group added to the statistics.
  unfoldable pub add_group : QueryFamilyStats F → QueryFamilyExactGroup F → QueryFamilyStats F
  add_group stats g = record stats {
    execution_count = (stats.execution_count + g.execution_count) % u64;
    successful_count = (stats.successful_count + g.successful_count) % u64;
    failed_count = (stats.failed_count + g.failed_count) % u64;
    p95_duration_ms = max stats.p95_duration_ms g.p95_duration_ms;
    p99_duration_ms = max stats.p99_duration_ms g.p99_duration_ms;
    max_memory_usage =
        if ltb stats.max_memory_usage g.max_memory_usage
        then g.max_memory_usage
        else stats.max_memory_usage;
    p95_read_rows = max stats.p95_read_rows g.p95_read_rows;
    p95_read_bytes = max stats.p95_read_bytes g.p95_read_bytes;
    first_seen =
        if stats.first_seen == 0 || (not (g.first_seen == 0) && ltb g.first_seen stats.first_seen)
        then g.first_seen
        else stats.first_seen;
    last_seen = if ltb stats.last_seen g.last_seen then g.last_seen else stats.last_seen;
  }

  unfoldable pub add_groups :
      QueryFamilyStats F → List (QueryFamilyExactGroup F) → QueryFamilyStats F
  unfolding add_group
  add_groups stats [] = stats
  add_groups stats (g ∷ gs) = add_groups (add_group stats g) gs

  unfoldable pub aggregate_stats : Unicode → List (QueryFamilyExactGroup F) → QueryFamilyStats F
  unfolding add_groups failure_rate aggregate_top_exceptions weighted_top_values
  aggregate_stats u gs =
      let stats = add_groups no_stats gs in
      record stats {
        failure_rate = failure_rate stats.successful_count stats.failed_count;
        top_exceptions = aggregate_top_exceptions gs;
        top_users = weighted_top_values u (λ g. g.top_users) gs;
        top_clients = weighted_top_values u (λ g. g.top_clients) gs;
        top_tables = weighted_top_values u (λ g. g.top_tables) gs;
      }
