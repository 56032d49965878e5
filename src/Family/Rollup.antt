-- ===== src/Family/Rollup.antt =====
-- internal/queryfamily/rollup.go: Rollup, the greedy clustering of exact groups into families.
pub mod Links
pub mod Partition
pub mod Hashes
pub mod Order
pub mod Totals
use Prim.Native.Nat.{bit_xor}
use click_dog.Common.{
  ℕ, zero, suc, ◌+◌, ◌*◌, ◌/◌, ◌%◌, ◌^◌, ◌⊎◌, inl, inr, Bool, true, false, not, ◌&&◌, ◌||◌, Option,
  none, some, List, [], ◌∷◌, ◌++◌, map, length, ltb, ◌==◌, is_empty, if◌then◌else◌,
}
use click_dog.Common.Int.{ℤ, pos}
use click_dog.Common.Maps.{lookup_or, put}
use click_dog.Common.Sets.{nat_equality}
use click_dog.Common.Sorting.{sort_by}
use click_dog.Common.Text.{Text, codes, bytes_lt}
use click_dog.Model.{Error}
use click_dog.Family.Tokens.{Unicode}
use click_dog.Family.Features.{Features, extract_features}
use click_dog.Family.Similarity.{Float64, valid_threshold, should_merge}
use click_dog.Family.Preview.{truncate_preview, preview_length}
use click_dog.Family.Stats.{
  u64, QueryExceptionCount, QueryFamilyExactGroup, QueryFamilyStats, failure_rate, aggregate_stats,
}

pub record Options (F : Type 0) : Type 0 where
  pub similarity_threshold : F
  pub max_preview_length : ℤ

pub record QueryFamilyMember (F : Type 0) : Type 0 where
  pub normalized_query_hash : ℕ
  pub normalized_query : Text
  pub execution_count : ℕ
  pub successful_count : ℕ
  pub failed_count : ℕ
  pub failure_rate : F
  pub p95_duration_ms : F
  pub p99_duration_ms : F
  pub top_exceptions : List QueryExceptionCount

pub record QueryFamilyMergeReason (F : Type 0) : Type 0 where
  pub left_hash : ℕ
  pub right_hash : ℕ
  pub similarity : F
  pub token_similarity : F
  pub shingle_similarity : F
  pub clause_similarity : F
  pub reasons : List Text

pub record QueryFamilyRollup (F : Type 0) : Type 0 where
  pub family_id : Text
  pub representative_query : Text
  pub member_hashes_sorted : List ℕ
  pub members : List (QueryFamilyMember F)
  pub stats : QueryFamilyStats F
  pub merge_reasons : List (QueryFamilyMergeReason F)

pub record FamilyBuilder (F : Type 0) : Type 0 where
  pub groups : List (QueryFamilyExactGroup F)
  pub reasons : List (QueryFamilyMergeReason F)

-- FNV-1a over the eight bytes of a number, the highest first.
abbrev fnv_byte : ℕ → ℕ → ℕ
fnv_byte h byte = (bit_xor h byte * 1_099_511_628_211) % u64

abbrev fnv_bytes : ℕ → ℕ → ℕ → ℕ
fnv_bytes zero n h = h
fnv_bytes (suc k) n h = fnv_bytes k n (fnv_byte h ((n / 256 ^ k) % 256))

abbrev fnv_all : List ℕ → ℕ → ℕ
fnv_all [] h = h
fnv_all (n ∷ ns) h = fnv_all ns (fnv_bytes 8 n h)

abbrev hex_digit : ℕ → ℕ
hex_digit d = if ltb d 10 then b'0' + d else 87 + d

abbrev hex_digits : ℕ → ℕ → Text
hex_digits zero n = []
hex_digits (suc k) n = hex_digit ((n / 16 ^ k) % 16) ∷ hex_digits k n

unfoldable pub family_id : List ℕ → Text
family_id hashes = codes "qf_" ++ hex_digits 16 (fnv_all hashes 14_695_981_039_346_656_037)

-- The length of a rune in UTF-8.
abbrev rune_len : ℕ → ℕ
rune_len c = if ltb c 0x80 then 1 else if ltb c 0x800 then 2 else if ltb c 0x10000 then 3 else 4

unfoldable pub byte_len : Text → ℕ
byte_len [] = 0
byte_len (c ∷ cs) = rune_len c + byte_len cs

module _ {F : Type 0} where
  abbrev pub hash_of : QueryFamilyExactGroup F → ℕ
  hash_of g = g.normalized_query_hash

  -- More executions first, then the lower hash.
  abbrev pub busier : QueryFamilyExactGroup F → QueryFamilyExactGroup F → Bool
  busier a b =
      if not (a.execution_count == b.execution_count)
      then ltb b.execution_count a.execution_count
      else ltb (hash_of a) (hash_of b)

  abbrev pub busier_family : QueryFamilyRollup F → QueryFamilyRollup F → Bool
  busier_family a b =
      if not (a.stats.execution_count == b.stats.execution_count)
      then ltb b.stats.execution_count a.stats.execution_count
      else bytes_lt a.family_id b.family_id

  -- The first one with the most executions, a shorter query before a longer one.
  unfoldable pub representative :
      QueryFamilyExactGroup F → List (QueryFamilyExactGroup F) → QueryFamilyExactGroup F
  unfolding byte_len
  representative r [] = r
  representative r (g ∷ gs) =
      let better =
        ltb r.execution_count g.execution_count
        || (g.execution_count == r.execution_count
            && ltb (byte_len g.normalized_query) (byte_len r.normalized_query)) in
      representative (if better then g else r) gs

-- The queries' float64, Unicode and the options, as `normalizeOptions` leaves them.
module _ (fl : Float64) (u : Unicode) (threshold : fl.F) (max_len : ℤ) where
  open fl use {F}

  abbrev pub features : QueryFamilyExactGroup F → Features
  features g = extract_features u g.normalized_query

  -- The groups by their hashes, each with its preview; a group without a hash is dropped.
  abbrev pub by_hash :
      List (QueryFamilyExactGroup F)
      → List (ℕ × List (QueryFamilyExactGroup F))
      → List (ℕ × List (QueryFamilyExactGroup F))
  by_hash [] m = m
  by_hash (g ∷ gs) m =
      let cut = record g { normalized_query = truncate_preview u g.normalized_query max_len } in
      by_hash gs
        (if hash_of g == 0 then m else put (hash_of g) (lookup_or [] (hash_of g) m ++ cut ∷ []) m)

  -- The one group that stands for those of a hash.
  unfoldable pub coalesce_same :
      QueryFamilyExactGroup F → List (QueryFamilyExactGroup F) → QueryFamilyExactGroup F
  coalesce_same g [] = g
  coalesce_same g (h ∷ hs) =
      let stats = aggregate_stats fl u (g ∷ h ∷ hs) in
      let r = representative g (h ∷ hs) in
      record {
        normalized_query_hash = hash_of r;
        normalized_query = r.normalized_query;
        execution_count = stats.execution_count;
        successful_count = stats.successful_count;
        failed_count = stats.failed_count;
        p95_duration_ms = stats.p95_duration_ms;
        p99_duration_ms = stats.p99_duration_ms;
        top_exceptions = stats.top_exceptions;
        max_memory_usage = stats.max_memory_usage;
        p95_read_rows = stats.p95_read_rows;
        p95_read_bytes = stats.p95_read_bytes;
        top_users = stats.top_users;
        top_clients = stats.top_clients;
        top_tables = stats.top_tables;
        first_seen = stats.first_seen;
        last_seen = stats.last_seen;
      }

  unfoldable pub coalesce_all :
      List (ℕ × List (QueryFamilyExactGroup F)) → List (QueryFamilyExactGroup F)
  unfolding coalesce_same
  coalesce_all [] = []
  coalesce_all ((hash, []) ∷ m) = coalesce_all m
  coalesce_all ((hash, g ∷ gs) ∷ m) = coalesce_same g gs ∷ coalesce_all m

  unfoldable pub coalesce_exact_groups :
      List (QueryFamilyExactGroup F) → List (QueryFamilyExactGroup F)
  unfolding coalesce_all put lookup_or truncate_preview
  coalesce_exact_groups gs = coalesce_all (by_hash gs [])

  abbrev reason_of : QueryFamilyExactGroup F → QueryFamilyExactGroup F → QueryFamilyMergeReason F
  reason_of member candidate =
      let result = (should_merge fl (features member) (features candidate) threshold).0 in
      record {
        left_hash = hash_of member;
        right_hash = hash_of candidate;
        similarity = result.score;
        token_similarity = result.token_similarity;
        shingle_similarity = result.shingle_similarity;
        clause_similarity = result.clause_similarity;
        reasons = result.reasons;
      }

  abbrev pub merges : QueryFamilyExactGroup F → QueryFamilyExactGroup F → Bool
  merges member candidate = (should_merge fl (features member) (features candidate) threshold).1

  -- The reasons to join a family, if the candidate merges with all its members. After coalescing a
  -- hash is that of one group, so `features[hash]` are that group's.
  unfoldable pub complete_link_reasons :
      QueryFamilyExactGroup F
      → List (QueryFamilyExactGroup F)
      → Option (List (QueryFamilyMergeReason F))
  complete_link_reasons candidate [] = some []
  complete_link_reasons candidate (member ∷ members) =
      elim (complete_link_reasons candidate members) [
        | none ↦ none
        | some reasons ↦
            if merges member candidate then some (reason_of member candidate ∷ reasons) else none
      ]

  -- The first family that the group may join takes it; if there is none it begins one.
  unfoldable pub place : QueryFamilyExactGroup F → List (FamilyBuilder F) → List (FamilyBuilder F)
  place g [] = record { groups = g ∷ []; reasons = [] } ∷ []
  place g (b ∷ bs) =
      let rest = place g bs in
      elim (complete_link_reasons g b.groups) [
        | none ↦ b ∷ rest
        | some reasons ↦ record { groups = b.groups ++ g ∷ []; reasons = b.reasons ++ reasons } ∷ bs
      ]

  unfoldable pub place_all :
      List (QueryFamilyExactGroup F) → List (FamilyBuilder F) → List (FamilyBuilder F)
  unfolding place complete_link_reasons
  place_all [] bs = bs
  place_all (g ∷ gs) bs = place_all gs (place g bs)

  abbrev member_of : QueryFamilyExactGroup F → QueryFamilyMember F
  member_of g = record {
    normalized_query_hash = hash_of g;
    normalized_query = truncate_preview u g.normalized_query max_len;
    execution_count = g.execution_count;
    successful_count = g.successful_count;
    failed_count = g.failed_count;
    failure_rate = failure_rate fl g.successful_count g.failed_count;
    p95_duration_ms = g.p95_duration_ms;
    p99_duration_ms = g.p99_duration_ms;
    top_exceptions = g.top_exceptions;
  }

  abbrev first_query : List (QueryFamilyExactGroup F) → Text
  first_query [] = []
  first_query (g ∷ gs) = truncate_preview u g.normalized_query max_len

  unfoldable pub build_rollup : FamilyBuilder F → QueryFamilyRollup F
  unfolding sort_by aggregate_stats family_id failure_rate truncate_preview
  build_rollup b =
      let groups = sort_by busier b.groups in
      let hashes = sort_by ltb (map (λ g. hash_of g) groups) in
      record {
        family_id = family_id hashes;
        representative_query = first_query groups;
        member_hashes_sorted = hashes;
        members = map member_of groups;
        stats = aggregate_stats fl u groups;
        merge_reasons = b.reasons;
      }

  -- The families of coalesced groups, before they are put in order.
  unfoldable pub families : List (QueryFamilyExactGroup F) → List (FamilyBuilder F)
  unfolding sort_by place_all
  families groups = place_all (sort_by busier groups) []

abbrev first_or : Option Error → Option Error → Option Error
first_or none later = later
first_or (some e) later = some e

-- `ctx.Err()`, asked some times from its `k`-th time on.
unfoldable pub first_error : (ℕ → Option Error) → ℕ → ℕ → Option Error
first_error ctx k zero = none
first_error ctx k (suc n) = first_or (ctx k) (first_error ctx (k + 1) n)

-- The returns of `Rollup`, in their order: canceled at once, nothing to cluster, canceled in a loop.
abbrev pub returns : {R : Type 0} → Option Error → Bool → Option Error → List R → Error ⊎ List R
returns (some e) nothing later rs = inl e
returns none true later rs = inr []
returns none false (some e) rs = inl e
returns none false none rs = inr rs

-- `ranged` is the order in which Go's map hands out the coalesced groups.
unfoldable pub rollup :
    (fl : Float64)
    → Unicode
    → (ℕ → Option Error)
    → (List (QueryFamilyExactGroup fl.F) → List (QueryFamilyExactGroup fl.F))
    → List (QueryFamilyExactGroup fl.F)
    → Options fl.F
    → Error ⊎ List (QueryFamilyRollup fl.F)
unfolding families coalesce_exact_groups build_rollup sort_by preview_length first_error
rollup fl u ctx ranged gs opts =
    let threshold = valid_threshold fl opts.similarity_threshold in
    let max_len = pos (preview_length opts.max_preview_length) in
    let groups = ranged (coalesce_exact_groups fl u threshold max_len gs) in
    let n = length groups in
    let builders = families fl u threshold max_len groups in
    returns (first_error ctx 0 1) (is_empty groups) (first_error ctx 1 (n + n + length builders))
      (sort_by busier_family (map (build_rollup fl u threshold max_len) builders))
