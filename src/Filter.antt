-- ===== src/Filter.antt =====
-- internal/filter/filter.go: the decisions of a configured QueryFilter, and what it makes of a
-- query_log row at the export boundary. Go's regexp and netip are parameters: a compiled pattern by
-- what it answers, an address as a number.
pub mod Shape
use click_dog.Common.{
  ℕ, Bool, true, false, ◌&&◌, ◌||◌, not, String, ◌≡◌, ◌↔◌, ◌⊎◌, Option, none, some, List, [], ◌∷◌,
  any, if◌then◌else◌, arith,
}
use click_dog.Common.Sets.{contains, nat_equality, string_equality}
use click_dog.Model.{QueryLog}

pub data QueryTextMode : Type 0 where
  raw redacted normalized_only no_text : QueryTextMode

pub record Regexp : Type 0 where
  pub match_string : String → Bool
  pub replace_all_string : String → String → String

pub record RedactionEntry : Type 0 where
  pub re : Regexp
  pub replacement : String

-- `netip.ParseAddr`, `none` for an error, and `Addr.Unmap`.
pub record Netip : Type 0 where
  pub parse_addr : String → Option ℕ
  pub unmap : ℕ → ℕ

pub record QueryFilter : Type 0 where
  pub query_text_mode : QueryTextMode
  pub operation_patterns : List Regexp
  pub query_blacklist_patterns : List Regexp
  pub redaction_rules : List RedactionEntry
  pub whitelist_ips : List ℕ
  pub whitelist_cidrs : List (ℕ → Bool)
  pub whitelist_users : List String
  pub blacklist_users : List String
  pub has_operation_whitelist : Bool
  pub has_ip_whitelist : Bool
  pub has_user_whitelist : Bool
  pub has_user_blacklist : Bool

module _ (net : Netip) (qf : QueryFilter) where
  unfoldable pub is_ip_whitelisted : String → Bool
  is_ip_whitelisted client_ip = elim (net.parse_addr client_ip) [
    | none ↦ false
    | some addr ↦
        contains qf.whitelist_ips (net.unmap addr) || any (λ cidr. cidr addr) qf.whitelist_cidrs
  ]

  unfoldable pub should_filter : String → String → String → Bool
  unfolding is_ip_whitelisted
  should_filter operation_name query_text client_ip =
      if qf.has_ip_whitelist && not (is_ip_whitelisted client_ip)
      then true
      else if qf.has_operation_whitelist
          && not (any (λ pattern. pattern.match_string operation_name) qf.operation_patterns)
      then true
      else any (λ pattern. pattern.match_string query_text) qf.query_blacklist_patterns

unfoldable pub should_filter_user : QueryFilter → String → Bool
should_filter_user qf user =
    if qf.has_user_whitelist && not (contains qf.whitelist_users user)
    then true
    else qf.has_user_blacklist && contains qf.blacklist_users user

abbrev pub has_user_filter : QueryFilter → Bool
has_user_filter qf = qf.has_user_whitelist || qf.has_user_blacklist

-- The text after the rules from here on, and whether one of them has matched.
redact : List RedactionEntry → Bool → String → String × Bool
redact [] matched text = (text, matched)
redact (e ∷ es) matched text =
    redact es (matched || e.re.match_string text) (e.re.replace_all_string text e.replacement)

unfoldable pub redact_query_for_export : QueryFilter → String → String × Bool
unfolding redact
redact_query_for_export qf text = redact qf.redaction_rules false text

unfoldable pub shape_query_for_export : QueryFilter → QueryLog → QueryLog
unfolding redact_query_for_export
shape_query_for_export qf query = elim qf.query_text_mode [
  | raw ↦ query
  | redacted ↦
      let (text, matched) = redact_query_for_export qf query.query in
      if matched then record query { query = text } else record query { query = "" }
  | normalized_only ↦ record query { query = "" }
  | no_text ↦ record query { query = ""; normalized_query = "" }
]

-- A span passes the three tests exactly if each one that is configured lets it pass: the client's
-- address is whitelisted, some operation pattern matches, and no blacklist pattern matches.
pub should_filter_iff :
    (net : Netip) (qf : QueryFilter) (operation query_text client_ip : String)
    → (should_filter net qf operation query_text client_ip ≡ false) ↔ (
        (qf.has_ip_whitelist ≡ true → is_ip_whitelisted net qf client_ip ≡ true)
        × (qf.has_operation_whitelist ≡ true
            → any (λ pattern. pattern.match_string operation) qf.operation_patterns ≡ true)
        × (any (λ pattern. pattern.match_string query_text) qf.query_blacklist_patterns ≡ false))
unfolding should_filter
should_filter_iff net qf operation query_text client_ip = ground arith

-- Under a mode that restricts the query text, a row's statement leaves the boundary empty or as the
-- redaction rules made it, and then one of the rules has matched; the normalized text is kept
-- unless the mode is none; every other column of the row stays as it is.
pub shape_query_for_export-Private :
    (qf : QueryFilter) (query : QueryLog)
    → (qf.query_text_mode ≡ raw → ⊥)
    → (((shape_query_for_export qf query).query ≡ "")
        ⊎ ((qf.query_text_mode ≡ redacted)
            × ((redact_query_for_export qf query.query).1 ≡ true)
            × ((shape_query_for_export qf query).query
                ≡ (redact_query_for_export qf query.query).0)))
      × (((shape_query_for_export qf query).normalized_query ≡ query.normalized_query)
          ⊎ ((qf.query_text_mode ≡ no_text)
              × ((shape_query_for_export qf query).normalized_query ≡ "")))
      × (shape_query_for_export qf query ≡ record query {
        query = (shape_query_for_export qf query).query;
        normalized_query = (shape_query_for_export qf query).normalized_query;
      })
unfolding shape_query_for_export
shape_query_for_export-Private qf query private = ground arith
