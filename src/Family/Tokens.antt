-- ===== src/Family/Tokens.antt =====
-- internal/queryfamily/rollup.go: tokenizeSQL, readQuotedIdentifier and cleanIdentifier, over the
-- query's runes.
pub mod Termination
pub mod Reading
use click_dog.Common.{
  ℕ, zero, suc, Bool, true, false, not, ◌&&◌, ◌||◌, Option, none, some, List, [], ◌∷◌, ◌++◌, map,
  length, ◌==◌, is_empty, if◌then◌else◌,
}
use click_dog.Common.Text.{Text}
use mathlib.Core.List.{reverse}

-- The tables of Go's package unicode.
pub record Unicode : Type 0 where
  pub is_space : ℕ → Bool
  pub is_letter : ℕ → Bool
  pub is_digit : ℕ → Bool
  pub to_lower : ℕ → ℕ
  pub to_upper : ℕ → ℕ

abbrev pub take_while : (ℕ → Bool) → Text → Text
take_while p [] = []
take_while p (c ∷ cs) = if p c then c ∷ take_while p cs else []

abbrev pub drop_while : (ℕ → Bool) → Text → Text
drop_while p [] = []
drop_while p (c ∷ cs) = if p c then drop_while p cs else c ∷ cs

-- `strings.TrimFunc`
abbrev pub trim : (ℕ → Bool) → Text → Text
trim p cs = reverse (drop_while p (reverse (drop_while p cs)))

-- `strings.Join`
unfoldable pub join_with : Text → List Text → Text
join_with sep [] = []
join_with sep (t ∷ []) = t
join_with sep (t ∷ s ∷ ts) = t ++ (sep ++ join_with sep (s ∷ ts))

abbrev pub is_quote : ℕ → Bool
is_quote c = c == b'`' || c == b'"'

abbrev pub quote_first : Text → Bool
quote_first [] = false
quote_first (c ∷ cs) = is_quote c

abbrev pub starts_with : ℕ → Text → Bool
starts_with c [] = false
starts_with c (d ∷ ds) = d == c

abbrev pub tail : Text → Text
tail [] = []
tail (c ∷ cs) = cs

-- Behind the end of a `/*` comment; one that is not closed runs to the end.
unfoldable pub skip_comment : Text → Text
skip_comment [] = []
skip_comment (c ∷ []) = []
skip_comment (c ∷ d ∷ cs) = if c == b'*' && d == b'/' then cs else skip_comment (d ∷ cs)

abbrev add_part : Text → List Text → List Text
add_part part parts = if is_empty part then parts else part ∷ parts

abbrev pub add_token : Option Text → List Text → List Text
add_token none ts = ts
add_token (some t) ts = t ∷ ts

abbrev pub is_symbol : ℕ → Bool
is_symbol c = c == b'?' || c == b',' || c == b'(' || c == b')' || c == b'*'

module _ (u : Unicode) where
  open u use {is_space, is_letter, is_digit, to_lower}

  abbrev pub is_identifier_rune : ℕ → Bool
  is_identifier_rune c = is_letter c || is_digit c || c == b'_' || c == b'$'

  abbrev pub in_word : ℕ → Bool
  in_word c = is_identifier_rune c || c == b'.'

  -- The quoted parts and the text behind them, by turns of the loop.
  quoted_parts : ℕ → Text → List Text × Text
  quoted_parts zero cs = ([], cs)
  quoted_parts (suc turns) [] = ([], [])
  quoted_parts (suc turns) (c ∷ cs) =
      let part = take_while (λ d. not (d == c)) cs in
      let behind = tail (drop_while (λ d. not (d == c)) cs) in
      let word = take_while is_identifier_rune (tail behind) in
      let more = quoted_parts turns (tail behind) in
      if not (is_quote c)
      then ([], c ∷ cs)
      else if not (starts_with b'.' behind)
      then (add_part part [], behind)
      else if is_empty (tail behind) || quote_first (tail behind)
      then (add_part part more.0, more.1)
      else (add_part part (add_part word []), drop_while is_identifier_rune (tail behind))

  unfoldable pub read_quoted_identifier : Text → Text × Text
  unfolding quoted_parts join_with
  read_quoted_identifier cs =
      let parts = quoted_parts (length cs) cs in (join_with (b'.' ∷ []) parts.0, parts.1)

  -- One turn of the loop over the runes: the token that it adds, if any, and the rest.
  unfoldable pub next_token : ℕ → Text → Option Text × Text
  unfolding skip_comment read_quoted_identifier
  next_token c cs =
      if is_space c
      then (none, cs)
      else if c == b'-' && starts_with b'-' cs
      then (none, drop_while (λ d. not (d == 10)) (tail cs))
      else if c == b'/' && starts_with b'*' cs
      then (none, skip_comment (tail cs))
      else if is_quote c
      then (let quoted = read_quoted_identifier (c ∷ cs) in (some quoted.0, quoted.1))
      else if is_identifier_rune c
      then (some (c ∷ take_while in_word cs), drop_while in_word cs)
      else if is_symbol c
      then (some (c ∷ []), cs)
      else (none, cs)

  unfoldable pub tokens_in : ℕ → Text → List Text
  unfolding next_token
  tokens_in zero cs = []
  tokens_in (suc turns) [] = []
  tokens_in (suc turns) (c ∷ cs) =
      let step = next_token c cs in add_token step.0 (tokens_in turns step.1)

  -- A rune is left behind in each turn.
  unfoldable pub tokenize_sql : Text → List Text
  unfolding tokens_in
  tokenize_sql cs = tokens_in (length cs) cs

  abbrev pub clean_identifier : Text → Text
  clean_identifier t = map to_lower (trim is_quote (trim is_space t))
