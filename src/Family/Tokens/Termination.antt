-- ===== src/Family/Tokens/Termination.antt =====
-- The loop over the runes ends by itself, and its turns do not bound what is read.
use click_dog.Common.{
  ℕ, zero, suc, ◌≤◌, ◌<◌, ◌≡◌, refl, ap, Bool, true, not, [], ◌∷◌, length, ◌==◌, arith,
}
use click_dog.Common.Text.{Text}
use click_dog.Family.Tokens.{
  Unicode, drop_while, is_quote, tail, skip_comment, is_identifier_rune, in_word, quoted_parts,
  read_quoted_identifier, next_token, add_token, tokens_in, tokenize_sql,
}

drop_while-le : (p : ℕ → Bool) (cs : Text) → length (drop_while p cs) ≤ length cs
drop_while-le p [] = omega arith
drop_while-le p (c ∷ cs) = ground (arith, drop_while-le p cs)

tail-le : (cs : Text) → length (tail cs) ≤ length cs
tail-le [] = omega arith
tail-le (c ∷ cs) = omega arith

skip_comment-le : (cs : Text) → length (skip_comment cs) ≤ length cs
unfolding skip_comment
skip_comment-le [] = omega arith
skip_comment-le (c ∷ []) = omega arith
skip_comment-le (c ∷ d ∷ cs) = ground (arith, skip_comment-le (d ∷ cs))

module _ (u : Unicode) where
  quoted_parts-le : (turns : ℕ) (cs : Text) → length (quoted_parts u turns cs).1 ≤ length cs
  unfolding quoted_parts
  quoted_parts-le zero cs = omega arith
  quoted_parts-le (suc turns) [] = omega arith
  quoted_parts-le (suc turns) (c ∷ cs) =
      let stop = drop_while (λ d. not (d == c)) cs in
      ground (
        arith,
        drop_while-le (λ d. not (d == c)) cs,
        tail-le stop,
        tail-le (tail stop),
        drop_while-le (is_identifier_rune u) (tail (tail stop)),
        quoted_parts-le turns (tail (tail stop)),
      )

  quoted_parts-lt :
      (turns : ℕ) (c : ℕ) (cs : Text)
      → is_quote c ≡ true
      → length (quoted_parts u (suc turns) (c ∷ cs)).1 ≤ length cs
  unfolding quoted_parts
  quoted_parts-lt turns c cs h =
      let stop = drop_while (λ d. not (d == c)) cs in
      ground (
        arith,
        h,
        drop_while-le (λ d. not (d == c)) cs,
        tail-le stop,
        tail-le (tail stop),
        drop_while-le (is_identifier_rune u) (tail (tail stop)),
        quoted_parts-le turns (tail (tail stop)),
      )

  -- A turn leaves a rune behind at least.
  next_token-le : (c : ℕ) (cs : Text) → length (next_token u c cs).1 ≤ length cs
  unfolding next_token read_quoted_identifier
  next_token-le c cs = ground (
    arith,
    drop_while-le (λ d. not (d == 10)) (tail cs),
    skip_comment-le (tail cs),
    tail-le cs,
    quoted_parts-lt (length cs) c cs,
    drop_while-le (in_word u) cs,
  )

  pub tokens_in-turns :
      (m n : ℕ) (cs : Text) → length cs ≤ m → length cs ≤ n → tokens_in u m cs ≡ tokens_in u n cs
  unfolding tokens_in
  tokens_in-turns zero zero cs p q = refl
  tokens_in-turns zero (suc n) [] p q = refl
  tokens_in-turns zero (suc n) (c ∷ cs) p q = absurd (omega arith)
  tokens_in-turns (suc m) zero [] p q = refl
  tokens_in-turns (suc m) zero (c ∷ cs) p q = absurd (omega arith)
  tokens_in-turns (suc m) (suc n) [] p q = refl
  tokens_in-turns (suc m) (suc n) (c ∷ cs) p q =
      let step = next_token u c cs in
      let short = next_token-le c cs in
      ap (add_token step.0) (tokens_in-turns m n step.1 (omega arith) (omega arith))

  -- The turns of the tokenizer are never cut: it reads a query rune by rune to its end, and what it
  -- returns is the token of its first turn, if that adds one, before the tokens of the rest, whatever
  -- the runes are.
  pub tokenize_sql-step :
      (c : ℕ) (cs : Text)
      → (tokenize_sql u (c ∷ cs)
          ≡ add_token (next_token u c cs).0 (tokenize_sql u (next_token u c cs).1))
        × (length (next_token u c cs).1 < length (c ∷ cs))
  unfolding tokenize_sql tokens_in
  tokenize_sql-step c cs =
      let short = next_token-le c cs in
      (
        ap (add_token (next_token u c cs).0) (
            tokens_in-turns (length cs) (length (next_token u c cs).1) (next_token u c cs).1 short
              (omega arith)),
        omega arith,
      )
