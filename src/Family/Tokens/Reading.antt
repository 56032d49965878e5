-- ===== src/Family/Tokens/Reading.antt =====
-- Words and symbols that are written with a blank in between are read back.
use mathlib.Core.List.{append-nil}
use click_dog.Common.{
  ℕ, ◌≡◌, ◌⊎◌, inl, inr, refl, sym, ap, ◌∙◌, Bool, true, false, Option, none, some, List, [], ◌∷◌,
  ◌++◌, All, arith,
}
use click_dog.Common.Text.{Text}
use click_dog.Family.Tokens.{
  Unicode, take_while, drop_while, join_with, is_identifier_rune, in_word, is_symbol, next_token,
  add_token, tokens_in, tokenize_sql,
}
use click_dog.Family.Tokens.Termination.{tokenize_sql-step}

-- What the tables of Unicode say of the blank and of the ASCII marks.
pub record IsStandard (u : Unicode) : Type 0 where
  pub blank : u.is_space 32 ≡ true
  pub words_visible : (c : ℕ) → is_identifier_rune u c ≡ true → u.is_space c ≡ false
  pub symbols_visible : (c : ℕ) → is_symbol c ≡ true → u.is_space c ≡ false
  pub symbols_apart : (c : ℕ) → is_symbol c ≡ true → is_identifier_rune u c ≡ false
  pub minus : is_identifier_rune u b'-' ≡ false
  pub slash : is_identifier_rune u b'/' ≡ false
  pub backtick : is_identifier_rune u b'`' ≡ false
  pub quote : is_identifier_rune u b'"' ≡ false

module _ (p : ℕ → Bool) where
  abbrev Stops : Text → Type 0
  Stops [] = Unit
  Stops (c ∷ cs) = p c ≡ false

  take_while-append :
      (cs rest : Text)
      → All (λ c. p c ≡ true) cs
      → Stops rest
      → (take_while p (cs ++ rest) ≡ cs) × (drop_while p (cs ++ rest) ≡ rest)
  take_while-append [] [] h s = (refl, refl)
  take_while-append [] (c ∷ rest) h s = ground (arith, s)
  take_while-append (c ∷ cs) rest h s = ground (arith, h.0, take_while-append cs rest h.1 s)

module _ (u : Unicode) where
  -- A word, or a symbol.
  abbrev pub IsPlain : Text → Type 0
  IsPlain [] = ⊥
  IsPlain (c ∷ cs) =
      ((is_identifier_rune u c ≡ true) × All (λ d. in_word u d ≡ true) cs)
      ⊎ ((is_symbol c ≡ true) × (cs ≡ []))

  module _ (standard : IsStandard u) where
    blank_not_word : in_word u 32 ≡ false
    blank_not_word = ground (arith, standard.blank, standard.words_visible 32)

    next_token-word :
        (c : ℕ) (cs rest : Text)
        → is_identifier_rune u c ≡ true
        → All (λ d. in_word u d ≡ true) cs
        → Stops (in_word u) rest
        → next_token u c (cs ++ rest) ≡ (some (c ∷ cs), rest)
    unfolding next_token
    next_token-word c cs rest i h s =
        let read = take_while-append (in_word u) cs rest h s in
        let visible = standard.words_visible c i in
        ground (
          arith, i, visible, standard.minus, standard.slash, standard.backtick, standard.quote,
          read.0, read.1,
        )

    next_token-symbol :
        (c : ℕ) (rest : Text) → is_symbol c ≡ true → next_token u c rest ≡ (some (c ∷ []), rest)
    unfolding next_token
    next_token-symbol c rest i =
        ground (arith, i, standard.symbols_visible c i, standard.symbols_apart c i)

    next_token-blank : (rest : Text) → next_token u 32 rest ≡ (none, rest)
    unfolding next_token
    next_token-blank rest = ground (arith, standard.blank)

    -- What stands behind the first of the tokens.
    abbrev after : List Text → Text
    after [] = []
    after (t ∷ ts) = 32 ∷ join_with (32 ∷ []) (t ∷ ts)

    join_with-cons : (t : Text) (ts : List Text) → join_with (32 ∷ []) (t ∷ ts) ≡ t ++ after ts
    unfolding join_with
    join_with-cons t [] = sym (append-nil t)
    join_with-cons t (s ∷ ts) = refl

    after-Stops : (ts : List Text) → Stops (in_word u) (after ts)
    after-Stops [] = tt
    after-Stops (t ∷ ts) = blank_not_word

    step_by :
        (c : ℕ) (cs : Text) (t : Option Text) (rest : Text)
        → next_token u c cs ≡ (t, rest)
        → tokenize_sql u (c ∷ cs) ≡ add_token t (tokenize_sql u rest)
    step_by c cs t rest e =
        (tokenize_sql-step u c cs).0 ∙ ap (λ s. add_token s.0 (tokenize_sql u s.1)) e

    plain_first :
        (t : Text) (ts : List Text)
        → IsPlain t
        → tokenize_sql u (t ++ after ts) ≡ t ∷ tokenize_sql u (after ts)
    plain_first [] ts h = absurd h
    plain_first (c ∷ cs) ts (inl (i, h)) =
        step_by c (cs ++ after ts) (some (c ∷ cs)) (after ts)
          (next_token-word c cs (after ts) i h (after-Stops ts))
    plain_first (c ∷ cs) ts (inr (i, e)) =
        rw e (step_by c (after ts) (some (c ∷ [])) (after ts) (next_token-symbol c (after ts) i))

    -- Words and symbols with a blank between each two are tokenized back to themselves: no word is cut
    -- and none is joined with its neighbour.
    pub tokenize_sql-join_with :
        (ts : List Text) → All IsPlain ts → tokenize_sql u (join_with (32 ∷ []) ts) ≡ ts
    unfolding join_with tokenize_sql tokens_in
    tokenize_sql-join_with [] h = refl
    tokenize_sql-join_with (t ∷ []) h =
        ap (tokenize_sql u) (join_with-cons t []) ∙ plain_first t [] h.0
    tokenize_sql-join_with (t ∷ s ∷ ts) h =
        let line = join_with (32 ∷ []) (s ∷ ts) in
        ap (tokenize_sql u) (join_with-cons t (s ∷ ts))
        ∙ plain_first t (s ∷ ts) h.0
        ∙ ap (λ l. t ∷ l) (step_by 32 line none line (next_token-blank line))
        ∙ ap (λ l. t ∷ l) (tokenize_sql-join_with (s ∷ ts) h.1)
