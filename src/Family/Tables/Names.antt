-- ===== src/Family/Tables/Names.antt =====
-- What the extracted tables are: names of the statement, in order, each once.
use click_dog.Common.{
  ℕ, zero, suc, ◌+◌, ◌-◌, ◌≤◌, ◌≡◌, refl, Bool, true, false, ◌&&◌, ◌||◌, Option, none, some, List,
  [], ◌∷◌, ◌++◌, map, All, length, ◌==◌, is_empty, inl, inr, Bool-cases, Option-cases, subst, arith,
}
use click_dog.Common.Sets.{contains, Distinct}
use click_dog.Common.Sorting.{
  Pairs, All-perm, WeakOrder, NotAfter, sort_by-Perm, sort_by-Sorted, perm_symm, Distinct-perm,
}
use click_dog.Common.Text.{Text, bytes_lt, bytes_lt_asym, bytes_lt_between, text_equality}
use click_dog.Family.Tokens.{Unicode, clean_identifier}
use click_dog.Family.Tables.{
  add_table, skip_balanced, from_token, collect_from_tables, table_after_keyword, statement_token,
  tables_in, extract_tables, table_candidate, is_clause_boundary, is_word, upper,
}

pub text_order : WeakOrder bytes_lt
text_order = record {
  asym = λ a b h. bytes_lt_asym a b h;
  between = λ a b c h k. bytes_lt_between a b c h k;
}

module _ (P : Text → Type 0) where
  All-append : (xs : List Text) (t : Text) → All P xs → P t → All P (xs ++ t ∷ [])
  All-append [] t h p = (p, tt)
  All-append (x ∷ xs) t h p = (h.0, All-append xs t h.1 p)

contains-snoc :
    (xs : List Text) (t a : Text)
    → contains (xs ++ t ∷ []) a ≡ contains xs a || text_equality.same t a
unfolding contains
contains-snoc [] t a = ground arith
contains-snoc (x ∷ xs) t a = ground (arith, contains-snoc xs t a)

Distinct-snoc :
    (xs : List Text) (t : Text) → Distinct xs → contains xs t ≡ false → Distinct (xs ++ t ∷ [])
unfolding contains
Distinct-snoc [] t d h = ground arith
Distinct-snoc (x ∷ xs) t d h = ground (
  arith,
  Distinct-snoc xs t d.1,
  contains-snoc xs t x,
  text_equality.same_iff t x,
  text_equality.same_iff x t,
  h,
  d.0,
)

-- Distinct names, none empty, each with `P`.
pub record IsNames (P : Text → Type 0) (tables : List Text) : Type 0 where
  pub distinct : Distinct tables
  pub named : All (λ t. (is_empty t ≡ false) × P t) tables

add_table-IsNames :
    (P : Text → Type 0) (t : Text) (tables : List Text)
    → P t
    → IsNames P tables
    → IsNames P (add_table t tables)
unfolding add_table
add_table-IsNames P t tables p n = elim (Bool-cases (is_empty t || contains tables t)) [
  | inl old ↦ rw old n
  | inr new ↦ rw new (record {
    distinct = Distinct-snoc tables t n.distinct (ground (arith, new));
    named = All-append (λ x. (is_empty x ≡ false) × P x) tables t n.named (ground (arith, new), p);
  })
]

skip_balanced-le : (depth : ℕ) (ts : List Text) → length (skip_balanced depth ts) ≤ length ts
unfolding skip_balanced
skip_balanced-le depth [] = omega arith
skip_balanced-le depth (t ∷ ts) = ground (
  arith,
  skip_balanced-le (depth + 1) ts,
  skip_balanced-le (depth - 1) ts,
  skip_balanced-le depth ts,
)

skip_open :
    (t : Text) (ts : List Text)
    → is_word "(" t ≡ true
    → length (skip_balanced 0 (t ∷ ts)) ≤ length ts
unfolding skip_balanced
skip_open t ts up = rw up (skip_balanced-le 1 ts)

All-skip_balanced :
    (P : Text → Type 0) (depth : ℕ) (ts : List Text) → All P ts → All P (skip_balanced depth ts)
unfolding skip_balanced
All-skip_balanced P depth [] h = tt
All-skip_balanced P depth (t ∷ ts) h = elim (Bool-cases (is_word "(" t)) [
  | inl up ↦ rw up (All-skip_balanced P (depth + 1) ts h.1)
  | inr other ↦ elim (Bool-cases (is_word ")" t)) [
    | inr inside ↦ rw (other, inside) (All-skip_balanced P depth ts h.1)
    | inl down ↦ elim (Bool-cases (depth == 1)) [
      | inl closed ↦ rw (other, down, closed) h.1
      | inr open_ ↦ rw (other, down, open_) (All-skip_balanced P (depth - 1) ts h.1)
    ]
  ]
]

module _ (u : Unicode) (P : Text → Type 0) where
  abbrev Cleans : List Text → Type 0
  Cleans ts = All (λ t. P (clean_identifier u t)) ts

  -- What is kept of the tokens and the tables behind a token.
  abbrev Goes : List Text → List Text × List Text → Type 0
  Goes ts (rest, tables) = (length rest ≤ length ts) × Cleans rest × IsNames P tables

  abbrev FromGoes : List Text → Option (Bool × List Text × List Text) → Type 0
  FromGoes ts none = Unit
  FromGoes ts (some (expect, rest, tables)) = Goes ts (rest, tables)

  from_token-Goes :
      (expect : Bool) (t : Text) (ts tables : List Text)
      → Cleans (t ∷ ts)
      → IsNames P tables
      → FromGoes ts (from_token u expect t ts tables)
  unfolding from_token
  from_token-Goes expect t ts tables c n =
      elim (Bool-cases (is_clause_boundary u t || is_word "JOIN" (upper u t))) [
        | inl end ↦ rw end tt
        | inr inside ↦ elim (Bool-cases (is_word "(" t)) [
          | inl up ↦
              rw (inside, up)
                (
                  skip_open t ts up,
                  All-skip_balanced (λ s. P (clean_identifier u s)) 0 (t ∷ ts) c,
                  n,
                )
          | inr other ↦ elim (Bool-cases (is_word "," t)) [
            | inl comma ↦ rw (inside, other, comma) (omega arith, c.1, n)
            | inr word ↦ elim (Bool-cases (expect && table_candidate u t ts)) [
              | inl table ↦
                  rw (inside, other, word, table)
                    (omega arith, c.1, add_table-IsNames P (clean_identifier u t) tables c.0 n)
              | inr no_table ↦ rw (inside, other, word, no_table) (omega arith, c.1, n)
            ]
          ]
        ]
      ]

  -- The cases of the loop's step.
  abbrev from_goes_on :
      List Text
      → List Text
      → Option (Bool × List Text × List Text)
      → (Bool → List Text → List Text → List Text × List Text)
      → List Text × List Text
  from_goes_on ts tables step k = elim step [
    | none ↦ (ts, tables)
    | some (expect, rest, tables') ↦ k expect rest tables'
  ]

  from_goes_on-Goes :
      (t : Text) (ts tables : List Text) (step : Option (Bool × List Text × List Text))
      (k : Bool → List Text → List Text → List Text × List Text)
      → Cleans (t ∷ ts)
      → IsNames P tables
      → FromGoes ts step
      → ((e : Bool) (rest more : List Text)
          → Cleans rest
          → IsNames P more
          → Goes rest (k e rest more))
      → Goes (t ∷ ts) (from_goes_on (t ∷ ts) tables step k)
  from_goes_on-Goes t ts tables none k c n g h = (omega arith, c, n)
  from_goes_on-Goes t ts tables (some (e, rest, more)) k c n g h =
      let r = h e rest more g.1 g.2 in (omega (arith, r.0, g.0), r.1, r.2)

  collect_from_tables-Goes :
      (turns : ℕ) (expect : Bool) (ts tables : List Text)
      → Cleans ts
      → IsNames P tables
      → Goes ts (collect_from_tables u turns expect ts tables)
  unfolding collect_from_tables
  collect_from_tables-Goes zero expect ts tables c n = (omega arith, c, n)
  collect_from_tables-Goes (suc turns) expect [] tables c n = (omega arith, tt, n)
  collect_from_tables-Goes (suc turns) expect (t ∷ ts) tables c n =
      from_goes_on-Goes t ts tables (from_token u expect t ts tables) (collect_from_tables u turns)
        c n (from_token-Goes expect t ts tables c n) (collect_from_tables-Goes turns)

  table_after_keyword-P :
      (ts : List Text) → Cleans ts → (t : Text) → table_after_keyword u ts ≡ some t → P t
  unfolding table_after_keyword
  table_after_keyword-P [] c t h = absurd (ground (arith, h))
  table_after_keyword-P (s ∷ ss) c t h =
      elim (Bool-cases (is_word "(" s || is_clause_boundary u s)) [
        | inl end ↦ absurd (ground (arith, h, end))
        | inr word ↦ elim (Bool-cases (table_candidate u s ss)) [
          | inl table ↦
              let e : clean_identifier u s ≡ t = ground (arith, h, word, table) in subst P e c.0
          | inr other ↦
              let later : table_after_keyword u ss ≡ some t = ground (arith, h, word, other) in
              table_after_keyword-P ss c.1 t later
        ]
      ]

  statement_token-Goes :
      (t : Text) (ts tables : List Text)
      → Cleans ts
      → IsNames P tables
      → Goes ts (statement_token u t ts tables)
  unfolding statement_token
  statement_token-Goes t ts tables c n = elim (Bool-cases (is_word "FROM" (upper u t))) [
    | inl from ↦ rw from (collect_from_tables-Goes (length ts) true ts tables c n)
    | inr other ↦
        elim (Bool-cases (
          is_word "JOIN" (upper u t)
          || is_word "INTO" (upper u t)
          || is_word "UPDATE" (upper u t))) [
            | inr no_ ↦ rw (other, no_) (omega arith, c, n)
            | inl word ↦ elim (Option-cases (table_after_keyword u ts)) [
              | inl nothing ↦ rw (other, word, nothing) (omega arith, c, n)
              | inr (table, found) ↦
                  rw (other, word, found)
                    (
                      omega arith,
                      c,
                      add_table-IsNames P table tables (table_after_keyword-P ts c table found) n,
                    )
            ]
          ]
  ]

  tables_in-IsNames :
      (turns : ℕ) (ts tables : List Text)
      → Cleans ts
      → IsNames P tables
      → IsNames P (tables_in u turns ts tables)
  unfolding tables_in
  tables_in-IsNames zero ts tables c n = n
  tables_in-IsNames (suc turns) [] tables c n = n
  tables_in-IsNames (suc turns) (t ∷ ts) tables c n =
      let g = statement_token-Goes t ts tables c.1 n in
      tables_in-IsNames turns (statement_token u t ts tables).0 (statement_token u t ts tables).1
        g.1 g.2

All_map : (P Q : Text → Type 0) → ((t : Text) → P t → Q t) → (ts : List Text) → All P ts → All Q ts
All_map P Q f [] h = tt
All_map P Q f (t ∷ ts) h = (f t h.0, All_map P Q f ts h.1)

cleaned :
    (u : Unicode) (ts : List Text)
    → All (λ t. contains (map (clean_identifier u) ts) (clean_identifier u t) ≡ true) ts
unfolding contains
cleaned u [] = tt
cleaned u (t ∷ ts) =
    let c = clean_identifier u t in
    let names = map (clean_identifier u) ts in
    (
      rw ((text_equality.same_iff c c).1 refl),
      All_map (λ s. contains names (clean_identifier u s) ≡ true)
          (λ s.
            (text_equality.same c (clean_identifier u s) || contains names (clean_identifier u s))
            ≡ true)
          (λ s h. ground (arith, h)) ts (cleaned u ts),
    )

-- The tables of a statement are in order and each once, none has an empty name, and each is the
-- cleaned text of one of the statement's tokens, whatever the tokens are.
pub extract_tables-Names :
    (u : Unicode) (ts : List Text)
    → Pairs (NotAfter bytes_lt text_order) (extract_tables u ts)
      × Distinct (extract_tables u ts)
      × All
          (λ t. (is_empty t ≡ false) × (contains (map (clean_identifier u) ts) t ≡ true))
          (extract_tables u ts)
unfolding extract_tables
extract_tables-Names u ts =
    let found = tables_in u (length ts) ts [] in
    let names =
      tables_in-IsNames u (λ t. contains (map (clean_identifier u) ts) t ≡ true) (length ts) ts []
        (cleaned u ts) (record { distinct = tt; named = tt }) in
    let sorted = perm_symm (sort_by-Perm bytes_lt text_order found) in
    (
      sort_by-Sorted bytes_lt text_order found,
      Distinct-perm sorted names.distinct,
      All-perm (λ t. (is_empty t ≡ false) × (contains (map (clean_identifier u) ts) t ≡ true))
          sorted names.named,
    )
