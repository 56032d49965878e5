-- ===== src/Family/Preview/Idempotent.antt =====
-- A preview is of the length asked for, and a preview of a preview is that preview.
use click_dog.Common.{
  ℕ, zero, suc, ◌-◌, ◌≤◌, ◌<◌, ◌≡◌, ◌⊎◌, refl, sym, ap, ◌∙◌, subst, inl, inr, Bool, true, false,
  List, [], ◌∷◌, ◌++◌, All, length, length-append, take, leb, is_empty, is_empty-snoc, Bool-cases,
  arith,
}
use mathlib.Core.List.{append_assoc, append-nil}
use click_dog.Common.Int.{pos}
use click_dog.Common.Text.{Text}
use click_dog.Family.Tokens.{Unicode, join_with}
use click_dog.Family.Preview.{end_word, fields_from, cut, truncate_preview}

module _ (u : Unicode) where
  -- Words with one blank between each two, as it goes on behind a word or behind a blank.
  abbrev Tidy : Bool → Text → Type 0
  Tidy true [] = Unit
  Tidy false [] = ⊥
  Tidy true (c ∷ cs) =
      ((u.is_space c ≡ false) × Tidy true cs) ⊎ ((u.is_space c ≡ true) × (c ≡ 32) × Tidy false cs)
  Tidy false (c ∷ cs) = (u.is_space c ≡ false) × Tidy true cs

  abbrev IsCollapsed : Text → Type 0
  IsCollapsed cs = (cs ≡ []) ⊎ Tidy false cs

  -- What is behind a word.
  abbrev behind : List Text → Text
  behind [] = []
  behind (w ∷ ws) = 32 ∷ join_with (32 ∷ []) (w ∷ ws)

  join_with-cons : (w : Text) (ws : List Text) → join_with (32 ∷ []) (w ∷ ws) ≡ w ++ behind ws
  unfolding join_with
  join_with-cons w [] = sym (append-nil w)
  join_with-cons w (x ∷ xs) = refl

  join_with-end_word :
      (w : Text) (ws : List Text)
      → is_empty w ≡ false
      → join_with (32 ∷ []) (end_word w ws) ≡ w ++ behind ws
  join_with-end_word [] ws h = absurd (ground (arith, h))
  join_with-end_word (c ∷ w) ws h = join_with-cons (c ∷ w) ws

  behind-join_with :
      (c : ℕ) (cs : Text) (ws : List Text)
      → join_with (32 ∷ []) ws ≡ c ∷ cs
      → behind ws ≡ 32 ∷ c ∷ cs
  unfolding join_with
  behind-join_with c cs [] h = absurd (ground (arith, h))
  behind-join_with c cs (w ∷ ws) h = ap (λ t. 32 ∷ t) h

  -- Tidy text is read as it stands: behind the word that is being read, and behind a blank.
  mutual
    unfolding fields_from

    Tidy-word :
        (w cs : Text)
        → is_empty w ≡ false
        → Tidy true cs
        → join_with (32 ∷ []) (fields_from u w cs) ≡ w ++ cs
    Tidy-word w [] h t = join_with-end_word w [] h
    Tidy-word w (c ∷ cs) h (inl (word, t)) =
        rw word (Tidy-word (w ++ c ∷ []) cs (is_empty-snoc w c) t ∙ append_assoc w (c ∷ []) cs)
    Tidy-word w (c ∷ cs) h (inr (space, e, t)) = rw space (
        join_with-end_word w (fields_from u [] cs) h
        ∙ ap (λ b. w ++ b) (Tidy-blank cs t ∙ ap (λ d. d ∷ cs) (sym e)))

    Tidy-blank : (cs : Text) → Tidy false cs → behind (fields_from u [] cs) ≡ 32 ∷ cs
    Tidy-blank [] t = absurd t
    Tidy-blank (c ∷ cs) t =
        rw t.0 (behind-join_with c cs (fields_from u (c ∷ []) cs) (Tidy-word (c ∷ []) cs refl t.1))

  -- Tidy text is its own preview.
  collapse-tidy : (cs : Text) → IsCollapsed cs → join_with (32 ∷ []) (fields_from u [] cs) ≡ cs
  unfolding fields_from join_with
  collapse-tidy cs (inl e) = rw e refl
  collapse-tidy [] (inr t) = absurd t
  collapse-tidy (c ∷ cs) (inr t) = rw t.0 (Tidy-word (c ∷ []) cs refl t.1)

  -- A word has no blank in it.
  abbrev IsVisible : Text → Type 0
  IsVisible w = All (λ c. u.is_space c ≡ false) w

  IsVisible-snoc : (w : Text) (c : ℕ) → IsVisible w → u.is_space c ≡ false → IsVisible (w ++ c ∷ [])
  IsVisible-snoc [] c v h = (h, tt)
  IsVisible-snoc (x ∷ w) c v h = (v.0, IsVisible-snoc w c v.1 h)

  abbrev IsWords : List Text → Type 0
  IsWords ws = All (λ w. (is_empty w ≡ false) × IsVisible w) ws

  end_word-IsWords :
      (w : Text) (ws : List Text) → IsVisible w → IsWords ws → IsWords (end_word w ws)
  end_word-IsWords [] ws v h = h
  end_word-IsWords (c ∷ w) ws v h = ((refl, v), h)

  fields_from-IsWords : (w cs : Text) → IsVisible w → IsWords (fields_from u w cs)
  unfolding fields_from
  fields_from-IsWords w [] v = end_word-IsWords w [] v tt
  fields_from-IsWords w (c ∷ cs) v = elim (Bool-cases (u.is_space c)) [
    | inl space ↦
        rw space (end_word-IsWords w (fields_from u [] cs) v (fields_from-IsWords [] cs tt))
    | inr word ↦ rw word (fields_from-IsWords (w ++ c ∷ []) cs (IsVisible-snoc w c v word))
  ]

  module _ (blank : u.is_space 32 ≡ true) where
    -- Behind a word, and at the beginning.
    Tidy-append : (w rest : Text) → IsVisible w → Tidy true rest → Tidy true (w ++ rest)
    Tidy-append [] rest v t = t
    Tidy-append (c ∷ w) rest v t = inl (v.0, Tidy-append w rest v.1 t)

    Tidy-first :
        (w rest : Text) → is_empty w ≡ false → IsVisible w → Tidy true rest → Tidy false (w ++ rest)
    Tidy-first [] rest h v t = absurd (ground (arith, h))
    Tidy-first (c ∷ w) rest h v t = (v.0, Tidy-append w rest v.1 t)

    Tidy-behind : (ws : List Text) → IsWords ws → Tidy true (behind ws)
    Tidy-behind [] h = tt
    Tidy-behind (w ∷ ws) h = inr (
      blank,
      refl,
      subst (Tidy false) (sym (join_with-cons w ws))
          (Tidy-first w (behind ws) h.0.0 h.0.1 (Tidy-behind ws h.1)),
    )

    collapse-IsCollapsed : (ws : List Text) → IsWords ws → IsCollapsed (join_with (32 ∷ []) ws)
    unfolding join_with
    collapse-IsCollapsed [] h = inl refl
    collapse-IsCollapsed (w ∷ ws) h = inr (
        subst (Tidy false) (sym (join_with-cons w ws))
          (Tidy-first w (behind ws) h.0.0 h.0.1 (Tidy-behind ws h.1)))

    -- A part of tidy text with dots behind it is tidy.
    module _ (visible_dot : u.is_space b'.' ≡ false) where
      abbrev dots : Text
      dots = b'.' ∷ b'.' ∷ b'.' ∷ []

      dots-Tidy : (b : Bool) → Tidy b dots
      dots-Tidy true = inl (visible_dot, inl (visible_dot, inl (visible_dot, tt)))
      dots-Tidy false = (visible_dot, inl (visible_dot, inl (visible_dot, tt)))

      take-Tidy : (b : Bool) (n : ℕ) (cs : Text) → Tidy b cs → Tidy b (take n cs ++ dots)
      take-Tidy b zero cs t = dots-Tidy b
      take-Tidy true (suc n) [] t = dots-Tidy true
      take-Tidy false (suc n) [] t = dots-Tidy false
      take-Tidy true (suc n) (c ∷ cs) (inl (word, t)) = inl (word, take-Tidy true n cs t)
      take-Tidy true (suc n) (c ∷ cs) (inr (space, e, t)) = inr (space, e, take-Tidy false n cs t)
      take-Tidy false (suc n) (c ∷ cs) t = (t.0, take-Tidy true n cs t.1)

length-take_le : (n : ℕ) (cs : Text) → n ≤ length cs → length (take n cs) ≡ n
length-take_le zero cs h = refl
length-take_le (suc n) [] h = absurd (omega arith)
length-take_le (suc n) (c ∷ cs) h = ap suc (length-take_le n cs (omega arith))

length-cut : (n : ℕ) (cs : Text) → 1 ≤ n → length (cut n cs) ≤ n
unfolding cut
length-cut n cs h = ground (
  arith,
  length-take_le n cs,
  length-take_le (n - 3) cs,
  length-append (take (n - 3) cs) (b'.' ∷ b'.' ∷ b'.' ∷ []),
)

-- Either a text fits, or its beginning with three dots does exactly.
cut-cases :
    (n : ℕ) (cs : Text)
    → 3 < n
    → (cut n cs ≡ cs)
      ⊎ ((cut n cs ≡ take (n - 3) cs ++ b'.' ∷ b'.' ∷ b'.' ∷ [])
          × (length (cut n cs) ≡ n)
          × (is_empty cs ≡ false))
unfolding cut
cut-cases n [] h = inl (ground arith)
cut-cases n (c ∷ cs) h = elim (Bool-cases (leb (length (c ∷ cs)) n)) [
  | inl fits ↦ inl (ground (arith, fits))
  | inr long ↦ inr (
    ground (arith, long),
    ground (
      arith,
      long,
      length-take_le (n - 3) (c ∷ cs),
      length-append (take (n - 3) (c ∷ cs)) (b'.' ∷ b'.' ∷ b'.' ∷ []),
    ),
    refl,
  )
]

cut-fits : (n : ℕ) (cs : Text) → length cs ≤ n → cut n cs ≡ cs
unfolding cut
cut-fits n cs h = ground arith

-- Where Unicode counts the blank as a space and the dot not, and the limit is above three: a preview
-- is no longer than the limit, and its preview at the same limit is itself.
pub truncate_preview-idempotent :
    (u : Unicode) (query : Text) (n : ℕ)
    → u.is_space 32 ≡ true
    → u.is_space b'.' ≡ false
    → 3 < n
    → (truncate_preview u (truncate_preview u query (pos n)) (pos n)
        ≡ truncate_preview u query (pos n))
      × (length (truncate_preview u query (pos n)) ≤ n)
unfolding truncate_preview
truncate_preview-idempotent u query n blank dot h =
    let words = fields_from u [] query in
    let x = join_with (32 ∷ []) words in
    let tidy = collapse-IsCollapsed u blank words (fields_from-IsWords u [] query tt) in
    let short = length-cut n x (omega arith) in
    let again : IsCollapsed u (cut n x) = elim (cut-cases n x h) [
      | inl whole ↦ subst (IsCollapsed u) (sym whole) tidy
      | inr (part, size, some_) ↦ elim tidy [
        | inl nothing ↦ absurd (ground (arith, nothing, some_))
        | inr t ↦ inr (subst (Tidy u false) (sym part) (take-Tidy u blank dot false (n - 3) x t))
      ]
    ] in
    (ap (cut n) (collapse-tidy u (cut n x) again) ∙ cut-fits n (cut n x) short, short)
