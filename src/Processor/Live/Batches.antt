-- ===== src/Processor/Live/Batches.antt =====
-- The batches of a page are the page.
use click_dog.Common.{
  ℕ, zero, suc, ◌-◌, ◌≤◌, ◌≡◌, refl, List, [], ◌∷◌, ◌++◌, length, take, drop, arith, All,
}
use click_dog.Processor.Live.{batches, batch_size}

abbrev pub flatten {ℓ} : {A : Type ℓ} → List (List A) → List A
flatten [] = []
flatten (b ∷ bs) = b ++ flatten bs

take-drop {ℓ} : {A : Type ℓ} (n : ℕ) (spans : List A) → take n spans ++ drop n spans ≡ spans
take-drop zero spans = refl
take-drop (suc n) [] = refl
take-drop (suc n) (s ∷ ss) = rw (take-drop n ss) refl

length-drop {ℓ} : {A : Type ℓ} (n : ℕ) (spans : List A) → length (drop n spans) ≡ length spans - n
length-drop zero spans = omega arith
length-drop (suc n) [] = omega arith
length-drop (suc n) (s ∷ ss) = omega (arith, length-drop n ss)

length-take {ℓ} : {A : Type ℓ} (n : ℕ) (spans : List A) → length (take n spans) ≤ n
length-take zero spans = omega arith
length-take (suc n) [] = omega arith
length-take (suc n) (s ∷ ss) = omega (arith, length-take n ss)

flatten-turns {ℓ} :
    {A : Type ℓ} (turns size : ℕ) (spans : List A)
    → 1 ≤ size
    → length spans ≤ turns
    → flatten (batches turns size spans) ≡ spans
unfolding batches
flatten-turns turns size [] pos enough = refl
flatten-turns zero size (s ∷ ss) pos enough = absurd (omega arith)
flatten-turns (suc turns) size (s ∷ ss) pos enough =
    rw
      (flatten-turns turns size (drop size (s ∷ ss)) pos (omega (arith, length-drop size (s ∷ ss))))
      (take-drop size (s ∷ ss))

batches-small {ℓ} :
    {A : Type ℓ} (turns size : ℕ) (spans : List A)
    → All (λ b. length b ≤ size) (batches turns size spans)
unfolding batches
batches-small turns size [] = tt
batches-small zero size (s ∷ ss) = tt
batches-small (suc turns) size (s ∷ ss) =
    (length-take size (s ∷ ss), batches-small turns size (drop size (s ∷ ss)))

pub flatten-batches {ℓ} :
    {A : Type ℓ} (size : ℕ) (spans : List A)
    → flatten (batches (length spans) (batch_size size spans) spans) ≡ spans
unfolding batch_size
flatten-batches zero [] = unfold batches in refl
flatten-batches zero (s ∷ ss) =
    flatten-turns (length (s ∷ ss)) (length (s ∷ ss)) (s ∷ ss) (omega arith) (omega arith)
flatten-batches (suc n) spans =
    flatten-turns (length spans) (suc n) spans (omega arith) (omega arith)

small_batches {ℓ} :
    {A : Type ℓ} (size : ℕ) (spans : List A)
    → 1 ≤ size
    → All (λ b. length b ≤ size) (batches (length spans) (batch_size size spans) spans)
unfolding batch_size
small_batches zero spans pos = absurd (omega arith)
small_batches (suc n) spans pos = batches-small (length spans) (suc n) spans

-- The batches of a page, in their order, are the page's spans, none lost and none twice, and with a
-- batch size configured no batch is larger.
pub batches_lem {ℓ} :
    {A : Type ℓ} (size : ℕ) (spans : List A)
    → (flatten (batches (length spans) (batch_size size spans) spans) ≡ spans)
      × (1 ≤ size
          → All (λ b. length b ≤ size) (batches (length spans) (batch_size size spans) spans))
batches_lem size spans = (flatten-batches size spans, small_batches size spans)
