-- ===== src/Common/Text.antt =====
-- Text as the numbers of its characters: bytes, or code points, whose order is the same.
use Prim.Native.Nat.{ℕ}
use Prim.Native.Char.{code}
use Prim.Native.String.{String}
use mathlib.Core.Path.{◌≡◌, refl}
use mathlib.Core.Bool.{Bool, true, false, ◌&&◌, ◌||◌}
use mathlib.Core.List.{List, [], ◌∷◌}
use native.Mathlib.Omega.{arith}
use click_dog.Common.Tests.{◌==◌, ltb}
use click_dog.Common.Sets.{Equality}

abbrev pub Text : Type 0
Text = List ℕ

abbrev pub codes : String → Text
codes String.[] = []
codes (String.◌∷◌ c s) = code c ∷ codes s

-- Go's `<` and `==` on strings.
unfoldable pub bytes_lt : Text → Text → Bool
bytes_lt [] [] = false
bytes_lt [] (y ∷ ys) = true
bytes_lt (x ∷ xs) [] = false
bytes_lt (x ∷ xs) (y ∷ ys) = ltb x y || (x == y && bytes_lt xs ys)

unfoldable pub bytes_same : Text → Text → Bool
bytes_same [] [] = true
bytes_same [] (y ∷ ys) = false
bytes_same (x ∷ xs) [] = false
bytes_same (x ∷ xs) (y ∷ ys) = x == y && bytes_same xs ys

pub bytes_lt_irrefl : (a : Text) → bytes_lt a a ≡ false
unfolding bytes_lt
bytes_lt_irrefl [] = refl
bytes_lt_irrefl (x ∷ xs) = ground (arith, bytes_lt_irrefl xs)

pub bytes_lt_trans :
    (a b c : Text) → bytes_lt a b ≡ true → bytes_lt b c ≡ true → bytes_lt a c ≡ true
unfolding bytes_lt
bytes_lt_trans [] [] c p q = cc
bytes_lt_trans [] (y ∷ ys) [] p q = cc
bytes_lt_trans [] (y ∷ ys) (z ∷ zs) p q = refl
bytes_lt_trans (x ∷ xs) [] c p q = cc
bytes_lt_trans (x ∷ xs) (y ∷ ys) [] p q = cc
bytes_lt_trans (x ∷ xs) (y ∷ ys) (z ∷ zs) p q = ground (arith, bytes_lt_trans xs ys zs)

pub bytes_same→eq : (a b : Text) → bytes_same a b ≡ true → a ≡ b
unfolding bytes_same
bytes_same→eq [] [] h = refl
bytes_same→eq [] (y ∷ ys) h = cc
bytes_same→eq (x ∷ xs) [] h = cc
bytes_same→eq (x ∷ xs) (y ∷ ys) h = ground (arith, bytes_same→eq xs ys)

pub bytes_same_refl : (a : Text) → bytes_same a a ≡ true
unfolding bytes_same
bytes_same_refl [] = refl
bytes_same_refl (x ∷ xs) = ground (arith, bytes_same_refl xs)

pub bytes_lt_antisym : (a b : Text) → bytes_lt a b ≡ false → bytes_lt b a ≡ false → a ≡ b
unfolding bytes_lt
bytes_lt_antisym [] [] p q = refl
bytes_lt_antisym [] (y ∷ ys) p q = cc
bytes_lt_antisym (x ∷ xs) [] p q = cc
bytes_lt_antisym (x ∷ xs) (y ∷ ys) p q = ground (arith, bytes_lt_antisym xs ys)

pub bytes_same_of_eq : (a b : Text) → a ≡ b → bytes_same a b ≡ true
bytes_same_of_eq a b e = rw e (bytes_same_refl b)

instance abbrev pub text_equality : Equality Text
text_equality = record {
  same = bytes_same;
  same_iff = λ a b. (bytes_same→eq a b, bytes_same_of_eq a b);
}

pub bytes_lt_asym : (a b : Text) → bytes_lt a b ≡ true → bytes_lt b a ≡ false
unfolding bytes_lt
bytes_lt_asym [] [] h = refl
bytes_lt_asym [] (y ∷ ys) h = refl
bytes_lt_asym (x ∷ xs) [] h = cc
bytes_lt_asym (x ∷ xs) (y ∷ ys) h = ground (arith, bytes_lt_asym xs ys)

pub bytes_lt_between :
    (a b c : Text) → bytes_lt c b ≡ false → bytes_lt c a ≡ true → bytes_lt b a ≡ true
unfolding bytes_lt
bytes_lt_between [] b [] p q = cc
bytes_lt_between [] b (z ∷ zs) p q = cc
bytes_lt_between (x ∷ xs) [] c p q = refl
bytes_lt_between (x ∷ xs) (y ∷ ys) [] p q = cc
bytes_lt_between (x ∷ xs) (y ∷ ys) (z ∷ zs) p q = ground (arith, bytes_lt_between xs ys zs)
