-- ===== src/Family/Preview.antt =====
-- internal/queryfamily/rollup.go: TruncatePreview and the options' defaults.
pub mod Idempotent
use click_dog.Common.{
  ℕ, zero, suc, ◌+◌, ◌-◌, Bool, true, false, ◌||◌, List, [], ◌∷◌, ◌++◌, length, take, ltb, leb,
  ◌==◌, is_empty, if◌then◌else◌, ◌≤◌, ◌≡◌, Bool-cases, inl, inr, refl, arith,
}
use click_dog.Common.Int.{ℤ, pos, negsuc}
use click_dog.Common.Text.{Text}
use click_dog.Family.Tokens.{Unicode, join_with}

abbrev end_word : Text → List Text → List Text
end_word word words = if is_empty word then words else word ∷ words

-- `strings.Fields`, with the word that is being read.
unfoldable pub fields_from : Unicode → Text → Text → List Text
fields_from u word [] = end_word word []
fields_from u word (c ∷ cs) =
    let rest = fields_from u (if u.is_space c then [] else word ++ c ∷ []) cs in
    if u.is_space c then end_word word rest else rest

unfoldable pub cut : ℕ → Text → Text
cut n query =
    if n == 0 || leb (length query) n
    then query
    else if leb n 3
    then take n query
    else take (n - 3) query ++ b'.' ∷ b'.' ∷ b'.' ∷ []

unfoldable pub truncate_preview : Unicode → Text → ℤ → Text
unfolding fields_from cut join_with
truncate_preview u query (pos n) = cut n (join_with (32 ∷ []) (fields_from u [] query))
truncate_preview u query (negsuc n) = join_with (32 ∷ []) (fields_from u [] query)

abbrev pub max_preview_length : ℕ
max_preview_length = 2000

unfoldable pub preview_length : ℤ → ℕ
preview_length (negsuc n) = 500
preview_length (pos n) =
    if n == 0 then 500 else if ltb max_preview_length n then max_preview_length else n
