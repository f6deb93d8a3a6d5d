-- ===== src/Tests/Text.antt =====
-- Runs of src/utility.cc, and the theorems on it applied.
use myjfm_spider.Prelude.{
  ℕ, ◌%◌, ◌^◌, ◌≡◌, ◌≢◌, refl, true, false, some, List, [], ◌∷◌, arith, codes,
}
use myjfm_spider.Utility.{split, is_separator, strcmp, str2hex, is_digit}
use myjfm_spider.Utility.Splitting.{AllTokens, join, split-join}
use myjfm_spider.Utility.Comparing.{Compares, strcmp-Compares}
use myjfm_spider.Utility.Numbers.{AllHex, is_hex, hex_value, str2hex_letter}

cons_ne : (c : ℕ) (s : List ℕ) → c ∷ s ≢ []
cons_ne c s = ground arith

three_tokens :
    (is_separator (codes "; ") b';' ≡ true) × AllTokens (codes "; ") (codes "ab" ∷ codes "c" ∷ [])
unfolding is_separator
three_tokens =
    (refl, (cons_ne b'a' (codes "b"), (refl, (refl, tt)), (cons_ne b'c' [], (refl, tt), tt)))

split-join_example :
    split (join b';' (codes "ab" ∷ codes "c" ∷ [])) (codes "; ") ≡ codes "ab" ∷ codes "c" ∷ []
split-join_example =
    split-join b';' b';' (codes " ") (codes "ab" ∷ codes "c" ∷ []) three_tokens.0 three_tokens.1

strcmp-Compares_example :
    Compares (codes "ab") (codes "b") (strcmp (some (codes "ab")) (some (codes "b")))
strcmp-Compares_example = strcmp-Compares (codes "ab") (codes "b")

ff : AllHex (codes "f") × (is_hex b'f' ≡ true) × (is_digit b'f' ≡ false)
unfolding is_digit is_hex
ff = ((refl, tt), refl, refl)

str2hex_letter_example : (str2hex (some (codes "ff"))).1 ≢ hex_value 0 (codes "ff") % 2 ^ 32
str2hex_letter_example = str2hex_letter b'f' [] b'f' (omega arith) ff.0 ff.1 ff.2
