-- ===== src/Utility/Numbers.antt =====
-- src/utility.h and src/utility.cc: numbers written and read.
use myjfm_spider.Prelude.{
  ℕ, zero, suc, ◌+◌, ◌-◌, ◌*◌, ◌/◌, ◌%◌, ◌^◌, ◌≤◌, ◌<◌, Bool, true, false, ◌≡◌, ◌≢◌, refl, ap, ◌∙◌,
  some, List, [], ◌∷◌, ◌++◌, arith, Bool-cases, inl, inr, if◌then◌else◌, ltb, ◌||◌,
}
use myjfm_spider.ResCode.{s_ok}
use myjfm_spider.Utility.{
  within, ltrim, is_digit, read_digits, read_unsigned, str2integer, print_digits, integer2str,
  str2hex_loop, str2hex,
}

abbrev pub AllDigits : List ℕ → Type 0
AllDigits [] = Unit {0}
AllDigits (c ∷ s) = (is_digit c ≡ true) × AllDigits s

read_digits-append :
    (v x d : ℕ) (s : List ℕ)
    → read_digits v s ≡ some x
    → d < 10
    → read_digits v (s ++ (b'0' + d) ∷ []) ≡ some (x * 10 + d)
unfolding read_digits is_digit
read_digits-append v x d [] e h = ground arith
read_digits-append v x d (c ∷ s) e h = ground (arith, read_digits-append (v * 10 + c - b'0') x d s)

read_digits-print_digits : (fuel n : ℕ) → n < fuel → read_digits 0 (print_digits fuel n) ≡ some n
unfolding print_digits
read_digits-print_digits zero n h = absurd (omega arith)
read_digits-print_digits (suc fuel) n h = elim (Bool-cases (ltb n 10)) [
  | inl e ↦ rw e (unfold read_digits is_digit in ground arith)
  | inr e ↦
      let rest = read_digits-print_digits fuel (n / 10) (ground arith) in
      let value : n / 10 * 10 + n % 10 ≡ n = omega arith in
      rw e (
        read_digits-append 0 (n / 10) (n % 10) (print_digits fuel (n / 10)) rest (omega arith)
        ∙ ap some value)
]

-- The text that a number is printed as begins with a digit.
data Starts : List ℕ → Type 0 where
  digit : (c : ℕ) (s : List ℕ) → b'0' ≤ c → c ≤ b'9' → Starts (c ∷ s)

Starts-append : (s t : List ℕ) → Starts s → Starts (s ++ t)
Starts-append _ t (digit c s lo hi) = digit c (s ++ t) lo hi

Starts-print_digits : (fuel n : ℕ) → n < fuel → Starts (print_digits fuel n)
unfolding print_digits
Starts-print_digits zero n h = absurd (omega arith)
Starts-print_digits (suc fuel) n h = elim (Bool-cases (ltb n 10)) [
  | inl e ↦ rw e (digit (b'0' + n) [] (omega arith) (ground arith))
  | inr e ↦ rw e (Starts-append _ _ (Starts-print_digits fuel (n / 10) (ground arith)))
]

read_unsigned-Starts :
    (limit v : ℕ) (s : List ℕ)
    → Starts s
    → read_digits 0 s ≡ some v
    → v ≤ limit
    → read_unsigned limit s ≡ some v
unfolding read_unsigned
read_unsigned-Starts limit v _ (digit c s lo hi) e le = ground (arith, e)

ltrim-Starts : (s : List ℕ) → Starts s → ltrim s ≡ s
unfolding ltrim
ltrim-Starts _ (digit c s lo hi) = ground arith

-- What `integer2str` prints, `str2integer` reads back into any unsigned type that holds the number.
pub str2integer-integer2str :
    (limit n : ℕ) → n ≤ limit → str2integer limit (some (integer2str n)) ≡ some n
unfolding str2integer
str2integer-integer2str limit n le =
    let starts = Starts-print_digits (suc n) n (omega arith) in
    let value = read_digits-print_digits (suc n) n (omega arith) in
    unfold integer2str in
    rw (ltrim-Starts _ starts) (read_unsigned-Starts limit n _ starts value le)

-- RFC 2616 section 3.6.1: a hexadecimal digit and its value.
unfoldable pub is_hex : ℕ → Bool
is_hex c = within b'0' b'9' c || (within b'a' b'f' c || within b'A' b'F' c)

unfoldable pub hex_digit_value : ℕ → ℕ
hex_digit_value c =
    if within b'0' b'9' c
    then c - b'0'
    else if within b'a' b'f' c
    then c - b'a' + 10
    else c - b'A' + 10

unfoldable pub hex_value : ℕ → List ℕ → ℕ
hex_value v [] = v
hex_value v (c ∷ cs) = hex_value (v * 16 + hex_digit_value c) cs

abbrev pub AllHex : List ℕ → Type 0
AllHex [] = Unit {0}
AllHex (c ∷ cs) = (is_hex c ≡ true) × AllHex cs

hex_value-append :
    (v : ℕ) (s : List ℕ) (c : ℕ)
    → hex_value v (s ++ c ∷ []) ≡ hex_value v s * 16 + hex_digit_value c
unfolding hex_value
hex_value-append v [] c = refl
hex_value-append v (d ∷ s) c = hex_value-append (v * 16 + hex_digit_value d) s c

-- A last letter counts 10 too little, whatever was read before it.
str2hex_loop-letter :
    (s : List ℕ) (number c : ℕ)
    → AllHex s
    → is_hex c ≡ true
    → is_digit c ≡ false
    → str2hex_loop number (s ++ c ∷ []) % 16 + 10 ≡ hex_digit_value c
unfolding str2hex_loop is_hex is_digit hex_digit_value
str2hex_loop-letter [] number c all hex letter = ground arith
str2hex_loop-letter (d ∷ s) number c all hex letter = ground (
  arith,
  str2hex_loop-letter s ((number * 16 + d - b'0') % 2 ^ 32) c,
  str2hex_loop-letter s ((number * 16 + d - b'a') % 2 ^ 32) c,
  str2hex_loop-letter s ((number * 16 + d - b'A') % 2 ^ 32) c,
)

-- A text of two or more hexadecimal digits whose last one is a letter, and that does not begin with
-- 0, is read as a wrong number: not its value modulo 2 ^ 32.
pub str2hex_letter :
    (d : ℕ) (s : List ℕ) (c : ℕ)
    → d ≢ b'0'
    → AllHex (d ∷ s)
    → is_hex c ≡ true
    → is_digit c ≡ false
    → (str2hex (some (d ∷ s ++ c ∷ []))).1 ≢ hex_value 0 (d ∷ s ++ c ∷ []) % 2 ^ 32
unfolding str2hex
str2hex_letter d s c ne all hex letter e =
    let low = str2hex_loop-letter (d ∷ s) 0 c all hex letter in
    let value = hex_value-append 0 (d ∷ s) c in
    let read : str2hex_loop 0 (d ∷ s ++ c ∷ []) ≡ hex_value 0 (d ∷ s ++ c ∷ []) % 2 ^ 32 =
      ground (arith, e) in
    omega (arith, low, value, read)

str2hex_loop-digits :
    (s : List ℕ) (u v : ℕ)
    → AllDigits s
    → u ≡ v % 2 ^ 32
    → str2hex_loop u s ≡ hex_value v s % 2 ^ 32
unfolding str2hex_loop hex_value is_digit hex_digit_value
str2hex_loop-digits [] u v all e = e
str2hex_loop-digits (c ∷ s) u v all e =
    ground (arith, str2hex_loop-digits s ((u * 16 + c - b'0') % 2 ^ 32) (v * 16 + (c - b'0')))

-- A text of decimal digits that does not begin with 0 is read as the hexadecimal number that it
-- stands for, modulo 2 ^ 32.
str2hex_digits :
    (d : ℕ) (s : List ℕ)
    → d ≢ b'0'
    → AllDigits (d ∷ s)
    → str2hex (some (d ∷ s)) ≡ (s_ok, hex_value 0 (d ∷ s) % 2 ^ 32)
unfolding str2hex
str2hex_digits d s ne all = ground (arith, str2hex_loop-digits (d ∷ s) 0 0)
