-- ===== src/Utility.antt =====
-- src/utility.h and src/utility.cc: the text functions of the class Utility.
-- A C string is the list of its bytes before the NUL, `none` where the pointer is NULL. A function
-- that works in place returns the new contents. Bytes above 127 are negative as `char`, so they are
-- neither spaces nor letters nor digits in the C locale.
pub mod Trimming
pub mod Splitting
pub mod Comparing
pub mod Numbers
pub mod Paths
pub mod FullPaths
pub mod Escaping
use myjfm_spider.Prelude.{
  ℕ, zero, suc, ◌+◌, ◌-◌, ◌*◌, ◌/◌, ◌%◌, ◌^◌, Bool, true, false, not, ◌||◌, ◌&&◌, Option, none,
  some, List, [], ◌∷◌, ◌++◌, ltb, leb, ◌==◌, if◌then◌else◌, ℤ, pos, negsuc, Run, done, fault, codes,
}
use myjfm_spider.ResCode.{ResCode, s_ok, s_fail}

-- `p >= lo && p <= hi`.
abbrev pub within : ℕ → ℕ → ℕ → Bool
within lo hi c = leb lo c && leb c hi

-- `::isspace`, `::toupper` and `::tolower` of the C library.
unfoldable pub is_space : ℕ → Bool
is_space c = within 9 13 c || c == b' '

unfoldable pub upper_char : ℕ → ℕ
upper_char c = if within b'a' b'z' c then c - 32 else c

unfoldable pub lower_char : ℕ → ℕ
lower_char c = if within b'A' b'Z' c then c + 32 else c

unfoldable pub ltrim : List ℕ → List ℕ
unfolding is_space
ltrim [] = []
ltrim (c ∷ s) = if is_space c then ltrim s else c ∷ s

-- A byte goes if it is a space and all that follows it went.
abbrev pub keep : ℕ → List ℕ → List ℕ
keep c [] = if is_space c then [] else c ∷ []
keep c (d ∷ s) = c ∷ d ∷ s

unfoldable pub rtrim : List ℕ → List ℕ
unfolding is_space
rtrim [] = []
rtrim (c ∷ s) = keep c (rtrim s)

unfoldable pub trim : List ℕ → List ℕ
unfolding ltrim rtrim
trim s = rtrim (ltrim s)

unfoldable pub to_upper : List ℕ → List ℕ
unfolding upper_char
to_upper [] = []
to_upper (c ∷ s) = upper_char c ∷ to_upper s

unfoldable pub to_lower : List ℕ → List ℕ
unfolding lower_char
to_lower [] = []
to_lower (c ∷ s) = lower_char c ∷ to_lower s

-- Whether `find_first_of` stops at the byte.
unfoldable pub is_separator : List ℕ → ℕ → Bool
is_separator [] c = false
is_separator (d ∷ ds) c = d == c || is_separator ds c

-- `container.push_back` where `cur != pre`.
abbrev pub push_token : List ℕ → List (List ℕ) → List (List ℕ)
push_token [] rest = rest
push_token (c ∷ s) rest = (c ∷ s) ∷ rest

-- The loop of `split`; `pre` is the text between the last separator and the current position.
unfoldable pub split_loop : List ℕ → List ℕ → List ℕ → List (List ℕ)
unfolding is_separator
split_loop sep pre [] = push_token pre []
split_loop sep pre (c ∷ s) = elim (is_separator sep c) [
  | true ↦ push_token pre (split_loop sep [] s)
  | false ↦ split_loop sep (pre ++ c ∷ []) s
]

unfoldable pub split : List ℕ → List ℕ → List (List ℕ)
unfolding split_loop
split s [] = s ∷ []
split s (d ∷ ds) = split_loop (d ∷ ds) [] s

unfoldable pub is_digit : ℕ → Bool
is_digit c = within b'0' b'9' c

-- `ss >> tmp` into an unsigned type with the largest value `limit`, as libstdc++ reads a number:
-- the digits to the end of the text, no more than `limit`, negated in the type behind a minus.
unfoldable pub read_digits : ℕ → List ℕ → Option ℕ
unfolding is_digit
read_digits v [] = some v
read_digits v (c ∷ s) = if is_digit c then read_digits (v * 10 + c - b'0') s else none

abbrev pub read_some : List ℕ → Option ℕ
read_some [] = none
read_some (c ∷ s) = read_digits 0 (c ∷ s)

abbrev pub in_type : ℕ → Bool → Option ℕ → Option ℕ
in_type limit minus none = none
in_type limit minus (some v) =
    if ltb limit v then none else some (if minus then (limit + 1 - v) % (limit + 1) else v)

unfoldable pub read_unsigned : ℕ → List ℕ → Option ℕ
read_unsigned limit [] = none
read_unsigned limit (c ∷ s) =
    if c == b'-'
    then in_type limit true (read_some s)
    else in_type limit false (if c == b'+' then read_some s else read_some (c ∷ s))

-- `str2integer`: S_OK with the number, else the target keeps what it had.
unfoldable pub str2integer : ℕ → Option (List ℕ) → Option ℕ
str2integer limit none = none
str2integer limit (some s) = read_unsigned limit (ltrim s)

-- `ss << number` and `ss >> str`: the decimal digits. The fuel n + 1 is more than their number.
unfoldable pub print_digits : ℕ → ℕ → List ℕ
print_digits zero n = []
print_digits (suc fuel) n =
    let front = print_digits fuel (n / 10) in
    if ltb n 10 then (b'0' + n) ∷ [] else front ++ (b'0' + n % 10) ∷ []

unfoldable pub integer2str : ℕ → List ℕ
unfolding print_digits
integer2str n = print_digits (suc n) n

unfoldable pub is_hex_digit : ℕ → Bool
is_hex_digit c = within b'0' b'9' c || (within b'a' b'z' c || within b'A' b'Z' c)

unfoldable pub str2hex_loop : ℕ → List ℕ → ℕ
unfolding is_hex_digit
str2hex_loop number [] = number
str2hex_loop number (c ∷ s) =
    let base = if within b'0' b'9' c then b'0' else if within b'a' b'z' c then b'a' else b'A' in
    let rest = str2hex_loop ((number * 16 + c - base) % 2 ^ 32) s in
    if is_hex_digit c then rest else number

-- S_FAIL for NULL. A number with a leading 0 is 0.
unfoldable pub str2hex : Option (List ℕ) → ResCode × ℕ
str2hex none = (s_fail, 0)
str2hex (some []) = (s_ok, 0)
str2hex (some (c ∷ s)) = if c == b'0' then (s_ok, 0) else (s_ok, str2hex_loop 0 (c ∷ s))

abbrev pub minus_one : ℤ
minus_one = negsuc 0

abbrev pub minus_two : ℤ
minus_two = negsuc 1

-- The loop of `strcmp` and `strcasecmp`; `f` is what is done to both bytes first.
unfoldable pub compare_loop : (ℕ → ℕ) → List ℕ → List ℕ → ℤ
compare_loop f [] [] = pos 0
compare_loop f (a ∷ s) [] = pos 1
compare_loop f [] (b ∷ t) = minus_one
compare_loop f (a ∷ s) (b ∷ t) =
    if ltb (f b) (f a) then pos 1 else if ltb (f a) (f b) then minus_one else compare_loop f s t

unfoldable pub strcmp : Option (List ℕ) → Option (List ℕ) → ℤ
unfolding compare_loop
strcmp none t = minus_two
strcmp (some s) none = minus_two
strcmp (some s) (some t) = compare_loop (λ c. c) s t

unfoldable pub strcasecmp : Option (List ℕ) → Option (List ℕ) → ℤ
unfolding compare_loop lower_char
strcasecmp none t = minus_two
strcasecmp (some s) none = minus_two
strcasecmp (some s) (some t) = compare_loop lower_char s t

-- Where both texts end before n bytes were compared, the function runs off its end: a `fault`.
unfoldable pub compare_loop_n : ℕ → List ℕ → List ℕ → Run ℤ
unfolding lower_char
compare_loop_n zero s t = done (pos 0)
compare_loop_n (suc n) [] [] = fault
compare_loop_n (suc n) (a ∷ s) [] = done (pos 1)
compare_loop_n (suc n) [] (b ∷ t) = done minus_one
compare_loop_n (suc n) (a ∷ s) (b ∷ t) =
    if ltb (lower_char b) (lower_char a)
    then done (pos 1)
    else if ltb (lower_char a) (lower_char b)
    then done minus_one
    else compare_loop_n n s t

unfoldable pub strncasecmp : Option (List ℕ) → Option (List ℕ) → ℕ → Run ℤ
unfolding compare_loop_n
strncasecmp none t n = done minus_two
strncasecmp (some s) none n = done minus_two
strncasecmp (some s) (some t) n = compare_loop_n n s t
