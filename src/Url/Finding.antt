-- ===== src/Url/Finding.antt =====
-- src/url.cc: texts that urls are written from, and the places of bytes in them.
use myjfm_spider.Prelude.{
  ℕ, zero, suc, ◌+◌, ◌-◌, ◌/◌, ◌%◌, ◌^◌, ◌≤◌, ◌<◌, ◌≡◌, ◌≢◌, ◌⊎◌, inl, inr, Bool-cases,
  Option-cases, refl, ap, ◌∙◌, Option, none, some, List, [], ◌∷◌, ◌++◌, arith, ltb, length, drop,
  codes,
}
use myjfm_spider.Utility.{integer2str, print_digits}
use myjfm_spider.Utility.Numbers.{str2integer-integer2str}
use myjfm_spider.Url.{find, c_str, read_port}

-- The byte is not in the text.
abbrev pub Free : ℕ → List ℕ → Type 0
Free d [] = Unit {0}
Free d (c ∷ s) = (c ≢ d) × Free d s

abbrev pub print_port : Option ℕ → List ℕ
print_port none = []
print_port (some p) = b':' ∷ integer2str p

abbrev pub print_file : Option (List ℕ) → List ℕ
print_file none = []
print_file (some path) = b'/' ∷ path

unfoldable pub print_url : List ℕ → Option ℕ → Option (List ℕ) → List ℕ
print_url site port file = codes "http://" ++ (site ++ (print_port port ++ print_file file))

abbrev pub port_or_80 : Option ℕ → ℕ
port_or_80 none = 80
port_or_80 (some p) = p

abbrev pub file_or_slash : Option (List ℕ) → List ℕ
file_or_slash none = codes "/"
file_or_slash (some path) = b'/' ∷ path

-- A site with something in it and neither a slash nor a colon.
abbrev pub IsSite : List ℕ → Type 0
IsSite s = (0 < length s) × Free b'/' s × Free b':' s

abbrev pub IsPort : Option ℕ → Type 0
IsPort none = Unit {0}
IsPort (some p) = p < 2 ^ 16

pub find-Free : (d : ℕ) (s : List ℕ) → Free d s → find d s ≡ none
unfolding find
find-Free d [] free = refl
find-Free d (c ∷ s) free = ground (arith, find-Free d s free.1, free.0)

pub find-append : (d : ℕ) (s t : List ℕ) → Free d s → find d (s ++ d ∷ t) ≡ some (length s)
unfolding find
find-append d [] t free = ground arith
find-append d (c ∷ s) t free = ground (arith, find-append d s t free.1, free.0)

-- Texts of digits.
abbrev pub AllDigits : List ℕ → Type 0
AllDigits [] = Unit {0}
AllDigits (c ∷ s) = (b'0' ≤ c) × (c ≤ b'9') × AllDigits s

AllDigits-append : (s t : List ℕ) → AllDigits s → AllDigits t → AllDigits (s ++ t)
AllDigits-append [] t p q = q
AllDigits-append (c ∷ s) t p q = (p.0, p.1, AllDigits-append s t p.2 q)

AllDigits-print_digits : (fuel n : ℕ) → AllDigits (print_digits fuel n)
unfolding print_digits
AllDigits-print_digits zero n = tt
AllDigits-print_digits (suc fuel) n = elim (Bool-cases (ltb n 10)) [
  | inl e ↦ let small : n < 10 = ground (arith, e) in rw e (omega arith, omega arith, tt)
  | inr e ↦ rw e (
      AllDigits-append (print_digits fuel (n / 10)) ((b'0' + n % 10) ∷ [])
        (AllDigits-print_digits fuel (n / 10)) (omega arith, omega arith, tt))
]

pub AllDigits-Free : (d : ℕ) (s : List ℕ) → (d < b'0') ⊎ (b'9' < d) → AllDigits s → Free d s
AllDigits-Free d [] out all = tt
AllDigits-Free d (c ∷ s) out all = (
  λ e. elim out [ inl lo ↦ omega (arith, all.0, e) | inr hi ↦ omega (arith, all.1, e) ],
  AllDigits-Free d s out all.2,
)

c_str-AllDigits : (s : List ℕ) → AllDigits s → c_str s ≡ s
unfolding c_str
c_str-AllDigits [] all = refl
c_str-AllDigits (c ∷ s) all = ground (arith, c_str-AllDigits s all.2, all.0)

pub AllDigits-integer2str : (n : ℕ) → AllDigits (integer2str n)
unfolding integer2str
AllDigits-integer2str n = AllDigits-print_digits (suc n) n

pub read_port-integer2str : (p : ℕ) → p < 2 ^ 16 → read_port (integer2str p) ≡ some p
read_port-integer2str p small =
    rw (c_str-AllDigits (integer2str p) (AllDigits-integer2str p))
      (str2integer-integer2str (2 ^ 16 - 1) p (omega arith))

pub Free-append : (d : ℕ) (s t : List ℕ) → Free d s → Free d t → Free d (s ++ t)
Free-append d [] t p q = q
Free-append d (c ∷ s) t p q = (p.0, Free-append d s t p.1 q)

drop-past : (s : List ℕ) (c : ℕ) (t : List ℕ) → drop (suc (length s)) (s ++ c ∷ t) ≡ t
drop-past [] c t = refl
drop-past (x ∷ s) c t = drop-past s c t

pub drop-suc : (s : List ℕ) (c : ℕ) (t : List ℕ) → drop (length s + 1) (s ++ c ∷ t) ≡ t
drop-suc s c t =
    let next : length s + 1 ≡ suc (length s) = omega arith in
    ap (λ n. drop n (s ++ c ∷ t)) next ∙ drop-past s c t

-- A byte that is not in the first part is in neither part or found behind the first one.
pub find-cases :
    (d : ℕ) (s t : List ℕ)
    → Free d s
    → (find d (s ++ t) ≡ none)
      ⊎ ((j : ℕ) × (find d (s ++ t) ≡ some (length s + j)) × (find d t ≡ some j))
unfolding find
find-cases d [] t free = elim (Option-cases (find d t)) [
  | inl e ↦ inl e
  | inr (j, e) ↦ inr (j, e ∙ ap some (omega arith), e)
]
find-cases d (c ∷ s) t free = elim (find-cases d s t free.1) [
  | inl e ↦ inl (ground (arith, e, free.0))
  | inr (j, e, f) ↦ inr (j, ground (arith, e, free.0), f)
]

pub find-pos : (d c : ℕ) (s : List ℕ) (j : ℕ) → c ≢ d → find d (c ∷ s) ≡ some j → 0 < j
unfolding find
find-pos d c s j ne e = elim (Option-cases (find d s)) [
  | inl f ↦ ground (arith, e, f, ne)
  | inr (i, f) ↦ ground (arith, e, f, ne)
]
