-- ===== src/Global/Printed.antt =====
-- src/global.cc: `atoi` on printed numbers.
use myjfm_spider.Prelude.{
  ℕ, zero, suc, ◌+◌, ◌-◌, ◌*◌, ◌/◌, ◌%◌, ◌^◌, ◌<◌, ◌≡◌, refl, ◌∙◌, true, List, [], ◌∷◌, ◌++◌, arith,
  ltb, Bool-cases, inl, inr,
}
use myjfm_spider.Utility.{is_space, is_digit, print_digits, integer2str}
use myjfm_spider.Utility.Numbers.{AllDigits}
use myjfm_spider.Global.{atoi, atoi_sign, digits_value}

-- The number that is printed is read back.
digits_value-append :
    (v d : ℕ) (s : List ℕ)
    → AllDigits s
    → d < 10
    → digits_value v (s ++ (b'0' + d) ∷ []) ≡ digits_value v s * 10 + d
unfolding digits_value is_digit
digits_value-append v d [] all small = ground arith
digits_value-append v d (c ∷ s) all small =
    ground (arith, digits_value-append (v * 10 + c - b'0') d s all.1 small, all.0)

AllDigits-append : (s t : List ℕ) → AllDigits s → AllDigits t → AllDigits (s ++ t)
AllDigits-append [] t p q = q
AllDigits-append (c ∷ s) t p q = (p.0, AllDigits-append s t p.1 q)

digit-is_digit : (d : ℕ) → d < 10 → is_digit (b'0' + d) ≡ true
unfolding is_digit
digit-is_digit d small = ground (arith, small)

AllDigits-print_digits : (fuel n : ℕ) → AllDigits (print_digits fuel n)
unfolding print_digits
AllDigits-print_digits zero n = tt
AllDigits-print_digits (suc fuel) n = elim (Bool-cases (ltb n 10)) [
  | inl e ↦ rw e (digit-is_digit n (ground (arith, e)), tt)
  | inr e ↦ rw e (
      AllDigits-append (print_digits fuel (n / 10)) ((b'0' + n % 10) ∷ [])
        (AllDigits-print_digits fuel (n / 10)) (digit-is_digit (n % 10) (omega arith), tt))
]

digits_value-print_digits : (fuel n : ℕ) → n < fuel → digits_value 0 (print_digits fuel n) ≡ n
unfolding print_digits
digits_value-print_digits zero n h = absurd (omega arith)
digits_value-print_digits (suc fuel) n h = elim (Bool-cases (ltb n 10)) [
  | inl e ↦ rw e (unfold digits_value is_digit in ground (arith, e))
  | inr e ↦
      let rest = digits_value-print_digits fuel (n / 10) (ground (arith, e, h)) in
      let last =
        digits_value-append 0 (n % 10) (print_digits fuel (n / 10))
          (AllDigits-print_digits fuel (n / 10)) (omega arith) in
      rw e (last ∙ omega (arith, rest))
]

atoi-AllDigits : (s : List ℕ) → AllDigits s → atoi s ≡ digits_value 0 s % 2 ^ 32
unfolding atoi
atoi-AllDigits [] all = unfold digits_value in refl
atoi-AllDigits (c ∷ s) all = unfold atoi_sign is_space is_digit in ground (arith, all.0)

pub atoi-integer2str : (n : ℕ) → n < 2 ^ 32 → atoi (integer2str n) ≡ n
unfolding integer2str
atoi-integer2str n small =
    atoi-AllDigits (print_digits (suc n) n) (AllDigits-print_digits (suc n) n)
    ∙ omega (arith, digits_value-print_digits (suc n) n (omega arith), small)
