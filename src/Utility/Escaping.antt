-- ===== src/Utility/Escaping.antt =====
-- src/utility.cc: escape, with IS_URI_CHR of src/config.h.
use myjfm_spider.Prelude.{
  ℕ, zero, suc, ◌+◌, ◌-◌, ◌*◌, ◌/◌, ◌%◌, ◌^◌, ◌<◌, ◌≡◌, refl, sym, ap, ◌∙◌, subst, ◌⊎◌, inl, inr,
  Bool, true, false, ◌&&◌, List, [], ◌∷◌, ◌++◌, arith, ltb, ◌==◌, ==_iff, if◌then◌else◌, get_or,
  Bool-cases,
}

-- A bit for each of the 128 characters, the highest bit of a byte first.
abbrev pub uri_chr : List ℕ
uri_chr =
    0x00 ∷ 0x00 ∷ 0x00 ∷ 0x00 ∷ 0x5b ∷ 0xff ∷ 0xff ∷ 0xf5 ∷ 0xff ∷ 0xff ∷ 0xff ∷ 0xe1 ∷ 0x7f ∷ 0xff
    ∷ 0xff ∷ 0xe2 ∷ []

unfoldable pub is_uri_chr : ℕ → Bool
is_uri_chr c = ltb c 128 && (get_or uri_chr (c / 8) 0 / 2 ^ (7 - c % 8) % 2 == 1)

-- `%X` of a number below 16.
unfoldable pub upper_hex_char : ℕ → ℕ
upper_hex_char d = if ltb d 10 then b'0' + d else b'A' + (d - 10)

abbrev pub escape_char : ℕ → List ℕ
escape_char c =
    if is_uri_chr c then c ∷ [] else b'%' ∷ upper_hex_char (c / 16) ∷ upper_hex_char (c % 16) ∷ []

unfoldable pub escape : List ℕ → List ℕ
escape [] = []
escape (c ∷ s) = escape_char c ++ escape s

-- Where a reader of such a text stands: at a character, at the first digit, or at the second one.
pub data Reader : Type 0 where
  at_char at_first : Reader
  at_second : ℕ → Reader

unfoldable pub hex_digit_value : ℕ → ℕ
hex_digit_value c = if ltb c b'A' then c - b'0' else c - b'A' + 10

-- A percent sign and two digits stand for a byte, any other character for itself.
unfoldable pub unescape : Reader → List ℕ → List ℕ
unescape r [] = []
unescape at_char (c ∷ s) =
    let byte = unescape at_first s in
    let rest = unescape at_char s in if c == b'%' then byte else c ∷ rest
unescape at_first (c ∷ s) = unescape (at_second (hex_digit_value c)) s
unescape (at_second d) (c ∷ s) = (d * 16 + hex_digit_value c) ∷ unescape at_char s

abbrev pub AreBytes : List ℕ → Type 0
AreBytes [] = Unit {0}
AreBytes (c ∷ s) = (c < 256) × AreBytes s

-- The characters of a URI and the percent sign.
abbrev pub AllUri : List ℕ → Type 0
AllUri [] = Unit {0}
AllUri (c ∷ s) = ((is_uri_chr c ≡ true) ⊎ (c ≡ b'%')) × AllUri s

hex_digit_value-upper_hex_char : (d : ℕ) → d < 16 → hex_digit_value (upper_hex_char d) ≡ d
unfolding hex_digit_value upper_hex_char
hex_digit_value-upper_hex_char d h = ground arith

-- Whether all sixteen digits are characters of a URI.
digits_below : ℕ → Bool
digits_below zero = true
digits_below (suc n) = is_uri_chr (upper_hex_char n) && digits_below n

digits_below-at : (n d : ℕ) → digits_below n ≡ true → d < n → is_uri_chr (upper_hex_char d) ≡ true
unfolding digits_below
digits_below-at zero d h lt = absurd (omega (arith, lt))
digits_below-at (suc n) d h lt = ground (arith, digits_below-at n d, h, lt)

all_digits : digits_below 16 ≡ true
unfolding digits_below is_uri_chr upper_hex_char
all_digits = refl

is_uri_chr-upper_hex_char : (d : ℕ) → d < 16 → is_uri_chr (upper_hex_char d) ≡ true
is_uri_chr-upper_hex_char d h = digits_below-at 16 d all_digits h

percent : is_uri_chr b'%' ≡ false
unfolding is_uri_chr
percent = refl

no_percent : (c : ℕ) → is_uri_chr c ≡ true → (c == b'%') ≡ false
no_percent c e = elim (Bool-cases (c == b'%')) [
  | inl p ↦ absurd (ground (arith, e, percent, ap is_uri_chr ((==_iff c b'%').0 p)))
  | inr p ↦ p
]

module _ (c : ℕ) (s : List ℕ) where
  unescape-char : is_uri_chr c ≡ true → unescape at_char (c ∷ s) ≡ c ∷ unescape at_char s
  unfolding unescape
  unescape-char e =
      ap (λ b. if b then unescape at_first s else c ∷ unescape at_char s) (no_percent c e)

  unescape-byte :
      c < 256
      → unescape at_char (b'%' ∷ upper_hex_char (c / 16) ∷ upper_hex_char (c % 16) ∷ s)
        ≡ c ∷ unescape at_char s
  unfolding unescape
  unescape-byte h =
      let high = hex_digit_value-upper_hex_char (c / 16) (omega (arith, h)) in
      let low = hex_digit_value-upper_hex_char (c % 16) (omega arith) in
      ap (λ b. b ∷ unescape at_char s) (omega (arith, high, low))

-- What is said of a text, and the text that it stands for.
abbrev Escapes : List ℕ → List ℕ → Type 0
Escapes t s = AllUri t × (unescape at_char t ≡ s)

escape_char-Escapes :
    (c : ℕ) (t s : List ℕ) → c < 256 → Escapes t s → Escapes (escape_char c ++ t) (c ∷ s)
escape_char-Escapes c t s h ih =
    let byte = b'%' ∷ upper_hex_char (c / 16) ∷ upper_hex_char (c % 16) ∷ [] in
    elim (Bool-cases (is_uri_chr c)) [
      | inl e ↦
          let p : Escapes (c ∷ t) (c ∷ s) =
            ((inl e, ih.0), unescape-char c t e ∙ ap (◌∷◌ c) ih.1) in
          subst (λ u. Escapes (u ++ t) (c ∷ s)) (ap (λ b. if b then c ∷ [] else byte) (sym e)) p
      | inr e ↦
          let high = is_uri_chr-upper_hex_char (c / 16) (omega (arith, h)) in
          let low = is_uri_chr-upper_hex_char (c % 16) (omega arith) in
          let p : Escapes (byte ++ t) (c ∷ s) =
            ((inr refl, (inl high, (inl low, ih.0))), unescape-byte c t h ∙ ap (◌∷◌ c) ih.1) in
          subst (λ u. Escapes (u ++ t) (c ∷ s)) (ap (λ b. if b then c ∷ [] else byte) (sym e)) p
    ]

escape-cons : (c : ℕ) (s : List ℕ) → escape (c ∷ s) ≡ escape_char c ++ escape s
unfolding escape
escape-cons c s = refl

-- escape of bytes has only characters of a URI and percent signs, and a reader that takes a percent sign
-- and two digits for a byte gets the bytes back.
pub unescape-escape :
    (s : List ℕ) → AreBytes s → AllUri (escape s) × (unescape at_char (escape s) ≡ s)
unescape-escape [] h = unfold escape unescape in (tt, refl)
unescape-escape (c ∷ s) h =
    subst (λ t. Escapes t (c ∷ s)) (sym (escape-cons c s))
      (escape_char-Escapes c (escape s) s h.0 (unescape-escape s h.1))
