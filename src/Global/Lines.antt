-- ===== src/Global/Lines.antt =====
-- src/global.cc: `parse_config` on files of lines.
use myjfm_spider.Prelude.{
  ℕ, ◌-◌, ◌<◌, ◌≡◌, ◌≢◌, refl, ap, ◌∙◌, true, false, ◌||◌, Option, none, some, List, [], ◌∷◌, ◌++◌,
  append_assoc, arith, ◌==◌, if◌then◌else◌, length, codes,
}
use myjfm_spider.Utility.{is_space, ltrim, rtrim, trim, is_separator}
use myjfm_spider.Utility.Trimming.{AllSpace, StartsDark, EndsDark}
use myjfm_spider.Utility.Splitting.{AllTokens, join, split-join}
use myjfm_spider.Header.Fields.{IsLine}
use myjfm_spider.Url.{c_str}
use myjfm_spider.Global.{Global}
use myjfm_spider.Global.Config.{fgets_all, set_words, is_skipped, set_line, and_then, config_loop}

-- A line of the file: its words with a blank between any two, and the white space around them.
pub record ConfigLine : Type 0 where
  pub front : List ℕ
  pub words : List (List ℕ)
  pub back : List ℕ

abbrev pub core : ConfigLine → List ℕ
core l = join b' ' l.words

abbrev pub print_line : ConfigLine → List ℕ
print_line l = l.front ++ (core l ++ l.back)

abbrev pub NoNul : List ℕ → Type 0
NoNul [] = Unit {0}
NoNul (c ∷ s) = (c ≢ 0) × NoNul s

-- The line fits the buffer, has no LF and no NUL, and its words have no blank and no tab.
pub record IsConfigLine (l : ConfigLine) : Type 0 where
  pub front_spaces : AllSpace l.front
  pub back_spaces : AllSpace l.back
  pub words_apart : AllTokens (codes " \t") l.words
  pub starts : StartsDark (core l)
  pub ends : EndsDark (core l)
  pub one_line : IsLine (print_line l)
  pub no_nul : NoNul (print_line l)
  pub fits : length (print_line l) < 1022

abbrev pub AllConfigLines : List ConfigLine → Type 0
AllConfigLines [] = Unit {0}
AllConfigLines (l ∷ ls) = IsConfigLine l × AllConfigLines ls

unfoldable pub print_config : List ConfigLine → List ℕ
print_config [] = []
print_config (l ∷ ls) = print_line l ++ b'\n' ∷ print_config ls

-- What the lines say, one after another.
unfoldable pub obey : List ConfigLine → Global → Option Global
obey [] g = some g
obey (l ∷ ls) g = and_then (if is_skipped (core l) then some g else set_words l.words g) (obey ls)

fgets_all-line :
    (l cur rest : List ℕ) (room : ℕ)
    → IsLine l
    → length l < room
    → fgets_all room cur (l ++ b'\n' ∷ rest) ≡ (cur ++ (l ++ b'\n' ∷ [])) ∷ fgets_all 1022 [] rest
unfolding fgets_all
fgets_all-line [] cur rest room p fits = refl
fgets_all-line (c ∷ l) cur rest room p fits =
    let go_on : (c == b'\n' || room == 1) ≡ false = ground (arith, p.0, fits) in
    rw go_on (
      fgets_all-line l (cur ++ c ∷ []) rest (room - 1) p.1 (omega (arith, fits))
      ∙ ap (λ z. z ∷ fgets_all 1022 [] rest) (append_assoc cur (c ∷ []) (l ++ b'\n' ∷ [])))

c_str-NoNul : (s : List ℕ) → NoNul s → c_str s ≡ s
unfolding c_str
c_str-NoNul [] p = refl
c_str-NoNul (c ∷ s) p =
    let e : (c == 0) ≡ false = ground (arith, p.0) in rw e (ap (◌∷◌ c) (c_str-NoNul s p.1))

NoNul-end : (s : List ℕ) → NoNul s → NoNul (s ++ b'\n' ∷ [])
NoNul-end [] p = (omega arith, tt)
NoNul-end (c ∷ s) p = (p.0, NoNul-end s p.1)

ltrim-AllSpace : (front s : List ℕ) → AllSpace front → ltrim (front ++ s) ≡ ltrim s
unfolding ltrim
ltrim-AllSpace [] s p = refl
ltrim-AllSpace (c ∷ front) s p = rw (p.0) (ltrim-AllSpace front s p.1)

ltrim-blank : (s : List ℕ) → AllSpace s → ltrim s ≡ []
unfolding ltrim
ltrim-blank [] p = refl
ltrim-blank (c ∷ s) p = rw (p.0) (ltrim-blank s p.1)

ltrim-StartsDark : (c : ℕ) (s : List ℕ) → is_space c ≡ false → ltrim (c ∷ s) ≡ c ∷ s
unfolding ltrim
ltrim-StartsDark c s p = rw p refl

rtrim-AllSpace : (back : List ℕ) → AllSpace back → rtrim back ≡ []
unfolding rtrim
rtrim-AllSpace [] p = refl
rtrim-AllSpace (c ∷ back) p = rw (rtrim-AllSpace back p.1, p.0) refl

rtrim-EndsDark :
    (c : ℕ) (s back : List ℕ) → EndsDark (c ∷ s) → AllSpace back → rtrim ((c ∷ s) ++ back) ≡ c ∷ s
unfolding rtrim
rtrim-EndsDark c [] back p q = rw (rtrim-AllSpace back q, p) refl
rtrim-EndsDark c (d ∷ s) back p q = rw (rtrim-EndsDark d s back p q) refl

AllSpace-end : (s : List ℕ) → AllSpace s → AllSpace (s ++ b'\n' ∷ [])
unfolding is_space
AllSpace-end [] p = (refl, tt)
AllSpace-end (c ∷ s) p = (p.0, AllSpace-end s p.1)

trim-dark :
    (front dark back : List ℕ)
    → AllSpace front
    → StartsDark dark
    → EndsDark dark
    → AllSpace back
    → trim (front ++ (dark ++ back)) ≡ dark
unfolding trim rtrim
trim-dark front [] back f a b p =
    ap rtrim (ltrim-AllSpace front back f) ∙ ap rtrim (ltrim-blank back p)
trim-dark front (c ∷ s) back f a b p =
    ap rtrim (ltrim-AllSpace front ((c ∷ s) ++ back) f ∙ ltrim-StartsDark c (s ++ back) a)
    ∙ rtrim-EndsDark c s back b p

print_line-end :
    (l : ConfigLine) → print_line l ++ b'\n' ∷ [] ≡ l.front ++ (core l ++ (l.back ++ b'\n' ∷ []))
print_line-end l =
    append_assoc l.front (core l ++ l.back) (b'\n' ∷ [])
    ∙ ap (λ z. l.front ++ z) (append_assoc (core l) l.back (b'\n' ∷ []))

-- A line in the buffer, with its line feed.
trim-print_line :
    (l : ConfigLine) → IsConfigLine l → trim (c_str (print_line l ++ b'\n' ∷ [])) ≡ core l
trim-print_line l is =
    ap trim (
      c_str-NoNul (print_line l ++ b'\n' ∷ []) (NoNul-end (print_line l) is.no_nul)
      ∙ print_line-end l)
    ∙ trim-dark l.front (core l) (l.back ++ b'\n' ∷ []) is.front_spaces is.starts is.ends
        (AllSpace-end l.back is.back_spaces)

blank_separates : is_separator (codes " \t") b' ' ≡ true
unfolding is_separator
blank_separates = refl

set_line-core :
    (l : ConfigLine) (g : Global)
    → IsConfigLine l
    → set_line (core l) g ≡ (if is_skipped (core l) then some g else set_words l.words g)
set_line-core l g is =
    ap (λ ws. if is_skipped (core l) then some g else set_words ws g)
      (split-join b' ' b' ' (b'\t' ∷ []) l.words blank_separates is.words_apart)

config_loop-cons :
    (buffer : List ℕ) (rest : List (List ℕ)) (g : Global)
    → config_loop (buffer ∷ rest) g ≡ and_then (set_line (trim (c_str buffer)) g) (config_loop rest)
unfolding config_loop
config_loop-cons buffer rest g = refl

and_then-same :
    (o : Option Global) (f k : Global → Option Global)
    → ((g : Global) → f g ≡ k g)
    → and_then o f ≡ and_then o k
and_then-same none f k same = refl
and_then-same (some g) f k same = same g

-- A file of lines, each with LF behind it, with less than 1022 bytes and no NUL: the loop of
-- parse_config does what the lines say one after another. A line says what its first word, the key,
-- with its second says, and nothing where it is empty or begins with '#'; white space around it and
-- the unknown keys do not count.
pub config_loop-print_config :
    (ls : List ConfigLine) (g : Global)
    → AllConfigLines ls
    → config_loop (fgets_all 1022 [] (print_config ls)) g ≡ obey ls g
unfolding print_config obey
config_loop-print_config [] g all = unfold config_loop fgets_all in refl
config_loop-print_config (l ∷ ls) g all =
    let rest = fgets_all 1022 [] (print_config ls) in
    ap (λ bs. config_loop bs g)
      (fgets_all-line (print_line l) [] (print_config ls) 1022 all.0.one_line
        (omega (arith, all.0.fits)))
    ∙ config_loop-cons (print_line l ++ b'\n' ∷ []) rest g
    ∙ ap (λ z. and_then (set_line z g) (config_loop rest)) (trim-print_line l all.0)
    ∙ ap (λ o. and_then o (config_loop rest)) (set_line-core l g all.0)
    ∙ and_then-same (if is_skipped (core l) then some g else set_words l.words g) (config_loop rest)
        (obey ls) (λ g'. config_loop-print_config ls g' all.1)
