-- ===== src/Header/Fields.antt =====
-- src/page.h: the loop of `HttpResponseHeader::analysis` over the header lines.
use myjfm_spider.Prelude.{
  ℕ, zero, suc, ◌+◌, ◌-◌, ◌≤◌, ◌<◌, ◌≡◌, ◌≢◌, ◌⊎◌, refl, sym, ap, ◌∙◌, true, false, none, some,
  List, [], ◌∷◌, ◌++◌, arith, Run, done, out_of_fuel, length, length-append, Bool-cases,
  Option-cases, inl, inr,
}
use myjfm_spider.ResCode.{ResCode, s_ok, s_fail}
use myjfm_spider.Header.{
  HttpResponseHeader, before, behind, set_field, next_lines, has_value, key_of, value_of, line_loop,
}

-- The bytes of a line: no line feed.
abbrev pub IsLine : List ℕ → Type 0
IsLine [] = Unit {0}
IsLine (c ∷ s) = (c ≢ b'\n') × IsLine s

-- Lines with something in them.
abbrev pub AllLines : List (List ℕ) → Type 0
AllLines [] = Unit {0}
AllLines (l ∷ ls) = (0 < length l) × IsLine l × AllLines ls

-- The lines with line feeds between them, as the receive buffer holds them.
unfoldable pub text : List (List ℕ) → List ℕ
text [] = []
text (l ∷ []) = l
text (l ∷ m ∷ ls) = l ++ b'\n' ∷ text (m ∷ ls)

-- What reading the lines one after another comes to. A line without a colon, or with nothing
-- behind it, is read forever.
unfoldable pub read_lines : List (List ℕ) → HttpResponseHeader → Run (ResCode × HttpResponseHeader)
read_lines [] h = done (s_ok, record h { is_valid = true })
read_lines (l ∷ ls) h = elim (has_value l) [
  | false ↦ out_of_fuel
  | true ↦ elim (set_field (key_of l) (value_of l) h) [
    | none ↦ done (s_fail, record h { is_valid = false })
    | some h' ↦ read_lines ls h'
  ]
]

before-last : (l : List ℕ) → IsLine l → before b'\n' l ≡ l
unfolding before
before-last [] p = refl
before-last (c ∷ l) p = ground (arith, before-last l p.1, p.0)

before-line : (l rest : List ℕ) → IsLine l → before b'\n' (l ++ b'\n' ∷ rest) ≡ l
unfolding before
before-line [] rest p = refl
before-line (c ∷ l) rest p = ground (arith, before-line l rest p.1, p.0)

behind-last : (l : List ℕ) → IsLine l → behind b'\n' l ≡ none
unfolding behind
behind-last [] p = refl
behind-last (c ∷ l) p = ground (arith, behind-last l p.1, p.0)

pub behind-line : (l rest : List ℕ) → IsLine l → behind b'\n' (l ++ b'\n' ∷ rest) ≡ some rest
unfolding behind
behind-line [] rest p = refl
behind-line (c ∷ l) rest p = ground (arith, behind-line l rest p.1, p.0)

before-before : (d : ℕ) (s : List ℕ) → before d (before d s) ≡ before d s
unfolding before
before-before d [] = refl
before-before d (c ∷ s) = ground (arith, before-before d s)

line_loop-stuck :
    (fuel len : ℕ) (h : HttpResponseHeader) (header : List ℕ)
    → has_value (before b'\n' header) ≡ false
    → line_loop (suc fuel) h header (suc len) ≡ line_loop fuel h (before b'\n' header) (suc len)
unfolding line_loop
line_loop-stuck fuel len h header bad = rw (bad, line_loop)

-- A line without a value is read again and again.
line_loop-hangs :
    (fuel : ℕ) (h : HttpResponseHeader) (header : List ℕ) (len : ℕ)
    → 0 < len
    → has_value (before b'\n' header) ≡ false
    → line_loop fuel h header len ≡ out_of_fuel
line_loop-hangs zero h header len pos bad = unfold line_loop in refl
line_loop-hangs (suc fuel) h header zero pos bad = absurd (omega arith)
line_loop-hangs (suc fuel) h header (suc len) pos bad =
    line_loop-stuck fuel len h header bad
    ∙ line_loop-hangs fuel h (before b'\n' header) (suc len) pos (rw before-before bad)

module _ (fuel len : ℕ) (h : HttpResponseHeader) (header l : List ℕ) where
  -- A line that is accepted, with `next` behind it.
  line_loop-some :
      (next : List ℕ) (h' : HttpResponseHeader)
      → before b'\n' header ≡ l
      → next_lines (behind b'\n' header) ≡ next
      → has_value l ≡ true
      → set_field (key_of l) (value_of l) h ≡ some h'
      → line_loop (suc fuel) h header (suc len) ≡ line_loop fuel h' next (suc len - (length l + 1))
  unfolding line_loop
  line_loop-some next h' b n v e = rw (b, line_loop, v, b, e, n, b)

  line_loop-none :
      before b'\n' header ≡ l
      → has_value l ≡ true
      → set_field (key_of l) (value_of l) h ≡ none
      → line_loop (suc fuel) h header (suc len) ≡ done (s_fail, record h { is_valid = false })
  unfolding line_loop
  line_loop-none b v e = rw (b, line_loop, v, b, e)

module _ (l : List ℕ) (ls : List (List ℕ)) (h : HttpResponseHeader) where
  pub read_lines-stuck : has_value l ≡ false → read_lines (l ∷ ls) h ≡ out_of_fuel
  unfolding read_lines
  read_lines-stuck v = rw (v, read_lines)

  pub read_lines-some :
      (h' : HttpResponseHeader)
      → has_value l ≡ true
      → set_field (key_of l) (value_of l) h ≡ some h'
      → read_lines (l ∷ ls) h ≡ read_lines ls h'
  unfolding read_lines
  read_lines-some h' v e = rw (v, read_lines, e)

  read_lines-none :
      has_value l ≡ true
      → set_field (key_of l) (value_of l) h ≡ none
      → read_lines (l ∷ ls) h ≡ done (s_fail, record h { is_valid = false })
  unfolding read_lines
  read_lines-none v e = rw (v, read_lines, e)

-- The first line of the text, and what is behind it.
first_line : (l : List ℕ) (ls : List (List ℕ)) → IsLine l → before b'\n' (text (l ∷ ls)) ≡ l
unfolding text
first_line l [] p = before-last l p
first_line l (m ∷ ls) p = before-line l (text (m ∷ ls)) p

other_lines :
    (l : List ℕ) (ls : List (List ℕ))
    → IsLine l
    → next_lines (behind b'\n' (text (l ∷ ls))) ≡ text ls
unfolding text
other_lines l [] p = rw (behind-last l p)
other_lines l (m ∷ ls) p = rw (behind-line l (text (m ∷ ls)) p)

length-text :
    (l : List ℕ) (ls : List (List ℕ)) → length (text (l ∷ ls)) - (length l + 1) ≡ length (text ls)
unfolding text
length-text l [] = omega arith
length-text l (m ∷ ls) = omega (arith, length-append l (b'\n' ∷ text (m ∷ ls)))

length-text-pos : (l : List ℕ) (ls : List (List ℕ)) → 0 < length l → 0 < length (text (l ∷ ls))
unfolding text
length-text-pos l [] pos = pos
length-text-pos l (m ∷ ls) pos = omega (arith, length-append l (b'\n' ∷ text (m ∷ ls)))

-- For any fuel: the loop does what reading the lines in turn comes to, or it had no more rounds than
-- there are lines, and ran out.
abbrev pub Follows : ℕ → List (List ℕ) → HttpResponseHeader → Type 0
Follows fuel ls h =
    (line_loop fuel h (text ls) (length (text ls)) ≡ read_lines ls h)
    ⊎ ((fuel ≤ length ls) × (line_loop fuel h (text ls) (length (text ls)) ≡ out_of_fuel))

Follows-cons :
    (fuel : ℕ) (l : List ℕ) (ls : List (List ℕ)) (h h' : HttpResponseHeader)
    → line_loop (suc fuel) h (text (l ∷ ls)) (length (text (l ∷ ls)))
      ≡ line_loop fuel h' (text ls) (length (text ls))
    → read_lines (l ∷ ls) h ≡ read_lines ls h'
    → Follows fuel ls h'
    → Follows (suc fuel) (l ∷ ls) h
Follows-cons fuel l ls h h' p q (inl e) = inl (p ∙ e ∙ sym q)
Follows-cons fuel l ls h h' p q (inr (le, e)) = inr (omega arith, p ∙ e)

pub line_loop-Follows :
    (ls : List (List ℕ)) (fuel : ℕ) (h : HttpResponseHeader) → AllLines ls → Follows fuel ls h
line_loop-Follows ls zero h all = inr (omega arith, unfold line_loop in refl)
line_loop-Follows [] (suc fuel) h all = inl (unfold line_loop text read_lines in refl)
line_loop-Follows (l ∷ ls) (suc fuel) h all =
    let b = first_line l ls all.1 in
    let pos = length-text-pos l ls all.0 in
    let len = length (text (l ∷ ls)) - 1 in
    let size : length (text (l ∷ ls)) ≡ suc len = omega arith in
    let shift = ap (line_loop (suc fuel) h (text (l ∷ ls))) size in
    let left : suc len - (length l + 1) ≡ length (text ls) = omega (arith, length-text l ls) in
    elim (Bool-cases (has_value l)) [
      | inl v ↦ elim (Option-cases (set_field (key_of l) (value_of l) h)) [
        | inl e ↦ inl (
            shift
            ∙ line_loop-none fuel len h (text (l ∷ ls)) l b v e
            ∙ sym (read_lines-none l ls h v e))
        | inr (h', e) ↦
            Follows-cons fuel l ls h h'
              (shift
                ∙ line_loop-some fuel len h (text (l ∷ ls)) l (text ls) h' b
                    (other_lines l ls all.1) v e
                ∙ ap (line_loop fuel h' (text ls)) left)
              (read_lines-some l ls h h' v e) (line_loop-Follows ls fuel h' all.2)
      ]
      | inr v ↦ inl (
          line_loop-hangs (suc fuel) h (text (l ∷ ls)) (length (text (l ∷ ls))) pos (rw b v)
          ∙ sym (read_lines-stuck l ls h v))
    ]
