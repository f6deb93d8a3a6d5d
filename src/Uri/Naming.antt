-- ===== src/Uri/Naming.antt =====
-- src/uri_lexer.l: the segments of a path that is written from names.
use myjfm_spider.Prelude.{
  ℕ, true, false, ◌≡◌, ◌≢◌, refl, sym, ap, ◌∙◌, List, [], ◌∷◌, ◌++◌, append_assoc, append-nil, ◌==◌,
  arith,
}
use myjfm_spider.Uri.{segments, add_dir}

-- A name has no slash.
abbrev pub IsName : List ℕ → Type 0
IsName [] = Unit {0}
IsName (c ∷ s) = (c ≢ b'/') × IsName s

abbrev pub AllNames : List (List ℕ) → Type 0
AllNames [] = Unit {0}
AllNames (s ∷ names) = IsName s × AllNames names

-- The names, each with its slash.
abbrev pub slashed : List (List ℕ) → List (List ℕ)
slashed [] = []
slashed (s ∷ names) = (s ++ b'/' ∷ []) ∷ slashed names

abbrev pub joined : List (List ℕ) → List ℕ → List ℕ
joined [] text = text
joined (d ∷ dirs) text = d ++ joined dirs text

not_slash : (c : ℕ) → c ≢ b'/' → (c == b'/') ≡ false
not_slash c h = ground (arith, h)

segments-byte :
    (pre s : List ℕ) (c : ℕ) → c ≢ b'/' → segments pre (c ∷ s) ≡ segments (pre ++ c ∷ []) s
unfolding segments
segments-byte pre s c h =
    ap
      (λ b. elim b [
        | true ↦ add_dir (pre ++ b'/' ∷ []) (segments [] s)
        | false ↦ segments (pre ++ c ∷ []) s
      ])
      (not_slash c h)

segments-file : (pre s : List ℕ) → IsName s → segments pre s ≡ record { dirs = []; file = pre ++ s }
segments-file pre [] h =
    unfold segments in ap (λ t. record { dirs = []; file = t }) (sym (append-nil pre))
segments-file pre (c ∷ s) h =
    segments-byte pre s c h.0
    ∙ (segments-file (pre ++ c ∷ []) s h.1
        ∙ ap (λ t. record { dirs = []; file = t }) (append_assoc pre (c ∷ []) s))

segments-name :
    (pre s rest : List ℕ)
    → IsName s
    → segments pre (s ++ b'/' ∷ rest) ≡ add_dir (pre ++ (s ++ b'/' ∷ [])) (segments [] rest)
segments-name pre [] rest h = unfold segments in refl
segments-name pre (c ∷ s) rest h =
    segments-byte pre (s ++ b'/' ∷ rest) c h.0
    ∙ (segments-name (pre ++ c ∷ []) s rest h.1
        ∙ ap (λ t. add_dir t (segments [] rest)) (append_assoc pre (c ∷ []) (s ++ b'/' ∷ [])))

pub segments-joined :
    (names : List (List ℕ)) (file : List ℕ)
    → AllNames names
    → IsName file
    → segments [] (joined (slashed names) file) ≡ record { dirs = slashed names; file = file }
segments-joined [] file h f = segments-file [] file f
segments-joined (s ∷ names) file h f =
    ap (segments []) (append_assoc s (b'/' ∷ []) (joined (slashed names) file))
    ∙ (segments-name [] s (joined (slashed names) file) h.0
        ∙ ap (add_dir (s ++ b'/' ∷ [])) (segments-joined names file h.1 f))
