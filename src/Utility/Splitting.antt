-- ===== src/Utility/Splitting.antt =====
-- src/utility.cc: the tokens that `split` finds.
use myjfm_spider.Prelude.{
  ℕ, true, false, ◌≡◌, ◌≢◌, refl, ap, sym, ◌∙◌, List, [], ◌∷◌, ◌++◌, append_assoc, append-nil,
  Bool-cases, inl, inr, if◌then◌else◌,
}
use myjfm_spider.Utility.{is_separator, push_token, split_loop, split}

-- No byte of the text is a separator.
abbrev pub IsToken : List ℕ → List ℕ → Type 0
IsToken sep [] = Unit {0}
IsToken sep (c ∷ s) = (is_separator sep c ≡ false) × IsToken sep s

abbrev pub AllTokens : List ℕ → List (List ℕ) → Type 0
AllTokens sep [] = Unit {0}
AllTokens sep (t ∷ ts) = (t ≢ []) × IsToken sep t × AllTokens sep ts

-- The tokens with separators between them.
unfoldable pub join : ℕ → List (List ℕ) → List ℕ
join d [] = []
join d (t ∷ []) = t
join d (t ∷ u ∷ ts) = t ++ d ∷ join d (u ∷ ts)

unfoldable pub concat : List (List ℕ) → List ℕ
concat [] = []
concat (t ∷ ts) = t ++ concat ts

-- The bytes that are no separators.
unfoldable pub strip : List ℕ → List ℕ → List ℕ
strip sep [] = []
strip sep (c ∷ s) = if is_separator sep c then strip sep s else c ∷ strip sep s

append-IsToken :
    (sep pre : List ℕ) (c : ℕ)
    → IsToken sep pre
    → is_separator sep c ≡ false
    → IsToken sep (pre ++ c ∷ [])
append-IsToken sep [] c h e = (e, tt)
append-IsToken sep (d ∷ pre) c h e = (h.0, append-IsToken sep pre c h.1 e)

push_token-AllTokens :
    (sep pre : List ℕ) (ts : List (List ℕ))
    → IsToken sep pre
    → AllTokens sep ts
    → AllTokens sep (push_token pre ts)
push_token-AllTokens sep [] ts h a = a
push_token-AllTokens sep (c ∷ pre) ts h a = ((λ e. cc), h, a)

concat-push_token :
    (pre : List ℕ) (ts : List (List ℕ)) → concat (push_token pre ts) ≡ pre ++ concat ts
unfolding concat
concat-push_token [] ts = refl
concat-push_token (c ∷ pre) ts = refl

pub split_loop-separator :
    (sep pre s : List ℕ) (c : ℕ)
    → is_separator sep c ≡ true
    → split_loop sep pre (c ∷ s) ≡ push_token pre (split_loop sep [] s)
unfolding split_loop
split_loop-separator sep pre s c e = rw (e, split_loop)

split_loop-other :
    (sep pre s : List ℕ) (c : ℕ)
    → is_separator sep c ≡ false
    → split_loop sep pre (c ∷ s) ≡ split_loop sep (pre ++ c ∷ []) s
unfolding split_loop
split_loop-other sep pre s c e = rw (e, split_loop)

split_loop-AllTokens : (sep pre s : List ℕ) → IsToken sep pre → AllTokens sep (split_loop sep pre s)
split_loop-AllTokens sep pre [] h = unfold split_loop in push_token-AllTokens sep pre [] h tt
split_loop-AllTokens sep pre (c ∷ s) h = elim (Bool-cases (is_separator sep c)) [
  | inl e ↦
      rw (split_loop-separator sep pre s c e)
        (push_token-AllTokens sep pre _ h (split_loop-AllTokens sep [] s tt))
  | inr e ↦
      rw (split_loop-other sep pre s c e)
        (split_loop-AllTokens sep (pre ++ c ∷ []) s (append-IsToken sep pre c h e))
]

concat-split_loop : (sep pre s : List ℕ) → concat (split_loop sep pre s) ≡ pre ++ strip sep s
unfolding strip
concat-split_loop sep pre [] = unfold split_loop concat in concat-push_token pre []
concat-split_loop sep pre (c ∷ s) = elim (Bool-cases (is_separator sep c)) [
  | inl e ↦
      rw (split_loop-separator sep pre s c e, e)
        (concat-push_token pre _ ∙ ap (◌++◌ pre) (concat-split_loop sep [] s))
  | inr e ↦
      rw (split_loop-other sep pre s c e, e)
        (concat-split_loop sep (pre ++ c ∷ []) s ∙ append_assoc pre (c ∷ []) (strip sep s))
]

-- With at least one separator, `split` returns non-empty tokens without separators that hold, in
-- order, all the other bytes of the text.
pub split-AllTokens :
    (s : List ℕ) (d : ℕ) (ds : List ℕ)
    → AllTokens (d ∷ ds) (split s (d ∷ ds)) × (concat (split s (d ∷ ds)) ≡ strip (d ∷ ds) s)
unfolding split
split-AllTokens s d ds = (split_loop-AllTokens (d ∷ ds) [] s tt, concat-split_loop (d ∷ ds) [] s)

split_loop-token :
    (sep pre t rest : List ℕ)
    → IsToken sep t
    → split_loop sep pre (t ++ rest) ≡ split_loop sep (pre ++ t) rest
split_loop-token sep pre [] rest h = rw append-nil
split_loop-token sep pre (c ∷ t) rest h =
    split_loop-other sep pre (t ++ rest) c h.0
    ∙ split_loop-token sep (pre ++ c ∷ []) t rest h.1
    ∙ rw append_assoc

push_token-cons : (t : List ℕ) (ts : List (List ℕ)) → t ≢ [] → push_token t ts ≡ t ∷ ts
push_token-cons [] ts h = absurd (h refl)
push_token-cons (c ∷ t) ts h = refl

split_loop-last : (sep t : List ℕ) → t ≢ [] → IsToken sep t → split_loop sep [] t ≡ t ∷ []
split_loop-last sep t ne h =
    ap (split_loop sep []) (sym (append-nil t))
    ∙ split_loop-token sep [] t [] h
    ∙ unfold split_loop in push_token-cons t [] ne

split_loop-join :
    (d : ℕ) (sep : List ℕ) (ts : List (List ℕ))
    → is_separator sep d ≡ true
    → AllTokens sep ts
    → split_loop sep [] (join d ts) ≡ ts
unfolding join
split_loop-join d sep [] e h = unfold split_loop in refl
split_loop-join d sep (t ∷ []) e h = split_loop-last sep t h.0 h.1
split_loop-join d sep (t ∷ u ∷ ts) e h =
    split_loop-token sep [] t (d ∷ join d (u ∷ ts)) h.1
    ∙ split_loop-separator sep t (join d (u ∷ ts)) d e
    ∙ push_token-cons t _ h.0
    ∙ ap (◌∷◌ t) (split_loop-join d sep (u ∷ ts) e h.2)

-- With at least one separator, `split` gets back the non-empty tokens without separators that were
-- joined by any one of the separators.
pub split-join :
    (d e : ℕ) (ds : List ℕ) (ts : List (List ℕ))
    → is_separator (d ∷ ds) e ≡ true
    → AllTokens (d ∷ ds) ts
    → split (join e ts) (d ∷ ds) ≡ ts
unfolding split
split-join d e ds ts h a = split_loop-join e (d ∷ ds) ts h a
