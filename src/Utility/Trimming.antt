-- ===== src/Utility/Trimming.antt =====
-- src/utility.cc: what `trim` keeps.
use myjfm_spider.Prelude.{
  ℕ, true, false, ◌≡◌, refl, ap, ◌∙◌, List, [], ◌∷◌, ◌++◌, Bool-cases, inl, inr,
}
use myjfm_spider.Utility.{is_space, ltrim, keep, rtrim, trim}

abbrev pub AllSpace : List ℕ → Type 0
AllSpace [] = Unit {0}
AllSpace (c ∷ s) = (is_space c ≡ true) × AllSpace s

-- The first byte, or the last, is no space.
abbrev pub StartsDark : List ℕ → Type 0
StartsDark [] = Unit {0}
StartsDark (c ∷ s) = is_space c ≡ false

abbrev pub EndsDark : List ℕ → Type 0
EndsDark [] = Unit {0}
EndsDark (c ∷ []) = is_space c ≡ false
EndsDark (c ∷ d ∷ s) = EndsDark (d ∷ s)

record Ltrims (s : List ℕ) (r : List ℕ) : Type 0 where
  front : List ℕ
  splits : s ≡ front ++ r
  spaces : AllSpace front
  starts : StartsDark r

ltrim-Ltrims : (s : List ℕ) → Ltrims s (ltrim s)
unfolding ltrim
ltrim-Ltrims [] = record { front = []; splits = refl; spaces = tt; starts = tt }
ltrim-Ltrims (c ∷ s) = elim (Bool-cases (is_space c)) [
  | inl e ↦
      let h = ltrim-Ltrims s in
      rw e (record {
        front = c ∷ h.front;
        splits = ap (◌∷◌ c) h.splits;
        spaces = (e, h.spaces);
        starts = h.starts;
      })
  | inr e ↦ rw e (record { front = []; splits = refl; spaces = tt; starts = e })
]

record Rtrims (s : List ℕ) (r : List ℕ) : Type 0 where
  back : List ℕ
  splits : s ≡ r ++ back
  spaces : AllSpace back
  ends : EndsDark r

keep-Rtrims : (c : ℕ) (s r : List ℕ) → Rtrims s r → Rtrims (c ∷ s) (keep c r)
keep-Rtrims c s [] h = elim (Bool-cases (is_space c)) [
  | inl e ↦ rw e (record {
    back = c ∷ h.back;
    splits = ap (◌∷◌ c) h.splits;
    spaces = (e, h.spaces);
    ends = tt;
  })
  | inr e ↦
      rw e (record { back = h.back; splits = ap (◌∷◌ c) h.splits; spaces = h.spaces; ends = e })
]
keep-Rtrims c s (d ∷ r) h = record {
  back = h.back;
  splits = ap (◌∷◌ c) h.splits;
  spaces = h.spaces;
  ends = h.ends;
}

rtrim-Rtrims : (s : List ℕ) → Rtrims s (rtrim s)
unfolding rtrim
rtrim-Rtrims [] = record { back = []; splits = refl; spaces = tt; ends = tt }
rtrim-Rtrims (c ∷ s) = keep-Rtrims c s (rtrim s) (rtrim-Rtrims s)

-- What is left after spaces went at the end starts as before.
starts_of_append : (r back : List ℕ) → StartsDark (r ++ back) → StartsDark r
starts_of_append [] back h = tt
starts_of_append (c ∷ r) back h = h

pub record Trims (s r : List ℕ) : Type 0 where
  pub front : List ℕ
  pub back : List ℕ
  pub splits : s ≡ front ++ (r ++ back)
  pub front_spaces : AllSpace front
  pub back_spaces : AllSpace back
  pub starts : StartsDark r
  pub ends : EndsDark r

-- `trim` takes spaces off the front and the back, and leaves a text that neither begins nor ends
-- with a space.
trim-Trims : (s : List ℕ) → Trims s (trim s)
unfolding trim
trim-Trims s =
    let l = ltrim-Ltrims s in
    let r = rtrim-Rtrims (ltrim s) in
    record {
      front = l.front;
      back = r.back;
      splits = l.splits ∙ ap (◌++◌ l.front) r.splits;
      front_spaces = l.spaces;
      back_spaces = r.spaces;
      starts = starts_of_append (rtrim (ltrim s)) r.back (rw r.splits at l.starts);
      ends = r.ends;
    }
