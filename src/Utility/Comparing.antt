-- ===== src/Utility/Comparing.antt =====
-- src/utility.cc: the comparisons of C strings.
use myjfm_spider.Prelude.{
  ℕ, zero, suc, ◌<◌, ◌≡◌, ◌↔◌, ◌⊎◌, refl, ap, Option, some, none, List, [], ◌∷◌, arith, Bool-cases,
  inl, inr, ltb, length, take, ℤ, pos, done, fault,
}
use mathlib.Core.Option
use myjfm_spider.Utility.{
  lower_char, to_lower, compare_loop, strcmp, strcasecmp, compare_loop_n, strncasecmp, minus_one,
}

-- The lexicographic order of byte strings.
pub data Before : List ℕ → List ℕ → Type 0 where
  shorter : (b : ℕ) (t : List ℕ) → Before [] (b ∷ t)
  smaller : (a b : ℕ) (s t : List ℕ) → a < b → Before (a ∷ s) (b ∷ t)
  later : (a : ℕ) (s t : List ℕ) → Before s t → Before (a ∷ s) (a ∷ t)

-- 0 for equal texts, -1 for one that stands before the other, 1 for one that stands behind.
abbrev pub Compares : List ℕ → List ℕ → ℤ → Type 0
Compares s t r =
    ((s ≡ t) × (r ≡ pos 0)) ⊎ ((Before s t × (r ≡ minus_one)) ⊎ (Before t s × (r ≡ pos 1)))

Compares-cons : (a : ℕ) (s t : List ℕ) (r : ℤ) → Compares s t r → Compares (a ∷ s) (a ∷ t) r
Compares-cons a s t r (inl (e, q)) = inl (ap (◌∷◌ a) e, q)
Compares-cons a s t r (inr (inl (b, q))) = inr (inl (later a s t b, q))
Compares-cons a s t r (inr (inr (b, q))) = inr (inr (later a t s b, q))

compare_loop-Compares : (s t : List ℕ) → Compares s t (compare_loop (λ c. c) s t)
unfolding compare_loop
compare_loop-Compares [] [] = inl (refl, refl)
compare_loop-Compares [] (b ∷ t) = inr (inl (shorter b t, refl))
compare_loop-Compares (a ∷ s) [] = inr (inr (shorter a s, refl))
compare_loop-Compares (a ∷ s) (b ∷ t) = elim (Bool-cases (ltb b a)) [
  | inl e ↦ inr (inr (smaller b a t s (ground arith), ground arith))
  | inr e ↦ elim (Bool-cases (ltb a b)) [
    | inl e' ↦ inr (inl (smaller a b s t (ground arith), ground arith))
    | inr e' ↦
        let same : b ≡ a = ground arith in
        rw (e, e') (rw same (Compares-cons a s t _ (compare_loop-Compares s t)))
  ]
]

compare_loop-map :
    (s t : List ℕ) → compare_loop lower_char s t ≡ compare_loop (λ c. c) (to_lower s) (to_lower t)
unfolding compare_loop to_lower
compare_loop-map [] [] = refl
compare_loop-map [] (b ∷ t) = refl
compare_loop-map (a ∷ s) [] = refl
compare_loop-map (a ∷ s) (b ∷ t) = rw (compare_loop-map s t)

-- `strcmp` of two texts is 0 for equal ones, -1 where the first stands before the second in
-- lexicographic order, and 1 where it stands behind it.
pub strcmp-Compares : (s t : List ℕ) → Compares s t (strcmp (some s) (some t))
unfolding strcmp
strcmp-Compares s t = compare_loop-Compares s t

-- `strcasecmp` is `strcmp` of the texts in lower case, -2 where a pointer is NULL included.
strcasecmp-strcmp :
    (s t : Option (List ℕ))
    → strcasecmp s t ≡ strcmp (Option.map to_lower s) (Option.map to_lower t)
unfolding strcasecmp strcmp
strcasecmp-strcmp none t = refl
strcasecmp-strcmp (some s) none = refl
strcasecmp-strcmp (some s) (some t) = compare_loop-map s t

fault-compare_loop_n :
    (n : ℕ) (s t : List ℕ)
    → compare_loop_n n s t ≡ fault
    → (to_lower s ≡ to_lower t) × (length s < n)
unfolding compare_loop_n to_lower
fault-compare_loop_n zero s t h = cc
fault-compare_loop_n (suc n) [] [] h = (refl, omega arith)
fault-compare_loop_n (suc n) (a ∷ s) [] h = cc
fault-compare_loop_n (suc n) [] (b ∷ t) h = cc
fault-compare_loop_n (suc n) (a ∷ s) (b ∷ t) h = ground (arith, fault-compare_loop_n n s t)

compare_loop_n-fault :
    (n : ℕ) (s t : List ℕ) → to_lower s ≡ to_lower t → length s < n → compare_loop_n n s t ≡ fault
unfolding compare_loop_n to_lower
compare_loop_n-fault zero s t e h = absurd (omega arith)
compare_loop_n-fault (suc n) [] [] e h = refl
compare_loop_n-fault (suc n) (a ∷ s) [] e h = cc
compare_loop_n-fault (suc n) [] (b ∷ t) e h = cc
compare_loop_n-fault (suc n) (a ∷ s) (b ∷ t) e h = ground (arith, compare_loop_n-fault n s t)

compare_loop_n-take :
    (n : ℕ) (s t : List ℕ)
    → (compare_loop_n n s t ≡ fault)
      ⊎ (compare_loop_n n s t ≡ done (compare_loop lower_char (take n s) (take n t)))
unfolding compare_loop_n compare_loop
compare_loop_n-take zero s t = inr refl
compare_loop_n-take (suc n) [] [] = inl refl
compare_loop_n-take (suc n) (a ∷ s) [] = inr refl
compare_loop_n-take (suc n) [] (b ∷ t) = inr refl
compare_loop_n-take (suc n) (a ∷ s) (b ∷ t) = ground (arith, compare_loop_n-take n s t)

-- `strncasecmp` compares the first n bytes in lower case as `strcasecmp` does. It ends without a
-- value exactly where both texts are shorter than n bytes and equal in lower case.
strncasecmp_lem :
    (s t : List ℕ) (n : ℕ)
    → ((strncasecmp (some s) (some t) n ≡ fault) ↔ ((to_lower s ≡ to_lower t) × (length s < n)))
      × ((strncasecmp (some s) (some t) n ≡ fault)
          ⊎ (strncasecmp (some s) (some t) n
              ≡ done (strcasecmp (some (take n s)) (some (take n t)))))
unfolding strncasecmp strcasecmp
strncasecmp_lem s t n = (
  (fault-compare_loop_n n s t, λ h. compare_loop_n-fault n s t h.0 h.1),
  compare_loop_n-take n s t,
)
