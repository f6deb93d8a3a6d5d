-- ===== src/Md5/Absorbing.antt =====
-- src/md5.cc: the loop over the whole blocks of the input.
use myjfm_spider.Prelude.{
  ℕ, zero, suc, ◌-◌, ◌%◌, ◌≤◌, ◌<◌, ◌≡◌, ◌⊎◌, inl, inr, refl, sym, ap, ◌∙◌, true, false, List, [],
  ◌∷◌, ◌++◌, arith, ltb, length, length-append, take, drop, Bool-cases, take-length,
}
use myjfm_spider.Md5.{Words, transform, transform_blocks}

-- The rest of the loop over the blocks, once there is fuel for all bytes.
blocks-short :
    (fuel : ℕ) (s : List ℕ) (w : Words) → length s < 64 → transform_blocks fuel s w ≡ (w, s)
unfolding transform_blocks
blocks-short zero s w short = refl
blocks-short (suc fuel) s w short = let b : ltb 63 (length s) ≡ false = ground arith in rw b refl

blocks-long :
    (fuel : ℕ) (s : List ℕ) (w : Words)
    → 64 ≤ length s
    → transform_blocks (suc fuel) s w ≡ transform_blocks fuel (drop 64 s) (transform s w)
unfolding transform_blocks
blocks-long fuel s w long = let b : ltb 63 (length s) ≡ true = ground arith in rw b refl

pub length-drop : (n : ℕ) (s : List ℕ) → length (drop n s) ≡ length s - n
length-drop zero s = omega arith
length-drop (suc n) [] = omega arith
length-drop (suc n) (x ∷ s) = omega (arith, length-drop n s)

pub size-cases : (s : List ℕ) → (64 ≤ length s) ⊎ (length s < 64)
size-cases s = elim (Bool-cases (ltb 63 (length s))) [
  | inl e ↦ inl (ground (arith, e))
  | inr e ↦ inr (ground (arith, e))
]

-- More fuel than bytes changes nothing.
pub blocks-fuel :
    (fuel more : ℕ) (s : List ℕ) (w : Words)
    → length s ≤ fuel
    → length s ≤ more
    → transform_blocks fuel s w ≡ transform_blocks more s w
blocks-fuel zero more s w a b =
    blocks-short zero s w (omega arith) ∙ sym (blocks-short more s w (omega arith))
blocks-fuel (suc fuel) zero s w a b =
    blocks-short (suc fuel) s w (omega arith) ∙ sym (blocks-short zero s w (omega arith))
blocks-fuel (suc fuel) (suc more) s w a b = elim (size-cases s) [
  | inl long ↦
      blocks-long fuel s w long
      ∙ blocks-fuel fuel more (drop 64 s) (transform s w) (omega (arith, length-drop 64 s))
          (omega (arith, length-drop 64 s))
      ∙ sym (blocks-long more s w long)
  | inr short ↦ blocks-short (suc fuel) s w short ∙ sym (blocks-short (suc more) s w short)
]

-- All the bytes: the state behind the whole blocks, and the bytes that are left.
abbrev pub absorb : List ℕ → Words → Words × List ℕ
absorb s w = transform_blocks (length s) s w

pub absorb-long :
    (s : List ℕ) (w : Words) → 64 ≤ length s → absorb s w ≡ absorb (drop 64 s) (transform s w)
absorb-long s w long =
    blocks-fuel (length s) (suc (length s)) s w (omega arith) (omega arith)
    ∙ blocks-long (length s) s w long
    ∙ blocks-fuel (length s) (length (drop 64 s)) (drop 64 s) (transform s w)
        (omega (arith, length-drop 64 s)) (omega arith)

pub absorb-short : (s : List ℕ) (w : Words) → length s < 64 → absorb s w ≡ (w, s)
absorb-short s w short = blocks-short (length s) s w short

drop-append : (n : ℕ) (s t : List ℕ) → n ≤ length s → drop n (s ++ t) ≡ drop n s ++ t
drop-append zero s t le = refl
drop-append (suc n) [] t le = absurd (omega arith)
drop-append (suc n) (x ∷ s) t le = drop-append n s t (omega arith)

pub take-append : (n : ℕ) (s t : List ℕ) → n ≤ length s → take n (s ++ t) ≡ take n s
take-append zero s t le = refl
take-append (suc n) [] t le = absurd (omega arith)
take-append (suc n) (x ∷ s) t le = ap (◌∷◌ x) (take-append n s t (omega arith))

-- The transformation reads 64 bytes.
pub transform-take :
    (s t : List ℕ) (w : Words) → take 64 s ≡ take 64 t → transform s w ≡ transform t w
unfolding transform
transform-take s t w e = rw e refl

-- Bytes that come behind others: the rest of the first ones is absorbed with them.
pub absorb-append :
    (fuel : ℕ) (s t : List ℕ) (w : Words)
    → length s ≤ fuel
    → absorb (s ++ t) w ≡ absorb ((absorb s w).1 ++ t) (absorb s w).0
absorb-append zero s t w le = rw (absorb-short s w (omega arith)) refl
absorb-append (suc fuel) s t w le = elim (size-cases s) [
  | inr short ↦ rw (absorb-short s w short) refl
  | inl long ↦
      absorb-long (s ++ t) w (omega (arith, length-append s t))
      ∙ ap (λ v. absorb (drop 64 (s ++ t)) v)
          (transform-take (s ++ t) s w (take-append 64 s t long))
      ∙ ap (λ d. absorb d (transform s w)) (drop-append 64 s t long)
      ∙ absorb-append fuel (drop 64 s) t (transform s w) (omega (arith, length-drop 64 s))
      ∙ sym (ap (λ (r : Words × List ℕ). absorb (r.1 ++ t) r.0) (absorb-long s w long))
]

pub length-absorb :
    (fuel : ℕ) (s : List ℕ) (w : Words) → length s ≤ fuel → length (absorb s w).1 ≡ length s % 64
length-absorb zero s w le = rw (absorb-short s w (omega arith)) (omega arith)
length-absorb (suc fuel) s w le = elim (size-cases s) [
  | inr short ↦ rw (absorb-short s w short) (omega arith)
  | inl long ↦
      ap (λ (r : Words × List ℕ). length r.1) (absorb-long s w long)
      ∙ length-absorb fuel (drop 64 s) (transform s w) (omega (arith, length-drop 64 s))
      ∙ omega (arith, length-drop 64 s)
]

pub drop-behind : (n : ℕ) (r s : List ℕ) → length r ≤ n → drop n (r ++ s) ≡ drop (n - length r) s
drop-behind zero [] s le = refl
drop-behind zero (x ∷ r) s le = absurd (omega arith)
drop-behind (suc n) [] s le = let all : suc n ≡ suc n - 0 = omega arith in ap (λ k. drop k s) all
drop-behind (suc n) (x ∷ r) s le =
    drop-behind n r s (omega arith) ∙ ap (λ k. drop k s) (omega arith)

pub take-behind :
    (n : ℕ) (r s : List ℕ) → length r ≤ n → take n (r ++ s) ≡ r ++ take (n - length r) s
take-behind zero [] s le = refl
take-behind zero (x ∷ r) s le = absurd (omega arith)
take-behind (suc n) [] s le = let all : suc n ≡ suc n - 0 = omega arith in ap (λ k. take k s) all
take-behind (suc n) (x ∷ r) s le =
    ap (◌∷◌ x) (take-behind n r s (omega arith) ∙ ap (λ k. r ++ take k s) (omega arith))

pub length-take : (n : ℕ) (s : List ℕ) → n ≤ length s → length (take n s) ≡ n
length-take zero s le = refl
length-take (suc n) [] le = absurd (omega arith)
length-take (suc n) (x ∷ s) le = ap suc (length-take n s (omega arith))

pub take-exactly : (n : ℕ) (s t : List ℕ) → length s ≡ n → take n (s ++ t) ≡ s
take-exactly n s t e = sym (ap (λ k. take k (s ++ t)) e) ∙ take-length s t
