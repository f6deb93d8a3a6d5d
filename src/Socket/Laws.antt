-- ===== src/Socket/Laws.antt =====
-- Reads against the stream of bytes that a socket delivers.
use myjfm_spider.Prelude.{
  ◌⊎◌, inl, inr, ℕ, zero, suc, ◌+◌, ◌≤◌, ◌<◌, ◌≡◌, refl, sym, ap, ◌∙◌, none, some, List, [], ◌∷◌,
  ◌++◌, arith, length, take, drop,
}
use myjfm_spider.Socket.{Socket, put_back, read, flat, weight, Flows}

-- What a read of at most `n` bytes does to the stream.
pub record Reads (n : ℕ) (s : Socket) (bs : List ℕ) (s' : Socket) : Type 0 where
  pub ran : read n s ≡ (some bs, s')
  pub flows : Flows s'
  pub stream : flat s ≡ bs ++ flat s'
  pub some_bytes : 0 < length bs
  pub at_most : length bs ≤ n
  pub lighter : weight s' < weight s

put_back-Flows : (bs : List ℕ) (s : Socket) → Flows s → Flows (put_back bs s)
put_back-Flows [] s f = f
put_back-Flows (b ∷ bs) s f = f

flat-put_back : (bs : List ℕ) (s : Socket) → flat (put_back bs s) ≡ bs ++ flat s
unfolding flat
flat-put_back [] s = refl
flat-put_back (b ∷ bs) s = refl

weight-put_back : (bs : List ℕ) (s : Socket) → weight (put_back bs s) ≤ suc (length bs + weight s)
unfolding weight
weight-put_back [] s = omega arith
weight-put_back (b ∷ bs) s = omega arith

take-drop-flat :
    (n : ℕ) (bs : List ℕ) (s : Socket) → bs ++ flat s ≡ take n bs ++ flat (put_back (drop n bs) s)
unfolding flat
take-drop-flat zero bs s = sym (flat-put_back bs s)
take-drop-flat (suc n) [] s = refl
take-drop-flat (suc n) (b ∷ bs) s = ap (◌∷◌ b) (take-drop-flat n bs s)

take-le : (n : ℕ) (bs : List ℕ) → length (take n bs) ≤ n
take-le zero bs = omega arith
take-le (suc n) [] = omega arith
take-le (suc n) (b ∷ bs) = omega (arith, take-le n bs)

drop-le : (n : ℕ) (bs : List ℕ) → length (drop n bs) ≤ length bs
drop-le zero bs = omega arith
drop-le (suc n) [] = omega arith
drop-le (suc n) (b ∷ bs) = omega (arith, drop-le n bs)

-- While bytes are left, a read takes some of them off the front of the stream.
pub read-Reads :
    (n : ℕ) (s : Socket)
    → 0 < n
    → Flows s
    → 0 < length (flat s)
    → (bs : List ℕ) × (s' : Socket) × Reads n s bs s'
unfolding read flat weight
read-Reads zero s pos f more = absurd (omega arith)
read-Reads (suc n) [] pos f more = absurd (omega arith)
read-Reads (suc n) ([] ∷ s) pos f more = absurd f
read-Reads (suc n) ((b ∷ bs) ∷ s) pos f more = (
  b ∷ take n bs,
  put_back (drop n bs) s,
  record {
    ran = refl;
    flows = put_back-Flows (drop n bs) s f;
    stream = ap (◌∷◌ b) (take-drop-flat n bs s);
    some_bytes = omega arith;
    at_most = omega (arith, take-le n bs);
    lighter = omega (arith, weight-put_back (drop n bs) s, drop-le n bs);
  },
)

-- A read of one byte takes the first byte of the stream.
pub record ReadsByte (s : Socket) (b : ℕ) (r : List ℕ) (s' : Socket) : Type 0 where
  pub ran : read 1 s ≡ (some (b ∷ []), s')
  pub flows : Flows s'
  pub stream : flat s' ≡ r
  pub lighter : weight s' < weight s

pub read-ReadsByte :
    (s : Socket) (b : ℕ) (r : List ℕ)
    → Flows s
    → flat s ≡ b ∷ r
    → (s' : Socket) × ReadsByte s b r s'
unfolding read flat weight
read-ReadsByte [] b r f e = cc
read-ReadsByte ([] ∷ s) b r f e = absurd f
read-ReadsByte ((c ∷ cs) ∷ s) b r f e = (
  put_back cs s,
  record {
    ran = ground arith;
    flows = put_back-Flows cs s f;
    stream = flat-put_back cs s ∙ ground arith;
    lighter = omega (arith, weight-put_back cs s);
  },
)

-- A read of at most `n` bytes, 0 < n, fails, or returns some bytes and leaves a lighter socket.
pub record Got (n : ℕ) (s : Socket) (bs : List ℕ) (s' : Socket) : Type 0 where
  pub ran : read n s ≡ (some bs, s')
  pub some_bytes : 0 < length bs
  pub at_most : length bs ≤ n
  pub lighter : weight s' < weight s

pub read-cases :
    (n : ℕ) (s : Socket)
    → 0 < n
    → ((s' : Socket) × (read n s ≡ (none, s'))) ⊎ ((bs : List ℕ) × (s' : Socket) × Got n s bs s')
unfolding read weight
read-cases zero s h = absurd (omega arith)
read-cases (suc n) [] h = inl ([], refl)
read-cases (suc n) ([] ∷ s) h = inl (s, refl)
read-cases (suc n) ((b ∷ bs) ∷ s) h = inr (
  b ∷ take n bs,
  put_back (drop n bs) s,
  record {
    ran = refl;
    some_bytes = omega arith;
    at_most = omega (arith, take-le n bs);
    lighter = omega (arith, weight-put_back (drop n bs) s, drop-le n bs);
  },
)
