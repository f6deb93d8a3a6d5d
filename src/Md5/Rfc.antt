-- ===== src/Md5/Rfc.antt =====
-- RFC 1321 as a function of a whole message, but for the transformation of a block, which is the one of
-- src/md5.cc.
use myjfm_spider.Prelude.{
  ℕ, zero, suc, ◌+◌, ◌-◌, ◌*◌, ◌/◌, ◌%◌, ◌^◌, ◌≤◌, ◌<◌, ◌≡◌, refl, ap, ◌∙◌, List, [], ◌∷◌, ◌++◌,
  arith, length, take, drop, replicate,
}
use myjfm_spider.Md5.{Words, transform, encode, pad_len, padding, words}
use myjfm_spider.Md5.Absorbing.{absorb, absorb-long, absorb-short, length-drop}
use myjfm_spider.Md5.Updating.{initial, low, high}

-- The low bytes of a number first.
abbrev pub low_bytes : ℕ → ℕ → List ℕ
low_bytes zero v = []
low_bytes (suc n) v = v % 256 ∷ low_bytes n (v / 256)

-- How many zeros make a message of `n` bytes and one byte end 8 bytes in front of the end of a block.
abbrev pub zeros : ℕ → ℕ
zeros n = (119 - n % 64) % 64

-- A bit 1 and zeros, and the number of bits in eight bytes.
abbrev pub padded : List ℕ → List ℕ
padded msg = msg ++ (128 ∷ (replicate (zeros (length msg)) 0 ++ low_bytes 8 (8 * length msg)))

-- A number of blocks, one after another.
unfoldable pub chain : ℕ → List ℕ → Words → Words
chain zero s w = w
chain (suc n) s w = chain n (drop 64 s) (transform s w)

unfoldable pub md5_of : List ℕ → List ℕ
md5_of msg =
    let w = chain (length (padded msg) / 64) (padded msg) initial in
    low_bytes 4 w.a ++ (low_bytes 4 w.b ++ (low_bytes 4 w.c ++ low_bytes 4 w.d))

absorb-chain :
    (n : ℕ) (s : List ℕ) (w : Words)
    → n * 64 ≤ length s
    → length s < n * 64 + 64
    → (absorb s w).0 ≡ chain n s w
unfolding chain
absorb-chain zero s w le lt =
    ap (λ (r : Words × List ℕ). r.0) (absorb-short s w (omega (arith, lt)))
absorb-chain (suc n) s w le lt =
    ap (λ (r : Words × List ℕ). r.0) (absorb-long s w (omega (arith, le)))
    ∙ absorb-chain n (drop 64 s) (transform s w) (omega (arith, le, length-drop 64 s))
        (omega (arith, lt, length-drop 64 s))

take-replicate : (k n x : ℕ) → k ≤ n → take k (replicate n x) ≡ replicate k x
take-replicate zero n x le = refl
take-replicate (suc k) zero x le = absurd (omega (arith, le))
take-replicate (suc k) (suc n) x le = ap (◌∷◌ x) (take-replicate k n x (omega (arith, le)))

-- The padding of the code for the bytes behind the last whole block.
take-padding : (n : ℕ) → take (pad_len (n % 64)) padding ≡ 128 ∷ replicate (zeros n) 0
take-padding n =
    let size : pad_len (n % 64) ≡ suc (zeros n) = ground arith in
    ap (λ k. take k padding) size ∙ ap (◌∷◌ 128) (take-replicate (zeros n) 63 0 (omega arith))

-- The bytes of the low word of a number.
encode-word : (v : ℕ) (ws : List ℕ) → encode (v % 2 ^ 32 ∷ ws) ≡ low_bytes 4 v ++ encode ws
unfolding encode
encode-word v ws =
    let b0 : v % 2 ^ 32 % 256 ≡ v % 256 = omega arith in
    let b1 : v % 2 ^ 32 / 2 ^ 8 % 256 ≡ v / 256 % 256 = omega arith in
    let b2 : v % 2 ^ 32 / 2 ^ 16 % 256 ≡ v / 256 / 256 % 256 = omega arith in
    let b3 : v % 2 ^ 32 / 2 ^ 24 % 256 ≡ v / 256 / 256 / 256 % 256 = omega arith in cc

-- The bytes of a word.
encode-whole : (v : ℕ) (ws : List ℕ) → encode (v ∷ ws) ≡ low_bytes 4 v ++ encode ws
unfolding encode
encode-whole v ws =
    let b2 : v / 2 ^ 16 ≡ v / 256 / 256 = omega arith in
    let b3 : v / 2 ^ 24 ≡ v / 256 / 256 / 256 = omega arith in cc

encode-counts : (n : ℕ) → encode (low n ∷ high n ∷ []) ≡ low_bytes 8 (8 * n)
encode-counts n =
    let top : 8 * n / 2 ^ 32 ≡ 8 * n / 256 / 256 / 256 / 256 = omega arith in
    encode-word (8 * n) (high n ∷ [])
    ∙ ap (λ t. low_bytes 4 (8 * n) ++ t) (encode-word (8 * n / 2 ^ 32) [])
    ∙ ap (λ v. low_bytes 4 (8 * n) ++ (low_bytes 4 v ++ encode [])) top
    ∙ unfold encode in refl

pub encode-words :
    (w : Words)
    → encode (words w)
      ≡ low_bytes 4 w.a ++ (low_bytes 4 w.b ++ (low_bytes 4 w.c ++ low_bytes 4 w.d))
encode-words w =
    encode-whole w.a (w.b ∷ w.c ∷ w.d ∷ [])
    ∙ ap (λ t. low_bytes 4 w.a ++ t) (encode-whole w.b (w.c ∷ w.d ∷ []))
    ∙ ap (λ t. low_bytes 4 w.a ++ (low_bytes 4 w.b ++ t)) (encode-whole w.c (w.d ∷ []))
    ∙ ap (λ t. low_bytes 4 w.a ++ (low_bytes 4 w.b ++ (low_bytes 4 w.c ++ t))) (encode-whole w.d [])
    ∙ unfold encode in refl

-- The padding of the code is that of the specification.
pub padded_lem :
    (msg : List ℕ)
    → msg
        ++ (take (pad_len (length msg % 64)) padding
            ++ encode (low (length msg) ∷ high (length msg) ∷ []))
      ≡ padded msg
padded_lem msg =
    ap (λ t. msg ++ (t ++ encode (low (length msg) ∷ high (length msg) ∷ [])))
      (take-padding (length msg))
    ∙ ap (λ t. msg ++ (128 ∷ (replicate (zeros (length msg)) 0 ++ t))) (encode-counts (length msg))

pub md5_of_lem : (msg : List ℕ) → encode (words (absorb (padded msg) initial).0) ≡ md5_of msg
unfolding md5_of
md5_of_lem msg =
    let p = padded msg in
    ap (λ w. encode (words w)) (absorb-chain (length p / 64) p initial (omega arith) (omega arith))
    ∙ encode-words (chain (length p / 64) p initial)
