-- ===== src/Md5/Block.antt =====
-- src/md5.cc: the block transformation, and words as bytes. A word is a number below 2 ^ 32, a byte
-- one below 256; the sums and the shifts to the left are cut to 32 bits as in the code.
use Prim.Native.Nat.{bit_and, bit_or, bit_xor}
use myjfm_spider.Prelude.{ℕ, ◌+◌, ◌-◌, ◌*◌, ◌/◌, ◌%◌, ◌^◌, List, [], ◌∷◌, take, get_or}

abbrev pub cut : ℕ → ℕ
cut n = n % 2 ^ 32

-- `~z` and ROTATE_LEFT.
abbrev pub bit_not : ℕ → ℕ
bit_not z = 2 ^ 32 - 1 - z

abbrev pub rotate_left : ℕ → ℕ → ℕ
rotate_left x n = bit_or (cut (x * 2 ^ n)) (x / 2 ^ (32 - n))

-- F, G, H and I.
abbrev pub round_f : ℕ → ℕ → ℕ → ℕ
round_f x y z = bit_or (bit_and x y) (bit_and (bit_not x) z)

abbrev pub round_g : ℕ → ℕ → ℕ → ℕ
round_g x y z = bit_or (bit_and x z) (bit_and y (bit_not z))

abbrev pub round_h : ℕ → ℕ → ℕ → ℕ
round_h x y z = bit_xor (bit_xor x y) z

abbrev pub round_i : ℕ → ℕ → ℕ → ℕ
round_i x y z = bit_xor y (bit_or x (bit_not z))

-- The four words of `_state`.
pub record Words : Type 0 where
  pub a : ℕ
  pub b : ℕ
  pub c : ℕ
  pub d : ℕ

-- FF, GG, HH and II: one step, with the words named as in the next call, FF (d, a, b, c, ...).
abbrev pub step : (ℕ → ℕ → ℕ → ℕ) → ℕ → ℕ → ℕ → Words → Words
step f x s ac w = record {
  a = w.d;
  b = cut (rotate_left (cut (w.a + f w.b w.c w.d + x + ac)) s + w.b);
  c = w.b;
  d = w.c;
}

-- A round: for every step the index into the block, the shift and the constant.
unfoldable pub round : (ℕ → ℕ → ℕ → ℕ) → List (ℕ × ℕ × ℕ) → List ℕ → Words → Words
round f [] x w = w
round f ((k, s, ac) ∷ steps) x w = round f steps x (step f (get_or x k 0) s ac w)

abbrev pub steps_1 : List (ℕ × ℕ × ℕ)
steps_1 =
    (0, 7, 3614090360)
    ∷ (1, 12, 3905402710)
    ∷ (2, 17, 606105819)
    ∷ (3, 22, 3250441966)
    ∷ (4, 7, 4118548399)
    ∷ (5, 12, 1200080426)
    ∷ (6, 17, 2821735955)
    ∷ (7, 22, 4249261313)
    ∷ (8, 7, 1770035416)
    ∷ (9, 12, 2336552879)
    ∷ (10, 17, 4294925233)
    ∷ (11, 22, 2304563134)
    ∷ (12, 7, 1804603682)
    ∷ (13, 12, 4254626195)
    ∷ (14, 17, 2792965006)
    ∷ (15, 22, 1236535329)
    ∷ []

abbrev pub steps_2 : List (ℕ × ℕ × ℕ)
steps_2 =
    (1, 5, 4129170786)
    ∷ (6, 9, 3225465664)
    ∷ (11, 14, 643717713)
    ∷ (0, 20, 3921069994)
    ∷ (5, 5, 3593408605)
    ∷ (10, 9, 38016083)
    ∷ (15, 14, 3634488961)
    ∷ (4, 20, 3889429448)
    ∷ (9, 5, 568446438)
    ∷ (14, 9, 3275163606)
    ∷ (3, 14, 4107603335)
    ∷ (8, 20, 1163531501)
    ∷ (13, 5, 2850285829)
    ∷ (2, 9, 4243563512)
    ∷ (7, 14, 1735328473)
    ∷ (12, 20, 2368359562)
    ∷ []

abbrev pub steps_3 : List (ℕ × ℕ × ℕ)
steps_3 =
    (5, 4, 4294588738)
    ∷ (8, 11, 2272392833)
    ∷ (11, 16, 1839030562)
    ∷ (14, 23, 4259657740)
    ∷ (1, 4, 2763975236)
    ∷ (4, 11, 1272893353)
    ∷ (7, 16, 4139469664)
    ∷ (10, 23, 3200236656)
    ∷ (13, 4, 681279174)
    ∷ (0, 11, 3936430074)
    ∷ (3, 16, 3572445317)
    ∷ (6, 23, 76029189)
    ∷ (9, 4, 3654602809)
    ∷ (12, 11, 3873151461)
    ∷ (15, 16, 530742520)
    ∷ (2, 23, 3299628645)
    ∷ []

abbrev pub steps_4 : List (ℕ × ℕ × ℕ)
steps_4 =
    (0, 6, 4096336452)
    ∷ (7, 10, 1126891415)
    ∷ (14, 15, 2878612391)
    ∷ (5, 21, 4237533241)
    ∷ (12, 6, 1700485571)
    ∷ (3, 10, 2399980690)
    ∷ (10, 15, 4293915773)
    ∷ (1, 21, 2240044497)
    ∷ (8, 6, 1873313359)
    ∷ (15, 10, 4264355552)
    ∷ (6, 15, 2734768916)
    ∷ (13, 21, 1309151649)
    ∷ (4, 6, 4149444226)
    ∷ (11, 10, 3174756917)
    ∷ (2, 15, 718787259)
    ∷ (9, 21, 3951481745)
    ∷ []

unfoldable pub decode : List ℕ → List ℕ
decode (p ∷ q ∷ r ∷ s ∷ rest) =
    bit_or (bit_or (bit_or p (q * 2 ^ 8)) (r * 2 ^ 16)) (s * 2 ^ 24) ∷ decode rest
decode rest = []

unfoldable pub encode : List ℕ → List ℕ
encode [] = []
encode (w ∷ ws) = w % 256 ∷ w / 2 ^ 8 % 256 ∷ w / 2 ^ 16 % 256 ∷ w / 2 ^ 24 % 256 ∷ encode ws

abbrev pub add_words : Words → Words → Words
add_words v w = record {
  a = cut (v.a + w.a);
  b = cut (v.b + w.b);
  c = cut (v.c + w.c);
  d = cut (v.d + w.d);
}

unfoldable pub transform : List ℕ → Words → Words
unfolding round decode
transform block w =
    let x = decode (take 64 block) in
    add_words w (
      round round_i steps_4 x
        (round round_h steps_3 x (round round_g steps_2 x (round round_f steps_1 x w))))
