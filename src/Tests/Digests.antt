-- ===== src/Tests/Digests.antt =====
-- Runs of src/md5.cc, and the theorems on it applied.
use myjfm_spider.Prelude.{◌≡◌, refl, List, ℕ, [], ◌∷◌, false, replicate, codes, arith}
use myjfm_spider.Md5.Digest.{AllSmall, update_all, joined, digest-update_all}
use myjfm_spider.Md5.Rfc.{md5_of}
use myjfm_spider.Md5.{
  Md5Caculator, calculator_of, reset, update, transform, transform_blocks, final, digest,
  bytes_to_hexstring, to_string, encode, decode, round,
}

abbrev pub any_memory : Md5Caculator
any_memory = record {
  state = record { a = 0; b = 0; c = 0; d = 0 };
  count0 = 0;
  count1 = 0;
  buffer = replicate 64 7;
  digest_bytes = [];
  finished = false;
}

md5_abc :
    (to_string (calculator_of any_memory (codes "abc"))).0
    ≡ codes "900150983cd24fb0d6963f7d28e17f72"
unfolding to_string bytes_to_hexstring digest final update transform_blocks transform round decode
    encode reset calculator_of
md5_abc = refl

-- A second call gives the same digest while less than 56 bytes are pending, and here, with 60, another.
abbrev sixty : Md5Caculator
sixty = calculator_of any_memory (replicate 60 b'a')

second_differs : ((digest sixty).0 ≡ (digest (digest sixty).1).0) → ⊥
unfolding digest final update transform_blocks transform round decode encode reset calculator_of
second_differs e = ground (arith, e)

abbrev pieces : List (List ℕ)
pieces = codes "ab" ∷ [] ∷ replicate 70 b'c' ∷ []

pieces-AllSmall : AllSmall pieces
pieces-AllSmall = (omega arith, (omega arith, (omega arith, tt)))

digest-update_all_example :
    (digest (update_all pieces (reset any_memory))).0 ≡ md5_of (joined pieces)
digest-update_all_example = digest-update_all any_memory pieces refl pieces-AllSmall
