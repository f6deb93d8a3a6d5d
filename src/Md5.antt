-- ===== src/Md5.antt =====
-- src/md5.h and src/md5.cc: the calculator, and the distribution by a digest. Md5/Block is the
-- transformation of one block.
mod Block
pub mod Absorbing
pub mod Updating
pub mod Rfc
pub mod Digest
pub use Block.{
  cut, bit_not, rotate_left, round_f, round_g, round_h, round_i, Words, step, steps_1, steps_2,
  steps_3, steps_4, add_words,
}
unfoldable pub use Block.{round, decode, encode, transform}
use myjfm_spider.Prelude.{
  ℕ, zero, suc, ◌+◌, ◌-◌, ◌*◌, ◌/◌, ◌%◌, ◌^◌, Bool, false, true, Option, none, some, List, [], ◌∷◌,
  ◌++◌, leb, ltb, if◌then◌else◌, length, take, drop, replicate,
}
use myjfm_spider.ResCode.{ResCode, s_ok, s_no_input}

-- The calculator; `count0` and `count1` are the two words of the number of bits.
pub record Md5Caculator : Type 0 where
  pub state : Words
  pub count0 : ℕ
  pub count1 : ℕ
  pub buffer : List ℕ
  pub digest_bytes : List ℕ
  pub finished : Bool

unfoldable pub reset : Md5Caculator → Md5Caculator
reset m = record m {
  state = record { a = 1732584193; b = 4023233417; c = 2562383102; d = 271733878 };
  count0 = 0;
  count1 = 0;
  finished = false;
}

-- `memcpy(buffer + index, bytes, length)`.
abbrev pub write : ℕ → List ℕ → List ℕ → List ℕ
write index bytes buffer = take index buffer ++ (bytes ++ drop (index + length bytes) buffer)

abbrev pub index_of : Md5Caculator → ℕ
index_of m = m.count0 / 8 % 64

-- The loop over the whole blocks of the input; its fuel is the input's length. The result is the
-- state and the bytes that are left.
unfoldable pub transform_blocks : ℕ → List ℕ → Words → Words × List ℕ
transform_blocks zero input w = (w, input)
transform_blocks (suc fuel) input w =
    let rest = transform_blocks fuel (drop 64 input) (transform input w) in
    if ltb 63 (length input) then rest else (w, input)

abbrev pub add_bits : ℕ → Md5Caculator → Md5Caculator
add_bits n m =
    let bits = cut (n * 2 ^ 3) in
    let sum = cut (m.count0 + bits) in
    let carry = if ltb sum bits then 1 else 0 in
    record m { count0 = sum; count1 = cut (m.count1 + carry + n / 2 ^ 29); finished = false }

-- The buffer is filled up and transformed, then the whole blocks of the input are.
abbrev pub fill : ℕ → List ℕ → Md5Caculator → Md5Caculator
fill index input m =
    let full = write index (take (64 - index) input) m.buffer in
    let out = transform_blocks (length input) (drop (64 - index) input) (transform full m.state) in
    record m { state = out.0; buffer = write 0 out.1 full }

abbrev pub keep : ℕ → List ℕ → Md5Caculator → Md5Caculator
keep index input m = record m { buffer = write index input m.buffer }

unfoldable pub update : List ℕ → Md5Caculator → ResCode × Md5Caculator
update [] m = (s_no_input, m)
update (x ∷ xs) m =
    if leb (64 - index_of m) (length (x ∷ xs))
    then (s_ok, fill (index_of m) (x ∷ xs) (add_bits (length (x ∷ xs)) m))
    else (s_ok, keep (index_of m) (x ∷ xs) (add_bits (length (x ∷ xs)) m))

abbrev pub padding : List ℕ
padding = 128 ∷ replicate 63 0

abbrev pub pad_len : ℕ → ℕ
pad_len index = if ltb index 56 then 56 - index else 120 - index

abbrev pub words : Words → List ℕ
words w = w.a ∷ w.b ∷ w.c ∷ w.d ∷ []

-- `final`: the state and the counts are put back, the buffer is not.
unfoldable pub final : Md5Caculator → Md5Caculator
final m =
    let bits = encode (m.count0 ∷ m.count1 ∷ []) in
    let padded = (update (take (pad_len (index_of m)) padding) m).1 in
    let out = (update bits padded).1 in
    record out {
      digest_bytes = encode (words out.state);
      state = m.state;
      count0 = m.count0;
      count1 = m.count1;
    }

unfoldable pub digest : Md5Caculator → List ℕ × Md5Caculator
digest m =
    if m.finished
    then (m.digest_bytes, m)
    else ((final (record m { finished = true })).digest_bytes, final (record m { finished = true }))

-- `Md5Caculator(str)` and `update(str)`, in a calculator whose memory holds anything; the length is
-- cut to 32 bits.
unfoldable pub calculator_of : Md5Caculator → List ℕ → Md5Caculator
calculator_of m str = (update (take (cut (length str)) str) (reset m)).1

abbrev pub hex_char : ℕ → ℕ
hex_char n = if ltb n 10 then b'0' + n else b'a' + n - 10

unfoldable pub bytes_to_hexstring : List ℕ → List ℕ
bytes_to_hexstring [] = []
bytes_to_hexstring (t ∷ ts) = hex_char (t / 16) ∷ hex_char (t % 16) ∷ bytes_to_hexstring ts

unfoldable pub to_string : Md5Caculator → List ℕ × Md5Caculator
to_string m = (bytes_to_hexstring (digest m).0, (digest m).1)

-- `MD5::shuffle`: the new value of `index`, where the result is S_OK. The sum is cut to 32 bits.
abbrev pub add_shares : ℕ → List ℕ → ℕ → ℕ
add_shares x [] index = index
add_shares x (p ∷ ps) index = add_shares x ps (cut (index + p % x))

unfoldable pub shuffle : List ℕ → ℕ → ℕ → Option ℕ
shuffle value zero index = none
shuffle value (suc zero) index = some 0
shuffle value (suc (suc x)) index =
    some (add_shares (suc (suc x)) (take 4 (decode value)) index % suc (suc x))
