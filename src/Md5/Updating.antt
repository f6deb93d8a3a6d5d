-- ===== src/Md5/Updating.antt =====
-- src/md5.cc: `update` in pieces, and the digest of a message.
use myjfm_spider.Prelude.{
  ℕ, ◌+◌, ◌-◌, ◌*◌, ◌/◌, ◌%◌, ◌^◌, ◌≤◌, ◌<◌, ◌≡◌, inl, inr, refl, sym, ap, ◌∙◌, true, false, List,
  ◌∷◌, ◌++◌, append_assoc, arith, leb, ltb, length, length-append, take, drop, Bool-cases,
}
use myjfm_spider.ResCode.{s_ok}
use myjfm_spider.Md5.Absorbing.{
  absorb, absorb-long, absorb-short, absorb-append, length-absorb, drop-behind, take-behind,
  length-take, take-exactly, length-drop, transform-take, blocks-fuel,
}
use myjfm_spider.Md5.{
  Words, Md5Caculator, transform, transform_blocks, index_of, write, add_bits, fill, keep, update,
}

-- The two words of a number of bits.
abbrev pub low : ℕ → ℕ
low length_ = 8 * length_ % 2 ^ 32

abbrev pub high : ℕ → ℕ
high length_ = 8 * length_ / 2 ^ 32 % 2 ^ 32

add_bits-low : (m : Md5Caculator) (l n : ℕ) → m.count0 ≡ low l → (add_bits n m).count0 ≡ low (l + n)
add_bits-low m l n e = omega (arith, e)

add_bits-high :
    (m : Md5Caculator) (l n : ℕ)
    → n < 2 ^ 32
    → m.count0 ≡ low l
    → m.count1 ≡ high l
    → (add_bits n m).count1 ≡ high (l + n)
add_bits-high m l n small e f = ground (arith, e, f)

pub low-index : (m : Md5Caculator) (l : ℕ) → m.count0 ≡ low l → index_of m ≡ l % 64
low-index m l e = omega (arith, e)

abbrev pub initial : Words
initial = record { a = 1732584193; b = 4023233417; c = 2562383102; d = 271733878 }

-- The calculator has taken in the message: its state is the one behind the whole blocks, its buffer
-- begins with the bytes that are left, and its two counts are the number of bits modulo 2 ^ 64.
pub record Absorbed (m : Md5Caculator) (msg : List ℕ) : Type 0 where
  pub run : absorb msg initial ≡ (m.state, take (length msg % 64) m.buffer)
  pub full : length m.buffer ≡ 64
  pub bits_low : m.count0 ≡ low (length msg)
  pub bits_high : m.count1 ≡ high (length msg)

-- The bytes that are left and then the input.
pending :
    (m : Md5Caculator) (msg input : List ℕ)
    → Absorbed m msg
    → absorb (msg ++ input) initial ≡ absorb (take (length msg % 64) m.buffer ++ input) m.state
pending m msg input ok =
    absorb-append (length msg) msg input initial (omega arith)
    ∙ ap (λ (r : Words × List ℕ). absorb (r.1 ++ input) r.0) ok.run

keep-run :
    (m : Md5Caculator) (msg input : List ℕ)
    → Absorbed m msg
    → length input < 64 - length msg % 64
    → absorb (msg ++ input) initial
      ≡ (m.state, take (length (msg ++ input) % 64) (write (length msg % 64) input m.buffer))
keep-run m msg input ok short =
    let i = length msg % 64 in
    let r = take i m.buffer in
    let back = drop (i + length input) m.buffer in
    let size : length r ≡ i = length-take i m.buffer (omega (arith, ok.full)) in
    let sum = length-append r input in
    let total = length-append msg input in
    let count : length (r ++ input) ≡ length (msg ++ input) % 64 =
      omega (arith, size, sum, total) in
    let front : take (length (msg ++ input) % 64) (write i input m.buffer) ≡ r ++ input =
      ap (take (length (msg ++ input) % 64)) (sym (append_assoc r input back))
      ∙ take-exactly (length (msg ++ input) % 64) (r ++ input) back count in
    pending m msg input ok
    ∙ absorb-short (r ++ input) m.state (omega (arith, count))
    ∙ ap (λ f. (m.state, f)) (sym front)

fill-run :
    (m : Md5Caculator) (msg input : List ℕ)
    → Absorbed m msg
    → 64 - length msg % 64 ≤ length input
    → absorb (msg ++ input) initial ≡ (
      (fill (length msg % 64) input m).state,
      take (length (msg ++ input) % 64) (fill (length msg % 64) input m).buffer,
    )
fill-run m msg input ok long =
    let i = length msg % 64 in
    let r = take i m.buffer in
    let head = take (64 - i) input in
    let full = write i head m.buffer in
    let tail = drop (64 - i) input in
    let w = transform full m.state in
    let size : length r ≡ i = length-take i m.buffer (omega (arith, ok.full)) in
    let sum = length-append r input in
    let total = length-append msg input in
    let left : 64 - length r ≡ 64 - i = omega (arith, size) in
    let rest : drop 64 (r ++ input) ≡ tail =
      drop-behind 64 r input (omega (arith, size)) ∙ ap (λ k. drop k input) left in
    let whole : length (r ++ head) ≡ 64 =
      omega (arith, size, length-append r head, length-take (64 - i) input long) in
    let back = drop (i + length head) m.buffer in
    let same : take 64 (r ++ input) ≡ take 64 full =
      take-behind 64 r input (omega (arith, size))
      ∙ ap (λ k. r ++ take k input) left
      ∙ sym (take-exactly 64 (r ++ head) back whole)
      ∙ ap (take 64) (append_assoc r head back) in
    let out = absorb tail w in
    let count : length out.1 ≡ length (msg ++ input) % 64 =
      length-absorb (length tail) tail w (omega arith)
      ∙ omega (arith, length-drop (64 - i) input, total) in
    pending m msg input ok
    ∙ absorb-long (r ++ input) m.state (omega (arith, size, sum))
    ∙ ap (λ d. absorb d (transform (r ++ input) m.state)) rest
    ∙ ap (absorb tail) (transform-take (r ++ input) full m.state same)
    ∙ ap (λ f. (out.0, f))
        (sym (take-exactly (length (msg ++ input) % 64) out.1 (drop (0 + length out.1) full) count))
    ∙ ap (λ (o : Words × List ℕ). (o.0, take (length (msg ++ input) % 64) (write 0 o.1 full)))
        (blocks-fuel (length tail) (length input) tail w (omega arith)
          (omega (arith, length-drop (64 - i) input)))

length-write :
    (i : ℕ) (bytes buffer : List ℕ)
    → i + length bytes ≤ length buffer
    → length (write i bytes buffer) ≡ length buffer
length-write i bytes buffer le =
    let back = drop (i + length bytes) buffer in
    omega (
      arith,
      length-append (take i buffer) (bytes ++ back),
      length-append bytes back,
      length-take i buffer (omega arith),
      length-drop (i + length bytes) buffer,
    )

length-buffer-fill :
    (i : ℕ) (input : List ℕ) (m : Md5Caculator)
    → i < 64
    → 64 - i ≤ length input
    → length m.buffer ≡ 64
    → length (fill i input m).buffer ≡ 64
length-buffer-fill i input m small long full =
    let head = take (64 - i) input in
    let buffer = write i head m.buffer in
    let tail = drop (64 - i) input in
    let w = transform buffer m.state in
    let size : length buffer ≡ 64 =
      length-write i head m.buffer (omega (arith, length-take (64 - i) input long)) ∙ full in
    let same =
      blocks-fuel (length input) (length tail) tail w (omega (arith, length-drop (64 - i) input))
        (omega arith) in
    let rest = (transform_blocks (length input) tail w).1 in
    let count : length rest ≡ length tail % 64 =
      ap (λ (o : Words × List ℕ). length o.1) same
      ∙ length-absorb (length tail) tail w (omega arith) in
    length-write 0 rest buffer (omega (arith, count, size)) ∙ size

module _ (m : Md5Caculator) (msg : List ℕ) (x : ℕ) (xs : List ℕ) (ok : Absorbed m msg) where
  update-keep :
      length (x ∷ xs) < 64 - length msg % 64
      → update (x ∷ xs) m ≡ (s_ok, keep (length msg % 64) (x ∷ xs) (add_bits (length (x ∷ xs)) m))
  unfolding update
  update-keep short =
      let i = low-index m (length msg) ok.bits_low in
      let b : leb (64 - length msg % 64) (length (x ∷ xs)) ≡ false = ground arith in rw (i, b) refl

  update-fill :
      64 - length msg % 64 ≤ length (x ∷ xs)
      → update (x ∷ xs) m ≡ (s_ok, fill (length msg % 64) (x ∷ xs) (add_bits (length (x ∷ xs)) m))
  unfolding update
  update-fill long =
      let i = low-index m (length msg) ok.bits_low in
      let b : leb (64 - length msg % 64) (length (x ∷ xs)) ≡ true = ground arith in rw (i, b) refl

  counts :
      length (x ∷ xs) < 2 ^ 32
      → ((add_bits (length (x ∷ xs)) m).count0 ≡ low (length (msg ++ x ∷ xs)))
        × ((add_bits (length (x ∷ xs)) m).count1 ≡ high (length (msg ++ x ∷ xs)))
  counts small =
      let n = length (x ∷ xs) in
      let total : length msg + n ≡ length (msg ++ x ∷ xs) = sym (length-append msg (x ∷ xs)) in
      (
        add_bits-low m (length msg) n ok.bits_low ∙ ap low total,
        add_bits-high m (length msg) n small ok.bits_low ok.bits_high ∙ ap high total,
      )

  -- A calculator that has taken in a message takes in the input behind it.
  pub update-Absorbed : length (x ∷ xs) < 2 ^ 32 → Absorbed (update (x ∷ xs) m).1 (msg ++ x ∷ xs)
  update-Absorbed small = elim (Bool-cases (ltb (length (x ∷ xs)) (64 - length msg % 64))) [
    | inl e ↦
        let short : length (x ∷ xs) < 64 - length msg % 64 = ground (arith, e) in
        rw (update-keep short) (record {
          run = keep-run m msg (x ∷ xs) ok short;
          full =
              length-write (length msg % 64) (x ∷ xs) m.buffer (omega (arith, ok.full)) ∙ ok.full;
          bits_low = (counts small).0;
          bits_high = (counts small).1;
        })
    | inr e ↦
        let long : 64 - length msg % 64 ≤ length (x ∷ xs) = ground (arith, e) in
        rw (update-fill long) (record {
          run = fill-run m msg (x ∷ xs) ok long;
          full = length-buffer-fill (length msg % 64) (x ∷ xs) m (omega arith) long ok.full;
          bits_low = (counts small).0;
          bits_high = (counts small).1;
        })
  ]
