-- ===== src/Md5/Digest.antt =====
-- src/md5.cc: the digest of a message that came in pieces.
use myjfm_spider.Prelude.{
  ℕ, ◌%◌, ◌^◌, ◌≤◌, ◌<◌, ◌≡◌, refl, sym, ap, ◌∙◌, subst, true, false, List, [], ◌∷◌, ◌++◌,
  append-nil, append_assoc, arith, length, take, zero, suc,
}
use myjfm_spider.Md5.{
  Words, Md5Caculator, cut, calculator_of, update, final, digest, pad_len, padding, words, encode,
  reset,
}
use myjfm_spider.Md5.Rfc.{md5_of, padded_lem, md5_of_lem}
use myjfm_spider.Md5.Absorbing.{absorb, absorb-short, length-take}
use myjfm_spider.Md5.Updating.{initial, low, high, low-index, Absorbed, update-Absorbed}

-- The pieces of a message, one `update` after another.
unfoldable pub update_all : List (List ℕ) → Md5Caculator → Md5Caculator
update_all [] m = m
update_all (p ∷ ps) m = update_all ps (update p m).1

abbrev pub joined : List (List ℕ) → List ℕ
joined [] = []
joined (p ∷ ps) = p ++ joined ps

-- Every piece has a length of 32 bits.
abbrev pub AllSmall : List (List ℕ) → Type 0
AllSmall [] = Unit {0}
AllSmall (p ∷ ps) = (length p < 2 ^ 32) × AllSmall ps

piece-Absorbed :
    (m : Md5Caculator) (msg p : List ℕ)
    → Absorbed m msg
    → length p < 2 ^ 32
    → Absorbed (update p m).1 (msg ++ p)
unfolding update
piece-Absorbed m msg [] ok small = rw (append-nil msg) ok
piece-Absorbed m msg (x ∷ xs) ok small = update-Absorbed m msg x xs ok small

update-open : (m : Md5Caculator) (p : List ℕ) → m.finished ≡ false → (update p m).1.finished ≡ false
unfolding update
update-open m [] e = e
update-open m (x ∷ xs) e = ground arith

update_all-Absorbed :
    (ps : List (List ℕ)) (m : Md5Caculator) (msg : List ℕ)
    → Absorbed m msg
    → m.finished ≡ false
    → AllSmall ps
    → Absorbed (update_all ps m) (msg ++ joined ps) × ((update_all ps m).finished ≡ false)
unfolding update_all
update_all-Absorbed [] m msg ok open_ small = (rw (append-nil msg) ok, open_)
update_all-Absorbed (p ∷ ps) m msg ok open_ small =
    let (done_, still) =
      update_all-Absorbed ps (update p m).1 (msg ++ p) (piece-Absorbed m msg p ok small.0)
        (update-open m p open_) small.1 in
    (subst (Absorbed (update_all ps (update p m).1)) (append_assoc msg p (joined ps)) done_, still)

reset-Absorbed : (m : Md5Caculator) → length m.buffer ≡ 64 → Absorbed (reset m) []
unfolding reset
reset-Absorbed m full = record {
  run = absorb-short [] initial (omega arith);
  full = full;
  bits_low = refl;
  bits_high = refl;
}

length-padding : (n : ℕ) → n < 64 → length (take (pad_len n) padding) < 2 ^ 32
length-padding n small =
    let le : pad_len n ≤ 64 = ground (arith, small) in
    omega (arith, le, length-take (pad_len n) padding le)

length-encode : (a b : ℕ) → length (encode (a ∷ b ∷ [])) < 2 ^ 32
unfolding encode
length-encode a b = omega arith

-- The digest behind a padding for `i` pending bytes and the two counts.
abbrev closing : Md5Caculator → ℕ → ℕ → ℕ → List ℕ
closing m i c0 c1 =
    encode (words (update (encode (c0 ∷ c1 ∷ [])) (update (take (pad_len i) padding) m).1).1.state)

final-Absorbed :
    (m : Md5Caculator) (msg : List ℕ) → Absorbed m msg → (final m).digest_bytes ≡ md5_of msg
unfolding final
final-Absorbed m msg ok =
    let pad = take (pad_len (length msg % 64)) padding in
    let bits = encode (low (length msg) ∷ high (length msg) ∷ []) in
    let one = piece-Absorbed m msg pad ok (length-padding (length msg % 64) (omega arith)) in
    let two =
      piece-Absorbed (update pad m).1 (msg ++ pad) bits one
        (length-encode (low (length msg)) (high (length msg))) in
    let run = ap (λ s. absorb s initial) (sym (append_assoc msg pad bits)) ∙ two.run in
    ap (λ i. closing m i m.count0 m.count1) (low-index m (length msg) ok.bits_low)
    ∙ ap (λ c. closing m (length msg % 64) c m.count1) ok.bits_low
    ∙ ap (closing m (length msg % 64) (low (length msg))) ok.bits_high
    ∙ sym (ap (λ (r : Words × List ℕ). encode (words r.0)) run)
    ∙ ap (λ p. encode (words (absorb p initial).0)) (padded_lem msg)
    ∙ md5_of_lem msg

marked-Absorbed :
    (m : Md5Caculator) (msg : List ℕ) → Absorbed m msg → Absorbed (record m { finished = true }) msg
marked-Absorbed m msg ok = record {
  run = ok.run;
  full = ok.full;
  bits_low = ok.bits_low;
  bits_high = ok.bits_high;
}

-- A reset calculator, whatever else stands in its memory, that takes in a message in any pieces of less
-- than 2 ^ 32 bytes each, empty ones too: its digest is the one that RFC 1321 gives the whole message,
-- with the transformation of a block as the code has it.
pub digest-update_all :
    (m : Md5Caculator) (ps : List (List ℕ))
    → length m.buffer ≡ 64
    → AllSmall ps
    → (digest (update_all ps (reset m))).0 ≡ md5_of (joined ps)
unfolding digest
digest-update_all m ps full small =
    let start = reset-Absorbed m full in
    let (ok, open_) = update_all-Absorbed ps (reset m) [] start (unfold reset in refl) small in
    rw open_ (
      final-Absorbed (record (update_all ps (reset m)) { finished = true }) (joined ps)
        (marked-Absorbed (update_all ps (reset m)) (joined ps) ok))

take-short : (n : ℕ) (s : List ℕ) → length (take n s) ≤ n
take-short zero s = omega arith
take-short (suc n) [] = omega arith
take-short (suc n) (x ∷ s) = omega (arith, take-short n s)

-- The digest of a text does not depend on what stood in the calculator's memory.
pub digest-calculator_of :
    (m : Md5Caculator) (str : List ℕ)
    → length m.buffer ≡ 64
    → (digest (calculator_of m str)).0 ≡ md5_of (take (cut (length str)) str)
digest-calculator_of m str full =
    let piece = take (cut (length str)) str in
    let small : length piece < 2 ^ 32 = omega (arith, take-short (cut (length str)) str) in
    unfold calculator_of update_all in
    (digest-update_all m (piece ∷ []) full (small, tt) ∙ ap md5_of (append-nil piece))
