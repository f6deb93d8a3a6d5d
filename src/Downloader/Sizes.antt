-- ===== src/Downloader/Sizes.antt =====
-- `recv_chunk_size` of src/downloader_task.cc against the size line of a chunk.
use myjfm_spider.Prelude.{
  ℕ, zero, suc, ◌+◌, ◌*◌, ◌%◌, ◌^◌, ◌<◌, ◌≡◌, ◌≢◌, refl, ap, ◌∙◌, true, false, ◌||◌, some, List, [],
  ◌∷◌, ◌++◌, arith, ◌==◌, if◌then◌else◌, done, ◌>>=◌,
}
use myjfm_spider.ResCode.{s_ok}
use myjfm_spider.Socket.{Socket, read, flat, weight, Flows}
use myjfm_spider.Socket.Laws.{read-ReadsByte}
use myjfm_spider.Utility.Numbers.{is_hex, hex_digit_value, hex_value, AllHex}
use myjfm_spider.Utility.{is_hex_digit}
use myjfm_spider.Downloader.{size_step, size_loop, line_end_loop, recv_chunk_size}
use myjfm_spider.Downloader.Lines.{
  Leaves, Leaves-trans, AllPlain, line_end_loop-lf, line_end_loop-plain,
}

size_steps : ℕ → List ℕ → ℕ
size_steps v [] = v
size_steps v (c ∷ cs) = size_steps (size_step v c) cs

size_step-value :
    (u v c : ℕ)
    → is_hex c ≡ true
    → u ≡ v % 2 ^ 32
    → size_step u c ≡ (v * 16 + hex_digit_value c) % 2 ^ 32
unfolding is_hex size_step hex_digit_value
size_step-value u v c h e = ground arith

size_steps-value :
    (u v : ℕ) (cs : List ℕ) → AllHex cs → u ≡ v % 2 ^ 32 → size_steps u cs ≡ hex_value v cs % 2 ^ 32
unfolding size_steps hex_value
size_steps-value u v [] h e = e
size_steps-value u v (c ∷ cs) h e =
    size_steps-value (size_step u c) (v * 16 + hex_digit_value c) cs h.1
      (size_step-value u v c h.0 e)

is_hex-is_hex_digit : (c : ℕ) → is_hex c ≡ true → is_hex_digit c ≡ true
unfolding is_hex is_hex_digit
is_hex-is_hex_digit c h = ground arith

size_loop-step :
    (fuel size c : ℕ) (s s' : Socket)
    → read 1 s ≡ (some (c ∷ []), s')
    → size_loop (suc fuel) size s ≡ (
        if is_hex_digit c || c == b' '
        then size_loop fuel (if is_hex_digit c then size_step size c else size) s'
        else done (some c, size, s'))
unfolding size_loop
size_loop-step fuel size c s s' e = ground (arith, ap (λ r. r.0) e, ap (λ r. r.1) e)

-- The digits are folded, and the byte behind them is consumed.
size_loop-digits :
    (cs : List ℕ) (fuel size c : ℕ) (rest : List ℕ) (s : Socket)
    → AllHex cs
    → is_hex_digit c ≡ false
    → c ≢ b' '
    → Flows s
    → flat s ≡ cs ++ c ∷ rest
    → weight s < fuel
    → (s' : Socket) × (size_loop fuel size s ≡ done (some c, size_steps size cs, s'))
      × Leaves s rest s'
unfolding size_steps
size_loop-digits cs zero size c rest s hex stop ne f e enough = absurd (omega arith)
size_loop-digits [] (suc fuel) size c rest s hex stop ne f e enough =
    let (s', r) = read-ReadsByte s c rest f e in
    (
      s',
      size_loop-step fuel size c s s' r.ran ∙ ground (arith, stop),
      record { flows = r.flows; stream = r.stream; lighter = r.lighter },
    )
size_loop-digits (d ∷ ds) (suc fuel) size c rest s hex stop ne f e enough =
    let (s', r) = read-ReadsByte s d (ds ++ c ∷ rest) f e in
    let is_hex = is_hex-is_hex_digit d hex.0 in
    let (t, ran, left) =
      size_loop-digits ds fuel (size_step size d) c rest s' hex.1 stop ne r.flows r.stream
        (omega (arith, r.lighter)) in
    (
      t,
      size_loop-step fuel size d s s' r.ran ∙ rw is_hex ran,
      record {
        flows = left.flows;
        stream = left.stream;
        lighter = omega (arith, r.lighter, left.lighter);
      },
    )

abbrev pub IsApart : List ℕ → Type 0
IsApart [] = Unit {0}
IsApart (c ∷ cs) = (is_hex_digit c ≡ false) × (c ≢ b' ')

-- A chunk's first line: its size in hexadecimal digits, an extension that is empty or begins with
-- neither a digit nor a letter nor a space, and the end of the line.
pub record IsSizeLine (digits extension : List ℕ) : Type 0 where
  pub hex : AllHex digits
  pub plain : AllPlain extension
  pub apart : IsApart extension

recv_chunk_size-ran :
    (fd c n : ℕ) (s s' t : Socket)
    → size_loop (suc (weight s)) 0 s ≡ done (some c, n, s')
    → line_end_loop (suc (weight s')) (c == b'\r') s' ≡ done (s_ok, t)
    → recv_chunk_size (some fd) s ≡ done (s_ok, n, t)
unfolding recv_chunk_size
recv_chunk_size-ran fd c n s s' t p q = rw (p, ◌>>=◌) (rw q)

-- For a line of hexadecimal digits and an extension or none, ended by CR LF, on a descriptor that is
-- not negative: `recv_chunk_size` returns S_OK with the number that the digits stand for, modulo
-- 2 ^ 32, and consumes exactly that line, however the bytes are cut into segments.
recv_chunk_size_lem :
    (fd : ℕ) (digits extension rest : List ℕ) (s : Socket)
    → IsSizeLine digits extension
    → Flows s
    → flat s ≡ digits ++ (extension ++ b'\r' ∷ b'\n' ∷ rest)
    → (s' : Socket) × (recv_chunk_size (some fd) s ≡ done (s_ok, hex_value 0 digits % 2 ^ 32, s'))
      × Leaves s rest s'
unfolding recv_chunk_size
recv_chunk_size_lem fd digits [] rest s line f e =
    let (t, ran, left) =
      size_loop-digits digits (suc (weight s)) 0 b'\r' (b'\n' ∷ rest) s line.hex
        (unfold is_hex_digit in refl) (omega arith) f e (omega arith) in
    let (u, ran', left') =
      line_end_loop-lf (suc (weight t)) rest t left.flows left.stream (omega arith) in
    (
      u,
      recv_chunk_size-ran fd b'\r' _ s t u ran ran'
          ∙ ap (λ n. done (s_ok, n, u)) (size_steps-value 0 0 digits line.hex refl),
      Leaves-trans left left',
    )
recv_chunk_size_lem fd digits (c ∷ cs) rest s line f e =
    let (not_hex, not_space) = line.apart in
    let (t, ran, left) =
      size_loop-digits digits (suc (weight s)) 0 c (cs ++ b'\r' ∷ b'\n' ∷ rest) s line.hex not_hex
        not_space f e (omega arith) in
    let (u, ran', left') =
      line_end_loop-plain cs (suc (weight t)) (c == b'\r') rest t line.plain.2 left.flows
        left.stream (omega arith) in
    (
      u,
      recv_chunk_size-ran fd c _ s t u ran ran'
          ∙ ap (λ n. done (s_ok, n, u)) (size_steps-value 0 0 digits line.hex refl),
      Leaves-trans left left',
    )

-- The same for a size below 2 ^ 32.
pub recv_chunk_size_value :
    (fd n : ℕ) (digits extension rest : List ℕ) (s : Socket)
    → IsSizeLine digits extension
    → hex_value 0 digits ≡ n
    → n < 2 ^ 32
    → Flows s
    → flat s ≡ digits ++ (extension ++ b'\r' ∷ b'\n' ∷ rest)
    → (s' : Socket) × (recv_chunk_size (some fd) s ≡ done (s_ok, n, s')) × Leaves s rest s'
recv_chunk_size_value fd n digits extension rest s line value small f e =
    let (s', ran, left) = recv_chunk_size_lem fd digits extension rest s line f e in
    let same : hex_value 0 digits % 2 ^ 32 ≡ n = omega arith in
    (s', ran ∙ ap (λ k. done (s_ok, k, s')) same, left)
