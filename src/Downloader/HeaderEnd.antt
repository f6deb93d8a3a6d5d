-- ===== src/Downloader/HeaderEnd.antt =====
-- src/downloader_task.cc: `recv_http_response_header`, which reads byte by byte up to the empty line
-- and drops the carriage returns.
use myjfm_spider.Prelude.{
  ℕ, zero, suc, ◌+◌, ◌-◌, ◌≤◌, ◌<◌, ◌≡◌, ◌≢◌, ◌⊎◌, inl, inr, refl, sym, ap, ◌∙◌, subst, Bool, true,
  ◌&&◌, ◌||◌, not, Option, none, some, List, [], ◌∷◌, ◌++◌, append_assoc, append-nil, arith, ltb,
  ◌==◌, if◌then◌else◌, Run, done, fault, out_of_fuel, length, length-append, take,
}
use myjfm_spider.ResCode.{ResCode, s_ok, s_fail, s_should_close_connection}
use myjfm_spider.Socket.{Socket, read, flat, weight, Flows}
use myjfm_spider.Socket.Laws.{read-ReadsByte}
use myjfm_spider.Downloader.{Fd, is_negative}
use myjfm_spider.Downloader.Lines.{AllPlain}

abbrev pub max_header_size : ℕ
max_header_size = 4096

-- `is_end` behind a byte: how much of CR LF CR LF stands there.
unfoldable pub next_end : ℕ → ℕ → ℕ
next_end c is_end =
    if c == b'\r'
    then (if is_end == 0 || is_end == 2 then is_end + 1 else 1)
    else if c == b'\n'
    then (if is_end == 1 || is_end == 3 then is_end + 1 else 0)
    else 0

abbrev pub kept : ℕ → List ℕ → List ℕ
kept c header = if c == b'\r' then header else header ++ c ∷ []

-- The bytes written so far are `header`; the result is `is_end` and those bytes, or `none` where a
-- read failed.
unfoldable pub header_loop : ℕ → ℕ → List ℕ → Socket → Run (Option (ℕ × List ℕ) × Socket)
header_loop zero is_end header s = out_of_fuel
header_loop (suc fuel) is_end header s =
    if not (is_end == 4) && ltb (length header) max_header_size
    then (elim ((read 1 s).0) [
      | none ↦ done (none, (read 1 s).1)
      | some [] ↦ done (none, (read 1 s).1)
      | some (c ∷ _) ↦ header_loop fuel (next_end c is_end) (kept c header) (read 1 s).1
    ])
    else done (some (is_end, header), s)

-- Behind the loop: the last two bytes are cut off where the end was found in time.
abbrev pub header_end : Option (ℕ × List ℕ) × Socket → ResCode × List ℕ × Socket
header_end (none, s) = (s_should_close_connection, [], s)
header_end (some (is_end, header), s) =
    if is_end == 4 && ltb (length header) max_header_size
    then (s_ok, take (length header - 2) header, s)
    else (s_fail, [], s)

abbrev pub ended : Run (Option (ℕ × List ℕ) × Socket) → Run (ResCode × List ℕ × Socket)
ended (done r) = done (header_end r)
ended fault = fault
ended out_of_fuel = out_of_fuel

unfoldable pub recv_http_response_header : Fd → Bool → Socket → Run (ResCode × List ℕ × Socket)
recv_http_response_header fd buffer s =
    if is_negative fd || not buffer
    then done (s_fail, [], s)
    else ended (header_loop (suc (weight s)) 0 [] s)

header_loop-step :
    (fuel is_end c : ℕ) (header : List ℕ) (s s' : Socket)
    → is_end ≢ 4
    → length header < max_header_size
    → read 1 s ≡ (some (c ∷ []), s')
    → header_loop (suc fuel) is_end header s
      ≡ header_loop fuel (next_end c is_end) (kept c header) s'
unfolding header_loop
header_loop-step fuel is_end c header s s' ne short e =
    let b : (not (is_end == 4) && ltb (length header) max_header_size) ≡ true = ground arith in
    rw (b, ap (λ r. r.0) e, ap (λ r. r.1) e) refl

-- What the loop does from one state on, it does with enough fuel from another one, and the bytes up
-- to there are read.
pub record Gets (fuel is_end : ℕ) (header : List ℕ) (s : Socket) (end_ : ℕ) (got : List ℕ)
    (rest : List ℕ) : Type 0 where
  pub fuel_left : ℕ
  pub socket : Socket
  pub same : header_loop fuel is_end header s ≡ header_loop fuel_left end_ got socket
  pub left : Flows socket
  pub stream : flat socket ≡ rest
  pub enough : weight socket < fuel_left

Gets-byte :
    (fuel is_end c : ℕ) (header rest : List ℕ) (s : Socket)
    → is_end ≢ 4
    → length header < max_header_size
    → Flows s
    → flat s ≡ c ∷ rest
    → weight s < fuel
    → Gets fuel is_end header s (next_end c is_end) (kept c header) rest
Gets-byte zero is_end c header rest s ne short f e enough = absurd (omega arith)
Gets-byte (suc fuel) is_end c header rest s ne short f e enough =
    let (s', r) = read-ReadsByte s c rest f e in
    record {
      fuel_left = fuel;
      socket = s';
      same = header_loop-step fuel is_end c header s s' ne short r.ran;
      left = r.flows;
      stream = r.stream;
      enough = omega (arith, r.lighter);
    }

pub Gets-trans :
    (fuel e f g : ℕ) (h k l q r : List ℕ) (s : Socket)
    → Gets fuel e h s f k q
    → ((fuel' : ℕ) (t : Socket) → Flows t → flat t ≡ q → weight t < fuel' → Gets fuel' f k t g l r)
    → Gets fuel e h s g l r
Gets-trans fuel e f g h k l q r s a b =
    let c = b a.fuel_left a.socket a.left a.stream a.enough in
    record {
      fuel_left = c.fuel_left;
      socket = c.socket;
      same = a.same ∙ c.same;
      left = c.left;
      stream = c.stream;
      enough = c.enough;
    }

abbrev pub after : ℕ → List ℕ → ℕ
after e [] = e
after e (c ∷ cs) = 0

after-zero : (cs : List ℕ) → after 0 cs ≡ 0
after-zero [] = refl
after-zero (c ∷ cs) = refl

plain-next_end :
    (c e : ℕ) (header : List ℕ)
    → c ≢ b'\r'
    → c ≢ b'\n'
    → (next_end c e ≡ 0) × (kept c header ≡ header ++ c ∷ [])
unfolding next_end
plain-next_end c e header p q = (ground (arith, p, q), ground (arith, p))

pub Gets-plain :
    (cs : List ℕ) (fuel e : ℕ) (header rest : List ℕ) (s : Socket)
    → AllPlain cs
    → e ≢ 4
    → length header + length cs ≤ max_header_size
    → Flows s
    → flat s ≡ cs ++ rest
    → weight s < fuel
    → Gets fuel e header s (after e cs) (header ++ cs) rest
Gets-plain [] fuel e header rest s plain ne short f st enough = record {
  fuel_left = fuel;
  socket = s;
  same = ap (λ h. header_loop fuel e h s) (sym (append-nil header));
  left = f;
  stream = st;
  enough = enough;
}
Gets-plain (c ∷ cs) fuel e header rest s plain ne short f st enough =
    let (zero_, grown) = plain-next_end c e header plain.0 plain.1 in
    let first = Gets-byte fuel e c header (cs ++ rest) s ne (omega (arith, short)) f st enough in
    let first' : Gets fuel e header s 0 (header ++ c ∷ []) (cs ++ rest) =
      subst (λ h. Gets fuel e header s 0 h (cs ++ rest)) grown
        (subst (λ z. Gets fuel e header s z (kept c header) (cs ++ rest)) zero_ first) in
    Gets-trans fuel e 0 0 header (header ++ c ∷ []) (header ++ c ∷ cs) (cs ++ rest) rest s first'
      (λ fuel' t f' st' enough'.
        subst (λ h. Gets fuel' 0 (header ++ c ∷ []) t 0 h rest) (append_assoc header (c ∷ []) cs)
          (subst (λ z. Gets fuel' 0 (header ++ c ∷ []) t z ((header ++ c ∷ []) ++ cs) rest)
            (after-zero cs)
            (Gets-plain cs fuel' 0 (header ++ c ∷ []) rest t plain.2 (omega arith)
              (omega (arith, short, length-append header (c ∷ []))) f' st' enough')))

crlf-next_end :
    (e : ℕ) (header : List ℕ)
    → (e ≡ 0) ⊎ (e ≡ 2)
    → (next_end b'\r' e ≡ e + 1) × (next_end b'\n' (e + 1) ≡ e + 2)
unfolding next_end
crlf-next_end e header (inl p) = (ground (arith, p), ground (arith, p))
crlf-next_end e header (inr p) = (ground (arith, p), ground (arith, p))

pub Gets-crlf :
    (fuel e : ℕ) (header rest : List ℕ) (s : Socket)
    → (e ≡ 0) ⊎ (e ≡ 2)
    → length header < max_header_size
    → Flows s
    → flat s ≡ b'\r' ∷ b'\n' ∷ rest
    → weight s < fuel
    → Gets fuel e header s (e + 2) (header ++ b'\n' ∷ []) rest
Gets-crlf fuel e header rest s even short f st enough =
    let (one, two) = crlf-next_end e header even in
    let ne : (e ≢ 4) × (e + 1 ≢ 4) = elim even [
      | inl p ↦ (omega (arith, p), omega (arith, p))
      | inr p ↦ (omega (arith, p), omega (arith, p))
    ] in
    Gets-trans fuel e (e + 1) (e + 2) header header (header ++ b'\n' ∷ []) (b'\n' ∷ rest) rest s
      (subst (λ z. Gets fuel e header s z header (b'\n' ∷ rest)) one
        (Gets-byte fuel e b'\r' header (b'\n' ∷ rest) s ne.0 short f st enough))
      (λ fuel' t f' st' enough'.
        subst (λ z. Gets fuel' (e + 1) header t z (header ++ b'\n' ∷ []) rest) two
          (Gets-byte fuel' (e + 1) b'\n' header rest t ne.1 short f' st' enough'))
