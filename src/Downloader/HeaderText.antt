-- ===== src/Downloader/HeaderText.antt =====
-- src/downloader_task.cc: `recv_http_response_header` on headers of lines.
use myjfm_spider.Prelude.{
  ℕ, zero, suc, ◌+◌, ◌-◌, ◌<◌, ◌≡◌, ◌≢◌, inl, inr, refl, sym, ap, ◌∙◌, subst, true, some, List, [],
  ◌∷◌, ◌++◌, append_assoc, append-nil, arith, ltb, done, length, length-append, take, take-length,
}
use myjfm_spider.ResCode.{s_ok}
use myjfm_spider.Socket.{Socket, flat, weight, Flows}
use myjfm_spider.Header.Fields.{text}
use myjfm_spider.Downloader.Lines.{AllPlain}
use myjfm_spider.Downloader.HeaderEnd.{
  max_header_size, header_loop, header_end, ended, recv_http_response_header, Gets, Gets-plain,
  Gets-crlf, Gets-trans, after,
}

-- Lines with something in them and without CR and LF.
abbrev pub AllHeaderLines : List (List ℕ) → Type 0
AllHeaderLines [] = Unit {0}
AllHeaderLines (l ∷ ls) = (0 < length l) × AllPlain l × AllHeaderLines ls

-- The lines as the peer sends them, each with CR LF, in front of `rest`; and with line feeds.
abbrev pub crlf_lines : List (List ℕ) → List ℕ → List ℕ
crlf_lines [] rest = rest
crlf_lines (l ∷ ls) rest = l ++ b'\r' ∷ b'\n' ∷ crlf_lines ls rest

abbrev pub lf_lines : List (List ℕ) → List ℕ
lf_lines [] = []
lf_lines (l ∷ ls) = l ++ b'\n' ∷ lf_lines ls

abbrev ends_at : ℕ → List (List ℕ) → ℕ
ends_at e [] = e
ends_at e (l ∷ ls) = 2

ends_at-two : (ls : List (List ℕ)) → ends_at 2 ls ≡ 2
ends_at-two [] = refl
ends_at-two (l ∷ ls) = refl

after-line : (e : ℕ) (l : List ℕ) → 0 < length l → after e l ≡ 0
after-line e [] pos = absurd (omega arith)
after-line e (c ∷ l) pos = refl

Gets-line :
    (l : List ℕ) (fuel e : ℕ) (header rest : List ℕ) (s : Socket)
    → 0 < length l
    → AllPlain l
    → e ≢ 4
    → length header + length l < max_header_size
    → Flows s
    → flat s ≡ l ++ b'\r' ∷ b'\n' ∷ rest
    → weight s < fuel
    → Gets fuel e header s 2 (header ++ l ++ b'\n' ∷ []) rest
Gets-line l fuel e header rest s pos plain ne short f st enough =
    let back = b'\r' ∷ b'\n' ∷ rest in
    Gets-trans fuel e 0 2 header (header ++ l) (header ++ l ++ b'\n' ∷ []) back rest s
      (subst (λ z. Gets fuel e header s z (header ++ l) back) (after-line e l pos)
        (Gets-plain l fuel e header back s plain ne (omega (arith, short)) f st enough))
      (λ fuel' t f' st' enough'.
        Gets-crlf fuel' 0 (header ++ l) rest t (inl refl)
          (omega (arith, short, length-append header l)) f' st' enough')

Gets-lines :
    (ls : List (List ℕ)) (fuel e : ℕ) (header rest : List ℕ) (s : Socket)
    → AllHeaderLines ls
    → e ≢ 4
    → length header + length (lf_lines ls) < max_header_size
    → Flows s
    → flat s ≡ crlf_lines ls rest
    → weight s < fuel
    → Gets fuel e header s (ends_at e ls) (header ++ lf_lines ls) rest
Gets-lines [] fuel e header rest s all ne short f st enough = record {
  fuel_left = fuel;
  socket = s;
  same = ap (λ h. header_loop fuel e h s) (sym (append-nil header));
  left = f;
  stream = st;
  enough = enough;
}
Gets-lines (l ∷ ls) fuel e header rest s all ne short f st enough =
    let first = header ++ l ++ b'\n' ∷ [] in
    let sizes = length-append l (b'\n' ∷ lf_lines ls) in
    let sizes' : length first ≡ length header + length l + 1 =
      omega (arith, length-append (header ++ l) (b'\n' ∷ []), length-append header l) in
    let whole : first ++ lf_lines ls ≡ header ++ (l ++ b'\n' ∷ lf_lines ls) =
      append_assoc (header ++ l) (b'\n' ∷ []) (lf_lines ls)
      ∙ append_assoc header l (b'\n' ∷ lf_lines ls) in
    Gets-trans fuel e 2 2 header first (header ++ (l ++ b'\n' ∷ lf_lines ls)) (crlf_lines ls rest)
      rest s
      (Gets-line l fuel e header (crlf_lines ls rest) s all.0 all.1 ne (omega (arith, short, sizes))
        f st enough)
      (λ fuel' t f' st' enough'.
        subst (λ h. Gets fuel' 2 first t 2 h rest) whole
          (subst (λ z. Gets fuel' 2 first t z (first ++ lf_lines ls) rest) (ends_at-two ls)
            (Gets-lines ls fuel' 2 first rest t all.2 (omega arith)
              (omega (arith, short, sizes, sizes')) f' st' enough')))

lf_lines-text : (l : List ℕ) (ls : List (List ℕ)) → lf_lines (l ∷ ls) ≡ text (l ∷ ls) ++ b'\n' ∷ []
unfolding text
lf_lines-text l [] = refl
lf_lines-text l (m ∷ ls) =
    ap (λ r. l ++ b'\n' ∷ r) (lf_lines-text m ls)
    ∙ sym (append_assoc l (b'\n' ∷ text (m ∷ ls)) (b'\n' ∷ []))

header_loop-end :
    (fuel : ℕ) (header : List ℕ) (s : Socket)
    → 0 < fuel
    → header_loop fuel 4 header s ≡ done (some (4, header), s)
unfolding header_loop
header_loop-end zero header s pos = absurd (omega arith)
header_loop-end (suc fuel) header s pos = refl

header_end-four :
    (t : List ℕ) (s : Socket)
    → length t + 2 < max_header_size
    → header_end (some (4, (t ++ b'\n' ∷ []) ++ b'\n' ∷ []), s) ≡ (s_ok, t, s)
header_end-four t s short =
    let header = (t ++ b'\n' ∷ []) ++ b'\n' ∷ [] in
    let size : length header ≡ length t + 2 =
      omega (arith, length-append (t ++ b'\n' ∷ []) (b'\n' ∷ []), length-append t (b'\n' ∷ [])) in
    let fits : ltb (length header) max_header_size ≡ true = ground (arith, size) in
    let less : length header - 2 ≡ length t = omega (arith, size) in
    let front : take (length header - 2) header ≡ t =
      ap (λ n. take n header) less
      ∙ ap (take (length t)) (append_assoc t (b'\n' ∷ []) (b'\n' ∷ []))
      ∙ take-length t (b'\n' ∷ b'\n' ∷ []) in
    rw (fits, front) refl

-- For one or more lines with something in them and without CR and LF, which with a line feed between
-- any two are at least three bytes shorter than the header's buffer, sent with CR LF behind each and
-- once more, however the bytes are cut into segments: on a descriptor that is not negative,
-- recv_http_response_header returns S_OK with the lines and a line feed between any two, and leaves
-- what follows the empty line unread.
pub recv_http_response_header-text :
    (fd : ℕ) (l : List ℕ) (ls : List (List ℕ)) (rest : List ℕ) (s : Socket)
    → AllHeaderLines (l ∷ ls)
    → length (text (l ∷ ls)) + 2 < max_header_size
    → Flows s
    → flat s ≡ crlf_lines (l ∷ ls) (b'\r' ∷ b'\n' ∷ rest)
    → (s' : Socket) × (recv_http_response_header (some fd) true s ≡ done (s_ok, text (l ∷ ls), s'))
      × (flat s' ≡ rest)
      × Flows s'
unfolding recv_http_response_header
recv_http_response_header-text fd l ls rest s all short f st =
    let back = b'\r' ∷ b'\n' ∷ rest in
    let t = text (l ∷ ls) in
    let lines : lf_lines (l ∷ ls) ≡ t ++ b'\n' ∷ [] = lf_lines-text l ls in
    let size : length (t ++ b'\n' ∷ []) ≡ length t + 1 = length-append t (b'\n' ∷ []) in
    let size' : length (lf_lines (l ∷ ls)) ≡ length t + 1 = ap length lines ∙ size in
    let g =
      Gets-trans (suc (weight s)) 0 2 4 [] (t ++ b'\n' ∷ []) ((t ++ b'\n' ∷ []) ++ b'\n' ∷ []) back
        rest s
        (subst (λ h. Gets (suc (weight s)) 0 [] s 2 h back) lines
          (Gets-lines (l ∷ ls) (suc (weight s)) 0 [] back s all (omega arith)
            (omega (arith, size', short)) f st (omega arith)))
        (λ fuel' u f' st' enough'.
          Gets-crlf fuel' 2 (t ++ b'\n' ∷ []) rest u (inr refl) (omega (arith, size, short)) f' st'
            enough') in
    (
      g.socket,
      ap ended (
            g.same
            ∙ header_loop-end g.fuel_left ((t ++ b'\n' ∷ []) ++ b'\n' ∷ []) g.socket
                (omega (arith, g.enough)))
          ∙ ap done (header_end-four t g.socket short),
      g.stream,
      g.left,
    )
