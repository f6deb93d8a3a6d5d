-- ===== src/Extractor/Inflating.antt =====
-- src/extractor_task.cc: decompress_page on a page that zlib reads to its end.
use myjfm_spider.Prelude.{
  ℕ, zero, suc, ◌+◌, ◌*◌, ◌%◌, ◌^◌, ◌≤◌, ◌<◌, ◌≡◌, refl, sym, ap, ◌∙◌, subst, ◌⊎◌, inl, inr, Bool,
  true, false, Option, none, some, List, [], ◌∷◌, ◌++◌, append-nil, append_assoc, arith, ltb, ◌==◌,
  if◌then◌else◌, length, length-append, Run, done, fault, ◌>>=◌,
}
use myjfm_spider.ResCode.{ResCode, s_ok}
use myjfm_spider.Page.{
  Encoding, http_encoding_unknown, http_encoding_gzip, http_encoding_deflate, Page, page_new,
  page_bytes, set_site, set_port, set_file, set_charset, set_encoding,
}
use myjfm_spider.Extractor.{
  ZCode, z_ok, z_stream_end, z_buf_error, Inflated, Zlib, append_bytes, copy_into, copy_members,
  cache_len, room, after_inflate, inflate_loop, start_inflate, decompress_as, decompress_page,
}

-- `inflate` goes on, with or without progress.
abbrev pub GoesOn : ZCode → Type 0
GoesOn c = (c ≡ z_ok) ⊎ (c ≡ z_buf_error)

-- What a stream gives from an input in so many calls with the same room, the last one being the end of
-- the stream.
pub data Inflates (z : Zlib) (out : Option ℕ)
    : z.Stream → Option (List ℕ) → List ℕ → ℕ → Type 0 where
  ends :
      (s : z.Stream) (input : Option (List ℕ))
      → (z.inflate out input s).code ≡ z_stream_end
      → Inflates z out s input (z.inflate out input s).bytes 1
  goes :
      {n : ℕ} {more : List ℕ} (s : z.Stream) (input : Option (List ℕ))
      → GoesOn (z.inflate out input s).code
      → Inflates z out (z.inflate out input s).stream (z.inflate out input s).left more n
      → Inflates z out s input ((z.inflate out input s).bytes ++ more) (suc n)

-- A page whose size is that of its bytes, with `bytes` behind those of `p`.
pub record Grows (p : Page) (bytes : List ℕ) (p' : Page) : Type 0 where
  pub content : page_bytes p' ≡ page_bytes p ++ bytes
  pub size : p'.page_size ≡ length (page_bytes p')

-- A new page with memory for n bytes.
blank : ℕ → Page
blank n = record {
  content = some [];
  page_size = n;
  site = [];
  port = 0;
  file = [];
  charset = [];
  encoding = http_encoding_unknown;
}

page_new-blank : (alloc : ℕ → Bool) (n : ℕ) → 0 < n → alloc n ≡ true → page_new alloc n ≡ blank n
unfolding page_new blank
page_new-blank alloc n pos e =
    let got : (if n == 0 then false else alloc n) ≡ true = ground (arith, pos, e) in
    ap
      (λ (b : Bool). record {
        content = if b then some [] else none;
        page_size = if b then n else 0;
        site = [];
        port = 0;
        file = [];
        charset = [];
        encoding = http_encoding_unknown;
      })
      got

copy_into-blank :
    (n : ℕ) (bs : List ℕ)
    → copy_into n bs (blank n).content (blank n) ≡ done (record (blank n) { content = some bs })
unfolding blank
copy_into-blank n bs =
    let no_wrap : ltb n n ≡ false = ground arith in
    ap (λ b. if b then fault else done (record (blank n) { content = some bs })) no_wrap

pub inflate_loop-suc :
    (z : Zlib) (alloc : ℕ → Bool) (source : Page) (fuel : ℕ) (s : z.Stream)
    (input : Option (List ℕ)) (p : Page) (dummy : Bool)
    → inflate_loop z alloc source (suc fuel) s input p dummy
      ≡ after_inflate z alloc source
          (inflate_loop z alloc source fuel)
          (z.inflate (room z alloc source) input s).code
          (z.inflate (room z alloc source) input s)
          p
          dummy
unfolding inflate_loop
inflate_loop-suc z alloc source fuel s input p dummy = refl

module _ (alloc : ℕ → Bool) (enough : (n : ℕ) → alloc n ≡ true) where
  append_bytes-Grows :
      (bs : List ℕ) (p : Page)
      → p.page_size ≡ length (page_bytes p)
      → length (page_bytes p) + length bs < 2 ^ 32
      → (p' : Page) × (append_bytes alloc bs p ≡ done p') × Grows p bs p'
  unfolding append_bytes blank
  append_bytes-Grows [] p e small =
      (p, refl, record { content = sym (append-nil (page_bytes p)); size = e })
  append_bytes-Grows (b ∷ bs) p e small =
      let n = p.page_size + length (b ∷ bs) in
      let all = page_bytes p ++ b ∷ bs in
      let fits : n % 2 ^ 32 ≡ n = omega (arith, e, small) in
      let pos : 0 < n = omega arith in
      (
        record (blank n) { content = some all },
        ap (λ m. copy_into n all (page_new alloc m).content (page_new alloc m)) fits
            ∙ ap (λ q. copy_into n all q.content q) (page_new-blank alloc n pos (enough n))
            ∙ copy_into-blank n all,
        record { content = refl; size = omega (arith, e, length-append (page_bytes p) (b ∷ bs)) },
      )

  module _ (z : Zlib) (source : Page) where
    -- What the loop gives: S_OK, with the members of the source.
    Collects : Page → List ℕ → Run (ResCode × Option Page) → Type 0
    Collects p bytes o =
        (p' : Page) × (o ≡ done (s_ok, some (copy_members source p'))) × Grows p bytes p'

    Collects-more :
        (p q : Page) (bs more : List ℕ) (o : Run (ResCode × Option Page))
        → Grows p bs q
        → Collects q more o
        → Collects p (bs ++ more) o
    unfolding Collects
    Collects-more p q bs more o g (p', e, h) = (
      p',
      e,
      record {
        content = h.content ∙ ap (λ xs. xs ++ more) g.content ∙ append_assoc (page_bytes p) bs more;
        size = h.size;
      },
    )

    -- A round that goes on, by the page behind it.
    goes_on :
        (again : z.Stream → Option (List ℕ) → Page → Bool → Run (ResCode × Option Page)) (c : ZCode)
        (r : Inflated z.Stream) (p q : Page) (dummy : Bool)
        → GoesOn c
        → append_bytes alloc r.bytes p ≡ done q
        → after_inflate z alloc source again c r p dummy ≡ again r.stream r.left q dummy
    goes_on again c r p q dummy (inl e) f =
        ap (λ d. after_inflate z alloc source again d r p dummy) e
        ∙ ap (λ o. o >>= λ p'. again r.stream r.left p' dummy) f
    goes_on again c r p q dummy (inr e) f =
        ap (λ d. after_inflate z alloc source again d r p dummy) e
        ∙ ap (λ o. o >>= λ p'. again r.stream r.left p' dummy) f

    inflate_loop-Collects :
        (fuel : ℕ) {s : z.Stream} {input : Option (List ℕ)} {bytes : List ℕ} {n : ℕ} (p : Page)
        (dummy : Bool)
        → Inflates z (room z alloc source) s input bytes n
        → n ≤ fuel
        → p.page_size ≡ length (page_bytes p)
        → length (page_bytes p) + length bytes < 2 ^ 32
        → Collects p bytes (inflate_loop z alloc source fuel s input p dummy)
    inflate_loop-Collects zero p dummy (ends s input c) h e small = absurd (omega (arith, h))
    inflate_loop-Collects zero p dummy (goes s input c rest) h e small = absurd (omega (arith, h))
    inflate_loop-Collects (suc fuel) p dummy (ends s input c) h e small =
        let r = z.inflate (room z alloc source) input s in
        let (q, f, g) = append_bytes-Grows r.bytes p e small in
        unfold Collects in
        (
          q,
          inflate_loop-suc z alloc source fuel s input p dummy
              ∙ ap
                  (λ d. after_inflate z alloc source (inflate_loop z alloc source fuel) d r p dummy)
                  c
              ∙ ap (λ o. o >>= λ p'. done (s_ok, some (copy_members source p'))) f,
          g,
        )
    inflate_loop-Collects (suc fuel) p dummy (goes {n} {more} s input c rest) h e small =
        let r = z.inflate (room z alloc source) input s in
        let sum = length-append r.bytes more in
        let (q, f, g) = append_bytes-Grows r.bytes p e (omega (arith, small, sum)) in
        let again = inflate_loop z alloc source fuel in
        let grown = ap length g.content ∙ length-append (page_bytes p) r.bytes in
        let ih =
          inflate_loop-Collects fuel q dummy rest (omega (arith, h)) g.size
            (omega (arith, grown, small, sum)) in
        subst (Collects p (r.bytes ++ more))
          (sym (
            inflate_loop-suc z alloc source fuel s input p dummy
            ∙ goes_on again r.code r p q dummy c f))
          (Collects-more p q r.bytes more (again r.stream r.left q dummy) g ih)

-- The decompressed page: the bytes, with their number, and the members of the other page.
pub record IsDecompressed (source : Page) (bytes : List ℕ) (p : Page) : Type 0 where
  pub content : page_bytes p ≡ bytes
  pub size : p.page_size ≡ length bytes
  pub address : (p.site ≡ source.site) × (p.port ≡ source.port) × (p.file ≡ source.file)
  pub charset : p.charset ≡ source.charset

copy_members-IsDecompressed :
    (source p : Page) (bytes : List ℕ)
    → page_bytes p ≡ bytes
    → p.page_size ≡ length (page_bytes p)
    → IsDecompressed source bytes (copy_members source p)
unfolding copy_members set_site set_port set_file set_charset set_encoding
copy_members-IsDecompressed source p bytes e f = record {
  content = e;
  size = f ∙ ap length e;
  address = (refl, refl, refl);
  charset = refl;
}

-- The window bits that the encoding asks for.
pub data Windows : Encoding → ℕ → Type 0 where
  of_gzip : Windows http_encoding_gzip 47
  of_deflate : Windows http_encoding_deflate 15

pub decompress_as-start :
    (z : Zlib) (alloc : ℕ → Bool) (fuel : ℕ) (source : Page) {c : Encoding} {w : ℕ}
    → Windows c w
    → decompress_as z alloc source fuel c ≡ start_inflate z alloc source fuel (z.inflate_init w)
decompress_as-start z alloc fuel source of_gzip = refl
decompress_as-start z alloc fuel source of_deflate = refl

start_inflate-IsDecompressed :
    (z : Zlib) (alloc : ℕ → Bool) (fuel n : ℕ) (source : Page) (bytes : List ℕ) (s : z.Stream)
    (o : Option z.Stream)
    → ((m : ℕ) → alloc m ≡ true)
    → o ≡ some s
    → Inflates z (room z alloc source) s source.content bytes n
    → n ≤ fuel
    → length bytes < 2 ^ 32
    → (p : Page) × (start_inflate z alloc source fuel o ≡ done (s_ok, some p))
      × IsDecompressed source bytes p
unfolding Collects page_new
start_inflate-IsDecompressed z alloc fuel n source bytes s o enough e run h small =
    let (p, f, g) =
      inflate_loop-Collects alloc enough z source fuel (page_new alloc 0) false run h refl
        (omega (arith, small)) in
    (
      copy_members source p,
      ap (start_inflate z alloc source fuel) e ∙ f,
      copy_members-IsDecompressed source p bytes g.content g.size,
    )

-- A compressed page for whose encoding zlib gives a stream, and whose content that stream reads to its
-- end, in any number of calls that go on and a last one that ends it: with memory for every page, fewer
-- than 2^32 bytes, and as much fuel as there are calls, decompress_page returns S_OK with a page of all
-- the bytes in their order, of their number as its size, and of the site, the port, the file and the
-- character set of the compressed one.
pub decompress_page-IsDecompressed :
    (z : Zlib) (alloc : ℕ → Bool) (fuel n w : ℕ) (source : Page) (bytes : List ℕ) (s : z.Stream)
    → ((m : ℕ) → alloc m ≡ true)
    → Windows source.encoding w
    → z.inflate_init w ≡ some s
    → Inflates z (some (source.page_size * 2 % 2 ^ 32)) s source.content bytes n
    → n ≤ fuel
    → length bytes < 2 ^ 32
    → (p : Page) × (decompress_page z alloc fuel (some source) ≡ done (s_ok, some p))
      × IsDecompressed source bytes p
unfolding decompress_page
decompress_page-IsDecompressed z alloc fuel n w source bytes s enough win e run h small =
    let cached : room z alloc source ≡ some (cache_len source) =
      ap (λ b. if b then some (cache_len source) else none) (enough (cache_len source)) in
    let run' = subst (λ r. Inflates z r s source.content bytes n) (sym cached) run in
    let (p, f, is) =
      start_inflate-IsDecompressed z alloc fuel n source bytes s (z.inflate_init w) enough e run' h
        small in
    (p, decompress_as-start z alloc fuel source win ∙ f, is)
