-- ===== src/Extractor/Stuck.antt =====
-- src/extractor_task.cc: decompress_page on a page that ends too early.
use myjfm_spider.Prelude.{
  ℕ, zero, suc, ◌≡◌, ◌≢◌, sym, ap, ◌∙◌, subst, inl, inr, Bool, false, Option, some, List, Run, done,
  fault, out_of_fuel, ◌>>=◌,
}
use myjfm_spider.ResCode.{ResCode}
use myjfm_spider.Page.{Page, page_new}
use myjfm_spider.Extractor.{
  z_buf_error, ZCode, Inflated, Zlib, append_bytes, room, after_inflate, inflate_loop,
  start_inflate, decompress_page,
}
use myjfm_spider.Extractor.Inflating.{GoesOn, Windows, inflate_loop-suc, decompress_as-start}

-- Calls that go on lead from a stream and its input to others.
pub data Leads (z : Zlib) (out : Option ℕ)
    : z.Stream → Option (List ℕ) → z.Stream → Option (List ℕ) → Type 0 where
  here : (s : z.Stream) (input : Option (List ℕ)) → Leads z out s input s input
  there :
      (s : z.Stream) (input : Option (List ℕ)) {t : z.Stream} {rest : Option (List ℕ)}
      → GoesOn (z.inflate out input s).code
      → Leads z out (z.inflate out input s).stream (z.inflate out input s).left t rest
      → Leads z out s input t rest

-- States in which no progress is possible, which zlib says by Z_BUF_ERROR, and which a call with new
-- room does not leave.
pub record AreStuck (z : Zlib) (out : Option ℕ) (At : z.Stream → Option (List ℕ) → Type 0)
    : Type 0 where
  pub says :
      (s : z.Stream) (input : Option (List ℕ))
      → At s input
      → (z.inflate out input s).code ≡ z_buf_error
  pub stays :
      (s : z.Stream) (input : Option (List ℕ))
      → At s input
      → At (z.inflate out input s).stream (z.inflate out input s).left

Never : Run (ResCode × Option Page) → Type 0
Never o = (r : ResCode × Option Page) → o ≢ done r

bind-Never :
    (m : Run Page) (f : Page → Run (ResCode × Option Page))
    → ((p : Page) → Never (f p))
    → Never (m >>= f)
unfolding Never
bind-Never (done p) f h = h p
bind-Never fault f h = λ r e. cc
bind-Never out_of_fuel f h = λ r e. cc

module _ (z : Zlib) (alloc : ℕ → Bool) (source : Page) where
  -- A round that goes on does not return where the next one does not.
  goes-Never :
      (again : z.Stream → Option (List ℕ) → Page → Bool → Run (ResCode × Option Page)) (c : ZCode)
      (r : Inflated z.Stream) (p : Page) (dummy : Bool)
      → GoesOn c
      → ((q : Page) → Never (again r.stream r.left q dummy))
      → Never (after_inflate z alloc source again c r p dummy)
  goes-Never again c r p dummy (inl e) h =
      subst (λ d. Never (after_inflate z alloc source again d r p dummy)) (sym e)
        (bind-Never (append_bytes alloc r.bytes p) (λ q. again r.stream r.left q dummy) h)
  goes-Never again c r p dummy (inr e) h =
      subst (λ d. Never (after_inflate z alloc source again d r p dummy)) (sym e)
        (bind-Never (append_bytes alloc r.bytes p) (λ q. again r.stream r.left q dummy) h)

  stuck-Never :
      (At : z.Stream → Option (List ℕ) → Type 0)
      → AreStuck z (room z alloc source) At
      → (fuel : ℕ) (s : z.Stream) (input : Option (List ℕ)) (p : Page) (dummy : Bool) → At s input
      → Never (inflate_loop z alloc source fuel s input p dummy)
  stuck-Never At stuck zero s input p dummy a = unfold inflate_loop Never in λ r e. cc
  stuck-Never At stuck (suc fuel) s input p dummy a =
      let r = z.inflate (room z alloc source) input s in
      subst Never (sym (inflate_loop-suc z alloc source fuel s input p dummy)) (
        goes-Never (inflate_loop z alloc source fuel) r.code r p dummy (inr (stuck.says s input a))
          (λ q. stuck-Never At stuck fuel r.stream r.left q dummy (stuck.stays s input a)))

  inflate_loop-Never :
      (At : z.Stream → Option (List ℕ) → Type 0)
      → AreStuck z (room z alloc source) At
      → (fuel : ℕ) {s t : z.Stream} {input rest : Option (List ℕ)} (p : Page) (dummy : Bool)
      → Leads z (room z alloc source) s input t rest
      → At t rest
      → Never (inflate_loop z alloc source fuel s input p dummy)
  inflate_loop-Never At stuck fuel p dummy (here s input) a =
      stuck-Never At stuck fuel s input p dummy a
  inflate_loop-Never At stuck zero p dummy (there s input c l) a =
      unfold inflate_loop Never in λ r e. cc
  inflate_loop-Never At stuck (suc fuel) p dummy (there s input c l) a =
      let r = z.inflate (room z alloc source) input s in
      subst Never (sym (inflate_loop-suc z alloc source fuel s input p dummy)) (
        goes-Never (inflate_loop z alloc source fuel) r.code r p dummy c
          (λ q. inflate_loop-Never At stuck fuel q dummy l a))

-- A compressed page whose content leads the stream, by calls that go on, to a state in which no
-- progress is possible: whatever memory there is, no number of rounds makes decompress_page return.
pub decompress_page-hangs :
    (z : Zlib) (alloc : ℕ → Bool) (fuel w : ℕ) (source : Page) (s t : z.Stream)
    (rest : Option (List ℕ)) (At : z.Stream → Option (List ℕ) → Type 0)
    → Windows source.encoding w
    → z.inflate_init w ≡ some s
    → AreStuck z (room z alloc source) At
    → Leads z (room z alloc source) s source.content t rest
    → At t rest
    → (r : ResCode × Option Page) → decompress_page z alloc fuel (some source) ≢ done r
unfolding decompress_page Never
decompress_page-hangs z alloc fuel w source s t rest At win e stuck l a r returns =
    inflate_loop-Never z alloc source At stuck fuel (page_new alloc 0) false l a r (
      ap (start_inflate z alloc source fuel) (sym e)
      ∙ sym (decompress_as-start z alloc fuel source win)
      ∙ returns)
