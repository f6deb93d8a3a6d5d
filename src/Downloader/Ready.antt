-- ===== src/Downloader/Ready.antt =====
-- src/downloader_task.cc: a round of `main_loop` up to the request.
use myjfm_spider.Prelude.{
  ℕ, suc, ◌+◌, ◌≤◌, ◌<◌, ◌≡◌, refl, ap, ◌∙◌, true, false, Option, some, List, [], ◌∷◌, ◌++◌,
  append_assoc, arith, leb, ◌==◌, if◌then◌else◌, done, length, codes,
}
use myjfm_spider.ResCode.{s_ok}
use myjfm_spider.SiteMap.{find_key}
use myjfm_spider.Header.{HttpResponseHeader, header_new, analysis}
use myjfm_spider.Header.Fields.{AllLines, IsLine, text, read_lines}
use myjfm_spider.Header.Analysis.{
  StatusLine, IsStatusLine, version_text, print_header, with_status, analysis-read_lines,
}
use myjfm_spider.Url.{Url, dnsed, c_str, is_dnsed, get_status, get_retries}
use myjfm_spider.Squeue.{SQueue, pop, test_and_take}
use myjfm_spider.Global.{Global}
use myjfm_spider.Global.Access.{get_request_header, get_send_timeout, get_recv_timeout}
use myjfm_spider.Downloader.Lines.{AllPlain}
use myjfm_spider.Downloader.HeaderEnd.{max_header_size}
use myjfm_spider.Downloader.HeaderText.{AllHeaderLines}
use myjfm_spider.Downloader.Request.{generate_http_request, set_timeout, capacity}
use myjfm_spider.Downloader.Round.{
  send_request, timeout_set, request_generated, fetch_page, connect_and_fetch, serve_url, round_of,
  serve, give_up, max_num_of_retries,
}
use myjfm_spider.Downloader.Task.{Peer, DownloaderTask, Calls, set_peer, site_of, file_of}

-- The first line of a header.
abbrev pub status_line : StatusLine → List ℕ
status_line s =
    version_text s.is_1_1
    ++ s.gap ∷ (b'0' + s.digit1) ∷ (b'0' + s.digit2) ∷ (b'0' + s.digit3) ∷ b' ' ∷ s.reason

text-status_line :
    (s : StatusLine) (l : List ℕ) (ls : List (List ℕ))
    → text (status_line s ∷ l ∷ ls) ≡ print_header s (l ∷ ls)
unfolding text print_header
text-status_line s l ls =
    append_assoc (version_text s.is_1_1)
      (s.gap ∷ (b'0' + s.digit1) ∷ (b'0' + s.digit2) ∷ (b'0' + s.digit3) ∷ b' ' ∷ s.reason)
      (b'\n' ∷ text (l ∷ ls))

AllPlain-IsLine : (l : List ℕ) → AllPlain l → IsLine l
AllPlain-IsLine [] p = tt
AllPlain-IsLine (c ∷ l) p = (p.1, AllPlain-IsLine l p.2)

AllHeaderLines-AllLines : (ls : List (List ℕ)) → AllHeaderLines ls → AllLines ls
AllHeaderLines-AllLines [] all = tt
AllHeaderLines-AllLines (l ∷ ls) all =
    (all.0, AllPlain-IsLine l all.1, AllHeaderLines-AllLines ls all.2)

-- A header of a status line and one or more lines without CR, LF and NUL, which fits the buffer and
-- is read as `h`.
pub record IsHeader (s : StatusLine) (l : List ℕ) (ls : List (List ℕ)) (h : HttpResponseHeader)
    : Type 0 where
  pub status : IsStatusLine s
  pub plain : AllHeaderLines (status_line s ∷ l ∷ ls)
  pub short : length (text (status_line s ∷ l ∷ ls)) + 2 < max_header_size
  pub no_nul : c_str (text (status_line s ∷ l ∷ ls)) ≡ text (status_line s ∷ l ∷ ls)
  pub reads : read_lines (l ∷ ls) (with_status s header_new) ≡ done (s_ok, h)

module _ (s : StatusLine) (l : List ℕ) (ls : List (List ℕ)) (h : HttpResponseHeader)
    (is : IsHeader s l ls h) where
  pub analysis-text :
      (fuel : ℕ)
      → suc (length ls) < fuel
      → analysis fuel (some (c_str (text (status_line s ∷ l ∷ ls)))) header_new ≡ done (s_ok, h)
  analysis-text fuel enough =
      ap (λ x. analysis fuel (some x) header_new) (is.no_nul ∙ text-status_line s l ls)
      ∙ analysis-read_lines fuel s (l ∷ ls) header_new is.status
          (AllHeaderLines-AllLines (l ∷ ls) is.plain.2) enough
      ∙ is.reads

-- The request of a url.
abbrev pub request_of : Global → Url → List ℕ
request_of g u =
    (codes "GET " ++ (file_of u ++ (codes " HTTP/1.1\r\nHost: " ++ (site_of u ++ codes "\r\n"))))
    ++ g.request_header

-- A url that has its addresses and retries left, with an open connection `fd` to its site that takes
-- the whole request, and calls that succeed.
pub record IsReady (g : Global) (calls : Calls) (u : Url) (fd : ℕ) (t : DownloaderTask)
    : Type 0 where
  pub initialized : g.has_init ≡ true
  pub resolved : u.status ≡ dnsed
  pub few_retries : u.retries < max_num_of_retries
  pub has_site : 0 < length (site_of u)
  pub connected : find_key (site_of u) t.sock_fd_map ≡ some fd
  pub send_option : calls.send_option g.send_timeout ≡ true
  pub recv_option : calls.recv_option g.recv_timeout ≡ true
  pub takes : length (request_of g u) ≤ capacity (t.peers fd).accepts
  pub header_memory : calls.header_memory ≡ true

-- The task behind `pop`.
abbrev pub popped : List (Option Url) → DownloaderTask → DownloaderTask
popped q t = record t { url_queue = record (t.url_queue) { queue = q } }

pub set_peer_self : (fd : ℕ) (p : Peer) (peers : ℕ → Peer) → set_peer fd p peers fd ≡ p
set_peer_self fd p peers = let e : (fd == fd) ≡ true = ground arith in rw e refl

pop-cons :
    {T : Type 0} (q : SQueue T) (x : T) (xs : List T)
    → q.queue ≡ x ∷ xs
    → pop q ≡ (some x, record q { queue = xs })
unfolding pop test_and_take
pop-cons q x xs e = ap (λ l. test_and_take l q) e

module _ (g : Global) (calls : Calls) (u : Url) (fd : ℕ) where
  pub round_of-cons :
      (t : DownloaderTask) (q : List (Option Url))
      → t.url_queue.queue ≡ some u ∷ q
      → round_of g calls t ≡ serve_url g calls u (popped q t)
  unfolding round_of
  round_of-cons t q e =
      ap (λ r. serve g calls r.0 (record t { url_queue = r.1 })) (pop-cons t.url_queue (some u) q e)

  pub serve_url-fetch_page :
      (t : DownloaderTask)
      → IsReady g calls u fd t
      → serve_url g calls u t ≡ fetch_page g calls u fd t
  unfolding serve_url get_status get_retries connect_and_fetch
  serve_url-fetch_page t r =
      let few : leb max_num_of_retries u.retries ≡ false = ground (arith, r.few_retries) in
      let given_up = done (give_up u (find_key (site_of u) t.sock_fd_map) t) in
      let goes_on = connect_and_fetch g calls u (find_key (site_of u) t.sock_fd_map) t in
      ap
        (λ b.
          if b then (if leb max_num_of_retries u.retries then given_up else goes_on) else done t)
        (ap is_dnsed r.resolved)
      ∙ ap (λ b. if b then given_up else goes_on) few
      ∙ ap (λ o. connect_and_fetch g calls u o t) r.connected

  generate_http_request-request_of :
      0 < length (site_of u)
      → g.has_init ≡ true
      → generate_http_request g (site_of u) (file_of u) ≡ done (s_ok, request_of g u)
  unfolding generate_http_request get_request_header
  generate_http_request-request_of pos e =
      let ne : (length (site_of u) == 0) ≡ false = ground arith in rw (ne, e) refl

  set_timeout-ok :
      g.has_init ≡ true
      → calls.send_option g.send_timeout ≡ true
      → calls.recv_option g.recv_timeout ≡ true
      → set_timeout g calls.send_option calls.recv_option (some fd) ≡ done s_ok
  unfolding set_timeout get_send_timeout get_recv_timeout
  set_timeout-ok e a b = rw (e, a, b) refl

  pub fetch_page-send_request :
      (t : DownloaderTask)
      → IsReady g calls u fd t
      → fetch_page g calls u fd t ≡ send_request calls u fd (request_of g u) t
  unfolding fetch_page request_generated timeout_set
  fetch_page-send_request t r =
      rw
        (
          generate_http_request-request_of r.has_site r.initialized,
          set_timeout-ok r.initialized r.send_option r.recv_option,
        )
        refl
