-- ===== src/Downloader/Served.antt =====
-- src/downloader_task.cc: rounds of `main_loop` on whole responses.
use myjfm_spider.Prelude.{
  ℕ, suc, ◌+◌, ◌*◌, ◌^◌, ◌<◌, ◌≡◌, refl, ap, ◌∙◌, Bool, true, Option, none, some, List, ◌∷◌, ◌++◌,
  if◌then◌else◌, pos, negsuc, done, ◌>>=◌, length,
}
use myjfm_spider.ResCode.{value, s_ok}
use myjfm_spider.Socket.{Socket, flat, Flows}
use myjfm_spider.Downloader.Ready.{popped}
use myjfm_spider.Downloader.Round.{with_output, to_uint32}
use myjfm_spider.Squeue.Vectors.{push_into}
use myjfm_spider.Squeue.{SQueue}
use myjfm_spider.SiteMap.{find_key}
use myjfm_spider.Page.{Page}
use myjfm_spider.Header.{HttpResponseHeader, get_status_code, get_content_length}
use myjfm_spider.Header.Analysis.{StatusLine}
use myjfm_spider.Url.{Url}
use myjfm_spider.Global.{Global}
use myjfm_spider.Downloader.{recv_http_response_body, recv_by_chunk}
use myjfm_spider.Downloader.HeaderText.{crlf_lines}
use myjfm_spider.Downloader.Chunks.{Chunk, AllChunks, print_body, body}
use myjfm_spider.Downloader.Body.{recv_by_chunk-print_body}
use myjfm_spider.Downloader.Ready.{IsHeader, IsReady, status_line, request_of, set_peer_self}
use myjfm_spider.Downloader.Reply.{at_header, receive_body, round_of-receive_body, sent_of}
use myjfm_spider.Downloader.Round.{with_input, body_received, page_received, round_of}
use myjfm_spider.Downloader.Task.{
  Peer, DownloaderTask, Calls, site_of, page_of, put_page_into_extractor, end_connection,
}
use myjfm_spider.Downloader.Delivery.{
  get_connection-valid, get_status_code-valid, get_content_length-valid, HasExtractor,
  put_page_into_extractor-pushes, end_connection-EndsConnection, IsPageOf, page_of-IsPageOf,
  reads-valid,
}

module _ (g : Global) (u : Url) (fd : ℕ) (t : DownloaderTask) (q : List (Option Url)) where
  -- The peer once the body is read up to `s`.
  peer-body :
      (s s' : Socket)
      → (with_input fd s (at_header g u fd t q s')).peers fd ≡ record (t.peers fd) {
        input = s;
        accepts = (sent_of g u fd t).1;
        output = (t.peers fd).output ++ request_of g u;
      }
  peer-body s s' =
      let sent = with_output fd (sent_of g u fd (popped q t)) (popped q t) in
      let first =
        set_peer_self fd (record ((with_input fd s' sent).peers fd) { input = s })
          (with_input fd s' sent).peers in
      let second = set_peer_self fd (record (sent.peers fd) { input = s' }) sent.peers in
      let third =
        set_peer_self fd
          (record (t.peers fd) {
            accepts = (sent_of g u fd (popped q t)).1;
            output = (t.peers fd).output ++ (sent_of g u fd (popped q t)).0;
          })
          t.peers in
      first
      ∙ ap (λ (p : Peer). record p { input = s }) second
      ∙ ap (λ (p : Peer). record p { input = s }) third

  -- What every served round leaves: the url gone, the request sent, `rest` unread, and the connection
  -- kept or closed.
  pub record IsServed (c : Bool) (rest : List ℕ) (t' : DownloaderTask) : Type 0 where
    pub urls : t'.url_queue.queue ≡ q
    pub sent : (t'.peers fd).output ≡ (t.peers fd).output ++ request_of g u
    pub unread : flat (t'.peers fd).input ≡ rest
    pub entry : find_key (site_of u) t'.sock_fd_map ≡ (if c then some fd else none)
    pub closes : t'.closed ≡ (if c then t.closed else fd ∷ t.closed)

  -- Any change of the extractors' queues in between.
  pub IsServed-end :
      (c : Bool) (rest : List ℕ) (s s' : Socket) (pages : List (SQueue Page))
      → find_key (site_of u) t.sock_fd_map ≡ some fd
      → flat s ≡ rest
      → let x = record (with_input fd s (at_header g u fd t q s')) { extractor_queues = pages } in
        IsServed c rest (end_connection c u fd x)
        × ((end_connection c u fd x).extractor_queues ≡ pages)
  IsServed-end c rest s s' pages e left =
      let x = record (with_input fd s (at_header g u fd t q s')) { extractor_queues = pages } in
      let r = end_connection-EndsConnection c u fd x e in
      let peer = ap (λ (y : DownloaderTask). y.peers fd) r.others ∙ peer-body s s' in
      (
        record {
          urls = ap (λ (y : DownloaderTask). y.url_queue.queue) r.others;
          sent = ap (λ (p : Peer). p.output) peer;
          unread = ap (λ (p : Peer). flat p.input) peer ∙ left;
          entry = r.entry;
          closes = r.closes;
        },
        ap (λ (y : DownloaderTask). y.extractor_queues) r.others,
      )

-- A served round that has sent a page of `bytes` to the queue of the extractor `i`.
pub record IsDelivered (g : Global) (u : Url) (fd : ℕ) (t : DownloaderTask) (q : List (Option Url))
    (h : HttpResponseHeader) (bytes rest : List ℕ) (i : ℕ) (p : Page) (t' : DownloaderTask)
    : Type 0 where
  pub served : IsServed g u fd t q h.connection rest t'
  pub in_range : i < length t.extractor_queues
  pub page : IsPageOf u h bytes p
  pub pages : t'.extractor_queues ≡ push_into i p t.extractor_queues

body-chunked :
    (alloc : ℕ → Bool) (n : ℕ) (s : Socket) (h : HttpResponseHeader)
    → h.is_valid ≡ true
    → h.status_code ≡ 200
    → h.content_length ≡ negsuc 0
    → recv_http_response_body alloc
        (some (suc n))
        (to_uint32 (get_status_code h).0)
        (get_content_length h).0
        s
      ≡ recv_by_chunk alloc (some (suc n)) s
body-chunked alloc n s h valid status len =
    ap (λ c. recv_http_response_body alloc (some (suc n)) (to_uint32 c) (get_content_length h).0 s)
      (ap (λ r. r.0) (get_status_code-valid h valid) ∙ ap pos status)
    ∙ ap (λ c. recv_http_response_body alloc (some (suc n)) 200 c s)
        (ap (λ r. r.0) (get_content_length-valid h valid) ∙ len)
    ∙ unfold recv_http_response_body in refl

receive_body-ok :
    (calls : Calls) (u : Url) (fd : ℕ) (h : HttpResponseHeader) (t : DownloaderTask) (s s' : Socket)
    (p : Page)
    → h.is_valid ≡ true
    → recv_http_response_body calls.alloc
        (some fd)
        (to_uint32 (get_status_code h).0)
        (get_content_length h).0
        s
      ≡ done (s_ok, some p, s')
    → receive_body calls u fd h t s ≡ (
        put_page_into_extractor calls.stack u (page_of u h p) (with_input fd s' t) >>= λ x.
        done (end_connection h.connection u fd x))
unfolding body_received page_received value
receive_body-ok calls u fd h t s s' p valid e =
    ap (λ z. z >>= λ r. body_received calls u fd h r.0 r.1 (with_input fd r.2 t)) e
    ∙ ap
        (λ c. put_page_into_extractor calls.stack u (page_of u h p) (with_input fd s' t) >>= λ x.
          done (end_connection c.0 u fd x))
        (get_connection-valid h valid)

module _ (g : Global) (calls : Calls) (u : Url) (n : ℕ) (t : DownloaderTask) (q : List (Option Url))
    (s : StatusLine) (l : List ℕ) (ls : List (List ℕ)) (h : HttpResponseHeader) where
  -- A round with a url of protocol http in front of the queue, whose addresses are known, with less
  -- than three retries, an open connection on a descriptor above 0 that takes the whole request,
  -- system calls that succeed, extractors, one or more, with a queue each, and a peer that sends a
  -- header and chunks, however cut into segments. The header has a status line of status 200 and one
  -- or more lines, none empty, without CR, LF and NUL, that fit the buffer and that analysis reads to
  -- the end with S_OK, so each has something behind its first colon, and gives no content length. The
  -- chunks `cs` have fewer than 2^32 - 2 bytes each and less than 4 GiB in all. Then
  -- the round returns; the request is sent; a page with exactly
  -- the chunks' bytes, the url's site, port and file and the header's charset and encoding is pushed
  -- to the queue of an extractor in range; the url is gone from the queue; what follows the body is
  -- unread; and the connection is kept, or closed and forgotten, as the header says.
  pub round_of-delivers :
      (cs : List Chunk) (rest : List ℕ)
      → t.url_queue.queue ≡ some u ∷ q
      → IsReady g calls u (suc n) t
      → HasExtractor u t
      → ((m : ℕ) → calls.alloc m ≡ true)
      → IsHeader s l ls h
      → suc (length ls) < calls.header_fuel
      → 100 * s.digit1 + 10 * s.digit2 + s.digit3 ≡ 200
      → h.content_length ≡ negsuc 0
      → AllChunks cs
      → length (body cs) < 2 ^ 32
      → Flows (t.peers (suc n)).input
      → flat (t.peers (suc n)).input
        ≡ crlf_lines (status_line s ∷ l ∷ ls) (b'\r' ∷ b'\n' ∷ print_body cs rest)
      → (i : ℕ) × (p : Page) × (t' : DownloaderTask) × (round_of g calls t ≡ done t')
        × IsDelivered g u (suc n) t q h (body cs) rest i p t'
  round_of-delivers cs rest e ready has total is enough ok chunked good room f st =
      let (valid, status) = reads-valid s l ls h is in
      let (s', ran, left, flows) =
        round_of-receive_body g calls u (suc n) t q s l ls h (print_body cs rest) e ready is enough
          f st in
      let (p, s'', got, bytes, size, left', _) =
        recv_by_chunk-print_body calls.alloc total n cs rest s' good room flows left in
      let x = with_input (suc n) s'' (at_header g u (suc n) t q s') in
      let (i, small, put) =
        put_page_into_extractor-pushes calls.stack u (page_of u h p) x ready.resolved (record {
          by_http = has.by_http;
          some_extractor = has.some_extractor;
          counted = has.counted;
        }) in
      let ends =
        IsServed-end g u (suc n) t q h.connection rest s'' s'
          (push_into i (page_of u h p) t.extractor_queues) ready.connected left' in
      (
        i,
        page_of u h p,
        end_connection h.connection u (suc n)
            (record x { extractor_queues = push_into i (page_of u h p) t.extractor_queues }),
        ran
            ∙ receive_body-ok calls u (suc n) h (at_header g u (suc n) t q s') s' s'' p valid
                (body-chunked calls.alloc n s' h valid (status ∙ ok) chunked ∙ got)
            ∙ ap (λ r. r >>= λ y. done (end_connection h.connection u (suc n) y)) put,
        record {
          served = ends.0;
          in_range = small;
          page = page_of-IsPageOf u h (body cs) p valid bytes size;
          pages = ends.1;
        },
      )
