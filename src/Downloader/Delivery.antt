-- ===== src/Downloader/Delivery.antt =====
-- src/downloader_task.cc: what a round of `main_loop` does with a response.
use myjfm_spider.Prelude.{
  done, ◌>>=◌, arith, ℕ, ◌+◌, ◌*◌, ◌<◌, ◌≡◌, refl, ap, subst, ◌∙◌, Bool, true, false, none, some,
  List, ◌∷◌, if◌then◌else◌, pos, length, Bool-cases, inl, inr,
}
use myjfm_spider.ResCode.{s_ok}
use myjfm_spider.SiteMap.{find_key}
use myjfm_spider.SiteMap.Laws.{find_key-erase_key_self}
use myjfm_spider.Page.{Page, page_bytes, set_site, set_port, set_file, set_charset, set_encoding}
use myjfm_spider.Header.{
  HttpResponseHeader, header_new, get_status_code, get_content_length, get_charset, get_connection,
  get_content_encoding,
}
use myjfm_spider.Header.Reading.{IsRead, read_lines-IsRead}
use myjfm_spider.Header.Analysis.{StatusLine, with_status}
use myjfm_spider.Md5.{Md5Caculator, calculator_of, digest}
use myjfm_spider.Url.{Url, dnsed, http, canonical, get_md5}
use myjfm_spider.Squeue.Vectors.{push_into, push_at_index-push_into}
use myjfm_spider.Scheduler.Placing.{shuffle-IsIndex}
use myjfm_spider.Downloader.Ready.{IsHeader}
use myjfm_spider.Downloader.Task.{
  DownloaderTask, site_of, port_of, file_of, page_of, queue_page, put_page_into_extractor,
  place_page, end_connection,
}

-- A header that is read is valid, and has the status of its first line.
pub reads-valid :
    (s : StatusLine) (l : List ℕ) (ls : List (List ℕ)) (h : HttpResponseHeader)
    → IsHeader s l ls h
    → (h.is_valid ≡ true) × (h.status_code ≡ 100 * s.digit1 + 10 * s.digit2 + s.digit3)
reads-valid s l ls h is =
    let p = read_lines-IsRead (l ∷ ls) (with_status s header_new) in
    subst (IsRead (with_status s header_new)) is.reads p refl

module _ (h : HttpResponseHeader) (valid : h.is_valid ≡ true) where
  pub get_connection-valid : get_connection h ≡ (h.connection, s_ok)
  unfolding get_connection
  get_connection-valid = rw valid refl

  pub get_status_code-valid : get_status_code h ≡ (pos h.status_code, s_ok)
  unfolding get_status_code
  get_status_code-valid = rw valid refl

  pub get_content_length-valid : get_content_length h ≡ (h.content_length, s_ok)
  unfolding get_content_length
  get_content_length-valid = rw valid refl

  get_charset-valid : get_charset h ≡ (h.charset, s_ok)
  unfolding get_charset
  get_charset-valid = rw valid refl

  get_content_encoding-valid : get_content_encoding h ≡ (h.content_encoding, s_ok)
  unfolding get_content_encoding
  get_content_encoding-valid = rw valid refl

module _ (stack : Md5Caculator) (u : Url) (resolved : u.status ≡ dnsed) where
  get_md5-kept : u.has_get_md5 ≡ true → (get_md5 stack u).0 ≡ (s_ok, u.md5)
  unfolding get_md5
  get_md5-kept has = rw (resolved, has) refl

  get_md5-new :
      u.has_get_md5 ≡ false
      → u.protocol ≡ http
      → (get_md5 stack u).0 ≡ (s_ok, (digest (calculator_of stack (canonical u))).0)
  unfolding get_md5
  get_md5-new has p = rw (resolved, has, p) refl

  get_md5-ok : u.protocol ≡ http → (value : List ℕ) × ((get_md5 stack u).0 ≡ (s_ok, value))
  get_md5-ok p = elim (Bool-cases u.has_get_md5) [
    | inl has ↦ (u.md5, get_md5-kept has)
    | inr has ↦ ((digest (calculator_of stack (canonical u))).0, get_md5-new has p)
  ]

-- The url is of a protocol that has an MD5, and there are extractors, one or more, with a queue each.
pub record HasExtractor (u : Url) (t : DownloaderTask) : Type 0 where
  pub by_http : u.protocol ≡ http
  pub some_extractor : 0 < t.extractor_num
  pub counted : length t.extractor_queues ≡ t.extractor_num

pub put_page_into_extractor-pushes :
    (stack : Md5Caculator) (u : Url) (p : Page) (t : DownloaderTask)
    → u.status ≡ dnsed
    → HasExtractor u t
    → (i : ℕ) × (i < length t.extractor_queues)
      × (put_page_into_extractor stack u p t
          ≡ done (record t { extractor_queues = push_into i p t.extractor_queues }))
unfolding put_page_into_extractor
put_page_into_extractor-pushes stack u p t resolved has =
    let (value, e) = get_md5-ok stack u resolved has.by_http in
    let (i, f, small) = shuffle-IsIndex value t.extractor_num 0 has.some_extractor in
    let fits : i < length t.extractor_queues = omega (arith, small, has.counted) in
    (
      i,
      fits,
      ap (λ r. place_page r p t) e
          ∙ ap (λ o. queue_page o p t) f
          ∙ ap (λ r. r >>= λ queues. done (record t { extractor_queues = queues }))
              (push_at_index-push_into i p t.extractor_queues fits),
    )

-- The connection behind a response: kept, or closed and forgotten.
pub record EndsConnection (c : Bool) (u : Url) (fd : ℕ) (t t' : DownloaderTask) : Type 0 where
  pub entry : find_key (site_of u) t'.sock_fd_map ≡ (if c then some fd else none)
  pub closes : t'.closed ≡ (if c then t.closed else fd ∷ t.closed)
  pub others : record t' { sock_fd_map = t.sock_fd_map; closed = t.closed } ≡ t

pub end_connection-EndsConnection :
    (c : Bool) (u : Url) (fd : ℕ) (t : DownloaderTask)
    → find_key (site_of u) t.sock_fd_map ≡ some fd
    → EndsConnection c u fd t (end_connection c u fd t)
end_connection-EndsConnection true u fd t e = record { entry = e; closes = refl; others = refl }
end_connection-EndsConnection false u fd t e = record {
  entry = find_key-erase_key_self t.sock_fd_map (site_of u);
  closes = refl;
  others = refl;
}

-- The page of a url, with the header's charset and encoding.
pub record IsPageOf (u : Url) (h : HttpResponseHeader) (bytes : List ℕ) (p : Page) : Type 0 where
  pub data_bytes : page_bytes p ≡ bytes
  pub size : p.page_size ≡ length bytes
  pub site : p.site ≡ site_of u
  pub port : p.port ≡ port_of u
  pub file : p.file ≡ file_of u
  pub charset : p.charset ≡ h.charset
  pub encoding : p.encoding ≡ h.content_encoding

pub page_of-IsPageOf :
    (u : Url) (h : HttpResponseHeader) (bytes : List ℕ) (p : Page)
    → h.is_valid ≡ true
    → page_bytes p ≡ bytes
    → p.page_size ≡ length bytes
    → IsPageOf u h bytes (page_of u h p)
unfolding set_site set_port set_file set_charset set_encoding
page_of-IsPageOf u h bytes p valid e size = record {
  data_bytes = e;
  size = size;
  site = refl;
  port = refl;
  file = refl;
  charset = ap (λ r. r.0) (get_charset-valid h valid);
  encoding = ap (λ r. r.0) (get_content_encoding-valid h valid);
}
