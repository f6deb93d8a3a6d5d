-- ===== src/Tests/Rounds.antt =====
-- src/downloader_task.cc: rounds of `main_loop` at concrete responses, and the theorems on them applied.
use myjfm_spider.Prelude.{
  ℕ, ◌+◌, ◌*◌, not, ◌&&◌, ◌==◌, ◌<◌, ◌≡◌, refl, Bool, true, none, some, List, [], ◌∷◌, ◌++◌, arith,
  codes, done, take, bytes_eq, leb,
}
use myjfm_spider.ResCode.{s_ok}
use myjfm_spider.Socket.{flat}
use myjfm_spider.SiteMap.{find_key, erase_key}
use myjfm_spider.Utility.{to_lower, lower_char}
use myjfm_spider.Page.{Page}
use myjfm_spider.Header.{HttpResponseHeader, header_new, has_value, before, set_field}
use myjfm_spider.Header.Fields.{text, read_lines}
use myjfm_spider.Header.Analysis.{StatusLine}
use myjfm_spider.Url.{
  Url, url_empty, dnsed, http, c_str, get_site, get_file, get_status, get_retries,
}
use myjfm_spider.Md5.{Md5Caculator}
use myjfm_spider.Squeue.{squeue_new, pop, test_and_take}
use myjfm_spider.Global.{Global, global_new}
use myjfm_spider.Downloader.Chunks.{crlf, print_body, body}
use myjfm_spider.Downloader.Lines.{AllPlain}
use myjfm_spider.Downloader.HeaderText.{crlf_lines}
use myjfm_spider.Downloader.Request.{
  send_http_request, send_http_request_lem, send_loop, code_of, capacity,
}
use myjfm_spider.Downloader.Round.{round_of, serve_url}
use myjfm_spider.Downloader.Task.{DownloaderTask, Calls}
use myjfm_spider.Downloader.Ready.{IsHeader, IsReady, status_line}
use myjfm_spider.Downloader.Served.{IsDelivered, IsServed, round_of-delivers}
use myjfm_spider.Downloader.Refused.{round_of-refuses}
use myjfm_spider.Downloader.Rounds.{main_loop, main_loop-empty}
use myjfm_spider.Tests.Digests.{any_memory}
use myjfm_spider.Tests.Receiving.{hello, hello-IsChunk}

send_http_request_lem_example :
    ((send_http_request (some 3) (codes "GET") (2 ∷ 5 ∷ [])).0
      ≡ code_of (leb 3 (capacity (2 ∷ 5 ∷ []))))
    × ((send_http_request (some 3) (codes "GET") (2 ∷ 5 ∷ [])).1
        ≡ take (capacity (2 ∷ 5 ∷ [])) (codes "GET"))
send_http_request_lem_example = send_http_request_lem 3 (codes "GET") (2 ∷ 5 ∷ []) (omega arith)

sent_in_two : send_http_request (some 3) (codes "GET") (2 ∷ 5 ∷ []) ≡ (s_ok, codes "GET", [])
unfolding send_http_request send_loop
sent_in_two = refl

abbrev started : Global
started = record global_new { has_init = true; request_header = codes "\r\n" }

abbrev page_url : Url
page_url = record url_empty {
  status = dnsed;
  protocol = http;
  ips = 1 ∷ [];
  port = 80;
  site = codes "a.b";
  file = codes "/";
}

abbrev calls_ok : Md5Caculator → Calls
calls_ok stack = record {
  dial = record {
    random = 0;
    socket = none;
    has_flags = true;
    nonblocking = true;
    connects = λ ip port. true;
    ready = true;
    blocking = true;
  };
  reached = λ ip port. record { input = []; accepts = []; output = [] };
  send_option = λ n. true;
  recv_option = λ n. true;
  header_memory = true;
  alloc = λ n. true;
  stack = stack;
  header_fuel = 9;
}

abbrev line_chunked : List ℕ
line_chunked = codes "Transfer-Encoding: chunked"

abbrev status_of_digits : ℕ → StatusLine
status_of_digits d = record {
  is_1_1 = true;
  gap = b' ';
  digit1 = d;
  digit2 = 0;
  digit3 = 0;
  reason = codes "OK";
}

abbrev response : ℕ → List ℕ → List ℕ
response d rest = crlf_lines (status_line (status_of_digits d) ∷ line_chunked ∷ []) (crlf rest)

abbrev sent_body : List ℕ
sent_body = codes "5;a" ++ crlf (codes "hello" ++ crlf (codes "0" ++ crlf (crlf (codes "HTTP"))))

abbrev task_with : List ℕ → DownloaderTask
task_with bytes = record {
  url_queue = record { queue = some page_url ∷ []; waiting = 0; woken = 0 };
  sock_fd_map = (codes "a.b", 4) ∷ [];
  extractor_num = 1;
  extractor_queues = squeue_new ∷ [];
  peers = λ n. record { input = bytes ∷ []; accepts = 7 ∷ 99 ∷ []; output = [] };
  closed = [];
}

page_url-IsReady :
    (stack : Md5Caculator) (bytes : List ℕ)
    → IsReady started (calls_ok stack) page_url 4 (task_with bytes)
unfolding get_site get_file find_key bytes_eq
page_url-IsReady stack bytes = record {
  initialized = refl;
  resolved = refl;
  few_retries = omega arith;
  has_site = omega arith;
  connected = refl;
  send_option = refl;
  recv_option = refl;
  takes = omega arith;
  header_memory = refl;
}

abbrev header_of : ℕ → HttpResponseHeader
header_of d = record header_new {
  http_version = 1;
  status_code = 100 * d + 10 * 0 + 0;
  is_valid = true;
}

-- Whether there is no CR and no LF in a line.
abbrev is_plain : List ℕ → Bool
is_plain [] = true
is_plain (c ∷ l) = not (c == b'\r') && (not (c == b'\n') && is_plain l)

is_plain-AllPlain : (l : List ℕ) → is_plain l ≡ true → AllPlain l
is_plain-AllPlain [] e = tt
is_plain-AllPlain (c ∷ l) e =
    let rest : is_plain l ≡ true = ground (arith, e) in
    (ground (arith, e), ground (arith, e), is_plain-AllPlain l rest)

response-IsHeader :
    (d : ℕ)
    → d < 10
    → is_plain (status_line (status_of_digits d)) ≡ true
    → c_str (text (status_line (status_of_digits d) ∷ line_chunked ∷ []))
      ≡ text (status_line (status_of_digits d) ∷ line_chunked ∷ [])
    → IsHeader (status_of_digits d) line_chunked [] (header_of d)
unfolding text read_lines has_value before set_field bytes_eq to_lower lower_char
response-IsHeader d small plain no_nul = record {
  status = (small, omega arith, omega arith, (omega arith, (omega arith, tt)), omega arith);
  plain = (
    omega arith,
    is_plain-AllPlain (status_line (status_of_digits d)) plain,
    (omega arith, is_plain-AllPlain line_chunked refl, tt),
  );
  short = omega arith;
  no_nul = no_nul;
  reads = refl;
}

IsHeader-ok : IsHeader (status_of_digits 2) line_chunked [] (header_of 2)
unfolding c_str text
IsHeader-ok = response-IsHeader 2 (omega arith) refl refl

IsHeader-bad : IsHeader (status_of_digits 4) line_chunked [] (header_of 4)
unfolding c_str text
IsHeader-bad = response-IsHeader 4 (omega arith) refl refl

round_of-delivers_example :
    (i : ℕ) × (p : Page) × (t' : DownloaderTask) × (round_of started
        (calls_ok any_memory)
        (task_with (response 2 sent_body))
      ≡ done t')
    × IsDelivered started page_url 4
        (task_with (response 2 sent_body))
        []
        (header_of 2)
        (codes "hello")
        (codes "HTTP")
        i
        p
        t'
unfolding body print_body flat
round_of-delivers_example =
    round_of-delivers started (calls_ok any_memory) page_url 3 (task_with (response 2 sent_body)) []
      (status_of_digits 2) line_chunked [] (header_of 2) (hello ∷ []) (codes "HTTP") refl
      (page_url-IsReady any_memory (response 2 sent_body))
      (record { by_http = refl; some_extractor = omega arith; counted = refl }) (λ m. refl)
      IsHeader-ok (omega arith) refl refl (hello-IsChunk, tt) (omega arith) tt refl

round_of-refuses_example :
    (t' : DownloaderTask) × (round_of started
        (calls_ok any_memory)
        (task_with (response 4 sent_body))
      ≡ done t')
    × IsServed started page_url 4 (task_with (response 4 sent_body)) [] true sent_body t'
    × (t'.extractor_queues ≡ squeue_new ∷ [])
unfolding flat
round_of-refuses_example =
    round_of-refuses started (calls_ok any_memory) page_url 4 (task_with (response 4 sent_body)) []
      (status_of_digits 4) line_chunked [] (header_of 4) sent_body refl
      (page_url-IsReady any_memory (response 4 sent_body)) IsHeader-bad (omega arith)
      (λ e. absurd (omega arith)) tt refl

-- A url with three retries behind it: its connection is closed, and the url is dropped.
abbrev tired : DownloaderTask
tired = record (task_with []) {
  url_queue = record {
    queue = some (record page_url { retries = 3 }) ∷ [];
    waiting = 0;
    woken = 0;
  };
}

abbrev given_up : DownloaderTask
given_up = record tired { url_queue = squeue_new; sock_fd_map = []; closed = 4 ∷ [] }

gives_up : main_loop started (calls_ok any_memory ∷ []) tired ≡ done given_up
unfolding main_loop round_of pop test_and_take serve_url get_status get_retries get_site find_key
    erase_key bytes_eq
gives_up = refl

main_loop-empty_example : given_up.url_queue.queue ≡ []
main_loop-empty_example =
    main_loop-empty started (calls_ok any_memory ∷ []) tired given_up (omega arith) gives_up
