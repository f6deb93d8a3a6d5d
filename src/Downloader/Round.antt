-- ===== src/Downloader/Round.antt =====
-- src/downloader_task.cc: `main_loop`, one round of it.
use myjfm_spider.Prelude.{
  ℕ, ◌-◌, ◌%◌, ◌^◌, true, false, Option, none, some, List, ◌++◌, ℤ, pos, negsuc, Run, done, fault,
  ◌>>=◌, leb, if◌then◌else◌,
}
use myjfm_spider.ResCode.{is_ok, is_fail, is_should_close, ResCode}
use myjfm_spider.Socket.{Socket}
use myjfm_spider.SiteMap.{find_key, store_key}
use myjfm_spider.Page.{Page}
use myjfm_spider.Header.{
  HttpResponseHeader, header_new, analysis, get_status_code, get_content_length, get_connection,
}
use myjfm_spider.Url.{Url, c_str, get_status, is_dnsed, get_retries}
use myjfm_spider.Squeue.{pop}
use myjfm_spider.Global.{Global}
use myjfm_spider.Downloader.{recv_http_response_body}
use myjfm_spider.Downloader.HeaderEnd.{recv_http_response_header}
use myjfm_spider.Downloader.Request.{generate_http_request, set_timeout, send_http_request}
use myjfm_spider.Downloader.Task.{
  Calls, DownloaderTask, disconnect, end_connection, file_of, ips_of, page_of, port_of,
  put_page_into_extractor, requeue, site_of, with_peer,
}
use myjfm_spider.Downloader.Connect.{Connected, chosen_ip, create_connection}

-- A body that was received: the page is set and goes to an extractor; a null page is written to.
unfoldable pub page_received :
    Calls → Url → ℕ → HttpResponseHeader → Option Page → DownloaderTask → Run DownloaderTask
page_received calls u fd h none t = fault
page_received calls u fd h (some p) t =
    put_page_into_extractor calls.stack u (page_of u h p) t >>= λ t'.
    done (end_connection (get_connection h).0 u fd t')

-- Behind `recv_http_response_body`.
unfoldable pub body_received :
    Calls
    → Url
    → ℕ
    → HttpResponseHeader
    → ResCode
    → Option Page
    → DownloaderTask
    → Run DownloaderTask
body_received calls u fd h r p t =
    if is_should_close r
    then done (requeue u (disconnect (site_of u) fd t))
    else if is_fail r
    then done (end_connection (get_connection h).0 u fd t)
    else if is_ok r
    then page_received calls u fd h p t
    else done (end_connection (get_connection h).0 u fd t)

-- `int` to `uint32_t`.
abbrev pub to_uint32 : ℤ → ℕ
to_uint32 (pos n) = n % 2 ^ 32
to_uint32 (negsuc n) = 2 ^ 32 - 1 - n

abbrev pub with_input : ℕ → Socket → DownloaderTask → DownloaderTask
with_input fd s t = with_peer fd (record (t.peers fd) { input = s }) t

-- Behind `analysis`.
unfoldable pub header_analysed :
    Calls → Url → ℕ → ResCode × HttpResponseHeader → DownloaderTask → Run DownloaderTask
header_analysed calls u fd (r, h) t = elim (is_ok r) [
  | true ↦
      recv_http_response_body calls.alloc (some fd) (to_uint32 (get_status_code h).0)
        (get_content_length h).0 (t.peers fd).input
      >>= λ b. body_received calls u fd h b.0 b.1 (with_input fd b.2 t)
  | false ↦ done t
]

-- Behind `recv_http_response_header`, with the bytes that it wrote; they are read as a C string.
unfoldable pub header_received :
    Calls → Url → ℕ → ResCode → List ℕ → DownloaderTask → Run DownloaderTask
header_received calls u fd r header t =
    if is_fail r
    then done t
    else if is_should_close r
    then done (requeue u (disconnect (site_of u) fd t))
    else (analysis calls.header_fuel (some (c_str header)) header_new >>= λ a.
        header_analysed calls u fd a t)

unfoldable pub receive : Calls → Url → ℕ → DownloaderTask → Run DownloaderTask
receive calls u fd t =
    recv_http_response_header (some fd) calls.header_memory (t.peers fd).input >>= λ r.
    header_received calls u fd r.0 r.1 (with_input fd r.2 t)

-- Behind `send_http_request`.
unfoldable pub request_sent : Calls → Url → ℕ → ResCode → DownloaderTask → Run DownloaderTask
request_sent calls u fd r t =
    if is_fail r
    then done t
    else if is_should_close r
    then done (requeue u (disconnect (site_of u) fd t))
    else receive calls u fd t

abbrev pub with_output : ℕ → List ℕ × List ℕ → DownloaderTask → DownloaderTask
with_output fd (sent, accepts) t =
    with_peer fd (record (t.peers fd) { accepts = accepts; output = (t.peers fd).output ++ sent }) t

unfoldable pub send_request : Calls → Url → ℕ → List ℕ → DownloaderTask → Run DownloaderTask
send_request calls u fd request t =
    let r = send_http_request (some fd) request (t.peers fd).accepts in
    request_sent calls u fd r.0 (with_output fd (r.1, r.2) t)

-- Behind `set_timeout`, and behind `generate_http_request`.
unfoldable pub timeout_set :
    Calls → Url → ℕ → List ℕ → ResCode → DownloaderTask → Run DownloaderTask
timeout_set calls u fd request r t =
    if is_ok r then send_request calls u fd request t else done (requeue u t)

unfoldable pub request_generated :
    Global → Calls → Url → ℕ → ResCode × List ℕ → DownloaderTask → Run DownloaderTask
request_generated g calls u fd (r, request) t = elim (is_ok r) [
  | true ↦ set_timeout g calls.send_option calls.recv_option (some fd) >>= λ r'.
      timeout_set calls u fd request r' t
  | false ↦ done t
]

-- The part of the loop that has a descriptor.
unfoldable pub fetch_page : Global → Calls → Url → ℕ → DownloaderTask → Run DownloaderTask
fetch_page g calls u fd t =
    generate_http_request g (site_of u) (file_of u) >>= λ q. request_generated g calls u fd q t

abbrev pub add_connection : Calls → Url → ℕ → DownloaderTask → DownloaderTask
add_connection calls u fd t =
    with_peer fd (calls.reached (chosen_ip calls.dial.random (ips_of u)) (port_of u))
      (record t { sock_fd_map = store_key (site_of u) fd t.sock_fd_map })

-- The map gets a connection that was created; its descriptor is not negative.
abbrev pub use_connection : Global → Calls → Url → Option ℕ → DownloaderTask → Run DownloaderTask
use_connection g calls u none t = fault
use_connection g calls u (some fd) t = fetch_page g calls u fd (add_connection calls u fd t)

-- Behind `create_connection`.
unfoldable pub connection_created :
    Global → Calls → Url → Connected → DownloaderTask → Run DownloaderTask
connection_created g calls u (r, fd, closed) t =
    if is_ok r
    then use_connection g calls u fd t
    else done (requeue u (record t { closed = closed ++ t.closed }))

unfoldable pub connect_and_fetch :
    Global → Calls → Url → Option ℕ → DownloaderTask → Run DownloaderTask
connect_and_fetch g calls u (some fd) t = fetch_page g calls u fd t
connect_and_fetch g calls u none t =
    connection_created g calls u (create_connection calls.dial (ips_of u) (port_of u)) t

-- A url with too many retries: the connection of its site is closed, where there is one.
abbrev pub give_up : Url → Option ℕ → DownloaderTask → DownloaderTask
give_up u none t = t
give_up u (some fd) t = disconnect (site_of u) fd t

abbrev pub max_num_of_retries : ℕ
max_num_of_retries = 3

unfoldable pub serve_url : Global → Calls → Url → DownloaderTask → Run DownloaderTask
serve_url g calls u t =
    if is_dnsed (get_status u)
    then (if leb max_num_of_retries (get_retries u)
        then done (give_up u (find_key (site_of u) t.sock_fd_map) t)
        else connect_and_fetch g calls u (find_key (site_of u) t.sock_fd_map) t)
    else done t

-- A null pointer is passed over.
abbrev pub serve : Global → Calls → Option (Option Url) → DownloaderTask → Run DownloaderTask
serve g calls none t = done t
serve g calls (some none) t = done t
serve g calls (some (some u)) t = serve_url g calls u t

-- One round; where the queue is empty, the thread sleeps in `pop` and the round ends there.
unfoldable pub round_of : Global → Calls → DownloaderTask → Run DownloaderTask
round_of g calls t =
    serve g calls (pop t.url_queue).0 (record t { url_queue = (pop t.url_queue).1 })
