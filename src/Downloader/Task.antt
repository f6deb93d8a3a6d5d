-- ===== src/Downloader/Task.antt =====
-- src/downloader_task.cc: the state of `main_loop` and the pieces of a round, and
-- `put_page_into_extractor`.
use myjfm_spider.Prelude.{
  or_else, ℕ, Bool, true, false, Option, none, some, List, [], ◌∷◌, ◌==◌, if◌then◌else◌, Run, done,
  ◌>>=◌,
}
use myjfm_spider.ResCode.{is_ok, ResCode}
use myjfm_spider.Socket.{Socket}
use myjfm_spider.SiteMap.{SiteMap, erase_key}
use myjfm_spider.Page.{Page, set_site, set_port, set_file, set_charset, set_encoding}
use myjfm_spider.Header.{HttpResponseHeader, get_charset, get_content_encoding}
use myjfm_spider.Md5.{Md5Caculator, shuffle}
use myjfm_spider.Url.{Url, get_ip, get_port, get_site, get_file, inc_retries, get_md5}
use myjfm_spider.Squeue.Vectors.{push_at_index}
use myjfm_spider.Squeue.{SQueue, push}
use myjfm_spider.Downloader.Connect.{Dial}

-- The other end of a descriptor: what its reads find, what its writes take (as `send_loop` has it),
-- and the bytes written so far.
pub record Peer : Type 0 where
  pub input : Socket
  pub accepts : List ℕ
  pub output : List ℕ

-- The members that the loop uses, with the descriptors of the process: their peers, and those that
-- were closed, the last one first.
pub record DownloaderTask : Type 0 where
  pub url_queue : SQueue (Option Url)
  pub sock_fd_map : SiteMap ℕ
  pub extractor_num : ℕ
  pub extractor_queues : List (SQueue Page)
  pub peers : ℕ → Peer
  pub closed : List ℕ

-- What one round gets back from outside: the calls of `create_connection` and the peer of a new
-- connection to an address and a port, the two `setsockopt`, the memory for the header and for
-- pages, what stands on the stack in the place of an MD5 calculator, and the rounds of `analysis`.
pub record Calls : Type 0 where
  pub dial : Dial
  pub reached : ℕ → ℕ → Peer
  pub send_option : ℕ → Bool
  pub recv_option : ℕ → Bool
  pub header_memory : Bool
  pub alloc : ℕ → Bool
  pub stack : Md5Caculator
  pub header_fuel : ℕ

abbrev pub set_peer : ℕ → Peer → (ℕ → Peer) → ℕ → Peer
set_peer fd p peers n = if n == fd then p else peers n

abbrev pub with_peer : ℕ → Peer → DownloaderTask → DownloaderTask
with_peer fd p t = record t { peers = set_peer fd p t.peers }

-- The locals that the loop takes from the url.
abbrev pub site_of : Url → List ℕ
site_of u = or_else [] (get_site u)

abbrev pub ips_of : Url → List ℕ
ips_of u = or_else [] (get_ip u)

abbrev pub port_of : Url → ℕ
port_of u = or_else 0 (get_port u)

abbrev pub file_of : Url → List ℕ
file_of u = or_else [] (get_file u)

-- `inc_retries` and `push` back to the queue.
abbrev pub requeue : Url → DownloaderTask → DownloaderTask
requeue u t = record t { url_queue = (push (some (inc_retries u)) t.url_queue).1 }

-- `close(fd)` and `erase_key(site)`.
abbrev pub disconnect : List ℕ → ℕ → DownloaderTask → DownloaderTask
disconnect site fd t = record t {
  sock_fd_map = erase_key site t.sock_fd_map;
  closed = fd ∷ t.closed;
}

abbrev pub queue_page : Option ℕ → Page → DownloaderTask → Run DownloaderTask
queue_page none p t = done t
queue_page (some index) p t = push_at_index index p t.extractor_queues >>= λ queues.
    done (record t { extractor_queues = queues })

abbrev pub place_page : ResCode × List ℕ → Page → DownloaderTask → Run DownloaderTask
place_page r p t = if is_ok r.0 then queue_page (shuffle r.1 t.extractor_num 0) p t else done t

-- The round does not look at the result, and the url is dropped behind the call.
unfoldable pub put_page_into_extractor :
    Md5Caculator → Url → Page → DownloaderTask → Run DownloaderTask
put_page_into_extractor stack u p t = place_page (get_md5 stack u).0 p t

-- The last test of the loop: the connection is kept, or closed.
abbrev pub end_connection : Bool → Url → ℕ → DownloaderTask → DownloaderTask
end_connection true u fd t = t
end_connection false u fd t = disconnect (site_of u) fd t

abbrev pub page_of : Url → HttpResponseHeader → Page → Page
page_of u h p = set_encoding (get_content_encoding h).0 (
    set_charset (get_charset h).0
      (set_file (file_of u) (set_port (port_of u) (set_site (site_of u) p))))
