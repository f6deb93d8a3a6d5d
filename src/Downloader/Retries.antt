-- ===== src/Downloader/Retries.antt =====
-- src/downloader_task.cc: what a round of `main_loop` does to the queue of urls, on every path.
use myjfm_spider.Squeue.{SQueue}
use myjfm_spider.Squeue.Vectors.{push_at_index}
use myjfm_spider.Prelude.{
  ℕ, ◌≡◌, ◌⊎◌, inl, inr, ap, ◌∙◌, Bool, true, false, Option, none, some, List, [], ◌∷◌, ◌++◌,
  if◌then◌else◌, Run, done, fault, out_of_fuel, ◌>>=◌,
}
use myjfm_spider.ResCode.{ResCode, is_ok, is_fail, is_should_close}
use myjfm_spider.Page.{Page}
use myjfm_spider.Header.{HttpResponseHeader, get_connection}
use myjfm_spider.Md5.{Md5Caculator, shuffle}
use myjfm_spider.Url.{Url, inc_retries, get_md5}
use myjfm_spider.Squeue.Fifo.{push-queue}
use myjfm_spider.Global.{Global}
use myjfm_spider.Downloader.Request.{send_http_request}
use myjfm_spider.Downloader.Connect.{Connected, create_connection}
use myjfm_spider.Downloader.Round.{
  with_output, page_received, body_received, header_analysed, header_received, receive,
  request_sent, send_request, timeout_set, request_generated, fetch_page, add_connection,
  connection_created, connect_and_fetch, give_up,
}
use myjfm_spider.Downloader.Task.{
  DownloaderTask, Calls, site_of, ips_of, port_of, requeue, disconnect, queue_page,
  put_page_into_extractor, end_connection, page_of,
}

-- The url of the round is gone, or back at the end with one retry more.
abbrev pub Leaves : Url → List (Option Url) → DownloaderTask → Type 0
Leaves u q t = (t.url_queue.queue ≡ q) ⊎ (t.url_queue.queue ≡ q ++ some (inc_retries u) ∷ [])

abbrev pub Returned : Url → List (Option Url) → Run DownloaderTask → Type 0
Returned u q (done t) = Leaves u q t
Returned u q fault = Unit {0}
Returned u q out_of_fuel = Unit {0}

Returned-bind {ℓ} :
    {A : Type ℓ} (u : Url) (q : List (Option Url)) (r : Run A) (k : A → Run DownloaderTask)
    → ((a : A) → Returned u q (k a))
    → Returned u q (r >>= k)
Returned-bind u q (done a) k p = p a
Returned-bind u q fault k p = tt
Returned-bind u q out_of_fuel k p = tt

Returned-if :
    (u : Url) (q : List (Option Url)) (b : Bool) (x y : Run DownloaderTask)
    → Returned u q x
    → Returned u q y
    → Returned u q (if b then x else y)
Returned-if u q true x y p r = p
Returned-if u q false x y p r = r

Returned-elim :
    (u : Url) (q : List (Option Url)) (b : Bool) (x y : Run DownloaderTask)
    → Returned u q x
    → Returned u q y
    → Returned u q (elim b [ true ↦ x | false ↦ y ])
Returned-elim u q true x y p r = p
Returned-elim u q false x y p r = r

module _ (u : Url) (q : List (Option Url)) where
  requeue-Leaves : (t : DownloaderTask) → t.url_queue.queue ≡ q → Leaves u q (requeue u t)
  requeue-Leaves t e =
      inr
        (push-queue (some (inc_retries u)) t.url_queue ∙ ap (λ l. l ++ some (inc_retries u) ∷ []) e)

  end_connection-urls :
      (c : Bool) (fd : ℕ) (t : DownloaderTask)
      → t.url_queue.queue ≡ q
      → (end_connection c u fd t).url_queue.queue ≡ q
  end_connection-urls true fd t e = e
  end_connection-urls false fd t e = e

  -- The queue of urls behind a step that returns.
  abbrev HasUrls : Run DownloaderTask → Type 0
  HasUrls (done t) = t.url_queue.queue ≡ q
  HasUrls fault = Unit {0}
  HasUrls out_of_fuel = Unit {0}

  if-HasUrls :
      (b : Bool) (x y : Run DownloaderTask) → HasUrls x → HasUrls y → HasUrls (if b then x else y)
  if-HasUrls true x y p r = p
  if-HasUrls false x y p r = r

  pages-HasUrls :
      (t : DownloaderTask)
      → t.url_queue.queue ≡ q
      → (r : Run (List (SQueue Page)))
      → HasUrls (r >>= λ queues. done (record t { extractor_queues = queues }))
  pages-HasUrls t e (done queues) = e
  pages-HasUrls t e fault = tt
  pages-HasUrls t e out_of_fuel = tt

  queue_page-HasUrls :
      (o : Option ℕ) (p : Page) (t : DownloaderTask)
      → t.url_queue.queue ≡ q
      → HasUrls (queue_page o p t)
  queue_page-HasUrls none p t e = e
  queue_page-HasUrls (some i) p t e = pages-HasUrls t e (push_at_index i p t.extractor_queues)

  put_page_into_extractor-HasUrls :
      (stack : Md5Caculator) (p : Page) (t : DownloaderTask)
      → t.url_queue.queue ≡ q
      → HasUrls (put_page_into_extractor stack u p t)
  unfolding put_page_into_extractor
  put_page_into_extractor-HasUrls stack p t e =
      let value = (get_md5 stack u).0 in
      let o = shuffle value.1 t.extractor_num 0 in
      if-HasUrls (is_ok value.0) (queue_page o p t) (done t) (queue_page-HasUrls o p t e) e

  end-Returned :
      (c : Bool) (fd : ℕ) (r : Run DownloaderTask)
      → HasUrls r
      → Returned u q (r >>= λ t. done (end_connection c u fd t))
  end-Returned c fd (done t) e = inl (end_connection-urls c fd t e)
  end-Returned c fd fault e = tt
  end-Returned c fd out_of_fuel e = tt

  page_received-Returned :
      (calls : Calls) (fd : ℕ) (h : HttpResponseHeader) (o : Option Page) (t : DownloaderTask)
      → t.url_queue.queue ≡ q
      → Returned u q (page_received calls u fd h o t)
  unfolding page_received
  page_received-Returned calls fd h none t e = tt
  page_received-Returned calls fd h (some p) t e =
      end-Returned (get_connection h).0 fd (put_page_into_extractor calls.stack u (page_of u h p) t)
        (put_page_into_extractor-HasUrls calls.stack (page_of u h p) t e)

  body_received-Returned :
      (calls : Calls) (fd : ℕ) (h : HttpResponseHeader) (r : ResCode) (o : Option Page)
      (t : DownloaderTask)
      → t.url_queue.queue ≡ q
      → Returned u q (body_received calls u fd h r o t)
  unfolding body_received
  body_received-Returned calls fd h r o t e =
      let ended = inl (end_connection-urls (get_connection h).0 fd t e) in
      Returned-if u q (is_should_close r) _ _ (requeue-Leaves (disconnect (site_of u) fd t) e) (
        Returned-if u q (is_fail r) _ _ ended
          (Returned-if u q (is_ok r) _ _ (page_received-Returned calls fd h o t e) ended))

  header_analysed-Returned :
      (calls : Calls) (fd : ℕ) (r : ResCode × HttpResponseHeader) (t : DownloaderTask)
      → t.url_queue.queue ≡ q
      → Returned u q (header_analysed calls u fd r t)
  unfolding header_analysed
  header_analysed-Returned calls fd (r, h) t e =
      Returned-elim u q (is_ok r) _ _
        (Returned-bind u q _ _ (λ b. body_received-Returned calls fd h b.0 b.1 _ e)) (inl e)

  header_received-Returned :
      (calls : Calls) (fd : ℕ) (r : ResCode) (header : List ℕ) (t : DownloaderTask)
      → t.url_queue.queue ≡ q
      → Returned u q (header_received calls u fd r header t)
  unfolding header_received
  header_received-Returned calls fd r header t e = Returned-if u q (is_fail r) _ _ (inl e) (
      Returned-if u q (is_should_close r) _ _ (requeue-Leaves (disconnect (site_of u) fd t) e)
        (Returned-bind u q _ _ (λ a. header_analysed-Returned calls fd a t e)))

  request_sent-Returned :
      (calls : Calls) (fd : ℕ) (r : ResCode) (t : DownloaderTask)
      → t.url_queue.queue ≡ q
      → Returned u q (request_sent calls u fd r t)
  unfolding request_sent receive
  request_sent-Returned calls fd r t e = Returned-if u q (is_fail r) _ _ (inl e) (
      Returned-if u q (is_should_close r) _ _ (requeue-Leaves (disconnect (site_of u) fd t) e)
        (Returned-bind u q _ _ (λ b. header_received-Returned calls fd b.0 b.1 _ e)))

  timeout_set-Returned :
      (calls : Calls) (fd : ℕ) (request : List ℕ) (r : ResCode) (t : DownloaderTask)
      → t.url_queue.queue ≡ q
      → Returned u q (timeout_set calls u fd request r t)
  unfolding timeout_set send_request
  timeout_set-Returned calls fd request r t e =
      let s = send_http_request (some fd) request (t.peers fd).accepts in
      Returned-if u q (is_ok r) _ _
        (request_sent-Returned calls fd s.0 (with_output fd (s.1, s.2) t) e) (requeue-Leaves t e)

  request_generated-Returned :
      (g : Global) (calls : Calls) (fd : ℕ) (r : ResCode × List ℕ) (t : DownloaderTask)
      → t.url_queue.queue ≡ q
      → Returned u q (request_generated g calls u fd r t)
  unfolding request_generated
  request_generated-Returned g calls fd (r, request) t e =
      Returned-elim u q (is_ok r) _ _
        (Returned-bind u q _ _ (λ r'. timeout_set-Returned calls fd request r' t e)) (inl e)

  fetch_page-Returned :
      (g : Global) (calls : Calls) (fd : ℕ) (t : DownloaderTask)
      → t.url_queue.queue ≡ q
      → Returned u q (fetch_page g calls u fd t)
  unfolding fetch_page
  fetch_page-Returned g calls fd t e =
      Returned-bind u q _ _ (λ r. request_generated-Returned g calls fd r t e)

  connection_created-Returned :
      (g : Global) (calls : Calls) (c : Connected) (t : DownloaderTask)
      → t.url_queue.queue ≡ q
      → Returned u q (connection_created g calls u c t)
  unfolding connection_created
  connection_created-Returned g calls (r, none, closed) t e =
      Returned-if u q (is_ok r) _ _ tt (requeue-Leaves (record t { closed = closed ++ t.closed }) e)
  connection_created-Returned g calls (r, some fd, closed) t e =
      Returned-if u q (is_ok r) _ _ (fetch_page-Returned g calls fd (add_connection calls u fd t) e)
        (requeue-Leaves (record t { closed = closed ++ t.closed }) e)

  pub connect_and_fetch-Returned :
      (g : Global) (calls : Calls) (o : Option ℕ) (t : DownloaderTask)
      → t.url_queue.queue ≡ q
      → Returned u q (connect_and_fetch g calls u o t)
  unfolding connect_and_fetch
  connect_and_fetch-Returned g calls none t e =
      connection_created-Returned g calls (create_connection calls.dial (ips_of u) (port_of u)) t e
  connect_and_fetch-Returned g calls (some fd) t e = fetch_page-Returned g calls fd t e

  pub give_up-urls :
      (o : Option ℕ) (t : DownloaderTask)
      → t.url_queue.queue ≡ q
      → (give_up u o t).url_queue.queue ≡ q
  give_up-urls none t e = e
  give_up-urls (some fd) t e = e
