-- ===== src/Global/Access.antt =====
-- src/global.cc: the setters and getters.
use myjfm_spider.Prelude.{
  ℕ, zero, suc, Bool, Option, none, some, List, [], ◌∷◌, ◌++◌, leb, if◌then◌else◌, tail, codes, Run,
  done, fault,
}
use myjfm_spider.ResCode.{ResCode, s_ok, s_out_range, s_bad_arg}
use myjfm_spider.Page.{Page}
use myjfm_spider.Url.{Url}
use myjfm_spider.Squeue.{SQueue}
use myjfm_spider.Global.{Global, checked, atoi}

-- An element of a vector; out of range is undefined behaviour.
abbrev pub queue_at_id : {A : Type 0} → List A → ℕ → Run (ResCode × Option A)
queue_at_id [] i = fault
queue_at_id (q ∷ qs) zero = done (s_ok, some q)
queue_at_id (q ∷ qs) (suc i) = queue_at_id qs i

module _ (g : Global) where
  -- The setters of the configuration, from the text of the file.
  unfoldable pub set_downloader_num : List ℕ → Option Global
  set_downloader_num text = checked g (record g { downloader_num = atoi text })

  unfoldable pub set_extractor_num : List ℕ → Option Global
  set_extractor_num text = checked g (record g { extractor_num = atoi text })

  unfoldable pub set_scheduler_num : List ℕ → Option Global
  set_scheduler_num text = checked g (record g { scheduler_num = atoi text })

  unfoldable pub set_dnser_num : List ℕ → Option Global
  set_dnser_num text = checked g (record g { dnser_num = atoi text })

  unfoldable pub set_depth : List ℕ → Option Global
  set_depth text = checked g (record g { depth = atoi text })

  unfoldable pub set_create_connection_timeout : List ℕ → Option Global
  set_create_connection_timeout text =
      checked g (record g { create_connection_timeout = atoi text })

  unfoldable pub set_send_timeout : List ℕ → Option Global
  set_send_timeout text = checked g (record g { send_timeout = atoi text })

  unfoldable pub set_recv_timeout : List ℕ → Option Global
  set_recv_timeout text = checked g (record g { recv_timeout = atoi text })

  unfoldable pub set_cur_path : List ℕ → Option Global
  set_cur_path path = checked g (record g { cur_path = path })

  unfoldable pub set_save_path : List ℕ → Option Global
  set_save_path path = checked g (record g { save_path = path })

  unfoldable pub set_log_path : List ℕ → Option Global
  set_log_path path = checked g (record g { log_path = path })

  unfoldable pub set_err_path : List ℕ → Option Global
  set_err_path path = checked g (record g { err_path = path })

  unfoldable pub set_to_be_shutdown : Bool → Option Global
  set_to_be_shutdown b = checked g (record g { to_be_shutdown = b })

  -- The vectors without their first element, which is the key.
  unfoldable pub set_seed_urls : List (List ℕ) → Global
  set_seed_urls urls = record g { seed_urls = tail urls }

  unfoldable pub set_file_types : List (List ℕ) → Global
  set_file_types types = record g { file_types = tail types }

  unfoldable pub set_downloader_threadpool : Option ℕ → ResCode × Global
  set_downloader_threadpool none = (s_bad_arg, g)
  set_downloader_threadpool (some p) = (s_ok, record g { downloader_threadpool = some p })

  unfoldable pub set_extractor_threadpool : Option ℕ → ResCode × Global
  set_extractor_threadpool none = (s_bad_arg, g)
  set_extractor_threadpool (some p) = (s_ok, record g { extractor_threadpool = some p })

  unfoldable pub set_scheduler_threadpool : Option ℕ → ResCode × Global
  set_scheduler_threadpool none = (s_bad_arg, g)
  set_scheduler_threadpool (some p) = (s_ok, record g { scheduler_threadpool = some p })

  unfoldable pub set_dnser_threadpool : Option ℕ → ResCode × Global
  set_dnser_threadpool none = (s_bad_arg, g)
  set_dnser_threadpool (some p) = (s_ok, record g { dnser_threadpool = some p })

  -- The getters: the out parameter, with S_OK.
  unfoldable pub get_downloader_num : Option ℕ
  get_downloader_num = checked g g.downloader_num

  unfoldable pub get_extractor_num : Option ℕ
  get_extractor_num = checked g g.extractor_num

  unfoldable pub get_scheduler_num : Option ℕ
  get_scheduler_num = checked g g.scheduler_num

  unfoldable pub get_dnser_num : Option ℕ
  get_dnser_num = checked g g.dnser_num

  unfoldable pub get_depth : Option ℕ
  get_depth = checked g g.depth

  unfoldable pub get_create_connection_timeout : Option ℕ
  get_create_connection_timeout = checked g g.create_connection_timeout

  unfoldable pub get_send_timeout : Option ℕ
  get_send_timeout = checked g g.send_timeout

  unfoldable pub get_recv_timeout : Option ℕ
  get_recv_timeout = checked g g.recv_timeout

  unfoldable pub get_cur_path : Option (List ℕ)
  get_cur_path = checked g g.cur_path

  unfoldable pub get_save_path : Option (List ℕ)
  get_save_path = checked g g.save_path

  unfoldable pub get_log_path : Option (List ℕ)
  get_log_path = checked g g.log_path

  unfoldable pub get_err_path : Option (List ℕ)
  get_err_path = checked g g.err_path

  unfoldable pub get_to_be_shutdown : Option Bool
  get_to_be_shutdown = checked g g.to_be_shutdown

  unfoldable pub get_dns_cache : Option Bool
  get_dns_cache = checked g g.dns_cache

  unfoldable pub get_downloader_threadpool : Option ℕ
  get_downloader_threadpool = g.downloader_threadpool

  unfoldable pub get_extractor_threadpool : Option ℕ
  get_extractor_threadpool = g.extractor_threadpool

  unfoldable pub get_scheduler_threadpool : Option ℕ
  get_scheduler_threadpool = g.scheduler_threadpool

  unfoldable pub get_dnser_threadpool : Option ℕ
  get_dnser_threadpool = g.dnser_threadpool

  -- The getters of a queue, with the result.
  unfoldable pub queue_of : {A : Type 0} → ℕ → ℕ → List A → Option (Run (ResCode × Option A))
  queue_of num id queues =
      checked g (if leb num id then done (s_out_range, none) else queue_at_id queues id)

  unfoldable pub get_extractor_queue : ℕ → Option (Run (ResCode × Option (SQueue Page)))
  get_extractor_queue id = queue_of g.extractor_num id g.extractor_queues

  unfoldable pub get_downloader_queue : ℕ → Option (Run (ResCode × Option (SQueue Url)))
  get_downloader_queue id = queue_of g.downloader_num id g.downloader_queues

  unfoldable pub get_scheduler_queue : ℕ → Option (Run (ResCode × Option (SQueue Url)))
  get_scheduler_queue id = queue_of g.scheduler_num id g.scheduler_queues

  unfoldable pub get_dnser_queue : ℕ → Option (Run (ResCode × Option (SQueue Url)))
  get_dnser_queue id = queue_of g.dnser_num id g.dnser_queues

  unfoldable pub get_request_header : List ℕ → Option (List ℕ)
  get_request_header request = checked g (request ++ g.request_header)

  unfoldable pub load_default_file_types : Option Global
  load_default_file_types = checked g (record g { file_types = codes ".htm" ∷ codes ".html" ∷ [] })

  unfoldable pub assemble_request_header : Option Global
  assemble_request_header = checked g (record g {
    request_header =
        codes "User-Agent: "
        ++ (g.user_agent
            ++ b' '
              ∷ (g.sender
                  ++ codes
                      "\r\nAccept: */*\r\nAccept-Charset: utf-8\r\nAccept-Encoding: gzip,deflate\r\nAccept-Language: en,zh\r\nConnection: keep-alive\r\n\r\n"));
  })
