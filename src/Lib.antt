-- ===== src/Lib.antt =====
-- A verification library for myjfm_spider, a web spider of several kinds of threads. A scheduler
-- takes urls from its queue and gives each to one of the downloaders, chosen by the url's MD5. A
-- downloader connects to the url's address, sends the request, reads the header and the body of the
-- response, and hands the page to an extractor, which decompresses and saves it. A resolver finds the
-- addresses of a url's site and hands the url to a scheduler. The threads share queues, pages take
-- their memory from a pool, and a thread of its own writes the log. The main program reads the
-- configuration, makes the shared objects and starts a pool of threads for each kind of task.
--
-- Prelude     Boolean tests, lists with native indices, byte strings, outcomes of code that can
--             fault or not end, 32-bit integers.
-- ResCode     src/config.h: the result codes.
-- Hash        src/hash.h: the hash table. The type with its equality and its hash function is a
--             record. Hash/Laws and Hash/Lookup: what insertions keep and lose.
-- Socket      The peer's bytes as `read` gives them: a list of segments, of which one call gives a
--             part of the first. Socket/Laws: what one call does.
-- Utility     src/utility.cc and the number conversions of src/utility.h, on texts as lists of
--             bytes. Child modules for trimming, splitting, comparing and numbers; Paths and
--             FullPaths: get_file_full_path, strdup and strdupn; Escaping: escape.
-- Page        src/page.h: the page and its memory.
-- Header      src/page.h: HttpResponseHeader. Header/Fields: the loop over the lines;
--             Header/Analysis: whole headers; Header/Reading: validity and status; Written,
--             Heeded: headers of known fields; Endless: a line that analysis does not get past.
-- SiteMap     The maps from sites of the tasks, as association lists.
-- Downloader  src/downloader_task.cc. Receive: recvn; Lines, Sizes: the line of a chunk's size;
--             Chunks, Body: whole bodies; HeaderEnd, HeaderText: the header's bytes; Request, Connect:
--             the request and the connection; Task, Round: main_loop, split at its calls; Ready,
--             Reply, Delivery, Served, Refused: rounds on whole responses; Retries, Rounds: the
--             queue of urls over many rounds.
-- MemoryPool  src/memory_pool.cc. MemoryPool/Ownership: who holds a block; Blocks: what is given;
--             Deletion: what the destructor frees.
-- Md5         src/md5.cc and src/md5.h, executable. Md5/Block: one block; Md5/Absorbing,
--             Md5/Updating, Md5/Digest: messages that come in pieces; Md5/Rfc: the padding and the
--             chaining of RFC 1321, written apart from the code.
-- Url         src/url.cc. Url/Finding, Url/Parsing: urls read back; Url/Canonical: the text that is
--             digested.
-- Squeue      src/squeue.h with src/conditional.h. Squeue/Fifo: all interleavings.
-- Scheduler   src/scheduler_task.cc. Scheduler/Placing: the queue that a url goes to.
-- DnsCache    src/dns_cache.cc. DnsCache/Caching: what is found after an insertion.
-- Global      src/global.cc. Global/Access: setters and getters; Config, Lines: the configuration
--             file; Entries, Printed, Settings: what its entries set; Starting, Seeds, Started: init.
-- Dnser       src/dnser_task.cc: the resolver. Dnser/Resolving: an answer with addresses;
--             Dnser/Entries, Stuck, Forever: a site without a query.
-- Shared      src/shared.cc and src/shared_pointer.h. Shared/Counting: all interleavings.
-- Thread      src/thread.cc, with the answers of pthread as a record. Thread/Calls: all sequences of
--             operations.
-- ThreadPool  src/thread_pool.cc. ThreadPool/Starting: init with its retries.
-- Logger      src/logger.h, src/logger.cc and src/logger_task.cc: the two buffers of messages and the
--             thread that writes them. Logger/Starting: init; Streams: the lines of a stream;
--             Waiting: the buffers and the semaphore; Logging: log; Writing: all interleavings.
-- Extractor   src/extractor_task.cc: decompress_page. Extractor/Inflating, Stuck: pages that zlib
--             reads to their end or not; Saving, Saved: save_page; Links: extract_links with
--             src/link_lexer.h and the functions of src/link_lexer.l behind its automaton; Rounds:
--             main_loop; Delivered: a round with a compressed page.
-- Tasks       The init of the tasks. Tasks/Connected: the queues that each gets from Global.
-- Spider      src/myjfm_spider.cc: the program's start. Spider/Filling: the pools' tasks; Ready: all
--             pools started.
-- Uri         src/uri.h and the code of src/uri_lexer.l behind its automaton. Uri/Naming, Merging:
--             path_merge; Referring: uri_merge with uri_combine.
-- EventLoop   src/event_loop.cc. EventLoop/Looping: loop; Registering: what epoll is
--             asked for.
-- Tests       Runs at concrete inputs, and the theorems applied to such inputs.
--
-- State is passed explicitly: an operation takes the object and gives the result with the new
-- object. Out parameters are part of the result. A pointer that may be NULL is an Option; a
-- descriptor is an Option ℕ, `none` for a negative one. Numbers are ℕ, with `% 2 ^ 32` where the code's
-- arithmetic wraps.
--
-- Loops that read a socket have one more round than the socket's weight, its bytes and segments
-- together, since every read takes from it; recvn has as many rounds as bytes to read, since a read
-- that does not end the loop gives at least one. transform_blocks has as many rounds as the input has
-- bytes. The loops of HttpResponseHeader::analysis and of decompress_page get their fuel from the
-- caller, since they need not end. print_digits has a round more than the number's value, which has
-- fewer digits.
--
-- Threads: the calls of a queue run under its mutex, so an interleaving is a sequence of whole calls;
-- pop is split at its wait. pthread_cond_signal is modelled by two counters, the threads that sleep
-- and those woken that have not got the mutex back.
--
-- main_loop and its fellows run forever: one round is a function, and a run is a list of rounds, each
-- with what it gets back from outside. Where a thread would sleep in pop, its round ends.
--
-- Parameters, being no code of the repository: malloc, as a function from a size to an address or
-- nothing, and the success of a page's allocation, as a function of its size; the results of the
-- socket calls (Connect.Dial, Round's Calls), of what the peer sends (a list of segments) and of
-- how much of each write it takes; adns, by whether it takes a query and what it answers; the
-- contents of files and the access to paths; the answers of the file system to the extractor
-- (Saving.Files) and to the logger; zlib, as a record of its operations on a stream; what the
-- automaton of the link lexer, which flex generates, does with a text and a lexer, save_link included,
-- which its actions call (Calls' scan); the answers of getcwd, getenv, epoll and pthread; what a handler does
-- to the event loop. A call of abort or exit ends the process: `fault` in a run, `none` in Global
-- and Spider. Undefined behaviour, such as an index behind the end of a vector, is `fault` too.
--
-- Not modelled: the semaphore's class and what the pool's threads execute, the downloader's use of the
-- event loop (it is commented out), the lexers' automata, which flex generates, save_link of the
-- link lexer, the destructor of the logger, the text of a log line, signals and the pid file. In Downloader a
-- header's memory is only asked for, not taken from MemoryPool.
-- deps/adns and deps/zlib are copies of other projects.
pub mod Prelude
pub mod ResCode
pub mod Hash
pub mod Socket
pub mod Utility
pub mod Page
pub mod Downloader
pub mod Header
pub mod MemoryPool
pub mod Md5
pub mod Url
pub mod Squeue
pub mod Scheduler
pub mod DnsCache
pub mod Global
pub mod SiteMap
pub mod Dnser
pub mod Shared
pub mod Thread
pub mod ThreadPool
pub mod Logger
pub mod Extractor
pub mod Tasks
pub mod Spider
pub mod Uri
pub mod EventLoop
pub mod Tests
