-- ===== src/Downloader/Connect.antt =====
-- src/downloader_task.cc: `create_connection`, on the results of the system's calls.
use myjfm_spider.Prelude.{ℕ, ◌%◌, Bool, none, some, List, [], ◌∷◌, if◌then◌else◌, length, get_or}
use myjfm_spider.ResCode.{ResCode, s_ok, s_fail}
use myjfm_spider.Downloader.{Fd}

-- What one call of `create_connection` gets back: `rand`, `socket`, whether F_GETFL and the two
-- F_SETFL succeed, whether `connect` to an address and a port returns 0, and whether `select` reports
-- the descriptor.
pub record Dial : Type 0 where
  pub random : ℕ
  pub socket : Fd
  pub has_flags : Bool
  pub nonblocking : Bool
  pub connects : ℕ → ℕ → Bool
  pub ready : Bool
  pub blocking : Bool

-- The address that is taken of one or more.
abbrev pub chosen_ip : ℕ → List ℕ → ℕ
chosen_ip random [] = 0
chosen_ip random (ip ∷ []) = ip
chosen_ip random (ip ∷ ip' ∷ ips) = get_or (ip ∷ ip' ∷ ips) (random % length (ip ∷ ip' ∷ ips)) 0

-- The result, the descriptor and those that were closed.
abbrev pub Connected : Type 0
Connected = ResCode × Fd × List ℕ

-- The descriptor is made blocking again, and closed where that fails.
abbrev pub make_blocking : Dial → ℕ → Connected
make_blocking d n = if d.blocking then (s_ok, some n, []) else (s_fail, none, n ∷ [])

-- Behind `connect`, which has not connected at once.
abbrev pub await_connection : Dial → ℕ → Connected
await_connection d n = if d.ready then make_blocking d n else (s_fail, none, n ∷ [])

unfoldable pub connect_socket : Dial → Fd → ℕ → ℕ → Connected
connect_socket d none ip port = (s_fail, none, [])
connect_socket d (some n) ip port =
    if d.has_flags
    then (if d.nonblocking
        then (if d.connects ip port then make_blocking d n else await_connection d n)
        else (s_fail, none, []))
    else (s_fail, none, [])

unfoldable pub create_connection : Dial → List ℕ → ℕ → Connected
create_connection d [] port = (s_fail, none, [])
create_connection d (ip ∷ ips) port = connect_socket d d.socket (chosen_ip d.random (ip ∷ ips)) port
