-- ===== src/Url.antt =====
-- src/url.h and src/url.cc: the class Url. A position in the url is counted from behind its first
-- seven bytes.
pub mod Finding
pub mod Parsing
pub mod Canonical
use mathlib.Core.Option
use myjfm_spider.Prelude.{
  ℕ, suc, ◌+◌, ◌-◌, ◌^◌, ◌%◌, Bool, true, false, not, ◌&&◌, Option, none, some, List, [], ◌∷◌, ◌++◌,
  leb, ltb, ◌==◌, if◌then◌else◌, length, take, drop, replicate, codes, bytes_eq,
}
use myjfm_spider.ResCode.{ResCode, s_ok, s_fail}
use myjfm_spider.Utility.{str2integer, integer2str}
use myjfm_spider.Md5.{Md5Caculator, calculator_of, digest}

pub data EnumStatus : Type 0 where
  uninitialized : EnumStatus
  initialized : EnumStatus
  dnsed : EnumStatus

pub data Protocol : Type 0 where
  pro_dummy : Protocol
  http : Protocol
  ftp : Protocol

pub record Url : Type 0 where
  pub raw_url : List ℕ
  pub status : EnumStatus
  pub protocol : Protocol
  pub ips : List ℕ
  pub port : ℕ
  pub site : List ℕ
  pub file : List ℕ
  pub has_get_md5 : Bool
  pub md5 : List ℕ
  pub retries : ℕ
  pub has_dnsed_cname : Bool

-- `MD5()`.
abbrev pub no_md5 : List ℕ
no_md5 = replicate 16 0

-- The members as the constructor's initialisers set them.
abbrev pub url_empty : Url
url_empty = record {
  raw_url = [];
  status = uninitialized;
  protocol = pro_dummy;
  ips = [];
  port = 0;
  site = [];
  file = [];
  has_get_md5 = false;
  md5 = no_md5;
  retries = 0;
  has_dnsed_cname = false;
}

-- `std::string::find` of one byte, and `c_str`, as a function that reads a C string sees it.
unfoldable pub find : ℕ → List ℕ → Option ℕ
find d [] = none
find d (c ∷ s) = if c == d then some 0 else Option.map suc (find d s)

unfoldable pub c_str : List ℕ → List ℕ
c_str [] = []
c_str (c ∷ s) = if c == 0 then [] else c ∷ c_str s

abbrev pub parsed : List ℕ → List ℕ → ℕ → List ℕ → Url
parsed url site port file = record url_empty {
  raw_url = url;
  status = initialized;
  protocol = http;
  port = port;
  site = site;
  file = file;
}

-- The port's text is read; where that fails, the file that was set already stays.
abbrev pub with_port : List ℕ → List ℕ → Option ℕ → List ℕ → List ℕ → Url
with_port url site none file kept = record url_empty { file = kept }
with_port url site (some p) file kept = parsed url site p file

abbrev pub read_port : List ℕ → Option ℕ
read_port text = str2integer (2 ^ 16 - 1) (some (c_str text))

-- The url `url` without a slash behind `http://`, and with its first one at `i`; `s` is the text
-- behind `http://`, and the argument before the last is the place of its first colon.
abbrev pub without_file : List ℕ → Option ℕ → List ℕ → Url
without_file url none s = parsed url s 80 (codes "/")
without_file url (some j) s =
    with_port url (take j s) (read_port (drop (j + 1) s)) (codes "/") (codes "/")

abbrev pub with_file : List ℕ → ℕ → Option ℕ → List ℕ → Url
with_file url i none s = parsed url (take i s) 80 (drop i s)
with_file url i (some j) s =
    if ltb i j
    then parsed url (take i s) 80 (drop i s)
    else with_port url (take j s) (read_port (take (i - j - 1) (drop (j + 1) s))) (drop i s) []

abbrev pub parse : List ℕ → Option ℕ → List ℕ → Url
parse url none s = without_file url (find b':' s) s
parse url (some i) s = with_file url i (find b':' s) s

unfoldable pub url_new : List ℕ → Url
url_new url =
    if leb (length url) 7
    then url_empty
    else if bytes_eq (take 7 url) (codes "http://")
    then parse url (find b'/' (drop 7 url)) (drop 7 url)
    else url_empty

-- The calls that fail on a url that is not initialised.
abbrev pub is_uninitialized : EnumStatus → Bool
is_uninitialized uninitialized = true
is_uninitialized initialized = false
is_uninitialized dnsed = false

abbrev pub is_dnsed : EnumStatus → Bool
is_dnsed uninitialized = false
is_dnsed initialized = false
is_dnsed dnsed = true

abbrev pub guarded : {A : Type 0} → Bool → A → Option A
guarded false x = some x
guarded true x = none

module _ (u : Url) where
  -- The getters: `none` for S_FAIL, which leaves the out parameter as it was.
  unfoldable pub get_status : EnumStatus
  get_status = u.status

  unfoldable pub get_protocol : Option Protocol
  get_protocol = guarded (is_uninitialized u.status) u.protocol

  unfoldable pub get_ip : Option (List ℕ)
  get_ip = guarded (not (is_dnsed u.status)) u.ips

  unfoldable pub get_port : Option ℕ
  get_port = guarded (is_uninitialized u.status) u.port

  unfoldable pub get_site : Option (List ℕ)
  get_site = guarded (is_uninitialized u.status) u.site

  unfoldable pub get_file : Option (List ℕ)
  get_file = guarded (is_uninitialized u.status) u.file

  unfoldable pub get_retries : ℕ
  get_retries = u.retries

  unfoldable pub inc_retries : Url
  inc_retries = record u { retries = (u.retries + 1) % 2 ^ 32 }

  unfoldable pub get_has_dnsed_cname : Bool
  get_has_dnsed_cname = u.has_dnsed_cname

unfoldable pub set_has_dnsed_cname : Bool → Url → Url
set_has_dnsed_cname b u = record u { has_dnsed_cname = b }

unfoldable pub set_ip : List ℕ → Url → ResCode × Url
set_ip ips u =
    if is_uninitialized u.status
    then (s_fail, u)
    else (s_ok, record u { ips = ips; status = dnsed })

-- The text whose digest is the url's MD5.
abbrev pub port_text : ℕ → List ℕ
port_text port = if ltb 0 port && not (port == 80) then b':' ∷ integer2str port else []

unfoldable pub canonical : Url → List ℕ
canonical u = codes "http://" ++ (u.site ++ (port_text u.port ++ u.file))

abbrev pub md5_by_protocol : Md5Caculator → Protocol → Url → (ResCode × List ℕ) × Url
md5_by_protocol stack pro_dummy u = ((s_fail, no_md5), u)
md5_by_protocol stack ftp u = ((s_fail, no_md5), u)
md5_by_protocol stack http u =
    let value = (digest (calculator_of stack (canonical u))).0 in
    ((s_ok, value), record u { md5 = value; has_get_md5 = true })

-- `stack` is what stands in the memory of the calculator on the stack.
unfoldable pub get_md5 : Md5Caculator → Url → (ResCode × List ℕ) × Url
get_md5 stack u =
    if is_uninitialized u.status
    then ((s_fail, no_md5), u)
    else if u.has_get_md5
    then ((s_ok, u.md5), u)
    else md5_by_protocol stack u.protocol u
