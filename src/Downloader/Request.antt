-- ===== src/Downloader/Request.antt =====
-- src/downloader_task.cc: `generate_http_request`, `set_timeout` and `send_http_request`.
use myjfm_spider.Prelude.{
  ℕ, zero, suc, ◌+◌, ◌≤◌, ◌<◌, ◌≡◌, refl, sym, ap, ◌∙◌, Bool, true, false, ◌||◌, Option, none, some,
  List, [], ◌∷◌, ◌++◌, arith, leb, ◌==◌, if◌then◌else◌, Run, done, fault, length, take, drop, codes,
  Bool-cases, inl, inr,
}
use myjfm_spider.ResCode.{ResCode, s_ok, s_fail, s_should_close_connection}
use myjfm_spider.Global.{Global}
use myjfm_spider.Global.Access.{get_request_header, get_send_timeout, get_recv_timeout}
use myjfm_spider.Downloader.{Fd, is_negative}

abbrev pub or_abort {ℓ} : {A : Type ℓ} → Option A → Run A
or_abort none = fault
or_abort (some a) = done a

abbrev pub with_code : Option (List ℕ) → Run (ResCode × List ℕ)
with_code none = fault
with_code (some request) = done (s_ok, request)

-- The result and the request.
unfoldable pub generate_http_request : Global → List ℕ → List ℕ → Run (ResCode × List ℕ)
generate_http_request g site file =
    if length site == 0
    then done (s_fail, [])
    else with_code (
        get_request_header g
          (codes "GET " ++ (file ++ (codes " HTTP/1.1\r\nHost: " ++ (site ++ codes "\r\n")))))

-- Behind the getters of the timeouts: whether `setsockopt` takes them for the descriptor.
abbrev pub set_recv_option : (ℕ → Bool) → Option ℕ → Run ResCode
set_recv_option option none = fault
set_recv_option option (some timeout) = done (if option timeout then s_ok else s_fail)

abbrev pub set_options : (ℕ → Bool) → (ℕ → Bool) → Option ℕ → Option ℕ → Run ResCode
set_options send_option recv_option none r = fault
set_options send_option recv_option (some timeout) r =
    if send_option timeout then set_recv_option recv_option r else done s_fail

unfoldable pub set_timeout : Global → (ℕ → Bool) → (ℕ → Bool) → Fd → Run ResCode
set_timeout g send_option recv_option fd =
    if is_negative fd
    then done s_fail
    else set_options send_option recv_option (get_send_timeout g) (get_recv_timeout g)

-- The loop of `send_http_request`. An entry of the list is how many bytes the socket takes at most
-- with one `write`, where 0 is a failed one; behind the last entry every `write` fails. The result, the
-- bytes written and the entries left.
unfoldable pub send_loop : List ℕ → List ℕ → ResCode × List ℕ × List ℕ
send_loop [] buffer = (s_should_close_connection, [], [])
send_loop (zero ∷ accepts) buffer = (s_should_close_connection, [], accepts)
send_loop (suc n ∷ accepts) buffer =
    let rest = send_loop accepts (drop (suc n) buffer) in
    if leb (length buffer) (suc n)
    then (s_ok, buffer, accepts)
    else (rest.0, take (suc n) buffer ++ rest.1, rest.2)

unfoldable pub send_http_request : Fd → List ℕ → List ℕ → ResCode × List ℕ × List ℕ
send_http_request fd request accepts =
    if is_negative fd || length request == 0
    then (s_fail, [], accepts)
    else send_loop accepts request

-- The bytes that a socket takes before the first failed `write`.
abbrev pub capacity : List ℕ → ℕ
capacity [] = 0
capacity (zero ∷ accepts) = 0
capacity (suc n ∷ accepts) = suc n + capacity accepts

pub take-all : (n : ℕ) (xs : List ℕ) → length xs ≤ n → take n xs ≡ xs
take-all zero [] h = refl
take-all zero (x ∷ xs) h = absurd (omega arith)
take-all (suc n) [] h = refl
take-all (suc n) (x ∷ xs) h = ap (◌∷◌ x) (take-all n xs (omega arith))

take-nil : (n : ℕ) → take {A = ℕ} n [] ≡ []
take-nil zero = refl
take-nil (suc n) = refl

take-drop : (m n : ℕ) (xs : List ℕ) → take m xs ++ take n (drop m xs) ≡ take (m + n) xs
take-drop zero n xs = let e : n ≡ 0 + n = omega arith in ap (λ k. take k xs) e
take-drop (suc m) n [] = take-nil n ∙ sym (take-nil (suc m + n))
take-drop (suc m) n (x ∷ xs) =
    let e : suc (m + n) ≡ suc m + n = omega arith in
    ap (◌∷◌ x) (take-drop m n xs) ∙ ap (λ k. take k (x ∷ xs)) e

length-drop : (m : ℕ) (xs : List ℕ) → m < length xs → length (drop m xs) + m ≡ length xs
length-drop zero xs h = omega arith
length-drop (suc m) [] h = absurd (omega arith)
length-drop (suc m) (x ∷ xs) h = omega (arith, length-drop m xs (omega arith))

-- The result of a loop that could send `total` of the bytes.
abbrev pub code_of : Bool → ResCode
code_of true = s_ok
code_of false = s_should_close_connection

send_loop-last :
    (n : ℕ) (accepts buffer : List ℕ)
    → leb (length buffer) (suc n) ≡ true
    → send_loop (suc n ∷ accepts) buffer ≡ (s_ok, buffer, accepts)
unfolding send_loop
send_loop-last n accepts buffer e = rw e refl

send_loop-more :
    (n : ℕ) (accepts buffer : List ℕ)
    → leb (length buffer) (suc n) ≡ false
    → let rest = send_loop accepts (drop (suc n) buffer) in
      send_loop (suc n ∷ accepts) buffer ≡ (rest.0, take (suc n) buffer ++ rest.1, rest.2)
unfolding send_loop
send_loop-more n accepts buffer e = rw e refl

send_loop_lem :
    (accepts buffer : List ℕ)
    → 0 < length buffer
    → ((send_loop accepts buffer).0 ≡ code_of (leb (length buffer) (capacity accepts)))
      × ((send_loop accepts buffer).1 ≡ take (capacity accepts) buffer)
send_loop_lem [] buffer pos = unfold send_loop in (ground arith, refl)
send_loop_lem (zero ∷ accepts) buffer pos = unfold send_loop in (ground arith, refl)
send_loop_lem (suc n ∷ accepts) buffer pos = elim (Bool-cases (leb (length buffer) (suc n))) [
  | inl e ↦
      let fits : length buffer ≤ suc n + capacity accepts = ground (arith, e) in
      let yes_ : leb (length buffer) (suc n + capacity accepts) ≡ true = ground (arith, fits) in
      let r = send_loop-last n accepts buffer e in
      (
        ap (λ r. r.0) r ∙ sym (ap code_of yes_),
        ap (λ r. r.1) r ∙ sym (take-all (suc n + capacity accepts) buffer fits),
      )
  | inr e ↦
      let more : suc n < length buffer = ground (arith, e) in
      let size = length-drop (suc n) buffer more in
      let ih = send_loop_lem accepts (drop (suc n) buffer) (omega (arith, size, more)) in
      let same : leb (length (drop (suc n) buffer)) (capacity accepts)
          ≡ leb (length buffer) (suc n + capacity accepts) =
        ground (arith, size) in
      let r = send_loop-more n accepts buffer e in
      (
        ap (λ r. r.0) r ∙ ih.0 ∙ ap code_of same,
        ap (λ r. r.1) r
            ∙ ap (λ z. take (suc n) buffer ++ z) ih.1
            ∙ take-drop (suc n) (capacity accepts) buffer,
      )
]

-- On a descriptor that is not negative and a request that is not empty, send_http_request writes the
-- request as far as the socket takes it before the first failed write, in order and with no byte
-- twice; it returns S_OK where that is the whole request and S_SHOULD_CLOSE_CONNECTION where it is
-- not.
pub send_http_request_lem :
    (fd : ℕ) (request accepts : List ℕ)
    → 0 < length request
    → ((send_http_request (some fd) request accepts).0
        ≡ code_of (leb (length request) (capacity accepts)))
      × ((send_http_request (some fd) request accepts).1 ≡ take (capacity accepts) request)
unfolding send_http_request
send_http_request_lem fd request accepts pos =
    let some_ : (length request == 0) ≡ false = ground arith in
    rw some_ (send_loop_lem accepts request pos)
