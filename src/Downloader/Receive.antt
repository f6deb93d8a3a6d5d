-- ===== src/Downloader/Receive.antt =====
-- `recvn` of src/downloader_task.cc against the stream of bytes.
use myjfm_spider.Prelude.{
  ℕ, zero, suc, ◌+◌, ◌-◌, ◌≤◌, ◌<◌, ◌≡◌, refl, sym, ap, ◌∙◌, Bool, true, false, none, some, List,
  [], ◌++◌, append_assoc, arith, ◌==◌, ◌⊎◌, inl, inr, Bool-cases, if◌then◌else◌, length, take, drop,
  take-length, drop-length, length-append, done, Returns, ==_iff,
}
use myjfm_spider.ResCode.{ResCode, s_ok, s_fail}
use myjfm_spider.Socket.{Socket, read, flat, weight, Flows}
use myjfm_spider.Socket.Laws.{Reads, read-Reads, read-cases}
use myjfm_spider.Downloader.{Fd, recvn_loop, recvn}

recvn_loop-step :
    (fuel n : ℕ) (got bs : List ℕ) (s s' : Socket)
    → read n s ≡ (some bs, s')
    → recvn_loop (suc fuel) n got s ≡ (
        if length bs == n
        then done (s_ok, got ++ bs, s')
        else recvn_loop fuel (n - length bs) (got ++ bs) s')
unfolding recvn_loop
recvn_loop-step fuel n got bs s s' e = ground (arith, ap (λ r. r.0) e, ap (λ r. r.1) e)

-- The loop, asked for `n` bytes, returns the `n` bytes `bs` at the front of the stream and leaves
-- the rest of it.
record Gets (fuel n : ℕ) (got : List ℕ) (s : Socket) (bs : List ℕ) (s' : Socket) : Type 0 where
  ran : recvn_loop fuel n got s ≡ done (s_ok, got ++ bs, s')
  count : length bs ≡ n
  flows : Flows s'
  stream : flat s ≡ bs ++ flat s'
  lighter : weight s' < weight s

module _ (fuel n : ℕ) (got : List ℕ) {s : Socket} {bs : List ℕ} {s' : Socket}
    (r : Reads n s bs s') where
  Gets-last : (length bs == n) ≡ true → Gets (suc fuel) n got s bs s'
  Gets-last e = record {
    ran = recvn_loop-step fuel n got bs s s' r.ran ∙ rw e;
    count = (==_iff _ n).0 e;
    flows = r.flows;
    stream = r.stream;
    lighter = r.lighter;
  }

  Gets-more :
      {cs : List ℕ} {t : Socket}
      → (length bs == n) ≡ false
      → Gets fuel (n - length bs) (got ++ bs) s' cs t
      → Gets (suc fuel) n got s (bs ++ cs) t
  Gets-more {cs} {t} e g = record {
    ran = recvn_loop-step fuel n got bs s s' r.ran ∙ rw e (g.ran ∙ rw append_assoc);
    count = omega (arith, g.count, length-append bs cs, r.at_most);
    flows = g.flows;
    stream = r.stream ∙ ap (◌++◌ bs) g.stream ∙ sym (append_assoc bs cs (flat t));
    lighter = omega (arith, r.lighter, g.lighter);
  }

recvn_loop-Gets :
    (fuel n : ℕ) (got : List ℕ) (s : Socket)
    → 0 < n
    → n ≤ fuel
    → Flows s
    → n ≤ length (flat s)
    → (bs : List ℕ) × (s' : Socket) × Gets fuel n got s bs s'
recvn_loop-Gets zero n got s pos enough f more = absurd (omega arith)
recvn_loop-Gets (suc fuel) n got s pos enough f more =
    let (bs, s', r) = read-Reads n s pos f (omega arith) in
    elim (Bool-cases (length bs == n)) [
      | inl e ↦ (bs, s', Gets-last fuel n got r e)
      | inr e ↦
          let ne : length bs < n = ground (arith, r.at_most) in
          let (cs, t, g) =
            recvn_loop-Gets fuel (n - length bs) (got ++ bs) s' (omega arith)
              (omega (arith, r.some_bytes)) r.flows
              (omega (arith, more, ap length r.stream, length-append bs (flat s'))) in
          (bs ++ cs, t, Gets-more fuel n got r e g)
    ]

append_split :
    (n : ℕ) (xs bs ys : List ℕ)
    → length bs ≡ n
    → xs ≡ bs ++ ys
    → (bs ≡ take n xs) × (ys ≡ drop n xs)
append_split n xs bs ys c e = rw (← c, e) (sym (take-length bs ys), sym (drop-length bs ys))

-- The first `n` bytes of the stream, and a socket that delivers the others.
pub record Takes (n : ℕ) (s : Socket) (bs : List ℕ) (s' : Socket) : Type 0 where
  pub front : bs ≡ take n (flat s)
  pub rest : flat s' ≡ drop n (flat s)
  pub flows : Flows s'
  pub lighter : weight s' < weight s

-- However the peer's bytes are cut into segments, `recvn` with a buffer for n > 0 bytes, on a
-- descriptor that is not negative, returns S_OK with exactly the first n of them if at least n bytes
-- will arrive, and leaves the others unread.
pub recvn_lem :
    (fd n : ℕ) (s : Socket)
    → 0 < n
    → Flows s
    → n ≤ length (flat s)
    → (bs : List ℕ) × (s' : Socket) × (recvn (some fd) n true s ≡ done (s_ok, bs, s'))
      × Takes n s bs s'
unfolding recvn
recvn_lem fd n s pos f more =
    let (bs, s', g) = recvn_loop-Gets n n [] s pos (omega arith) f more in
    let (front, rest) = append_split n (flat s) bs (flat s') g.count g.stream in
    (
      bs,
      s',
      ground (arith, g.ran),
      record { front = front; rest = rest; flows = g.flows; lighter = g.lighter },
    )

recvn_loop-stop :
    (fuel n : ℕ) (got : List ℕ) (s s' : Socket)
    → read n s ≡ (none, s')
    → recvn_loop (suc fuel) n got s ≡ done (s_fail, got, s')
unfolding recvn_loop
recvn_loop-stop fuel n got s s' e = ground (arith, ap (λ r. r.0) e, ap (λ r. r.1) e)

-- All of the bytes, or fewer.
abbrev pub Ends : ℕ → ResCode × List ℕ × Socket → Type 0
Ends n r = ((r.0 ≡ s_ok) × (length r.1 ≡ n)) ⊎ ((r.0 ≡ s_fail) × (length r.1 < n))

recvn_loop-Ends :
    (fuel n : ℕ) (got : List ℕ) (s : Socket)
    → 0 < n
    → n ≤ fuel
    → Returns (recvn_loop fuel n got s) (Ends (length got + n))
recvn_loop-Ends zero n got s pos enough = absurd (omega arith)
recvn_loop-Ends (suc fuel) n got s pos enough = elim (read-cases n s pos) [
  | inl (s', e) ↦ ((s_fail, got, s'), recvn_loop-stop fuel n got s s' e, inr (refl, omega arith))
  | inr (bs, s', g) ↦
      let step = recvn_loop-step fuel n got bs s s' g.ran in
      elim (Bool-cases (length bs == n)) [
        | inl e ↦ (
          (s_ok, got ++ bs, s'),
          step ∙ rw e,
          inl (refl, omega (arith, length-append got bs, (==_iff (length bs) n).0 e)),
        )
        | inr e ↦
            let ne : length bs < n = ground (arith, g.at_most) in
            let (r, ran, ends) =
              recvn_loop-Ends fuel (n - length bs) (got ++ bs) s' (omega arith)
                (omega (arith, g.some_bytes)) in
            let total : length (got ++ bs) + (n - length bs) ≡ length got + n =
              omega (arith, length-append got bs) in
            (r, step ∙ rw e ran, rw total at ends)
      ]
]

-- `recvn` always returns, whatever its arguments and whatever the socket does: S_OK with exactly n
-- bytes, or S_FAIL with fewer than n, or S_FAIL with nothing read for n = 0.
pub recvn-Ends :
    (fd : Fd) (n : ℕ) (buffer : Bool) (s : Socket)
    → Returns (recvn fd n buffer s) λ r. Ends n r ⊎ ((n ≡ 0) × (r.0 ≡ s_fail) × (r.2 ≡ s))
unfolding recvn
recvn-Ends none n buffer s = ((s_fail, [], s), refl, ground arith)
recvn-Ends (some fd) zero buffer s = ((s_fail, [], s), refl, inr (refl, refl, refl))
recvn-Ends (some fd) (suc n) false s =
    ((s_fail, [], s), ground arith, inl (inr (refl, omega arith)))
recvn-Ends (some fd) (suc n) true s =
    let (r, ran, ends) = recvn_loop-Ends (suc n) (suc n) [] s (omega arith) (omega arith) in
    let start : 0 + suc n ≡ suc n = omega arith in (r, ground (arith, ran), inl (rw start at ends))
