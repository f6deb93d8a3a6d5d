-- ===== src/Downloader/Lines.antt =====
-- src/downloader_task.cc: reading up to the end of a line, byte by byte.
use myjfm_spider.Prelude.{
  ℕ, zero, suc, ◌<◌, ◌≡◌, ◌≢◌, ap, ◌∙◌, Bool, true, false, ◌&&◌, not, some, List, [], ◌∷◌, ◌++◌,
  arith, ◌==◌, if◌then◌else◌, done,
}
use myjfm_spider.ResCode.{s_ok}
use myjfm_spider.Socket.{Socket, read, flat, weight, Flows}
use myjfm_spider.Socket.Laws.{read-ReadsByte}
use myjfm_spider.Downloader.{line_end_loop, recv_and_discard}

-- The sockets that a loop which has read `r` up to a rest may leave.
pub record Leaves (s : Socket) (rest : List ℕ) (s' : Socket) : Type 0 where
  pub flows : Flows s'
  pub stream : flat s' ≡ rest
  pub lighter : weight s' < weight s

pub Leaves-trans : {s t u : Socket} {q r : List ℕ} → Leaves s q t → Leaves t r u → Leaves s r u
Leaves-trans a b = record {
  flows = b.flows;
  stream = b.stream;
  lighter = omega (arith, a.lighter, b.lighter);
}

line_end_loop-step :
    (fuel c : ℕ) (flag : Bool) (s s' : Socket)
    → read 1 s ≡ (some (c ∷ []), s')
    → line_end_loop (suc fuel) flag s ≡ (
        if not (c == b'\r') && (c == b'\n' && flag)
        then done (s_ok, s')
        else line_end_loop fuel (c == b'\r') s')
unfolding line_end_loop
line_end_loop-step fuel c flag s s' e = ground (arith, ap (λ r. r.0) e, ap (λ r. r.1) e)

-- No carriage return and no line feed.
abbrev pub AllPlain : List ℕ → Type 0
AllPlain [] = Unit {0}
AllPlain (c ∷ cs) = (c ≢ b'\r') × (c ≢ b'\n') × AllPlain cs

-- A line feed right behind a carriage return ends the line.
pub line_end_loop-lf :
    (fuel : ℕ) (rest : List ℕ) (s : Socket)
    → Flows s
    → flat s ≡ b'\n' ∷ rest
    → weight s < fuel
    → (s' : Socket) × (line_end_loop fuel true s ≡ done (s_ok, s')) × Leaves s rest s'
line_end_loop-lf zero rest s f e enough = absurd (omega arith)
line_end_loop-lf (suc fuel) rest s f e enough =
    let (s', r) = read-ReadsByte s b'\n' rest f e in
    (
      s',
      line_end_loop-step fuel b'\n' true s s' r.ran,
      record { flows = r.flows; stream = r.stream; lighter = r.lighter },
    )

-- Whatever stands before the end of the line is skipped.
pub line_end_loop-plain :
    (cs : List ℕ) (fuel : ℕ) (flag : Bool) (rest : List ℕ) (s : Socket)
    → AllPlain cs
    → Flows s
    → flat s ≡ cs ++ b'\r' ∷ b'\n' ∷ rest
    → weight s < fuel
    → (s' : Socket) × (line_end_loop fuel flag s ≡ done (s_ok, s')) × Leaves s rest s'
line_end_loop-plain cs zero flag rest s plain f e enough = absurd (omega arith)
line_end_loop-plain [] (suc fuel) flag rest s plain f e enough =
    let (s', r) = read-ReadsByte s b'\r' (b'\n' ∷ rest) f e in
    let (t, ran, left) =
      line_end_loop-lf fuel rest s' r.flows r.stream (omega (arith, r.lighter)) in
    (
      t,
      line_end_loop-step fuel b'\r' flag s s' r.ran ∙ ran,
      record {
        flows = left.flows;
        stream = left.stream;
        lighter = omega (arith, r.lighter, left.lighter);
      },
    )
line_end_loop-plain (c ∷ cs) (suc fuel) flag rest s plain f e enough =
    let (s', r) = read-ReadsByte s c (cs ++ b'\r' ∷ b'\n' ∷ rest) f e in
    let (t, ran, left) =
      line_end_loop-plain cs fuel (c == b'\r') rest s' plain.2 r.flows r.stream
        (omega (arith, r.lighter)) in
    (
      t,
      line_end_loop-step fuel c flag s s' r.ran ∙ ground (arith, ran, plain.0, plain.1),
      record {
        flows = left.flows;
        stream = left.stream;
        lighter = omega (arith, r.lighter, left.lighter);
      },
    )

-- `recv_and_discard` on a descriptor above 0 skips one line.
pub recv_and_discard_lem :
    (fd : ℕ) (cs rest : List ℕ) (s : Socket)
    → AllPlain cs
    → Flows s
    → flat s ≡ cs ++ b'\r' ∷ b'\n' ∷ rest
    → (s' : Socket) × (recv_and_discard (some (suc fd)) s ≡ done (s_ok, s')) × Leaves s rest s'
unfolding recv_and_discard
recv_and_discard_lem fd cs rest s plain f e =
    let (s', ran, left) =
      line_end_loop-plain cs (suc (weight s)) false rest s plain f e (omega arith) in
    (s', ground (arith, ran), left)
