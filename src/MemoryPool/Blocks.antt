-- ===== src/MemoryPool/Blocks.antt =====
-- src/memory_pool.cc: the blocks that get_memory gives.
use myjfm_spider.Prelude.{
  ℕ, ◌+◌, ◌^◌, ◌%◌, ◌≡◌, ◌≤◌, inl, inr, refl, ap, subst, true, Option, none, some, List, [], ◌∷◌,
  leb, arith, Bool-cases,
}
use myjfm_spider.ResCode.{s_ok}
use myjfm_spider.MemoryPool.{
  Pool, largest, update, adjust_size, label, pop_back, get_memory, put_memory,
}
use myjfm_spider.MemoryPool.Ownership.{
  count, IsOwned, IsFresh, take_block, Reachable, adjust_size_ge, count-cons, get_memory-IsOwned,
  Reachable-IsOwned,
}

label-size :
    (m : Pool) (size p : ℕ) (got : Option ℕ)
    → (label size got m).0 ≡ some p
    → (label size got m).1.block_size p ≡ size
label-size m size p none e = ground (arith, e)
label-size m size p (some q) e = ground (arith, e)

pop_back-size :
    (m : Pool) (held : List ℕ) (malloc : ℕ → Option ℕ) (size p : ℕ) (blocks : List ℕ)
    → IsOwned m held
    → m.memories size ≡ blocks
    → (pop_back malloc size blocks m).0 ≡ some p
    → (pop_back malloc size blocks m).1.block_size p ≡ size
unfolding count
pop_back-size m held malloc size p [] owned e got =
    label-size m size p (malloc ((size + 4) % 2 ^ 32)) got
pop_back-size m held malloc size p (q ∷ qs) owned e got =
    ground (arith, owned.sized size p, ap (count p) e, got)

get_memory-size :
    (m : Pool) (held : List ℕ) (malloc : ℕ → Option ℕ) (size p : ℕ)
    → IsOwned m held
    → (get_memory malloc size m).0 ≡ some p
    → (get_memory malloc size m).1.block_size p ≡ adjust_size size
unfolding get_memory
get_memory-size m held malloc size p owned got =
    elim (Bool-cases (leb (adjust_size size) largest)) [
      | inl e ↦ rw e (
          pop_back-size m held malloc (adjust_size size) p (m.memories (adjust_size size)) owned
            refl (rw e at got))
      | inr e ↦ rw e (
          label-size m (adjust_size size) p (malloc ((adjust_size size + 4) % 2 ^ 32))
            (rw e at got))
    ]

-- After any calls, a block that get_memory gives, with a malloc that returns no block in use, has at
-- least the size asked for in front of it, is held by no other caller and is no longer free.
pub get_memory-gives :
    (m : Pool) (held : List ℕ) (malloc : ℕ → Option ℕ) (size p : ℕ)
    → Reachable m held
    → ((n q : ℕ) → malloc n ≡ some q → IsFresh m held q)
    → (get_memory malloc size m).0 ≡ some p
    → (size ≤ (get_memory malloc size m).1.block_size p)
      × (count p held ≡ 0)
      × ((k : ℕ) → count p ((get_memory malloc size m).1.memories k) ≡ 0)
get_memory-gives m held malloc size p r fresh got =
    let owned = Reachable-IsOwned m held r in
    let after =
      subst (λ b. IsOwned (get_memory malloc size m).1 (take_block b held)) got
        (get_memory-IsOwned m held owned malloc size fresh) in
    let once : (k : ℕ)
        → count p ((get_memory malloc size m).1.memories k) + count p (p ∷ held) ≤ 1 =
      λ k. after.once k p in
    let more = count-cons p held in
    (
      rw (get_memory-size m held malloc size p owned got) (adjust_size_ge size),
      omega (arith, once 0, more),
      λ k. omega (arith, once k, more),
    )

get_memory-cons :
    (m : Pool) (malloc : ℕ → Option ℕ) (size p : ℕ) (ps : List ℕ)
    → adjust_size size ≤ largest
    → m.memories (adjust_size size) ≡ p ∷ ps
    → get_memory malloc size m
      ≡ (some p, record m { memories = update (adjust_size size) ps m.memories })
unfolding get_memory
get_memory-cons m malloc size p ps small e =
    let fits : leb (adjust_size size) largest ≡ true = ground arith in rw (fits, e)

put_memory-some :
    (m : Pool) (p : ℕ)
    → m.block_size p ≤ largest
    → put_memory (some p) m ≡ (
      s_ok,
      record m { memories = update (m.block_size p) (p ∷ m.memories (m.block_size p)) m.memories },
    )
unfolding put_memory
put_memory-some m p small = ground arith

-- Giving back a block of at most the largest size and asking for a size of the same class gives that
-- block again, and the free blocks are those of before.
get_memory-put_memory :
    (m : Pool) (malloc : ℕ → Option ℕ) (size p : ℕ)
    → m.block_size p ≤ largest
    → adjust_size size ≡ m.block_size p
    → ((get_memory malloc size (put_memory (some p) m).1).0 ≡ some p)
      × ((k : ℕ) → (get_memory malloc size (put_memory (some p) m).1).1.memories k ≡ m.memories k)
get_memory-put_memory m malloc size p small same =
    let class = m.block_size p in
    let m' = record m { memories = update class (p ∷ m.memories class) m.memories } in
    let head : m'.memories (adjust_size size) ≡ p ∷ m.memories class = ground (arith, same) in
    let got = get_memory-cons m' malloc size p (m.memories class) (omega (arith, same)) head in
    rw (put_memory-some m p small, got) (refl, λ k. ground (arith, same, ap m.memories same))
