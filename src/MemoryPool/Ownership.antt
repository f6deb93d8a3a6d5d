-- ===== src/MemoryPool/Ownership.antt =====
-- src/memory_pool.cc: who owns a block.
use myjfm_spider.Prelude.{
  ℕ, suc, ◌+◌, ◌-◌, ◌^◌, ◌%◌, ◌≡◌, ◌≢◌, ◌≤◌, ◌<◌, inl, inr, refl, ap, Option, none, some, List, [],
  ◌∷◌, leb, ◌==◌, if◌then◌else◌, arith, Bool-cases,
}
use myjfm_spider.MemoryPool.{
  Pool, pool_new, largest, adjust_size, label, pop_back, get_memory, put_memory,
}

unfoldable pub count : ℕ → List ℕ → ℕ
count p [] = 0
count p (q ∷ qs) = if q == p then suc (count p qs) else count p qs

unfoldable pub without : ℕ → List ℕ → List ℕ
without p [] = []
without p (q ∷ qs) = if q == p then qs else q ∷ without p qs

-- A pool and the blocks that its callers hold: the free blocks of a size have that size in front of
-- them, and no block is there twice, neither in the pool nor with a caller.
pub record IsOwned (m : Pool) (held : List ℕ) : Type 0 where
  pub sized : (k p : ℕ) → 0 < count p (m.memories k) → m.block_size p ≡ k
  pub once : (k p : ℕ) → count p (m.memories k) + count p held ≤ 1

-- The address is of no block that is free or held.
pub record IsFresh (m : Pool) (held : List ℕ) (p : ℕ) : Type 0 where
  pub not_free : (k : ℕ) → count p (m.memories k) ≡ 0
  pub not_held : count p held ≡ 0

-- The blocks with the callers after a call of get_memory.
abbrev pub take_block : Option ℕ → List ℕ → List ℕ
take_block none held = held
take_block (some p) held = p ∷ held

-- The calls of the pool. A caller gives back only what it holds, and malloc returns no block in use.
pub data Step : Pool → List ℕ → Pool → List ℕ → Type 0 where
  gets :
      (malloc : ℕ → Option ℕ) (size : ℕ) {m : Pool} {held : List ℕ}
      → ((n p : ℕ) → malloc n ≡ some p → IsFresh m held p)
      → Step m held (get_memory malloc size m).1 (take_block (get_memory malloc size m).0 held)
  puts :
      (p : ℕ) {m : Pool} {held : List ℕ}
      → 0 < count p held
      → Step m held (put_memory (some p) m).1 (without p held)
  puts_null : {m : Pool} {held : List ℕ} → Step m held (put_memory none m).1 held

pub data Reachable : Pool → List ℕ → Type 0 where
  start : Reachable pool_new []
  then_ :
      {m m' : Pool} {held held' : List ℕ}
      → Reachable m held
      → Step m held m' held'
      → Reachable m' held'

pub adjust_size_ge : (size : ℕ) → size ≤ adjust_size size
unfolding adjust_size
adjust_size_ge size = ground arith

pub count-without_self :
    (p : ℕ) (held : List ℕ) → 0 < count p held → count p (without p held) ≡ count p held - 1
unfolding count without
count-without_self p [] pos = absurd (omega arith)
count-without_self p (q ∷ qs) pos = ground (arith, count-without_self p qs)

pub count-without : (p q : ℕ) (held : List ℕ) → q ≢ p → count q (without p held) ≡ count q held
unfolding count without
count-without p q [] ne = refl
count-without p q (r ∷ rs) ne = ground (arith, count-without p q rs ne)

pub count-cons : (p : ℕ) (held : List ℕ) → count p (p ∷ held) ≡ suc (count p held)
unfolding count
count-cons p held = ground arith

module _ (m : Pool) (held : List ℕ) (owned : IsOwned m held) where
  label-IsOwned :
      (size : ℕ) (got : Option ℕ)
      → ((p : ℕ) → got ≡ some p → IsFresh m held p)
      → IsOwned (label size got m).1 (take_block (label size got m).0 held)
  unfolding count
  label-IsOwned size none fresh = owned
  label-IsOwned size (some p) fresh = record {
    sized = λ k q pos.
        ground (arith, owned.sized k q, (fresh p refl).not_free k, (fresh p refl).not_held);
    once =
        λ k q. ground (arith, owned.once k q, (fresh p refl).not_free k, (fresh p refl).not_held);
  }

  pop_back-IsOwned :
      (malloc : ℕ → Option ℕ) (size : ℕ) (blocks : List ℕ)
      → m.memories size ≡ blocks
      → ((n p : ℕ) → malloc n ≡ some p → IsFresh m held p)
      → IsOwned
          (pop_back malloc size blocks m).1
          (take_block (pop_back malloc size blocks m).0 held)
  unfolding count
  pop_back-IsOwned malloc size [] e fresh =
      label-IsOwned size (malloc ((size + 4) % 2 ^ 32)) (fresh ((size + 4) % 2 ^ 32))
  pop_back-IsOwned malloc size (p ∷ ps) e fresh = record {
    sized = λ k q pos. ground (arith, owned.sized k q, owned.sized size q, ap (count q) e);
    once = λ k q. ground (
      arith,
      owned.once k q,
      owned.once size q,
      owned.sized k q,
      owned.sized size q,
      ap (count q) e,
    );
  }

  pub get_memory-IsOwned :
      (malloc : ℕ → Option ℕ) (size : ℕ)
      → ((n p : ℕ) → malloc n ≡ some p → IsFresh m held p)
      → IsOwned (get_memory malloc size m).1 (take_block (get_memory malloc size m).0 held)
  unfolding get_memory
  get_memory-IsOwned malloc size fresh = elim (Bool-cases (leb (adjust_size size) largest)) [
    | inl e ↦
        rw e (pop_back-IsOwned malloc (adjust_size size) (m.memories (adjust_size size)) refl fresh)
    | inr e ↦ rw e (
        label-IsOwned (adjust_size size) (malloc ((adjust_size size + 4) % 2 ^ 32))
          (fresh ((adjust_size size + 4) % 2 ^ 32)))
  ]

  put_memory-IsOwned :
      (p : ℕ) → 0 < count p held → IsOwned (put_memory (some p) m).1 (without p held)
  unfolding put_memory count
  put_memory-IsOwned p pos = record {
    sized = λ k q inside. ground (arith, owned.sized k q);
    once = λ k q. ground (
      arith,
      owned.once k q,
      owned.sized k q,
      count-without_self p held pos,
      count-without p q held,
    );
  }

  put_null-IsOwned : IsOwned (put_memory none m).1 held
  unfolding put_memory
  put_null-IsOwned = owned

start-IsOwned : IsOwned pool_new []
unfolding count
start-IsOwned = record { sized = λ k p pos. absurd (omega arith); once = λ k p. omega arith }

-- In every state that calls of get_memory and put_memory lead to, where a caller gives back only
-- blocks that it holds and malloc returns no block in use: every free block has the size of its vector
-- in front of it, and no block occurs twice among the free blocks and those held by callers.
pub Reachable-IsOwned : (m : Pool) (held : List ℕ) → Reachable m held → IsOwned m held
Reachable-IsOwned m held start = start-IsOwned
Reachable-IsOwned m held (then_ r (gets malloc size fresh)) =
    get_memory-IsOwned _ _ (Reachable-IsOwned _ _ r) malloc size fresh
Reachable-IsOwned m held (then_ r (puts p pos)) =
    put_memory-IsOwned _ _ (Reachable-IsOwned _ _ r) p pos
Reachable-IsOwned m held (then_ r puts_null) = put_null-IsOwned _ _ (Reachable-IsOwned _ _ r)
