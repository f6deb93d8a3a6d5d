-- ===== src/Tests/Pools.antt =====
-- Runs of src/memory_pool.cc, and the theorems on it applied.
use myjfm_spider.Prelude.{ℕ, suc, ◌<◌, ◌≤◌, ◌≡◌, refl, Option, none, some, [], ◌∷◌, arith}
use myjfm_spider.MemoryPool.{
  Pool, pool_new, get_memory, put_memory, adjust_size, free_memory, delete_pool,
}
use myjfm_spider.MemoryPool.Blocks.{get_memory-gives}
use myjfm_spider.MemoryPool.Deletion.{delete_pool-frees}
use myjfm_spider.MemoryPool.Ownership.{
  count, without, IsOwned, IsFresh, Reachable, start, then_, gets, puts, Reachable-IsOwned,
}

abbrev malloc_700 : ℕ → Option ℕ
malloc_700 n = some 700

abbrev pool_one : Pool
pool_one = (get_memory malloc_700 200 pool_new).1

pool_new-IsFresh : (n p : ℕ) → malloc_700 n ≡ some p → IsFresh pool_new [] p
unfolding count
pool_new-IsFresh n p e = record { not_free = λ k. refl; not_held = refl }

pool_one-Reachable : Reachable pool_one (700 ∷ [])
unfolding get_memory adjust_size
pool_one-Reachable = then_ start (gets malloc_700 200 pool_new-IsFresh)

abbrev pool_two : Pool
pool_two = (put_memory (some 700) pool_one).1

pool_two-Reachable : Reachable pool_two []
unfolding count without get_memory put_memory adjust_size
pool_two-Reachable = then_ pool_one-Reachable (puts 700 (omega arith))

Reachable-IsOwned_example : IsOwned pool_two []
Reachable-IsOwned_example = Reachable-IsOwned pool_two [] pool_two-Reachable

no_memory : (n q : ℕ) → none ≡ some q → IsFresh pool_two [] q
no_memory n q e = absurd (ground (arith, e))

got_700 : (get_memory (λ n. none) 256 pool_two).0 ≡ some 700
unfolding get_memory put_memory adjust_size
got_700 = refl

get_memory-gives_example :
    (256 ≤ (get_memory (λ n. none) 256 pool_two).1.block_size 700)
    × (count 700 [] ≡ 0)
    × ((k : ℕ) → count 700 ((get_memory (λ n. none) 256 pool_two).1.memories k) ≡ 0)
get_memory-gives_example =
    get_memory-gives pool_two [] (λ n. none) 256 700 pool_two-Reachable no_memory got_700

size_700 : (pool_one.block_size 700 ≤ 8388608) × (adjust_size 129 ≡ pool_one.block_size 700)
unfolding get_memory adjust_size
size_700 = (omega arith, refl)

-- The destructor frees the block that was given back.
freed_700 : (delete_pool pool_two).freed ≡ 700 ∷ []
unfolding delete_pool free_memory get_memory put_memory adjust_size
freed_700 = refl

delete_pool-frees_example :
    ((k p : ℕ)
      → 0 < count p (pool_two.memories k)
      → count p (delete_pool pool_two).freed ≡ suc (count p pool_two.freed))
    × ((p : ℕ)
        → ((k : ℕ) → count p (pool_two.memories k) ≡ 0)
        → count p (delete_pool pool_two).freed ≡ count p pool_two.freed)
    × ((p : ℕ) → 0 < count p [] → count p (delete_pool pool_two).freed ≡ count p pool_two.freed)
delete_pool-frees_example = delete_pool-frees pool_two [] pool_two-Reachable
