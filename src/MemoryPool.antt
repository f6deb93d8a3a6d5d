-- ===== src/MemoryPool.antt =====
-- src/memory_pool.h and src/memory_pool.cc. A block is its address behind the four bytes of its
-- size; `malloc` is the C library's function at the moment of the call.
pub mod Ownership
pub mod Blocks
pub mod Deletion
use myjfm_spider.Prelude.{
  ℕ, ◌+◌, ◌*◌, ◌/◌, ◌^◌, ◌%◌, Option, none, some, List, [], ◌∷◌, leb, ◌==◌, if◌then◌else◌, length,
}
use myjfm_spider.ResCode.{ResCode, s_ok, s_fail}

abbrev pub largest : ℕ
largest = 1024 * 2 ^ 13

-- The free blocks of every size, the last one put first; the size in front of every block; the
-- blocks given back to `free`.
pub record Pool : Type 0 where
  pub memories : ℕ → List ℕ
  pub block_size : ℕ → ℕ
  pub freed : List ℕ

abbrev pub pool_new : Pool
pool_new = record { memories = λ size. []; block_size = λ block. 0; freed = [] }

abbrev pub update : {A : Type 0} → ℕ → A → (ℕ → A) → ℕ → A
update k x f j = if j == k then x else f j

unfoldable pub adjust_size : ℕ → ℕ
adjust_size size =
    if leb size 128
    then 128
    else if leb size 256
    then 256
    else if leb size 512
    then 512
    else if leb size 1024
    then 1024
    else if leb size (1024 * 2)
    then 1024 * 2
    else if leb size (1024 * 2 ^ 2)
    then 1024 * 2 ^ 2
    else if leb size (1024 * 2 ^ 3)
    then 1024 * 2 ^ 3
    else if leb size (1024 * 2 ^ 4)
    then 1024 * 2 ^ 4
    else if leb size (1024 * 2 ^ 5)
    then 1024 * 2 ^ 5
    else if leb size (1024 * 2 ^ 6)
    then 1024 * 2 ^ 6
    else if leb size (1024 * 2 ^ 7)
    then 1024 * 2 ^ 7
    else if leb size (1024 * 2 ^ 8)
    then 1024 * 2 ^ 8
    else if leb size (1024 * 2 ^ 9)
    then 1024 * 2 ^ 9
    else if leb size (1024 * 2 ^ 10)
    then 1024 * 2 ^ 10
    else if leb size (1024 * 2 ^ 11)
    then 1024 * 2 ^ 11
    else if leb size (1024 * 2 ^ 12)
    then 1024 * 2 ^ 12
    else if leb size (1024 * 2 ^ 13)
    then 1024 * 2 ^ 13
    else size

-- A new block, its size written in front of it.
abbrev pub label : ℕ → Option ℕ → Pool → Option ℕ × Pool
label new_size none m = (none, m)
label new_size (some p) m = (some p, record m { block_size = update p new_size m.block_size })

abbrev pub allocate : (ℕ → Option ℕ) → ℕ → Pool → Option ℕ × Pool
allocate malloc new_size m = label new_size (malloc ((new_size + 4) % 2 ^ 32)) m

-- The last block of the vector, or a new one where it is empty.
abbrev pub pop_back : (ℕ → Option ℕ) → ℕ → List ℕ → Pool → Option ℕ × Pool
pop_back malloc new_size [] m = allocate malloc new_size m
pop_back malloc new_size (p ∷ ps) m =
    (some p, record m { memories = update new_size ps m.memories })

unfoldable pub get_memory : (ℕ → Option ℕ) → ℕ → Pool → Option ℕ × Pool
get_memory malloc size m =
    if leb (adjust_size size) largest
    then pop_back malloc (adjust_size size) (m.memories (adjust_size size)) m
    else allocate malloc (adjust_size size) m

unfoldable pub put_memory : Option ℕ → Pool → ResCode × Pool
put_memory none m = (s_fail, m)
put_memory (some p) m =
    if leb (m.block_size p) largest
    then (
      s_ok,
      record m { memories = update (m.block_size p) (p ∷ m.memories (m.block_size p)) m.memories },
    )
    else (s_ok, record m { freed = p ∷ m.freed })

unfoldable pub get_size : ℕ → Pool → ℕ × ResCode
get_size size m = (length (m.memories size), s_ok)

-- `free_memory` for one size: every block of the vector is freed and the vector emptied.
abbrev pub free_all : List ℕ → List ℕ → List ℕ
free_all [] freed = freed
free_all (p ∷ ps) freed = free_all ps (p ∷ freed)

unfoldable pub free_memory : ℕ → Pool → ResCode × Pool
free_memory size m = (
  s_ok,
  record m { memories = update size [] m.memories; freed = free_all (m.memories size) m.freed },
)

-- The sizes of the classes.
abbrev pub pool_sizes : List ℕ
pool_sizes =
    1024 / 2 ^ 3
    ∷ 1024 / 2 ^ 2
    ∷ 1024 / 2 ^ 1
    ∷ 1024
    ∷ 1024 * 2 ^ 1
    ∷ 1024 * 2 ^ 2
    ∷ 1024 * 2 ^ 3
    ∷ 1024 * 2 ^ 4
    ∷ 1024 * 2 ^ 5
    ∷ 1024 * 2 ^ 6
    ∷ 1024 * 2 ^ 7
    ∷ 1024 * 2 ^ 8
    ∷ 1024 * 2 ^ 9
    ∷ 1024 * 2 ^ 10
    ∷ 1024 * 2 ^ 11
    ∷ 1024 * 2 ^ 12
    ∷ 1024 * 2 ^ 13
    ∷ []

abbrev pub free_sizes : List ℕ → Pool → Pool
free_sizes [] m = m
free_sizes (size ∷ sizes) m = free_sizes sizes (free_memory size m).1

-- The destructor.
unfoldable pub delete_pool : Pool → Pool
delete_pool m = record (free_sizes pool_sizes m) { memories = λ size. [] }
