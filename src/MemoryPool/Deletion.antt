-- ===== src/MemoryPool/Deletion.antt =====
-- src/memory_pool.cc: the destructor.
use myjfm_spider.Prelude.{
  ℕ, suc, ◌+◌, ◌^◌, ◌%◌, ◌≡◌, ◌≢◌, Bool, ltb, ◌≤◌, ◌<◌, inl, inr, refl, ap, ◌∙◌, subst, true,
  Option, none, some, List, [], ◌∷◌, leb, ◌==◌, arith, Bool-cases,
}
use myjfm_spider.MemoryPool.{
  Pool, pool_new, largest, adjust_size, label, pop_back, get_memory, put_memory, free_all,
  free_memory, pool_sizes, free_sizes, delete_pool,
}
use myjfm_spider.MemoryPool.Ownership.{
  count, without, IsOwned, take_block, Reachable, start, then_, gets, puts, puts_null,
  count-without, count-without_self, Reachable-IsOwned,
}

-- Whether the destructor frees blocks of a size.
is_class : ℕ → Bool
is_class k = ltb 0 (count k pool_sizes)

is_class-adjust_size : (size : ℕ) → adjust_size size ≤ largest → is_class (adjust_size size) ≡ true
unfolding is_class adjust_size count
is_class-adjust_size size h = ground (arith, h)

is_class-count : (k : ℕ) → is_class k ≡ true → 0 < count k pool_sizes
unfolding is_class
is_class-count k e = ground (arith, e)

count-free_all :
    (p : ℕ) (ps freed : List ℕ) → count p (free_all ps freed) ≡ count p ps + count p freed
unfolding count
count-free_all p [] freed = omega arith
count-free_all p (q ∷ ps) freed = ground (arith, count-free_all p ps (q ∷ freed))

module _ (p size : ℕ) (m : Pool) where
  free_memory-freed :
      count p (free_memory size m).1.freed ≡ count p (m.memories size) + count p m.freed
  unfolding free_memory
  free_memory-freed = count-free_all p (m.memories size) m.freed

  free_memory-none :
      (k : ℕ) → count p (m.memories k) ≡ 0 → count p ((free_memory size m).1.memories k) ≡ 0
  unfolding free_memory count
  free_memory-none k e = ground (arith, e)

  free_memory-here : count p ((free_memory size m).1.memories size) ≡ 0
  unfolding free_memory count
  free_memory-here = ground arith

  free_memory-other : (k : ℕ) → k ≢ size → (free_memory size m).1.memories k ≡ m.memories k
  unfolding free_memory
  free_memory-other k ne = ground (arith, ne)

free_sizes-others :
    (p : ℕ) (sizes : List ℕ) (m : Pool)
    → ((k : ℕ) → count p (m.memories k) ≡ 0)
    → count p (free_sizes sizes m).freed ≡ count p m.freed
free_sizes-others p [] m h = refl
free_sizes-others p (size ∷ sizes) m h =
    free_sizes-others p sizes (free_memory size m).1 (λ k. free_memory-none p size m k (h k))
    ∙ (free_memory-freed p size m ∙ omega (arith, h size))

-- A block that is free once, in one class.
record IsOnly (p k : ℕ) (m : Pool) : Type 0 where
  at_class : count p (m.memories k) ≡ 1
  elsewhere : (j : ℕ) → j ≢ k → count p (m.memories j) ≡ 0

free_memory-IsOnly :
    (p k size : ℕ) (m : Pool) → size ≢ k → IsOnly p k m → IsOnly p k (free_memory size m).1
free_memory-IsOnly p k size m ne h = record {
  at_class = ap (count p) (free_memory-other p size m k (λ e. ne (ground (arith, e)))) ∙ h.at_class;
  elsewhere = λ j other. free_memory-none p size m j (h.elsewhere j other);
}

free_memory-empty :
    (p size : ℕ) (m : Pool)
    → IsOnly p size m
    → (j : ℕ) → count p ((free_memory size m).1.memories j) ≡ 0
free_memory-empty p size m h j = elim (Bool-cases (j == size)) [
  | inl e ↦ ground (arith, e, free_memory-here p size m)
  | inr e ↦ free_memory-none p size m j (h.elsewhere j (λ f. ground (arith, e, f)))
]

free_sizes-IsOnly :
    (p k : ℕ) (sizes : List ℕ) (m : Pool)
    → IsOnly p k m
    → 0 < count k sizes
    → count p (free_sizes sizes m).freed ≡ suc (count p m.freed)
unfolding count
free_sizes-IsOnly p k [] m h pos = absurd (omega (arith, pos))
free_sizes-IsOnly p k (size ∷ sizes) m h pos = elim (Bool-cases (size == k)) [
  | inl e ↦
      let same : k ≡ size = ground (arith, e) in
      let only = subst (λ j. IsOnly p j m) same h in
      free_sizes-others p sizes (free_memory size m).1 (free_memory-empty p size m only)
      ∙ (free_memory-freed p size m ∙ omega (arith, only.at_class))
  | inr e ↦
      let other : size ≢ k = λ f. ground (arith, e, f) in
      free_sizes-IsOnly p k sizes (free_memory size m).1 (free_memory-IsOnly p k size m other h)
        (ground (arith, pos, e))
      ∙ ap suc (free_memory-freed p size m ∙ omega (arith, h.elsewhere size other))
]

-- The classes of the blocks.
record IsClassed (m : Pool) (held : List ℕ) : Type 0 where
  of_free : (k p : ℕ) → 0 < count p (m.memories k) → is_class k ≡ true
  of_held : (p : ℕ) → 0 < count p held → m.block_size p ≤ largest → is_class (m.block_size p) ≡ true

module _ (m : Pool) (held : List ℕ) (owned : IsOwned m held) (c : IsClassed m held) where
  label-IsClassed :
      (size : ℕ) (got : Option ℕ)
      → (size ≤ largest → is_class size ≡ true)
      → IsClassed (label size got m).1 (take_block (label size got m).0 held)
  unfolding count
  label-IsClassed size none classed = c
  label-IsClassed size (some p) classed = record {
    of_free = c.of_free;
    of_held = λ q pos small. ground (arith, c.of_held q, classed, pos, small);
  }

  pop_back-IsClassed :
      (malloc : ℕ → Option ℕ) (size : ℕ) (blocks : List ℕ)
      → m.memories size ≡ blocks
      → is_class size ≡ true
      → IsClassed
          (pop_back malloc size blocks m).1
          (take_block (pop_back malloc size blocks m).0 held)
  unfolding count
  pop_back-IsClassed malloc size [] e classed =
      label-IsClassed size (malloc ((size + 4) % 2 ^ 32)) (λ s. classed)
  pop_back-IsClassed malloc size (p ∷ ps) e classed = record {
    of_free = λ k q pos. ground (arith, c.of_free k q, classed, pos);
    of_held = λ q pos small.
        ground (arith, c.of_held q, classed, owned.sized size q, ap (count q) e, pos, small);
  }

  get_memory-IsClassed :
      (malloc : ℕ → Option ℕ) (size : ℕ)
      → IsClassed (get_memory malloc size m).1 (take_block (get_memory malloc size m).0 held)
  unfolding get_memory
  get_memory-IsClassed malloc size = elim (Bool-cases (leb (adjust_size size) largest)) [
    | inl e ↦ rw e (
        pop_back-IsClassed malloc (adjust_size size) (m.memories (adjust_size size)) refl
          (is_class-adjust_size size (ground (arith, e))))
    | inr e ↦ rw e (
        label-IsClassed (adjust_size size) (malloc ((adjust_size size + 4) % 2 ^ 32))
          (is_class-adjust_size size))
  ]

  put_memory-IsClassed :
      (p : ℕ) → 0 < count p held → IsClassed (put_memory (some p) m).1 (without p held)
  unfolding put_memory count
  put_memory-IsClassed p pos = record {
    of_free = λ k q inside. ground (arith, c.of_free k q, c.of_held p pos, inside);
    of_held = λ q inside small.
        ground (
          arith,
          c.of_held q,
          count-without p q held,
          count-without_self p held pos,
          inside,
          small,
        );
  }

  put_null-IsClassed : IsClassed (put_memory none m).1 held
  unfolding put_memory
  put_null-IsClassed = c

start-IsClassed : IsClassed pool_new []
unfolding count
start-IsClassed = record {
  of_free = λ k p pos. absurd (omega (arith, pos));
  of_held = λ p pos. absurd (omega (arith, pos));
}

Reachable-IsClassed : (m : Pool) (held : List ℕ) → Reachable m held → IsClassed m held
Reachable-IsClassed m held start = start-IsClassed
Reachable-IsClassed m held (then_ r (gets malloc size fresh)) =
    get_memory-IsClassed _ _ (Reachable-IsOwned _ _ r) (Reachable-IsClassed _ _ r) malloc size
Reachable-IsClassed m held (then_ r (puts p pos)) =
    put_memory-IsClassed _ _ (Reachable-IsOwned _ _ r) (Reachable-IsClassed _ _ r) p pos
Reachable-IsClassed m held (then_ r puts_null) =
    put_null-IsClassed _ _ (Reachable-IsOwned _ _ r) (Reachable-IsClassed _ _ r)

-- The block that is free in one class is free in no other.
owned-IsOnly :
    (m : Pool) (held : List ℕ) (k p : ℕ)
    → IsOwned m held
    → 0 < count p (m.memories k)
    → IsOnly p k m
owned-IsOnly m held k p owned pos = record {
  at_class = omega (arith, owned.once k p, pos);
  elsewhere = λ j other. ground (arith, owned.sized j p, owned.sized k p, pos, other);
}

module _ (m : Pool) (held : List ℕ) (r : Reachable m held) (p : ℕ) where
  delete_pool-free :
      (k : ℕ) → 0 < count p (m.memories k) → count p (delete_pool m).freed ≡ suc (count p m.freed)
  unfolding delete_pool
  delete_pool-free k pos =
      free_sizes-IsOnly p k pool_sizes m (owned-IsOnly m held k p (Reachable-IsOwned m held r) pos)
        (is_class-count k ((Reachable-IsClassed m held r).of_free k p pos))

  delete_pool-others :
      ((k : ℕ) → count p (m.memories k) ≡ 0) → count p (delete_pool m).freed ≡ count p m.freed
  unfolding delete_pool
  delete_pool-others h = free_sizes-others p pool_sizes m h

-- After any calls, where a caller gives back only blocks that it holds and malloc returns no block in
-- use: the destructor frees every block that is free in the pool, whatever its size, just once, and
-- frees no other block, in particular none that a caller holds.
pub delete_pool-frees :
    (m : Pool) (held : List ℕ)
    → Reachable m held
    → ((k p : ℕ)
        → 0 < count p (m.memories k)
        → count p (delete_pool m).freed ≡ suc (count p m.freed))
      × ((p : ℕ)
          → ((k : ℕ) → count p (m.memories k) ≡ 0)
          → count p (delete_pool m).freed ≡ count p m.freed)
      × ((p : ℕ) → 0 < count p held → count p (delete_pool m).freed ≡ count p m.freed)
delete_pool-frees m held r = (
  λ k p pos. delete_pool-free m held r p k pos,
  λ p none_free. delete_pool-others m held r p none_free,
  λ p pos.
      delete_pool-others m held r p
        (λ k. omega (arith, (Reachable-IsOwned m held r).once k p, pos)),
)
