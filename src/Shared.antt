-- ===== src/Shared.antt =====
-- src/shared.h, src/shared.cc and src/shared_pointer.h: counted objects and the pointers to them. An
-- object is its number in the order of creation. A pointer is `none` when it is NULL.
pub mod Counting
use myjfm_spider.Prelude.{
  ℕ, zero, suc, ◌+◌, ◌-◌, ◌%◌, ◌^◌, Bool, true, false, ◌&&◌, Option, none, some, List, [], ◌∷◌, ltb,
  ◌==◌, if◌then◌else◌,
}

-- `Shared::_count`. Both calls run with the object's mutex locked.
unfoldable pub add_ref : ℕ → ℕ
add_ref count = (count + 1) % 2 ^ 32

-- The result, which is the new count, and the flag.
unfoldable pub dec_ref : ℕ → ℕ × Bool
dec_ref count = if ltb 0 count then (count - 1, true) else (count, false)

-- The memory: how many objects were created, their counts, the pointers that there are, and the
-- objects that a thread is about to delete and those that are deleted.
pub record Store : Type 0 where
  pub created : ℕ
  pub counts : ℕ → ℕ
  pub pointers : List ℕ
  pub deleting : List ℕ
  pub deleted : List ℕ

abbrev pub store_new : Store
store_new = record { created = 0; counts = λ n. 0; pointers = []; deleting = []; deleted = [] }

abbrev pub set_count : ℕ → ℕ → (ℕ → ℕ) → ℕ → ℕ
set_count a count counts n = if n == a then count else counts n

abbrev pub remove_one : ℕ → List ℕ → List ℕ
remove_one a [] = []
remove_one a (b ∷ xs) = let rest = remove_one a xs in if b == a then xs else b ∷ rest

-- A pointer from a pointer or from an object, and the last part of an assignment: INC_REF.
unfoldable pub copy_pointer : Option ℕ → Store → Store
copy_pointer none s = s
copy_pointer (some a) s = record s {
  counts = set_count a (add_ref (s.counts a)) s.counts;
  pointers = a ∷ s.pointers;
}

-- `SharedPointer<T>(new T())`: the count of a new object is 0.
unfoldable pub make_pointer : Store → Store
unfolding copy_pointer
make_pointer s =
    copy_pointer (some s.created)
      (record s { created = suc s.created; counts = set_count s.created 0 s.counts })

-- The destructor up to `delete`, and the first part of an assignment.
unfoldable pub drop_pointer : Option ℕ → Store → Store
drop_pointer none s = s
drop_pointer (some a) s =
    let r = dec_ref (s.counts a) in
    record s {
      counts = set_count a r.0 s.counts;
      pointers = remove_one a s.pointers;
      deleting = if (r.0 == 0) && r.1 then a ∷ s.deleting else s.deleting;
    }

-- `delete _p`.
unfoldable pub delete_object : ℕ → Store → Store
delete_object a s = record s { deleting = remove_one a s.deleting; deleted = a ∷ s.deleted }
