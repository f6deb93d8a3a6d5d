-- ===== src/Tests/Pointers.antt =====
-- src/shared_pointer.h: an object with two pointers, and the theorem on counts applied.
use myjfm_spider.Prelude.{◌≡◌, refl, some, [], ◌∷◌, arith}
use myjfm_spider.Shared.{
  Store, store_new, add_ref, dec_ref, make_pointer, copy_pointer, drop_pointer, delete_object,
}
use myjfm_spider.Shared.Counting.{
  start, makes, copies, drops, deletes, IsCounted, Reachable-IsCounted,
}

abbrev all_dropped : Store
all_dropped =
    drop_pointer (some 0) (drop_pointer (some 0) (copy_pointer (some 0) (make_pointer store_new)))

Reachable-IsCounted_example : IsCounted (delete_object 0 all_dropped)
unfolding make_pointer copy_pointer drop_pointer delete_object add_ref dec_ref
Reachable-IsCounted_example = Reachable-IsCounted (delete_object 0 all_dropped) (
    deletes 0
      (drops 0
        (drops 0 (copies 0 (makes start (omega arith)) (omega arith) (omega arith)) (omega arith))
        (omega arith))
      (omega arith))

deleted_once : (delete_object 0 all_dropped).deleted ≡ 0 ∷ []
unfolding make_pointer copy_pointer drop_pointer delete_object add_ref dec_ref
deleted_once = refl
