-- ===== src/Shared/Counting.antt =====
-- src/shared_pointer.h: when objects are deleted, over all interleavings.
use myjfm_spider.Prelude.{
  ℕ, ◌+◌, ◌-◌, ◌^◌, ◌≤◌, ◌<◌, ◌≡◌, refl, ap, ◌∙◌, true, ◌&&◌, some, List, [], ◌∷◌, arith, ltb, ◌==◌,
  if◌then◌else◌, length, Bool-cases, inl, inr,
}
use myjfm_spider.Shared.{
  Store, store_new, add_ref, dec_ref, remove_one, copy_pointer, make_pointer, drop_pointer,
  delete_object,
}

-- How often an object stands in a list.
abbrev pub occurs : ℕ → List ℕ → ℕ
occurs a [] = 0
occurs a (b ∷ xs) = (if b == a then 1 else 0) + occurs a xs

-- The steps of any number of threads. A pointer is copied from one that there is, and there are less
-- than 2 ^ 32 pointers.
pub data Reachable : Store → Type 0 where
  start : Reachable store_new
  makes : {s : Store} → Reachable s → length s.pointers + 1 < 2 ^ 32 → Reachable (make_pointer s)
  copies :
      {s : Store} (a : ℕ)
      → Reachable s
      → 0 < occurs a s.pointers
      → length s.pointers + 1 < 2 ^ 32
      → Reachable (copy_pointer (some a) s)
  drops :
      {s : Store} (a : ℕ)
      → Reachable s
      → 0 < occurs a s.pointers
      → Reachable (drop_pointer (some a) s)
  deletes :
      {s : Store} (a : ℕ) → Reachable s → 0 < occurs a s.deleting → Reachable (delete_object a s)

-- What holds of an object that was created.
abbrev pub ends : ℕ → Store → ℕ
ends a s = occurs a s.deleting + occurs a s.deleted

pub record IsCounted (s : Store) : Type 0 where
  pub counted : (a : ℕ) → s.counts a ≡ occurs a s.pointers
  pub ended : (a : ℕ) → a < s.created → ends a s ≡ (if occurs a s.pointers == 0 then 1 else 0)
  pub fresh : (a : ℕ) → s.created ≤ a → (occurs a s.pointers ≡ 0) × (ends a s ≡ 0)

occurs-length : (a : ℕ) (xs : List ℕ) → occurs a xs ≤ length xs
occurs-length a [] = omega arith
occurs-length a (b ∷ xs) = ground (arith, occurs-length a xs)

occurs-remove_one :
    (a b : ℕ) (xs : List ℕ)
    → 0 < occurs a xs
    → occurs b (remove_one a xs) + (if a == b then 1 else 0) ≡ occurs b xs
occurs-remove_one a b [] pos = absurd (omega arith)
occurs-remove_one a b (x ∷ xs) pos = elim (Bool-cases (x == a)) [
  | inl e ↦ ground (arith, e)
  | inr e ↦
      let pos' : 0 < occurs a xs = ground (arith, e, pos) in
      let ih = occurs-remove_one a b xs pos' in ground (arith, e, ih)
]

copies-IsCounted :
    (a : ℕ) (s : Store)
    → IsCounted s
    → 0 < occurs a s.pointers
    → length s.pointers + 1 < 2 ^ 32
    → IsCounted (copy_pointer (some a) s)
unfolding copy_pointer add_ref
copies-IsCounted a s c pos room =
    let few = occurs-length a s.pointers in
    record {
      counted = λ b. let e = c.counted b in let f = c.counted a in ground (arith, e, f, few, room);
      ended = λ b h. let e = c.ended b h in ground (arith, e, pos);
      fresh = λ b h. let e = c.fresh b h in ground (arith, e.0, e.1, pos);
    }

makes-IsCounted :
    (s : Store) → IsCounted s → length s.pointers + 1 < 2 ^ 32 → IsCounted (make_pointer s)
unfolding make_pointer copy_pointer add_ref
makes-IsCounted s c room =
    let f = c.fresh s.created (omega arith) in
    record {
      counted = λ b. let e = c.counted b in ground (arith, e, f.0);
      ended = λ b h. elim (Bool-cases (s.created == b)) [
        | inl z ↦ let g = c.fresh b (ground (arith, z)) in ground (arith, z, g.0, g.1)
        | inr z ↦ let e = c.ended b (ground (arith, h, z)) in ground (arith, e, z)
      ];
      fresh = λ b h. let e = c.fresh b (omega (arith, h)) in ground (arith, e.0, e.1, h);
    }

dec_ref-pos : (n : ℕ) → 0 < n → dec_ref n ≡ (n - 1, true)
unfolding dec_ref
dec_ref-pos n pos = let e : ltb 0 n ≡ true = ground arith in rw e refl

module _ (a b : ℕ) (s : Store) (same : s.counts a ≡ occurs a s.pointers)
    (pos : 0 < occurs a s.pointers) where
  -- The objects to delete behind a drop: the object too, where the pointer was its last one.
  occurs-deleting :
      occurs b (drop_pointer (some a) s).deleting
      ≡ occurs b s.deleting + (if (a == b) && (occurs a s.pointers == 1) then 1 else 0)
  unfolding drop_pointer
  occurs-deleting =
      let n = occurs a s.pointers in
      ap (λ r. occurs b (if (r.0 == 0) && r.1 then a ∷ s.deleting else s.deleting))
        (ap dec_ref same ∙ dec_ref-pos n pos)
      ∙ ground (arith, pos)

  occurs-pointers :
      occurs b (drop_pointer (some a) s).pointers + (if a == b then 1 else 0) ≡ occurs b s.pointers
  unfolding drop_pointer
  occurs-pointers = occurs-remove_one a b s.pointers pos

  occurs-deleted : occurs b (drop_pointer (some a) s).deleted ≡ occurs b s.deleted
  unfolding drop_pointer
  occurs-deleted = refl

  drop_pointer-counts :
      (drop_pointer (some a) s).counts b ≡ (if b == a then s.counts a - 1 else s.counts b)
  unfolding drop_pointer dec_ref
  drop_pointer-counts = ground (arith, same, pos)

  drop_pointer-created : (drop_pointer (some a) s).created ≡ s.created
  unfolding drop_pointer
  drop_pointer-created = refl

drops-IsCounted :
    (a : ℕ) (s : Store)
    → IsCounted s
    → 0 < occurs a s.pointers
    → IsCounted (drop_pointer (some a) s)
drops-IsCounted a s c pos = record {
  counted = λ b.
      let e = c.counted b in
      let f = c.counted a in
      let p = occurs-pointers a b s (c.counted a) pos in
      let k = drop_pointer-counts a b s (c.counted a) pos in
      elim (Bool-cases (a == b)) [
        | inl z ↦
            let w : occurs a s.pointers ≡ occurs b s.pointers =
              ap (λ x. occurs x s.pointers) (ground (arith, z)) in
            ground (arith, e, f, k, p, z, w, pos)
        | inr z ↦ ground (arith, e, k, p, z)
      ];
  ended = λ b h.
      let t = drop_pointer-created a b s (c.counted a) pos in
      let e = c.ended b (omega (arith, h, t)) in
      let p = occurs-pointers a b s (c.counted a) pos in
      let d = occurs-deleting a b s (c.counted a) pos in
      let d' = occurs-deleted a b s (c.counted a) pos in
      elim (Bool-cases (a == b)) [
        | inl z ↦
            let w : occurs a s.pointers ≡ occurs b s.pointers =
              ap (λ x. occurs x s.pointers) (ground (arith, z)) in
            ground (arith, e, p, d, d', z, w, pos)
        | inr z ↦ ground (arith, e, p, d, d', z)
      ];
  fresh = λ b h.
      let t = drop_pointer-created a b s (c.counted a) pos in
      let e = c.fresh b (omega (arith, h, t)) in
      let p = occurs-pointers a b s (c.counted a) pos in
      let d = occurs-deleting a b s (c.counted a) pos in
      let d' = occurs-deleted a b s (c.counted a) pos in
      elim (Bool-cases (a == b)) [
        | inl z ↦ absurd (ground (arith, e.0, p, z))
        | inr z ↦ ground (arith, e.0, e.1, p, d, d', z)
      ];
}

deletes-IsCounted :
    (a : ℕ) (s : Store) → IsCounted s → 0 < occurs a s.deleting → IsCounted (delete_object a s)
unfolding delete_object
deletes-IsCounted a s c pos = record {
  counted = c.counted;
  ended = λ b h.
      let e = c.ended b h in let r = occurs-remove_one a b s.deleting pos in omega (arith, e, r);
  fresh = λ b h.
      let e = c.fresh b h in
      let r = occurs-remove_one a b s.deleting pos in (e.0, omega (arith, e.1, r));
}

-- However the threads make, copy, drop and delete, where a pointer is copied from one that there is
-- and there are less than 2 ^ 32: the count of an object is the number of its pointers; an object that
-- was created and has a pointer is neither deleted nor about to be; one that has none left is deleted
-- or about to be, and that just once; and no other number is touched.
pub Reachable-IsCounted : (s : Store) → Reachable s → IsCounted s
Reachable-IsCounted _ start = record {
  counted = λ a. refl;
  ended = λ a h. absurd (omega (arith, h));
  fresh = λ a h. (refl, refl);
}
Reachable-IsCounted _ (makes {s} r room) = makes-IsCounted s (Reachable-IsCounted s r) room
Reachable-IsCounted _ (copies {s} a r pos room) =
    copies-IsCounted a s (Reachable-IsCounted s r) pos room
Reachable-IsCounted _ (drops {s} a r pos) = drops-IsCounted a s (Reachable-IsCounted s r) pos
Reachable-IsCounted _ (deletes {s} a r pos) = deletes-IsCounted a s (Reachable-IsCounted s r) pos
