-- ===== src/Socket.antt =====
-- The connected socket that src/downloader_task.cc reads from. A socket is the list of what its
-- next reads find: a segment is the bytes that have arrived by then, and an empty segment is a read
-- that returns 0 or -1 (the peer closed, an error, a timeout). After the last segment every read
-- returns 0.
pub mod Laws
use myjfm_spider.Prelude.{
  ℕ, zero, suc, ◌+◌, Option, none, some, List, [], ◌∷◌, ◌++◌, length, take, drop,
}

abbrev pub Socket : Type 0
Socket = List (List ℕ)

-- The bytes of a segment that a read has not taken stay in front.
abbrev pub put_back : List ℕ → Socket → Socket
put_back [] s = s
put_back (b ∷ bs) s = (b ∷ bs) ∷ s

-- `read(fd, buffer, n)` for 0 < n: at most n of the bytes at hand.
unfoldable pub read : ℕ → Socket → Option (List ℕ) × Socket
read n [] = (none, [])
read n ([] ∷ s) = (none, s)
read n ((b ∷ bs) ∷ s) = (some (take n (b ∷ bs)), put_back (drop n (b ∷ bs)) s)

-- All the bytes that will arrive, however they are cut into segments.
unfoldable pub flat : Socket → List ℕ
flat [] = []
flat (b ∷ s) = b ++ flat s

-- An upper bound on the number of reads until the end.
unfoldable pub weight : Socket → ℕ
weight [] = 0
weight (b ∷ s) = suc (length b + weight s)

-- No read fails before all the bytes have arrived.
abbrev pub Flows : Socket → Type 0
Flows [] = Unit {0}
Flows ([] ∷ s) = ⊥
Flows ((b ∷ bs) ∷ s) = Flows s
