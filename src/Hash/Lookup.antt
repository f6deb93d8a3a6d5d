-- ===== src/Hash/Lookup.antt =====
-- src/hash.h: what a lookup answers after an insertion.
use myjfm_spider.Prelude.{
  ◌≤◌, ◌<◌, ◌≡◌, refl, ◌≢◌, true, false, List, [], ◌∷◌, arith, if◌then◌else◌, length, get_or, set,
  get_or-set_self, get_or-set_ne, ◌==◌, ap,
}
use myjfm_spider.ResCode.{s_ok, s_exist, s_not_exist}
use myjfm_spider.Hash.{HashKey, Hash, get_key, bucket, chain_has, link, insert, is_exist}
use myjfm_spider.Hash.Laws.{IsLawful, IsFlat}

module _ {ℓ} {A : Type ℓ} ⦃key : HashKey A⦄ (lawful : IsLawful key) where
  chain_has_congr : (v w : A) (b : List A) → key.equals v w ≡ true → chain_has v b ≡ chain_has w b
  unfolding chain_has
  chain_has_congr v w [] e = refl
  chain_has_congr v w (x ∷ xs) e = ground (
    arith,
    chain_has_congr v w xs e,
    lawful.equals_symm x v,
    lawful.equals_symm x w,
    lawful.equals_trans v w x e,
  )

  -- The chain that `insert` leaves behind in a bucket of at most one node.
  chain_has-link : (v w : A) (b : List A) → length b ≤ 1 → chain_has w (link v b) ≡ key.equals v w
  unfolding chain_has link
  chain_has-link v w [] le = ground arith
  chain_has-link v w (x ∷ []) le = ground arith
  chain_has-link v w (x ∷ y ∷ xs) le = absurd (omega arith)

  get_key_congr : (h : Hash A) (v w : A) → key.equals v w ≡ true → get_key h v ≡ get_key h w
  unfolding get_key
  get_key_congr h v w e = rw (lawful.hasher-equals v w e)

  get_key-lt : (h : Hash A) (v : A) → 0 < h.buckets_size → get_key h v < h.buckets_size
  unfolding get_key
  get_key-lt h v pos = grind arith

  module _ (h : Hash A) (f : IsFlat h) (v w : A)
      (fresh : chain_has v (bucket h (get_key h v)) ≡ false) where
    same_bucket :
        get_key h v ≡ get_key h w
        → chain_has w (
            get_or (set h.buckets (get_key h v) (link v (bucket h (get_key h v)))) (get_key h w) [])
          ≡ key.equals v w
    same_bucket e = rw (← e) (
        rw
          (get_or-set_self h.buckets (get_key h v) (link v (bucket h (get_key h v))) []
            (rw f.sized (get_key-lt h v f.pos)))
          (chain_has-link v w _ (f.flat (get_key h v))))

    other_bucket :
        get_key h v ≢ get_key h w
        → chain_has w (
            get_or (set h.buckets (get_key h v) (link v (bucket h (get_key h v)))) (get_key h w) [])
          ≡ chain_has w (bucket h (get_key h w))
    other_bucket ne = ap (chain_has w) (get_or-set_ne h.buckets (get_key h v) (get_key h w) _ [] ne)

    -- The chain that a lookup of `w` walks after the insertion.
    walked_after : chain_has w (bucket (insert v h).1 (get_key (insert v h).1 w)) ≡ (
        if key.equals v w
        then true
        else if get_key h v == get_key h w
        then false
        else chain_has w (bucket h (get_key h w)))
    unfolding insert
    walked_after = rw fresh (ground (arith, same_bucket, other_bucket, get_key_congr h v w))

  -- Inserting a value that the table does not hold returns S_OK. A lookup then finds that value.
  -- Every other value that falls into the same bucket is reported as missing, also one that was
  -- found before. A value of another bucket is answered as before.
  pub is_exist-insert :
      (h : Hash A) (v w : A)
      → IsFlat h
      → is_exist v h ≡ s_not_exist
      → ((insert v h).0 ≡ s_ok)
        × (is_exist w (insert v h).1 ≡ (
            if key.equals v w
            then s_exist
            else if get_key h v == get_key h w
            then s_not_exist
            else is_exist w h))
  unfolding is_exist insert
  is_exist-insert h v w f missing =
      let fresh : chain_has v (bucket h (get_key h v)) ≡ false = ground arith in
      ground (arith, fresh, walked_after h f v w fresh)
