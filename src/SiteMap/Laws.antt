-- ===== src/SiteMap/Laws.antt =====
-- Lookups behind changes of the map of src/downloader_task.cc.
use myjfm_spider.Prelude.{
  ℕ, ◌≡◌, refl, sym, ap, ◌∙◌, true, false, none, some, List, [], ◌∷◌, arith, if◌then◌else◌,
  bytes_eq, bytes_eq_iff, bytes_eq_refl, Bool-cases, inl, inr,
}
use myjfm_spider.SiteMap.{SiteMap, find_key, store_key, erase_key}

-- Two keys that differ at one place of a text.
apart :
    (key site other : List ℕ)
    → bytes_eq key site ≡ false
    → bytes_eq key other ≡ true
    → bytes_eq site other ≡ false
apart key site other e f = elim (Bool-cases (bytes_eq site other)) [
  | inl t ↦
      let same : key ≡ site = (bytes_eq_iff key other).0 f ∙ sym ((bytes_eq_iff site other).0 t) in
      let yes_ : bytes_eq key site ≡ true = (bytes_eq_iff key site).1 same in
      absurd (ground (arith, e, yes_))
  | inr g ↦ g
]

alike :
    (key site other : List ℕ) → bytes_eq key site ≡ true → bytes_eq key other ≡ bytes_eq site other
alike key site other e = ap (λ k. bytes_eq k other) ((bytes_eq_iff key site).0 e)

pub find_key-store_key :
    {A : Type 0} (m : SiteMap A) (site : List ℕ) (fd : A) (other : List ℕ)
    → find_key other (store_key site fd m)
      ≡ (if bytes_eq site other then some fd else find_key other m)
unfolding find_key store_key
find_key-store_key [] site fd other = refl
find_key-store_key ((key, old) ∷ m) site fd other = elim (Bool-cases (bytes_eq key site)) [
  | inl e ↦ ground (arith, e, alike key site other e)
  | inr e ↦
      let ih = find_key-store_key m site fd other in
      elim (Bool-cases (bytes_eq key other)) [
        | inl f ↦ let ne = apart key site other e f in ground (arith, e, f, ne)
        | inr f ↦ ground (arith, e, f, ih)
      ]
]

pub find_key-erase_key :
    {A : Type 0} (m : SiteMap A) (site other : List ℕ)
    → find_key other (erase_key site m) ≡ (if bytes_eq site other then none else find_key other m)
unfolding find_key erase_key
find_key-erase_key [] site other = ground arith
find_key-erase_key ((key, old) ∷ m) site other =
    let ih = find_key-erase_key m site other in
    elim (Bool-cases (bytes_eq key site)) [
      | inl e ↦ ground (arith, e, ih, alike key site other e)
      | inr e ↦ elim (Bool-cases (bytes_eq key other)) [
        | inl f ↦ let ne = apart key site other e f in ground (arith, e, f, ne)
        | inr f ↦ ground (arith, e, f, ih)
      ]
    ]

pub find_key-erase_key_self :
    {A : Type 0} (m : SiteMap A) (site : List ℕ) → find_key site (erase_key site m) ≡ none
find_key-erase_key_self m site =
    find_key-erase_key m site site
    ∙ ap (λ b. if b then none else find_key site m) (bytes_eq_refl site)
