-- ===== src/Dnser/Entries.antt =====
-- src/dnser_task.cc: an entry of the table that has no query, and changes of the table.
use myjfm_spider.Prelude.{
  or_else, ℕ, ◌≡◌, refl, sym, ap, ◌∙◌, subst, Bool, true, false, ◌||◌, none, some, List, [], ◌∷◌,
  ◌++◌, append_assoc, arith, if◌then◌else◌, bytes_eq, bytes_eq_iff, Bool-cases, inl, inr,
}
use myjfm_spider.SiteMap.{SiteMap, find_key, store_key, erase_key}
use myjfm_spider.SiteMap.Laws.{find_key-store_key, find_key-erase_key}
use myjfm_spider.Url.{Url}
use myjfm_spider.Dnser.{DnserTask, url_site, remove_first}

abbrev pub is_asked : List ℕ → List (List ℕ) → Bool
is_asked site [] = false
is_asked site (s ∷ ss) = bytes_eq s site || is_asked site ss

abbrev pub AllSite : List ℕ → List Url → Type 0
AllSite key [] = Unit {0}
AllSite key (u ∷ us) = (url_site u ≡ key) × AllSite key us

-- Every entry has urls of its own site.
abbrev pub IsKeyed : SiteMap (List Url) → Type 0
IsKeyed t = (key : List ℕ) (vs : List Url) → find_key key t ≡ some vs → AllSite key vs

-- The entry of `site` has the urls `us`, and maybe more behind them, and no query.
pub record IsStuck (site : List ℕ) (us : List Url) (t : SiteMap (List Url)) (asked : List (List ℕ))
    : Type 0 where
  pub more : List Url
  pub entry : find_key site t ≡ some (us ++ more)
  pub unasked : is_asked site asked ≡ false
  pub keyed : IsKeyed t

abbrev pub StuckIn : List ℕ → List Url → DnserTask → Type 0
StuckIn site us d = IsStuck site us d.is_dnsing_lutable d.asked

pub AllSite-append :
    (key : List ℕ) (us vs : List Url) → AllSite key us → AllSite key vs → AllSite key (us ++ vs)
AllSite-append key [] vs p q = q
AllSite-append key (u ∷ us) vs p q = (p.0, AllSite-append key us vs p.1 q)

is_asked-append :
    (site s : List ℕ) (asked : List (List ℕ))
    → is_asked site asked ≡ false
    → bytes_eq s site ≡ false
    → is_asked site (asked ++ s ∷ []) ≡ false
is_asked-append site s [] p q = ground (arith, q)
is_asked-append site s (x ∷ asked) p q =
    let here : bytes_eq x site ≡ false = ground (arith, p) in
    let rest : is_asked site asked ≡ false = ground (arith, p) in
    let ih = is_asked-append site s asked rest q in ground (arith, here, ih)

pub is_asked-remove_first :
    (site s : List ℕ) (asked : List (List ℕ))
    → is_asked site asked ≡ false
    → is_asked site (remove_first s asked) ≡ false
is_asked-remove_first site s [] p = refl
is_asked-remove_first site s (x ∷ asked) p =
    let here : bytes_eq x site ≡ false = ground (arith, p) in
    let rest : is_asked site asked ≡ false = ground (arith, p) in
    let ih = is_asked-remove_first site s asked rest in
    elim (Bool-cases (bytes_eq x s)) [ inl e ↦ rw e rest | inr e ↦ rw e (ground (arith, here, ih)) ]

-- A site that has a query is another one.
pub asked-apart :
    (site s : List ℕ) (asked : List (List ℕ))
    → is_asked site asked ≡ false
    → is_asked s asked ≡ true
    → bytes_eq s site ≡ false
asked-apart site s asked p q = elim (Bool-cases (bytes_eq s site)) [
  | inl e ↦
      let same = ap (λ x. is_asked x asked) ((bytes_eq_iff s site).0 e) in
      absurd (ground (arith, p, q, same))
  | inr e ↦ e
]

pub store-IsKeyed :
    (t : SiteMap (List Url)) (s : List ℕ) (vs : List Url)
    → IsKeyed t
    → AllSite s vs
    → IsKeyed (store_key s vs t)
store-IsKeyed t s vs keyed all key ws e =
    let found = sym (find_key-store_key t s vs key) ∙ e in
    elim (Bool-cases (bytes_eq s key)) [
      | inl f ↦
          let same : vs ≡ ws =
            ap (or_else vs) (sym (ap (λ b. if b then some vs else find_key key t) f) ∙ found) in
          subst (λ k. AllSite k ws) ((bytes_eq_iff s key).0 f) (subst (AllSite s) same all)
      | inr f ↦ keyed key ws (sym (ap (λ b. if b then some vs else find_key key t) f) ∙ found)
    ]

module _ (site : List ℕ) (us : List Url) (t : SiteMap (List Url)) (asked : List (List ℕ))
    (is : IsStuck site us t asked) where
  -- Another entry changes.
  pub store-IsStuck :
      (s : List ℕ) (vs : List Url)
      → bytes_eq s site ≡ false
      → AllSite s vs
      → IsStuck site us (store_key s vs t) asked
  store-IsStuck s vs ne all = record {
    more = is.more;
    entry =
        find_key-store_key t s vs site
        ∙ ap (λ b. if b then some vs else find_key site t) ne
        ∙ is.entry;
    unasked = is.unasked;
    keyed = store-IsKeyed t s vs is.keyed all;
  }

  pub ask-IsStuck : (s : List ℕ) → bytes_eq s site ≡ false → IsStuck site us t (asked ++ s ∷ [])
  ask-IsStuck s ne = record {
    more = is.more;
    entry = is.entry;
    unasked = is_asked-append site s asked is.unasked ne;
    keyed = is.keyed;
  }

  pub erase-IsStuck : (s : List ℕ) → bytes_eq s site ≡ false → IsStuck site us (erase_key s t) asked
  erase-IsStuck s ne = record {
    more = is.more;
    entry =
        find_key-erase_key t s site ∙ ap (λ b. if b then none else find_key site t) ne ∙ is.entry;
    unasked = is.unasked;
    keyed = λ key ws e. elim (Bool-cases (bytes_eq s key)) [
      | inl f ↦
          let gone : none ≡ some ws =
            sym (find_key-erase_key t s key ∙ ap (λ b. if b then none else find_key key t) f) ∙ e in
          absurd (ground (arith, gone))
      | inr f ↦
          is.keyed key ws
            (sym (find_key-erase_key t s key ∙ ap (λ b. if b then none else find_key key t) f) ∙ e)
    ];
  }

  -- The entry itself gets one more url.
  pub append-IsStuck :
      (s : List ℕ) (u : Url)
      → bytes_eq s site ≡ true
      → url_site u ≡ s
      → IsStuck site us (store_key s ((us ++ is.more) ++ u ∷ []) t) asked
  append-IsStuck s u e same =
      let here : s ≡ site = (bytes_eq_iff s site).0 e in
      record {
        more = is.more ++ u ∷ [];
        entry =
            find_key-store_key t s ((us ++ is.more) ++ u ∷ []) site
            ∙ ap (λ b. if b then some ((us ++ is.more) ++ u ∷ []) else find_key site t) e
            ∙ ap some (append_assoc us is.more (u ∷ []));
        unasked = is.unasked;
        keyed = store-IsKeyed t s ((us ++ is.more) ++ u ∷ []) is.keyed (
            AllSite-append s (us ++ is.more) (u ∷ [])
              (subst (λ k. AllSite k (us ++ is.more)) (sym here)
                (is.keyed site (us ++ is.more) is.entry))
              (same, tt));
      }
