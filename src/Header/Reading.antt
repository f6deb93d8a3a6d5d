-- ===== src/Header/Reading.antt =====
-- src/page.h: the status and the validity of a header that is read.
use myjfm_spider.Prelude.{
  ℕ, ◌≡◌, refl, sym, ◌∙◌, subst, Bool, true, false, Option, none, some, List, [], ◌∷◌, arith,
  if◌then◌else◌, Run, done, fault, out_of_fuel, bytes_eq, codes,
}
use myjfm_spider.ResCode.{ResCode, s_fail, is_ok}
use myjfm_spider.Header.{HttpResponseHeader, set_field, has_value, key_of, value_of}
use myjfm_spider.Header.Fields.{read_lines}

abbrev SameStatus : HttpResponseHeader → Option HttpResponseHeader → Type 0
SameStatus h none = Unit {0}
SameStatus h (some x) = x.status_code ≡ h.status_code

if-SameStatus :
    (h : HttpResponseHeader) (b : Bool) (o r : Option HttpResponseHeader)
    → SameStatus h o
    → SameStatus h r
    → SameStatus h (if b then o else r)
if-SameStatus h true o r p q = p
if-SameStatus h false o r p q = q

set_field-SameStatus :
    (key value : List ℕ) (h : HttpResponseHeader) → SameStatus h (set_field key value h)
unfolding set_field
set_field-SameStatus key value h =
    if-SameStatus h (bytes_eq key (codes "content-length")) _ _ refl (
      if-SameStatus h (bytes_eq key (codes "content-type")) _ _ refl (
        if-SameStatus h (bytes_eq key (codes "content-encoding")) _ _ refl (
          if-SameStatus h (bytes_eq key (codes "transfer-encoding")) _ _
            (if-SameStatus h (bytes_eq value (codes "chunked")) _ _ refl tt)
            (if-SameStatus h (bytes_eq key (codes "location")) _ _ refl
              (if-SameStatus h (bytes_eq key (codes "connection")) _ _ refl refl)))))

-- What a result that is S_OK says of the header.
abbrev pub IsRead : HttpResponseHeader → Run (ResCode × HttpResponseHeader) → Type 0
IsRead h (done r) = is_ok r.0 ≡ true → (r.1.is_valid ≡ true) × (r.1.status_code ≡ h.status_code)
IsRead h fault = Unit {0}
IsRead h out_of_fuel = Unit {0}

IsRead-same :
    (h h' : HttpResponseHeader) (r : Run (ResCode × HttpResponseHeader))
    → h'.status_code ≡ h.status_code
    → IsRead h' r
    → IsRead h r
IsRead-same h h' (done r) e p = λ ok. ((p ok).0, (p ok).1 ∙ e)
IsRead-same h h' fault e p = tt
IsRead-same h h' out_of_fuel e p = tt

IsRead-field :
    (h : HttpResponseHeader) (ls : List (List ℕ)) (o : Option HttpResponseHeader)
    → SameStatus h o
    → ((h' : HttpResponseHeader) → IsRead h' (read_lines ls h'))
    → IsRead h (elim o [
      | none ↦ done (s_fail, record h { is_valid = false })
      | some h' ↦ read_lines ls h'
    ])
IsRead-field h ls none e next = λ ok. ground (arith, ok)
IsRead-field h ls (some h') e next = IsRead-same h h' (read_lines ls h') e (next h')

IsRead-line :
    (h : HttpResponseHeader) (b : Bool) (r : Run (ResCode × HttpResponseHeader))
    → IsRead h r
    → IsRead h (elim b [ false ↦ out_of_fuel | true ↦ r ])
IsRead-line h true r p = p
IsRead-line h false r p = tt

read_lines-cons :
    (l : List ℕ) (ls : List (List ℕ)) (h : HttpResponseHeader)
    → read_lines (l ∷ ls) h ≡ elim (has_value l) [
      | false ↦ out_of_fuel
      | true ↦ elim (set_field (key_of l) (value_of l) h) [
        | none ↦ done (s_fail, record h { is_valid = false })
        | some h' ↦ read_lines ls h'
      ]
    ]
unfolding read_lines
read_lines-cons l ls h = refl

pub read_lines-IsRead : (ls : List (List ℕ)) (h : HttpResponseHeader) → IsRead h (read_lines ls h)
read_lines-IsRead [] h = unfold read_lines in λ ok. (refl, refl)
read_lines-IsRead (l ∷ ls) h =
    let o = set_field (key_of l) (value_of l) h in
    subst (IsRead h) (sym (read_lines-cons l ls h)) (
      IsRead-line h (has_value l) _ (
        IsRead-field h ls o (set_field-SameStatus (key_of l) (value_of l) h)
          (λ h'. read_lines-IsRead ls h')))
