-- ===== src/Logger/Streams.antt =====
-- src/logger.cc: the lines that a stream has got, with the messages that wait.
use myjfm_spider.Prelude.{
  ℕ, ◌≡◌, refl, sym, ap, ◌∙◌, ◌⊎◌, inl, inr, Bool, true, false, List, [], ◌∷◌, ◌++◌, append-nil,
  append_assoc, if◌then◌else◌,
}
use mathlib.Core.Bool.{false≢true}
use myjfm_spider.Logger.{LogLevel, log_dummy, info, error, warning, fatal, Message, line}

abbrev pub is_info : LogLevel → Bool
is_info log_dummy = false
is_info info = true
is_info error = false
is_info warning = false
is_info fatal = false

abbrev pub is_error : LogLevel → Bool
is_error log_dummy = false
is_error info = false
is_error error = true
is_error warning = true
is_error fatal = true

-- The lines of the messages whose level a stream is for.
abbrev pub shown : (LogLevel → Bool) → Message → List (List ℕ)
shown p m = if p m.level then line m ∷ [] else []

abbrev pub lines_for : (LogLevel → Bool) → List Message → List (List ℕ)
lines_for p [] = []
lines_for p (m ∷ ms) = shown p m ++ lines_for p ms

-- A stream has got the lines of the messages for it, in their order, but for those that are pending;
-- of these it has none where it is the terminal.
pub record Keeps (p : LogLevel → Bool) (direct : Bool) (lines : List (List ℕ))
    (logged waiting : List Message) : Type 0 where
  pub order : lines_for p logged ≡ lines ++ lines_for p waiting
  pub at_once : direct ≡ true → lines_for p waiting ≡ []

lines_for-append :
    (p : LogLevel → Bool) (xs ys : List Message)
    → lines_for p (xs ++ ys) ≡ lines_for p xs ++ lines_for p ys
lines_for-append p [] ys = refl
lines_for-append p (m ∷ xs) ys =
    ap (◌++◌ (shown p m)) (lines_for-append p xs ys)
    ∙ sym (append_assoc (shown p m) (lines_for p xs) (lines_for p ys))

append_nil_right : {A : Type 0} (xs ys : List A) → xs ++ ys ≡ [] → ys ≡ []
append_nil_right [] ys e = e
append_nil_right (x ∷ xs) ys e = cc

append-if :
    {A : Type 0} (b : Bool) (x : A) (xs : List A)
    → xs ++ (if b then x ∷ [] else []) ≡ (if b then xs ++ x ∷ [] else xs)
append-if true x xs = refl
append-if false x xs = append-nil xs

module _ (p : LogLevel → Bool) (m : Message) where
  lines_for-last : (xs : List Message) → lines_for p (xs ++ m ∷ []) ≡ lines_for p xs ++ shown p m
  lines_for-last xs =
      lines_for-append p xs (m ∷ []) ∙ ap (◌++◌ (lines_for p xs)) (append-nil (shown p m))

  not_shown : p m.level ≡ false → shown p m ≡ []
  not_shown e = ap (λ b. if b then line m ∷ [] else []) e

module _ (p : LogLevel → Bool) (m : Message) (lines : List (List ℕ)) (logged waiting : List Message)
    (direct : Bool) where
  -- The message is not for the stream, and is not kept.
  pub Keeps-other :
      p m.level ≡ false
      → Keeps p direct lines logged waiting
      → Keeps p direct lines (logged ++ m ∷ []) waiting
  Keeps-other e k = record {
    order =
        lines_for-last p m logged
        ∙ ap (◌++◌ (lines_for p logged)) (not_shown p m e)
        ∙ append-nil (lines_for p logged)
        ∙ k.order;
    at_once = k.at_once;
  }

  -- It is written at once.
  pub Keeps-direct :
      p m.level ≡ true
      → direct ≡ true
      → Keeps p direct lines logged waiting
      → Keeps p direct (lines ++ line m ∷ []) (logged ++ m ∷ []) waiting
  Keeps-direct e d k =
      let none_ = k.at_once d in
      record {
        order =
            lines_for-last p m logged
            ∙ ap (λ b. lines_for p logged ++ (if b then line m ∷ [] else [])) e
            ∙ ap (λ ls. ls ++ line m ∷ []) (k.order ∙ ap (◌++◌ lines) none_ ∙ append-nil lines)
            ∙ sym (append-nil (lines ++ line m ∷ []))
            ∙ sym (ap (◌++◌ (lines ++ line m ∷ [])) none_);
        at_once = k.at_once;
      }

  -- It goes to the first buffer.
  pub Keeps-kept :
      (p m.level ≡ false) ⊎ (direct ≡ false)
      → Keeps p direct lines logged waiting
      → Keeps p direct lines (logged ++ m ∷ []) (waiting ++ m ∷ [])
  Keeps-kept c k = record {
    order =
        lines_for-last p m logged
        ∙ ap (λ ls. ls ++ shown p m) k.order
        ∙ append_assoc lines (lines_for p waiting) (shown p m)
        ∙ ap (◌++◌ lines) (sym (lines_for-last p m waiting));
    at_once = λ d. elim c [
      | inl e ↦
          lines_for-last p m waiting ∙ ap (λ ls. ls ++ shown p m) (k.at_once d) ∙ not_shown p m e
      | inr e ↦ absurd (false≢true (sym e ∙ d))
    ];
  }

  -- The writer takes it from the second buffer.
  pub Keeps-written :
      Keeps p direct lines logged (m ∷ waiting)
      → Keeps p direct (if p m.level then lines ++ line m ∷ [] else lines) logged waiting
  Keeps-written k = record {
    order =
        k.order
        ∙ sym (append_assoc lines (shown p m) (lines_for p waiting))
        ∙ ap (λ ls. ls ++ lines_for p waiting) (append-if (p m.level) (line m) lines);
    at_once = λ d. append_nil_right (shown p m) (lines_for p waiting) (k.at_once d);
  }
