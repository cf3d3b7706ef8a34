-- ===== src/Opencode/Display/Titles/Stripped.antt =====
-- What is left of a title whose suffix is stripped (session-display.ts).
use ctxlite.Prelude.{
  ℕ, ◌≡◌, ◌≢◌, refl, ap, ◌⊎◌, inl, inr, Bool, true, false, ◌&&◌, not, [], ◌∷◌, ◌++◌, arith, Text,
  str, text_eq, text_eq_iff, starts_with, all, ◌==◌, if-either, Bool-cases,
}
use ctxlite.Opencode.Display.{title_mark, breaks_line, is_title_suffix, strip_ctxlite_title_suffix}

-- The mark without its last blank.
unfoldable pub cut_mark : Text
cut_mark = str " · ctxlite:"

-- A text that begins with the mark only together with the mark behind it is the cut mark.
pub starts_with-overlap :
    (t rest : Text)
    → starts_with (t ++ (title_mark ++ rest)) title_mark ≡ true
    → (starts_with t title_mark ≡ true) ⊎ (t ≡ []) ⊎ (t ≡ cut_mark)
unfolding title_mark cut_mark starts_with str text_eq
starts_with-overlap [] rest h = inr (inl refl)
starts_with-overlap (a ∷ []) rest h = ground (arith, h)
starts_with-overlap (a ∷ b ∷ []) rest h = ground (arith, h)
starts_with-overlap (a ∷ b ∷ c ∷ []) rest h = ground (arith, h)
starts_with-overlap (a ∷ b ∷ c ∷ d ∷ []) rest h = ground (arith, h)
starts_with-overlap (a ∷ b ∷ c ∷ d ∷ e ∷ []) rest h = ground (arith, h)
starts_with-overlap (a ∷ b ∷ c ∷ d ∷ e ∷ f ∷ []) rest h = ground (arith, h)
starts_with-overlap (a ∷ b ∷ c ∷ d ∷ e ∷ f ∷ g ∷ []) rest h = ground (arith, h)
starts_with-overlap (a ∷ b ∷ c ∷ d ∷ e ∷ f ∷ g ∷ i ∷ []) rest h = ground (arith, h)
starts_with-overlap (a ∷ b ∷ c ∷ d ∷ e ∷ f ∷ g ∷ i ∷ j ∷ []) rest h = ground (arith, h)
starts_with-overlap (a ∷ b ∷ c ∷ d ∷ e ∷ f ∷ g ∷ i ∷ j ∷ k ∷ []) rest h = ground (arith, h)
starts_with-overlap (a ∷ b ∷ c ∷ d ∷ e ∷ f ∷ g ∷ i ∷ j ∷ k ∷ l ∷ []) rest h =
    inr (inr ((text_eq_iff (a ∷ b ∷ c ∷ d ∷ e ∷ f ∷ g ∷ i ∷ j ∷ k ∷ l ∷ []) cut_mark).0 h))
starts_with-overlap (a ∷ b ∷ c ∷ d ∷ e ∷ f ∷ g ∷ i ∷ j ∷ k ∷ l ∷ m ∷ t) rest h = inl h

-- No part at the end of the text is a suffix of a title.
abbrev pub NoSuffix : Text → Type 0
NoSuffix [] = Unit
NoSuffix (c ∷ s) = (is_title_suffix (c ∷ s) ≡ false) × NoSuffix s

abbrev pub on_one_line : Text → Bool
on_one_line s = all (λ c. not (breaks_line c)) s

pub both_true : (a b : Bool) → (a && b) ≡ true → (a ≡ true) × (b ≡ true)
both_true true b h = (refl, h)
both_true false b h = cc h

pub true_and : (a b : Bool) → a ≡ true → b ≡ true → (a && b) ≡ true
true_and a b p q = rw (p, q) refl

-- What is stripped has no end of a line.
pub on_one_line-strip :
    (s : Text) → on_one_line (strip_ctxlite_title_suffix s) ≡ true → on_one_line s ≡ true
unfolding strip_ctxlite_title_suffix is_title_suffix all
on_one_line-strip [] h = refl
on_one_line-strip (c ∷ s) h = elim (Bool-cases (is_title_suffix (c ∷ s))) [
  | inl e ↦ (both_true (starts_with (c ∷ s) title_mark) (on_one_line (c ∷ s)) e).1
  | inr e ↦
      let kept : on_one_line (c ∷ strip_ctxlite_title_suffix s) ≡ true = rw e at h in
      let (one, rest) =
        both_true (not (breaks_line c)) (on_one_line (strip_ctxlite_title_suffix s)) kept in
      true_and (not (breaks_line c)) (on_one_line s) one (on_one_line-strip s rest)
]

pub starts_with-strip :
    (s p : Text) → starts_with (strip_ctxlite_title_suffix s) p ≡ true → starts_with s p ≡ true
unfolding strip_ctxlite_title_suffix starts_with
starts_with-strip s [] h = refl
starts_with-strip [] (d ∷ p) h = h
starts_with-strip (c ∷ s) (d ∷ p) h = elim (Bool-cases (is_title_suffix (c ∷ s))) [
  | inl e ↦ let no : starts_with [] (d ∷ p) ≡ true = rw e at h in cc no
  | inr e ↦
      let kept : starts_with (c ∷ strip_ctxlite_title_suffix s) (d ∷ p) ≡ true = rw e at h in
      let (same, rest) = both_true (c == d) (starts_with (strip_ctxlite_title_suffix s) p) kept in
      true_and (c == d) (starts_with s p) same (starts_with-strip s p rest)
]

pub starts_with-cons_strip :
    (c : ℕ) (s p : Text)
    → starts_with (c ∷ strip_ctxlite_title_suffix s) p ≡ true
    → starts_with (c ∷ s) p ≡ true
unfolding starts_with
starts_with-cons_strip c s [] h = refl
starts_with-cons_strip c s (d ∷ p) h =
    let (same, rest) = both_true (c == d) (starts_with (strip_ctxlite_title_suffix s) p) h in
    true_and (c == d) (starts_with s p) same (starts_with-strip s p rest)

pub is_title_suffix-strip :
    (c : ℕ) (s : Text)
    → is_title_suffix (c ∷ strip_ctxlite_title_suffix s) ≡ true
    → is_title_suffix (c ∷ s) ≡ true
unfolding is_title_suffix all
is_title_suffix-strip c s h =
    let (starts, one) =
      both_true (starts_with (c ∷ strip_ctxlite_title_suffix s) title_mark)
        (on_one_line (c ∷ strip_ctxlite_title_suffix s)) h in
    let (first, rest) =
      both_true (not (breaks_line c)) (on_one_line (strip_ctxlite_title_suffix s)) one in
    true_and (starts_with (c ∷ s) title_mark) (on_one_line (c ∷ s))
      (starts_with-cons_strip c s title_mark starts)
      (true_and (not (breaks_line c)) (on_one_line s) first (on_one_line-strip s rest))

pub strip-NoSuffix : (s : Text) → NoSuffix (strip_ctxlite_title_suffix s)
unfolding strip_ctxlite_title_suffix
strip-NoSuffix [] = tt
strip-NoSuffix (c ∷ s) =
    if-either NoSuffix (is_title_suffix (c ∷ s)) _ _ (λ e. tt)
      (λ e. (
        elim (Bool-cases (is_title_suffix (c ∷ strip_ctxlite_title_suffix s))) [
          | inl f ↦ cc (is_title_suffix-strip c s f, e)
          | inr f ↦ f
        ],
        strip-NoSuffix s,
      ))

pub is_title_suffix-mark :
    (rest : Text)
    → on_one_line (title_mark ++ rest) ≡ true
    → is_title_suffix (title_mark ++ rest) ≡ true
unfolding is_title_suffix title_mark str starts_with all
is_title_suffix-mark rest h = h

pub strip-suffix : (s : Text) → is_title_suffix s ≡ true → strip_ctxlite_title_suffix s ≡ []
unfolding strip_ctxlite_title_suffix
strip-suffix [] h = refl
strip-suffix (c ∷ s) h = rw h refl

pub on_one_line-append : (s t : Text) → on_one_line (s ++ t) ≡ true → on_one_line s ≡ true
unfolding all
on_one_line-append [] t h = refl
on_one_line-append (c ∷ s) t h =
    let (first, rest) = both_true (not (breaks_line c)) (on_one_line (s ++ t)) h in
    true_and (not (breaks_line c)) (on_one_line s) first (on_one_line-append s t rest)

-- No suffix of a title begins in the text in front of the mark.
pub is_title_suffix-append :
    (s rest : Text)
    → s ≢ []
    → is_title_suffix s ≡ false
    → s ≢ cut_mark
    → is_title_suffix (s ++ (title_mark ++ rest)) ≡ false
unfolding is_title_suffix
is_title_suffix-append s rest some_text e cut =
    let t = title_mark ++ rest in
    elim (Bool-cases (is_title_suffix (s ++ t))) [
      | inr f ↦ f
      | inl f ↦
          let (starts, one) =
            both_true (starts_with (s ++ t) title_mark) (on_one_line (s ++ t)) f in
          elim (starts_with-overlap s rest starts) [
            | inl h ↦
                let all_of : is_title_suffix s ≡ true =
                  true_and (starts_with s title_mark) (on_one_line s) h
                    (on_one_line-append s t one) in
                cc (all_of, e)
            | inr (inl h) ↦ elim (some_text h) [ ]
            | inr (inr h) ↦ elim (cut h) [ ]
          ]
    ]

-- A line with the mark in front is stripped from a text without one, unless the cut mark is at its end.
pub strip-append :
    (s rest : Text)
    → NoSuffix s
    → ((before : Text) → s ≢ before ++ cut_mark)
    → on_one_line (title_mark ++ rest) ≡ true
    → strip_ctxlite_title_suffix (s ++ (title_mark ++ rest)) ≡ s
unfolding strip_ctxlite_title_suffix
strip-append [] rest n apart one = strip-suffix (title_mark ++ rest) (is_title_suffix-mark rest one)
strip-append (c ∷ s) rest (h, n) apart one =
    rw (is_title_suffix-append (c ∷ s) rest (λ e. cc e) h (apart [])) (
      ap (λ (t : Text). c ∷ t)
        (strip-append s rest n (λ before e. apart (c ∷ before) (ap (λ (t : Text). c ∷ t) e)) one))

pub strip-same : (s : Text) → NoSuffix s → strip_ctxlite_title_suffix s ≡ s
unfolding strip_ctxlite_title_suffix
strip-same [] n = refl
strip-same (c ∷ s) (h, n) = rw h (ap (λ (t : Text). c ∷ t) (strip-same s n))
