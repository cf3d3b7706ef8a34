-- ===== src/LogSummary/Laws.antt =====
-- Which lines of a log are kept, and how many fit (log-summary.ts).
use ctxlite.Prelude.{
  ℕ, zero, suc, ◌-◌, ◌≤◌, ◌<◌, ◌≡◌, refl, sym, ap, ◌∙◌, ◌⊎◌, inl, inr, Bool, true, false, ◌&&◌,
  ◌||◌, List, [], ◌∷◌, arith, Text, length, take, filter_by, ltb, if◌then◌else◌, Bool-cases,
  lines_of, length-take,
}
use ctxlite.Tokens.{estimate_tokens}
use ctxlite.LogSummary.{
  is_error_line, is_warning_line, next_is_stack, goes_on, keep_lines, body_of, shrink, choose_body,
  summary_of,
}

-- The first list is the second with some elements left out.
unfoldable pub IsSublist : List Text → List Text → Type 0
IsSublist [] ys = Unit
IsSublist (x ∷ xs) [] = ⊥
IsSublist (x ∷ xs) (y ∷ ys) = ((x ≡ y) × IsSublist xs ys) ⊎ IsSublist (x ∷ xs) ys

IsSublist-cons : (y : Text) (xs ys : List Text) → IsSublist xs ys → IsSublist xs (y ∷ ys)
unfolding IsSublist
IsSublist-cons y [] ys h = tt
IsSublist-cons y (x ∷ xs) ys h = inr h

-- A line that one of the two expressions finds.
unfoldable pub is_material : Text → Bool
is_material line = is_error_line line || is_warning_line line

if-sublist :
    (b : Bool) (xs ys zs : List Text)
    → IsSublist xs zs
    → IsSublist ys zs
    → IsSublist (if b then xs else ys) zs
if-sublist true xs ys zs h k = h
if-sublist false xs ys zs h k = k

keep-sublist : (in_stack : Bool) (lines : List Text) → IsSublist (keep_lines in_stack lines) lines
unfolding keep_lines IsSublist
keep-sublist in_stack [] = tt
keep-sublist in_stack (line ∷ lines) =
    let continued = inl (refl, keep-sublist true lines) in
    let other = inl (refl, keep-sublist false lines) in
    if-sublist (in_stack && goes_on line) _ _ (line ∷ lines) continued (
      if-sublist (is_error_line line && next_is_stack lines) _ _ (line ∷ lines) continued (
        if-sublist (is_error_line line || (is_warning_line line || next_is_stack lines)) _ _
          (line ∷ lines) other
          (IsSublist-cons line (keep_lines false lines) lines (keep-sublist false lines))))

keep-filter :
    (in_stack : Bool) (lines : List Text)
    → filter_by is_material (keep_lines in_stack lines) ≡ filter_by is_material lines
unfolding keep_lines filter_by is_material
keep-filter in_stack [] = refl
keep-filter in_stack (line ∷ lines) =
    ground (arith, keep-filter true lines, keep-filter false lines)

-- The lines that are kept before the budget are lines of the log in their order, and no line that
-- one of the two expressions, for errors and for warnings, finds is missing.
pub keep_lines-IsSublist :
    (lines : List Text)
    → IsSublist (keep_lines false lines) lines
      × (filter_by is_material (keep_lines false lines) ≡ filter_by is_material lines)
keep_lines-IsSublist lines = (keep-sublist false lines, keep-filter false lines)

take-take : (n m : ℕ) (xs : List Text) → n ≤ m → take n (take m xs) ≡ take n xs
take-take zero m xs h = refl
take-take (suc n) zero xs h = absurd (omega (arith, h))
take-take (suc n) (suc m) [] h = refl
take-take (suc n) (suc m) (x ∷ xs) h =
    ap (λ (ys : List Text). x ∷ ys) (take-take n m xs (omega arith))

-- What `shrink` leaves: the first lines, as many as fit, and one more would be too many.
pub record IsShrunk (budget : ℕ) (kept r : List Text) : Type 0 where
  pub count : ℕ
  pub prefix : r ≡ take count kept
  pub bounded : count ≤ length kept
  pub fits : (estimate_tokens (body_of r) ≤ budget) ⊎ (r ≡ [])
  pub most : (count ≡ length kept) ⊎ (budget < estimate_tokens (body_of (take (suc count) kept)))

take-all : (xs : List Text) → xs ≡ take (length xs) xs
take-all [] = refl
take-all (x ∷ xs) = ap (λ (ys : List Text). x ∷ ys) (take-all xs)

all-IsShrunk :
    (budget : ℕ) (kept : List Text)
    → ltb 0 (length kept) && ltb budget (estimate_tokens (body_of kept)) ≡ false
    → IsShrunk budget kept kept
all-IsShrunk budget [] h = record {
  count = 0;
  prefix = refl;
  bounded = omega arith;
  fits = inr refl;
  most = inl refl;
}
all-IsShrunk budget (line ∷ kept) h = record {
  count = length (line ∷ kept);
  prefix = take-all (line ∷ kept);
  bounded = omega arith;
  fits = inl (ground (arith, h));
  most = inl refl;
}

-- One line fewer, where all of them do not fit.
fewer-IsShrunk :
    (budget : ℕ) (kept r : List Text)
    → ltb 0 (length kept) && ltb budget (estimate_tokens (body_of kept)) ≡ true
    → IsShrunk budget (take (length kept - 1) kept) r
    → IsShrunk budget kept r
fewer-IsShrunk budget kept r h s =
    let shorter = take (length kept - 1) kept in
    let some_lines : 0 < length kept = ground (arith, h) in
    let too_many : budget < estimate_tokens (body_of kept) = ground (arith, h) in
    let size : length shorter ≡ length kept - 1 =
      omega (arith, length-take (length kept - 1) kept) in
    let below : s.count ≤ length kept - 1 = omega (arith, s.bounded, size) in
    let cases : (suc s.count ≡ length kept) ⊎ (suc s.count ≤ length kept - 1) =
      omega (arith, below, some_lines) in
    record {
      count = s.count;
      prefix = s.prefix ∙ take-take s.count (length kept - 1) kept below;
      bounded = omega (arith, below);
      fits = s.fits;
      most = elim cases [
        | inl e ↦ inr (rw (e, sym (take-all kept)) too_many)
        | inr l ↦ elim s.most [
          | inl e ↦ absurd (omega (arith, e, size, l))
          | inr m ↦ inr (rw (sym (take-take (suc s.count) (length kept - 1) kept l)) m)
        ]
      ];
    }

shrink-IsShrunk :
    (fuel budget : ℕ) (kept : List Text)
    → length kept ≤ fuel
    → IsShrunk budget kept (shrink fuel budget kept)
unfolding shrink
shrink-IsShrunk zero budget [] h = all-IsShrunk budget [] refl
shrink-IsShrunk zero budget (line ∷ kept) h = absurd (omega (arith, h))
shrink-IsShrunk (suc fuel) budget kept h =
    let shorter = take (length kept - 1) kept in
    let size : length shorter ≤ fuel = omega (arith, length-take (length kept - 1) kept, h) in
    let s = shrink-IsShrunk fuel budget shorter size in
    elim (Bool-cases (ltb 0 (length kept) && ltb budget (estimate_tokens (body_of kept)))) [
      | inl e ↦ rw e (fewer-IsShrunk budget kept (shrink fuel budget shorter) e s)
      | inr e ↦ rw e (all-IsShrunk budget kept e)
    ]

-- Where a log has lines to keep, its summary is the heading and the first of them, within the budget or
-- without a line, and as many as possible: with one more line it would pass the budget. The counts are
-- the estimates of the two texts.
pub summary_of-fits :
    (text : Text) (budget : ℕ) (line : Text) (rest : List Text)
    → keep_lines false (lines_of text) ≡ line ∷ rest
    → let r = summary_of text budget in
      (r.tokens_in ≡ estimate_tokens text)
      × (r.tokens_out ≡ estimate_tokens r.output)
      × (r.tokens_saved ≡ r.tokens_in - r.tokens_out)
      × ((shown : List Text) × (r.output ≡ body_of shown) × IsShrunk budget (line ∷ rest) shown)
unfolding summary_of choose_body
summary_of-fits text budget line rest e = rw e (
  refl,
  refl,
  refl,
  (
    shrink (length (line ∷ rest)) budget (line ∷ rest),
    refl,
    shrink-IsShrunk (length (line ∷ rest)) budget (line ∷ rest) (omega arith),
  ),
)
