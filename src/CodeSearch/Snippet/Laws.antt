-- ===== src/CodeSearch/Snippet/Laws.antt =====
-- About the lines of a file that are shown (code-search.ts).
use ctxlite.Prelude.{
  ℕ, zero, suc, ◌+◌, ◌-◌, ◌≤◌, ◌<◌, ◌≡◌, refl, ap, ◌⊎◌, inl, inr, List, [], ◌∷◌, ◌++◌, arith, Text,
  All, length, take, drop, min, ltb, if-either, lines_of, unlines,
}
use ctxlite.Runtime.{Runtime}
use ctxlite.Tokens.{estimate_tokens}
use ctxlite.CodeSearch.Snippet.{
  search_terms, line_score, best_line_from, drop_last_lines, Snippet, snippet_at, extract_snippet,
}
use ctxlite.Prelude.{Bool-cases, join}
use ctxlite.Prelude.{leb}

module _ (rt : Runtime) (terms : List Text) where
  abbrev line_score_of : Text → ℕ
  line_score_of line = line_score terms (rt.lower line)

  -- A line of the text that scores more than all in front of it, and that none behind it surpasses.
  pub record IsFirstBest (lines : List Text) (least i line : ℕ) : Type 0 where
    pub before : List Text
    pub after : List Text
    pub best : Text
    pub parts : lines ≡ before ++ (best ∷ after)
    pub place : line ≡ i + length before + 1
    pub scores : least < line_score_of best
    pub less : All (λ l. line_score_of l < line_score_of best) before
    pub no_more : All (λ l. line_score_of l ≤ line_score_of best) after

  -- No line scores more than `least`, and the line is the given one; or it is the first that scores best.
  abbrev pub IsBest : List Text → ℕ → ℕ → ℕ → ℕ → Type 0
  IsBest lines least i given line =
      ((line ≡ given) × All (λ l. line_score_of l ≤ least) lines) ⊎ IsFirstBest lines least i line

  IsBest-better :
      (line : Text) (lines : List Text) (least i given found : ℕ)
      → least < line_score_of line
      → IsBest lines (line_score_of line) (i + 1) (i + 1) found
      → IsFirstBest (line ∷ lines) least i found
  IsBest-better line lines least i given found h (inl (e, le)) = record {
    before = [];
    after = lines;
    best = line;
    parts = refl;
    place = omega (arith, e);
    scores = h;
    less = tt;
    no_more = le;
  }
  IsBest-better line lines least i given found h (inr b) = record {
    before = line ∷ b.before;
    after = b.after;
    best = b.best;
    parts = ap (λ (ls : List Text). line ∷ ls) b.parts;
    place = omega (arith, b.place);
    scores = omega (arith, b.scores, h);
    less = (b.scores, b.less);
    no_more = b.no_more;
  }

  IsBest-pass :
      (line : Text) (lines : List Text) (least i given found : ℕ)
      → line_score_of line ≤ least
      → IsBest lines least (i + 1) given found
      → IsBest (line ∷ lines) least i given found
  IsBest-pass line lines least i given found h (inl (e, le)) = inl (e, (h, le))
  IsBest-pass line lines least i given found h (inr b) = inr (record {
    before = line ∷ b.before;
    after = b.after;
    best = b.best;
    parts = ap (λ (ls : List Text). line ∷ ls) b.parts;
    place = omega (arith, b.place);
    scores = b.scores;
    less = (omega (arith, b.scores, h), b.less);
    no_more = b.no_more;
  })

  best_line_from-IsBest :
      (i given least : ℕ) (lines : List Text)
      → IsBest lines least i given (best_line_from rt terms i given least lines)
  unfolding best_line_from
  best_line_from-IsBest i given least [] = inl (refl, tt)
  best_line_from-IsBest i given least (line ∷ lines) =
      if-either (IsBest (line ∷ lines) least i given) (ltb least (line_score_of line)) _ _
        (λ h. inr (
          IsBest-better line lines least i given _ (ground arith)
            (best_line_from-IsBest (i + 1) (i + 1) (line_score_of line) lines)))
        (λ h.
          IsBest-pass line lines least i given _ (ground arith)
            (best_line_from-IsBest (i + 1) given least lines))

IsBest-positive :
    (rt : Runtime) (terms lines : List Text) (line : ℕ)
    → IsBest rt terms lines 0 0 1 line
    → 1 ≤ line
IsBest-positive rt terms lines line (inl (e, le)) = omega (arith, e)
IsBest-positive rt terms lines line (inr b) = omega (arith, b.place)

-- The first lines of a window, in the budget, and as many as fit.
pub record IsLongest (budget : ℕ) (window : List Text) (n : ℕ) (shown : List Text) : Type 0 where
  pub count : ℕ
  pub taken : shown ≡ take count window
  pub within : count ≤ n
  pub fits : estimate_tokens (unlines shown) ≤ budget
  pub longest : (m : ℕ) → count < m → m ≤ n → budget < estimate_tokens (unlines (take m window))

IsLongest-drop :
    (budget : ℕ) (window : List Text) (n : ℕ) (shown : List Text)
    → budget < estimate_tokens (unlines (take (suc n) window))
    → IsLongest budget window n shown
    → IsLongest budget window (suc n) shown
IsLongest-drop budget window n shown h s = record {
  count = s.count;
  taken = s.taken;
  within = omega (arith, s.within);
  fits = s.fits;
  longest = λ m a b. elim (Bool-cases (leb m n)) [
    | inl e ↦ s.longest m a (ground arith)
    | inr e ↦ let last : m ≡ suc n = ground (arith, b, e) in rw last h
  ];
}

drop_last_lines-IsLongest :
    (budget : ℕ) (window : List Text) (n : ℕ)
    → IsLongest budget window n (drop_last_lines budget window n)
unfolding drop_last_lines
drop_last_lines-IsLongest budget window zero = record {
  count = 0;
  taken = refl;
  within = omega arith;
  fits = unfold estimate_tokens unlines join in omega arith;
  longest = λ m a b. let no : ⊥ = omega (arith, a, b) in elim no [ ];
}
drop_last_lines-IsLongest budget window (suc n) =
    let all = take (suc n) window in
    if-either (IsLongest budget window (suc n)) (ltb budget (estimate_tokens (unlines all))) _ _
      (λ h.
        IsLongest-drop budget window n _ (ground arith) (drop_last_lines-IsLongest budget window n))
      (λ h. record {
        count = suc n;
        taken = refl;
        within = omega arith;
        fits = ground arith;
        longest = λ m a b. let no : ⊥ = omega (arith, a, b) in elim no [ ];
      })

-- What is shown of a text: the best line is the first of those with the most terms of the query, or
-- the first line where no line has one; and the lines shown are those from eight in front of it to
-- eight behind, from the first on as many as are in the budget.
pub record IsSnippet (rt : Runtime) (content query : Text) (budget : ℕ) (s : Snippet) : Type 0 where
  pub best_line : IsBest rt (search_terms rt query) (lines_of content) 0 0 1 s.line
  pub shown : List Text
  pub text : s.snippet ≡ unlines shown
  pub window :
      IsLongest budget
        (drop (s.line - 9) (lines_of content))
        (min (length (lines_of content)) (s.line + 8) - (s.line - 9))
        shown

-- For every text, query and budget: the line that a snippet names is the first of those that have
-- the most terms of the query, or line 1 where no line has one; and what is shown are lines from
-- the eighth in front of it on, at most to the eighth behind it, within the budget, where one line
-- more would be beyond it.
pub extract_snippet-IsSnippet :
    (rt : Runtime) (content query : Text) (budget : ℕ)
    → IsSnippet rt content query budget (extract_snippet rt content query budget)
unfolding extract_snippet snippet_at
extract_snippet-IsSnippet rt content query budget =
    let lines = lines_of content in
    let terms = search_terms rt query in
    let best = best_line_from-IsBest rt terms 0 1 0 lines in
    let line = best_line_from rt terms 0 1 0 lines in
    let from : line - 1 - 8 ≡ line - 9 = omega arith in
    let stop : line - 1 + 8 + 1 ≡ line + 8 =
      omega (arith, IsBest-positive rt terms lines line best) in
    let window = drop (line - 9) lines in
    let n = min (length lines) (line + 8) - (line - 9) in
    record {
      best_line = best;
      shown = drop_last_lines budget window n;
      text = rw (from, stop) refl;
      window = drop_last_lines-IsLongest budget window n;
    }
