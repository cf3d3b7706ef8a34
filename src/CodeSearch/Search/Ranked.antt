-- ===== src/CodeSearch/Search/Ranked.antt =====
-- About the rows that a search ranks (code-search.ts and bm25.ts).
use ctxlite.Prelude.{
  ℕ, zero, suc, ◌+◌, ◌≤◌, ◌≡◌, refl, sym, ap, ◌⊎◌, inl, inr, Bool, true, false, some, List, [], ◌∷◌,
  ◌++◌, map, arith, Text, str, All, length, take, drop, filter_by, if-either, Bool-cases,
  length-take, take-append-drop, sort_descending, insert_descending, sort_descending-perm,
}
use mathlib.Core.List.{Perm, perm_middle}
use mathlib.Core.List.Perm
use mathlib.Core.Path.{subst}
use ctxlite.Runtime.{Runtime}
use ctxlite.Bm25.{Bm25, ScoredDoc, new_bm25, score_all, score_from, score_doc, tokenize}
use ctxlite.CodeSearch.{ScannedFile}
use ctxlite.CodeSearch.Search.{CodeSearchOptions, scanned_at, ranked}
use ctxlite.Prelude.{if◌then◌else◌}

module _ {A : Type 0} where
  pub filter_by-All : (test : A → Bool) (xs : List A) → All (λ x. test x ≡ true) (filter_by test xs)
  unfolding filter_by
  filter_by-All test [] = tt
  filter_by-All test (x ∷ xs) =
      if-either (All (λ y. test y ≡ true)) (test x) _ _ (λ e. (e, filter_by-All test xs))
        (λ e. filter_by-All test xs)

  -- The rest of what is filtered.
  unfoldable passed_over : (A → Bool) → List A → List A
  passed_over test [] = []
  passed_over test (x ∷ xs) = let rest = passed_over test xs in if test x then rest else x ∷ rest

  passed_over-All :
      (test : A → Bool) (xs : List A) → All (λ x. test x ≡ false) (passed_over test xs)
  unfolding passed_over
  passed_over-All test [] = tt
  passed_over-All test (x ∷ xs) =
      if-either (All (λ y. test y ≡ false)) (test x) _ _ (λ e. passed_over-All test xs)
        (λ e. (e, passed_over-All test xs))

  filter_by-perm :
      (test : A → Bool) (xs : List A) → Perm (filter_by test xs ++ passed_over test xs) xs
  unfolding filter_by passed_over
  filter_by-perm test [] = Perm.rfl
  filter_by-perm test (x ∷ xs) = elim (Bool-cases (test x)) [
    | inl e ↦ rw e (Perm.cons x (filter_by-perm test xs))
    | inr e ↦ rw e (
        Perm.trans (perm_middle (filter_by test xs) (passed_over test xs))
          (Perm.cons x (filter_by-perm test xs)))
  ]

  module _ (P : A → Type 0) where
    take-All : (n : ℕ) (xs : List A) → All P xs → All P (take n xs)
    take-All zero xs h = tt
    take-All (suc n) [] h = tt
    take-All (suc n) (x ∷ xs) (p, h) = (p, take-All n xs h)

    filtered-All : (test : A → Bool) (xs : List A) → All P xs → All P (filter_by test xs)
    unfolding filter_by
    filtered-All test [] h = tt
    filtered-All test (x ∷ xs) (p, h) =
        if-either (All P) (test x) _ _ (λ e. (p, filtered-All test xs h))
          (λ e. filtered-All test xs h)

    module _ {D : Type 0} (lt : D → D → Bool) (key : A → D) where
      insert_descending-All :
          (x : A) (ys : List A) → P x → All P ys → All P (insert_descending lt key x ys)
      unfolding insert_descending
      insert_descending-All x [] p h = (p, tt)
      insert_descending-All x (y ∷ ys) p (q, h) =
          if-either (All P) (lt (key x) (key y)) _ _ (λ e. (q, insert_descending-All x ys p h))
            (λ e. (p, (q, h)))

      sort_descending-All : (xs : List A) → All P xs → All P (sort_descending lt key xs)
      unfolding sort_descending
      sort_descending-All [] h = tt
      sort_descending-All (x ∷ xs) (p, h) =
          insert_descending-All x (sort_descending lt key xs) p (sort_descending-All xs h)

module _ (rt : Runtime) (opts : CodeSearchOptions rt) where
  open rt use {Double, of_nat, lt}

  abbrev pub scores : ScoredDoc rt → Bool
  scores r = lt (of_nat 0) r.score

  abbrev pub text_of : ScannedFile → Text
  text_of f = f.path ++ (str "\n" ++ f.content)

  module _ (files : List ScannedFile) where
    abbrev pub ranking : Bm25 rt
    ranking = new_bm25 rt (map text_of files)

    -- Each file has a row with its place and the score of its path and its text.
    unfoldable pub own_scores : ℕ → List ScannedFile → List (ScoredDoc rt)
    own_scores i [] = []
    own_scores i (f ∷ fs) =
        record { index = i; score = score_doc rt ranking (tokenize rt (text_of f)) opts.query }
        ∷ own_scores (i + 1) fs

    score_from-own_scores :
        (i : ℕ) (fs : List ScannedFile)
        → score_from rt ranking opts.query i (map (λ d. tokenize rt d) (map text_of fs))
          ≡ own_scores i fs
    unfolding score_from own_scores
    score_from-own_scores i [] = refl
    score_from-own_scores i (f ∷ fs) =
        ap
          (λ rows.
            record { index = i; score = score_doc rt ranking (tokenize rt (text_of f)) opts.query }
            ∷ rows)
          (score_from-own_scores (i + 1) fs)

    -- The row is that of one of the files.
    abbrev pub IsRow : ScoredDoc rt → Type 0
    IsRow row = (f : ScannedFile) × (scanned_at rt row.index files ≡ some f)

    own_scores-IsRow :
        (i : ℕ) (fs : List ScannedFile)
        → ((k : ℕ) → scanned_at rt (i + k) files ≡ scanned_at rt k fs)
        → All IsRow (own_scores i fs)
    unfolding own_scores
    own_scores-IsRow i [] h = tt
    own_scores-IsRow i (f ∷ fs) h = (
      (f, subst (λ n. scanned_at rt n files ≡ some f) (omega arith) (h 0)),
      own_scores-IsRow (i + 1) fs
          (λ k. subst (λ n. scanned_at rt n files ≡ scanned_at rt k fs) (omega arith) (h (suc k))),
    )

    -- The rows that are shown, those that score but are too many, and those that don't score: each
    -- file has one row, and the rows that score stand in the order of `scoreAll`.
    pub record IsRanked (rows : List (ScoredDoc rt)) : Type 0 where
      pub too_many : List (ScoredDoc rt)
      pub no_match : List (ScoredDoc rt)
      pub each_once : Perm ((rows ++ too_many) ++ no_match) (own_scores 0 files)
      pub in_order : rows ++ too_many ≡ filter_by scores (score_all rt ranking opts.query)
      pub scored : All (λ (r : ScoredDoc rt). lt (of_nat 0) r.score ≡ true) (rows ++ too_many)
      pub unscored : All (λ (r : ScoredDoc rt). lt (of_nat 0) r.score ≡ false) no_match
      pub few : length rows ≤ opts.max_results
      pub enough : (length rows ≡ opts.max_results) ⊎ (too_many ≡ [])

    sorted-own_scores :
        score_all rt ranking opts.query
        ≡ sort_descending lt (λ (d : ScoredDoc rt). d.score) (own_scores 0 files)
    unfolding score_all new_bm25
    sorted-own_scores =
        ap (sort_descending lt (λ (d : ScoredDoc rt). d.score)) (score_from-own_scores 0 files)

    take-enough : {A : Type 0} (n : ℕ) (xs : List A) → (length (take n xs) ≡ n) ⊎ (drop n xs ≡ [])
    take-enough zero xs = inl refl
    take-enough (suc n) [] = inr refl
    take-enough (suc n) (x ∷ xs) = elim (take-enough n xs) [
      | inl e ↦ inl (omega (arith, e))
      | inr e ↦ inr e
    ]

    pub ranked-IsRanked : IsRanked (ranked rt opts files)
    unfolding ranked
    ranked-IsRanked =
        let all = score_all rt ranking opts.query in
        let n = opts.max_results in
        let whole = take-append-drop n (filter_by scores all) in
        record {
          too_many = drop n (filter_by scores all);
          no_match = passed_over scores all;
          each_once = rw whole (
              Perm.trans (filter_by-perm scores all) (
                rw sorted-own_scores
                  (sort_descending-perm lt (λ (d : ScoredDoc rt). d.score) (own_scores 0 files))));
          in_order = whole;
          scored = rw whole (filter_by-All scores all);
          unscored = passed_over-All scores all;
          few = omega (arith, length-take n (filter_by scores all));
          enough = take-enough n (filter_by scores all);
        }

    pub ranked-IsRow : All IsRow (ranked rt opts files)
    unfolding ranked
    ranked-IsRow =
        let key = λ (d : ScoredDoc rt). d.score in
        let all = score_all rt ranking opts.query in
        take-All IsRow opts.max_results (filter_by scores all) (
          filtered-All IsRow scores all (
            subst (All IsRow) (sym sorted-own_scores) (
              sort_descending-All IsRow lt key (own_scores 0 files)
                (own_scores-IsRow 0 files (λ k. ap (λ n. scanned_at rt n files) (omega arith))))))
