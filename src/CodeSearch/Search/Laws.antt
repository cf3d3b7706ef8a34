-- ===== src/CodeSearch/Search/Laws.antt =====
-- About what a search shows (code-search.ts).
use ctxlite.Prelude.{
  ℕ, zero, suc, ◌+◌, ◌-◌, ◌≡◌, refl, ap, ◌∙◌, ◌⊎◌, inl, inr, true, Option, some, List, [], ◌∷◌,
  ◌++◌, map, append_assoc, append-nil, arith, str, All, length, take, filter_by, trim, ◌==◌, ◌>>=◌,
  if-either,
}
use ctxlite.Runtime.{Runtime}
use ctxlite.Host.{Host}
use ctxlite.Ignore.{load_ignore_patterns}
use ctxlite.Tokens.{estimate_tokens}
use ctxlite.Bm25.{ScoredDoc, new_bm25, score_all}
use ctxlite.CodeSearch.{ScannedFile, Directory}
use ctxlite.CodeSearch.Found.Specified.{IsFoundIn, directory_files}
use ctxlite.CodeSearch.Found.{walk_code_files-IsFoundIn}
use ctxlite.CodeSearch.Snippet.{Snippet, extract_snippet}
use ctxlite.CodeSearch.Search.{
  CodeSearchHit, CodeSearchOptions, CodeSearchResult, SearchOutcome, failed, found, scanned_at,
  Shown, hit_of, show_hit, show_hits, ranked, search_files, search_codebase,
}
use ctxlite.CodeSearch.Search.Ranked.{IsRanked, IsRow, ranked-IsRow, ranked-IsRanked}
use ctxlite.CodeSearch.Search.{search_result}
use ctxlite.Bm25.{score_from}
use ctxlite.Prelude.{sort_descending}
use mathlib.Core.Path.{subst}
use ctxlite.Prelude.{ℕ, zero, suc}

module _ (rt : Runtime) (opts : CodeSearchOptions rt) where
  open rt use {Double, of_nat, lt}

  -- What is shown of a file for its score.
  abbrev pub snippet_of : ScannedFile → Snippet
  snippet_of f = extract_snippet rt f.content opts.query opts.snippet_budget

  abbrev pub shown_hit : ScannedFile × Double → CodeSearchHit rt
  shown_hit (f, score) = hit_of rt f score (snippet_of f)

  abbrev pub full_tokens : List (ScannedFile × Double) → ℕ
  full_tokens [] = 0
  full_tokens ((f, score) ∷ fs) = f.tokens + full_tokens fs

  abbrev pub shown_tokens : List (ScannedFile × Double) → ℕ
  shown_tokens [] = 0
  shown_tokens ((f, score) ∷ fs) = estimate_tokens (snippet_of f).snippet + shown_tokens fs

  module _ (files : List ScannedFile) where
    -- The sources are the files of the rows, with the scores of the rows, in this order.
    abbrev pub AreNamed : List (ScoredDoc rt) → List (ScannedFile × Double) → Type 0
    AreNamed [] [] = Unit
    AreNamed [] (source ∷ sources) = ⊥
    AreNamed (row ∷ rows) [] = ⊥
    AreNamed (row ∷ rows) ((f, score) ∷ sources) =
        (scanned_at rt row.index files ≡ some f) × (row.score ≡ score) × AreNamed rows sources

    -- What the loop over ranked rows adds.
    record IsShowing (rows : List (ScoredDoc rt)) (before after : Shown rt) : Type 0 where
      sources : List (ScannedFile × Double)
      named : AreNamed rows sources
      hits : after.hits ≡ before.hits ++ map shown_hit sources
      full : after.full_read_tokens ≡ before.full_read_tokens + full_tokens sources
      shown : after.snippet_tokens ≡ before.snippet_tokens + shown_tokens sources

    IsShowing-some :
        (f : ScannedFile) (row : ScoredDoc rt) (rows : List (ScoredDoc rt))
        (before after : Shown rt)
        → scanned_at rt row.index files ≡ some f
        → IsShowing rows (show_hit rt opts (some f) row.score before) after
        → IsShowing (row ∷ rows) before after
    IsShowing-some f row rows before after h s = record {
      sources = (f, row.score) ∷ s.sources;
      named = (h, refl, s.named);
      hits =
          s.hits
          ∙ append_assoc before.hits (shown_hit (f, row.score) ∷ []) (map shown_hit s.sources);
      full = omega (arith, s.full);
      shown = omega (arith, s.shown);
    }

    show_hits-IsShowing :
        (rows : List (ScoredDoc rt)) (before : Shown rt)
        → All (IsRow rt opts files) rows
        → IsShowing rows before (show_hits rt opts files rows before)
    unfolding show_hits
    show_hits-IsShowing [] before h = record {
      sources = [];
      named = tt;
      hits = rw append-nil refl;
      full = omega arith;
      shown = omega arith;
    }
    show_hits-IsShowing (row ∷ rows) before ((f, e), h) = rw e (
        IsShowing-some f row rows before _ e
          (show_hits-IsShowing rows (show_hit rt opts (some f) row.score before) h))

    -- What a search in files shows: a hit for each row, with what the texts of their files have more
    -- tokens than what is shown of them.
    pub record IsSearchResult (r : CodeSearchResult rt) : Type 0 where
      pub rows : List (ScoredDoc rt)
      pub ordered : IsRanked rt opts files rows
      pub sources : List (ScannedFile × Double)
      pub named : AreNamed rows sources
      pub hits : r.hits ≡ map shown_hit sources
      pub saved : r.tokens_saved ≡ full_tokens sources - shown_tokens sources

    ranked_result : CodeSearchResult rt
    ranked_result = search_result rt (
        show_hits rt opts files (ranked rt opts files)
          (record { hits = []; full_read_tokens = 0; snippet_tokens = 0 }))

    ranked_result-IsSearchResult : IsSearchResult ranked_result
    unfolding ranked_result
    ranked_result-IsSearchResult =
        let rows = ranked rt opts files in
        let start : Shown rt = record { hits = []; full_read_tokens = 0; snippet_tokens = 0 } in
        let s = show_hits-IsShowing rows start (ranked-IsRow rt opts files) in
        record {
          rows = rows;
          ordered = ranked-IsRanked rt opts files;
          sources = s.sources;
          named = s.named;
          hits = s.hits;
          saved = omega (arith, s.full, s.shown);
        }

  take-no_rows : (n : ℕ) → let none_ranked : List (ScoredDoc rt) = [] in take n none_ranked ≡ []
  take-no_rows zero = refl
  take-no_rows (suc n) = refl

  no_rows : ranked rt opts [] ≡ []
  unfolding ranked score_all score_from new_bm25 filter_by sort_descending
  no_rows = take-no_rows opts.max_results

  no_files-IsSearchResult :
      (files : List ScannedFile)
      → length files == 0 ≡ true
      → IsSearchResult files (record { hits = []; tokens_saved = 0 })
  unfolding show_hits ranked_result
  no_files-IsSearchResult [] e =
      let none_shown : ranked_result [] ≡ record { hits = []; tokens_saved = 0 } =
        rw no_rows refl in
      subst (IsSearchResult []) none_shown (ranked_result-IsSearchResult [])
  no_files-IsSearchResult (f ∷ files) e = absurd (ground (arith, e))

  search_files-IsSearchResult :
      (files : List ScannedFile) → IsSearchResult files (search_files rt opts files)
  unfolding search_files ranked_result
  search_files-IsSearchResult files =
      if-either (IsSearchResult files) (length files == 0) _ _ (no_files-IsSearchResult files)
        (λ e. ranked_result-IsSearchResult files)

  -- What a search ends with: the exception for a blank query; or what is shown of the files that the
  -- walk finds.
  abbrev pub IsSearched : Host → Directory → Option (SearchOutcome rt) → Type 0
  IsSearched host tree out =
      ((length (trim opts.query) ≡ 0) × (out ≡ some (failed (str "query must not be empty"))))
      ⊎ ((files : List ScannedFile) × (r : CodeSearchResult rt) × (out ≡ some (found r))
          × IsFoundIn (load_ignore_patterns host opts.root) opts.max_files_scanned
              (directory_files (load_ignore_patterns host opts.root) tree) files
          × IsSearchResult files r)

  -- A search throws exactly its message for a blank query; otherwise it ends, for the files that
  -- the walk finds. Each of them has one row, with the score of its own path and text; the rows
  -- that score above 0 stand in the order of scoreAll, and the first maxResults of them, or all
  -- where there are fewer, are shown. The hits are those of the shown rows in their order, each
  -- with the path, the rounded score and the snippet of its own file, and the tokens saved are
  -- those of these files less those of the snippets.
  pub search_codebase-IsSearched :
      (host : Host) (tree : Directory) → IsSearched host tree (search_codebase rt host tree opts)
  unfolding search_codebase
  search_codebase-IsSearched host tree =
      let patterns = load_ignore_patterns host opts.root in
      let (files, e, walked) = walk_code_files-IsFoundIn tree patterns opts.max_files_scanned in
      if-either (IsSearched host tree) (length (trim opts.query) == 0) _ _
        (λ blank. inl (ground (arith, blank), refl))
        (λ given. inr (
          files,
          search_files rt opts files,
          ap (λ (o : Option (List ScannedFile)). o >>= λ fs. some (found (search_files rt opts fs)))
              e,
          walked,
          search_files-IsSearchResult files,
        ))
