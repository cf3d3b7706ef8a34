-- ===== src/CodeSearch/Search.antt =====
-- packages/core/src/code-search.ts: `searchCodebase` and `formatCodeSearchOutput`.
pub mod Ranked
pub mod Laws
use ctxlite.Prelude.{
  ℕ, zero, suc, ◌+◌, ◌-◌, Bool, Option, none, some, List, [], ◌∷◌, ◌++◌, map, Text, str, length,
  take, drop, filter_by, trim, ◌==◌, if◌then◌else◌, unlines, print_nat, ◌>>=◌,
}
use ctxlite.Runtime.{Runtime}
use ctxlite.Host.{Host}
use ctxlite.Ignore.{IgnorePattern, load_ignore_patterns}
use ctxlite.Tokens.{estimate_tokens}
use ctxlite.Bm25.{ScoredDoc, new_bm25, score_all}
use ctxlite.CodeSearch.{ScannedFile, Directory, walk_code_files}
use ctxlite.CodeSearch.Snippet.{Snippet, extract_snippet}

module _ (rt : Runtime) where
  open rt use {Double, of_nat, mul, div, lt, round, print}

  pub record CodeSearchHit : Type 0 where
    pub path : Text
    pub score : Double
    pub snippet : Text
    pub line : ℕ

  -- The options; the root of the workspace is a path, beside which the search is given its tree.
  pub record CodeSearchOptions : Type 0 where
    pub query : Text
    pub max_results : ℕ
    pub snippet_budget : ℕ
    pub root : Text
    pub max_files_scanned : ℕ

  abbrev pub search_defaults : Text → Text → CodeSearchOptions
  search_defaults query root = record {
    query = query;
    max_results = 5;
    snippet_budget = 400;
    root = root;
    max_files_scanned = 500;
  }

  pub record CodeSearchResult : Type 0 where
    pub hits : List CodeSearchHit
    pub tokens_saved : ℕ

  -- What a search ends with: an exception, or its result.
  pub data SearchOutcome : Type 0 where
    failed : Text → SearchOutcome
    found : CodeSearchResult → SearchOutcome

  -- `files[row.index]`
  abbrev pub scanned_at : ℕ → List ScannedFile → Option ScannedFile
  scanned_at n [] = none
  scanned_at zero (f ∷ fs) = some f
  scanned_at (suc n) (f ∷ fs) = scanned_at n fs

  -- The state of the loop over the ranked files.
  pub record Shown : Type 0 where
    pub hits : List CodeSearchHit
    pub full_read_tokens : ℕ
    pub snippet_tokens : ℕ

  unfoldable pub hit_of : ScannedFile → Double → Snippet → CodeSearchHit
  hit_of file score s = record {
    path = file.path;
    score = div (round (mul score (of_nat 10))) (of_nat 10);
    snippet = s.snippet;
    line = s.line;
  }

  abbrev pub show_hit : CodeSearchOptions → Option ScannedFile → Double → Shown → Shown
  show_hit opts none score shown = shown
  show_hit opts (some file) score shown =
      let s = extract_snippet rt file.content opts.query opts.snippet_budget in
      record {
        hits = shown.hits ++ (hit_of file score s ∷ []);
        full_read_tokens = shown.full_read_tokens + file.tokens;
        snippet_tokens = shown.snippet_tokens + estimate_tokens s.snippet;
      }

  unfoldable pub show_hits :
      CodeSearchOptions → List ScannedFile → List (ScoredDoc rt) → Shown → Shown
  unfolding hit_of
  show_hits opts files [] shown = shown
  show_hits opts files (row ∷ rows) shown =
      show_hits opts files rows (show_hit opts (scanned_at row.index files) row.score shown)

  -- The files that score, best first.
  unfoldable pub ranked : CodeSearchOptions → List ScannedFile → List (ScoredDoc rt)
  unfolding filter_by
  ranked opts files =
      let docs = map (λ (f : ScannedFile). f.path ++ (str "\n" ++ f.content)) files in
      take opts.max_results (
        filter_by (λ (r : ScoredDoc rt). lt (of_nat 0) r.score)
          (score_all rt (new_bm25 rt docs) opts.query))

  abbrev search_result : Shown → CodeSearchResult
  search_result shown = record {
    hits = shown.hits;
    tokens_saved = shown.full_read_tokens - shown.snippet_tokens;
  }

  -- The search in the files that are found.
  unfoldable pub search_files : CodeSearchOptions → List ScannedFile → CodeSearchResult
  unfolding show_hits ranked
  search_files opts files =
      if length files == 0
      then record { hits = []; tokens_saved = 0 }
      else search_result (
          show_hits opts files (ranked opts files)
            (record { hits = []; full_read_tokens = 0; snippet_tokens = 0 }))

  -- `none` where the walk of the files does not end.
  unfoldable pub search_codebase : Host → Directory → CodeSearchOptions → Option SearchOutcome
  unfolding search_files
  search_codebase host tree opts =
      let patterns = load_ignore_patterns host opts.root in
      let searched = walk_code_files tree patterns opts.max_files_scanned >>= λ files.
      some (found (search_files opts files)) in
      if length (trim opts.query) == 0
      then some (failed (str "query must not be empty"))
      else searched

  unfoldable pub hit_lines : ℕ → List CodeSearchHit → List Text
  unfolding print_nat
  hit_lines i [] = []
  hit_lines i (hit ∷ hits) =
      (print_nat (i + 1)
        ++ (str ". "
            ++ (hit.path
                ++ (str " (score " ++ (print hit.score ++ (str ") L" ++ print_nat hit.line))))))
      ∷ str "```"
      ∷ hit.snippet
      ∷ str "```"
      ∷ hit_lines (i + 1) hits

  unfoldable pub format_code_search_output : Text → List CodeSearchHit → Text
  unfolding hit_lines unlines
  format_code_search_output query hits =
      let none_found = if length hits == 0 then str "No matches found." ∷ [] else [] in
      unlines ((str "## code_search \"" ++ (query ++ str "\"")) ∷ hit_lines 0 hits ++ none_found)
