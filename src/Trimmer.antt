-- ===== src/Trimmer.antt =====
-- packages/core/src/trimmer.ts: `trimFiles`, the files that are kept for a query.
pub mod Laws
pub mod Graph
mod Tests
use ctxlite.Prelude.{
  ℕ, zero, suc, ◌+◌, ◌-◌, ◌*◌, ◌/◌, ◌%◌, ◌≤◌, ◌<◌, min, max, String, ◌≡◌, refl, sym, ap, ap₂, ◌∙◌,
  ◌≢◌, ◌↔◌, ◌⊎◌, inl, inr, Bool, true, false, ◌&&◌, ◌||◌, not, Option, none, some, List, [], ◌∷◌,
  ◌++◌, map, append_assoc, append-nil, map-append, arith, Text, str, text_eq, text_eq_iff,
  text_eq_refl, length, length-append, join, Dict, dict_get, dict_set, dict_delete, get-set,
  get-delete, or_else, slice, take, drop, filter_by, any, all, All, trim_end, starts_with,
  ends_with, includes, ltb, leb, ◌==◌, if◌then◌else◌, Option-cases, Bool-cases, print_nat,
  round_seven_tenths, lines_of, unlines, lower_unit, length-take, length-drop, take-append-drop,
}
use ctxlite.Runtime.{Runtime}
use ctxlite.Bm25.{ScoredDoc, new_bm25, score_all}
use ctxlite.Imports.{CodeFile, build_import_graph, calculate_import_boosts}
use ctxlite.Prelude.{sort_descending, trim}

abbrev pub sum_tokens : List CodeFile → ℕ
sum_tokens [] = 0
sum_tokens (f ∷ fs) = f.tokens + sum_tokens fs

module _ (rt : Runtime) where
  open rt use {Double, of_nat, ratio, add, div, lt}

  pub record TrimOptions : Type 0 where
    pub max_tokens : ℕ
    pub min_score : Double
    pub use_import_graph : Bool

  abbrev pub trim_defaults : TrimOptions
  trim_defaults = record { max_tokens = 4096; min_score = ratio 1 10; use_import_graph = true }

  pub record TrimResult : Type 0 where
    pub files : List CodeFile
    pub tokens_in : ℕ
    pub tokens_out : ℕ
    pub tokens_saved : ℕ
    pub trim_ratio : Double
    pub files_in : ℕ
    pub files_out : ℕ

  unfoldable pub untrimmed : List CodeFile → TrimResult
  untrimmed files = record {
    files = files;
    tokens_in = sum_tokens files;
    tokens_out = sum_tokens files;
    tokens_saved = 0;
    trim_ratio = of_nat 0;
    files_in = length files;
    files_out = length files;
  }

  -- `files[index]`
  abbrev pub file_at : ℕ → List CodeFile → Option CodeFile
  file_at n [] = none
  file_at zero (f ∷ fs) = some f
  file_at (suc n) (f ∷ fs) = file_at n fs

  abbrev set_score : Option CodeFile → Double → Dict Double → Dict Double
  set_score none score scores = scores
  set_score (some file) score scores = dict_set file.path score scores

  -- `scoreMap`
  unfoldable pub score_map : List CodeFile → List (ScoredDoc rt) → Dict Double → Dict Double
  score_map files [] scores = scores
  score_map files (d ∷ ds) scores =
      score_map files ds (set_score (file_at d.index files) d.score scores)

  -- `finalScores`
  unfoldable pub with_boosts : Dict Double → Dict Double → Dict Double
  with_boosts boosts [] = []
  with_boosts boosts ((path, score) ∷ scores) =
      (path, add score (or_else (dict_get path boosts) (of_nat 0))) ∷ with_boosts boosts scores

  unfoldable pub final_scores : List CodeFile → Text → Bool → Dict Double
  unfolding score_map with_boosts
  final_scores files query use_import_graph =
      let docs = map (λ (f : CodeFile). f.path ++ (str " " ++ f.content)) files in
      let scores = score_map files (score_all rt (new_bm25 rt docs) query) [] in
      let boosts =
        if use_import_graph
        then calculate_import_boosts rt (build_import_graph files) scores
        else [] in
      with_boosts boosts scores

  abbrev pub score_of : Dict Double → CodeFile → Double
  score_of scores f = or_else (dict_get f.path scores) (of_nat 0)

  abbrev pub select_file : CodeFile → List CodeFile × ℕ → List CodeFile × ℕ
  select_file f (selected, tokens_out) = (f ∷ selected, tokens_out)

  -- The loop that selects, from what is selected so far: a file that is not relevant enough, or that
  -- does not fit, is passed over.
  unfoldable pub select_files : Dict Double → TrimOptions → ℕ → List CodeFile → List CodeFile × ℕ
  select_files scores opts tokens_out [] = ([], tokens_out)
  select_files scores opts tokens_out (f ∷ fs) =
      let passed = select_files scores opts tokens_out fs in
      let selected = select_file f (select_files scores opts (tokens_out + f.tokens) fs) in
      if lt (score_of scores f) opts.min_score
      then passed
      else if ltb opts.max_tokens (tokens_out + f.tokens)
      then passed
      else selected

  -- `trimRatio < 0.1`, which is a test of whole numbers below 2^50
  abbrev pub saves_little : ℕ → ℕ → Bool
  saves_little tokens_in tokens_saved =
      if ltb 0 tokens_in then ltb (10 * tokens_saved) tokens_in else true

  unfoldable pub keep_or_trim : List CodeFile → List CodeFile × ℕ → TrimResult
  unfolding untrimmed
  keep_or_trim files (selected, tokens_out) =
      let tokens_in = sum_tokens files in
      if saves_little tokens_in (tokens_in - tokens_out) then untrimmed files else record {
        files = selected;
        tokens_in = tokens_in;
        tokens_out = tokens_out;
        tokens_saved = tokens_in - tokens_out;
        trim_ratio = div (of_nat (tokens_in - tokens_out)) (of_nat tokens_in);
        files_in = length files;
        files_out = length selected;
      }

  unfoldable pub sorted_files : Dict Double → List CodeFile → List CodeFile
  sorted_files scores files = sort_descending lt (score_of scores) files

  -- for files and a query that are not empty
  unfoldable pub trim_by : Dict Double → List CodeFile → TrimOptions → TrimResult
  unfolding select_files keep_or_trim sorted_files
  trim_by scores files opts =
      keep_or_trim files (select_files scores opts 0 (sorted_files scores files))

  unfoldable pub trim_files : List CodeFile → Text → TrimOptions → TrimResult
  unfolding final_scores trim_by untrimmed
  trim_files files query opts =
      if length files == 0 || length (trim query) == 0
      then untrimmed files
      else trim_by (final_scores files query opts.use_import_graph) files opts
