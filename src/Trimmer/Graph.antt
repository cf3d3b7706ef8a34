-- ===== src/Trimmer/Graph.antt =====
-- About the import graph and the files that it can reach (imports.ts, trimmer.ts).
use ctxlite.Prelude.{
  ℕ, zero, suc, ◌+◌, ◌≡◌, refl, ◌∙◌, inl, inr, Bool, true, false, none, List, [], ◌∷◌, ◌++◌, map,
  Text, str, text_eq, text_eq_iff, Dict, dict_get, get-set, or_else, All, Bool-cases,
}
use ctxlite.Runtime.{Runtime}
use ctxlite.Bm25.{ScoredDoc, new_bm25, score_all}
use ctxlite.Imports.{
  CodeFile, graph_from, build_import_graph, boost_all, boosts_from, calculate_import_boosts,
}
use ctxlite.Trimmer.{TrimOptions, file_at, score_map, with_boosts, final_scores, trim_files}
use ctxlite.Prelude.{if-either}
use ctxlite.Trimmer.{select_files, set_score, trim_by}
use ctxlite.Imports.Specifiers.{
  is_specifier, AllSpecifiers, GraphSpecifiers, dict_set-All, graph_from-GraphSpecifiers,
}

module _ (rt : Runtime) where
  open rt use {Double}

  -- No text that cannot be an import has a boost.
  abbrev OnlySpecifiers : Dict Double → Type 0
  OnlySpecifiers boosts = (path : Text) → is_specifier path ≡ false → dict_get path boosts ≡ none

  boost_all-OnlySpecifiers :
      (score : Double) (deps : List Text) (boosts : Dict Double)
      → AllSpecifiers deps
      → OnlySpecifiers boosts
      → OnlySpecifiers (boost_all rt score deps boosts)
  unfolding boost_all
  boost_all-OnlySpecifiers score [] boosts d h = h
  boost_all-OnlySpecifiers score (dep ∷ deps) boosts (d, ds) h =
      boost_all-OnlySpecifiers score deps _ ds (λ path p. elim (Bool-cases (text_eq dep path)) [
        | inl e ↦ let same : dep ≡ path = (text_eq_iff dep path).0 e in cc (rw same at d)
        | inr e ↦ get-set dep path _ boosts ∙ rw e (h path p)
      ])

  boosts_from-OnlySpecifiers :
      (scores : Dict Double) (graph : Dict (List Text)) (boosts : Dict Double)
      → GraphSpecifiers graph
      → OnlySpecifiers boosts
      → OnlySpecifiers (boosts_from rt scores graph boosts)
  unfolding boosts_from
  boosts_from-OnlySpecifiers scores [] boosts g h = h
  boosts_from-OnlySpecifiers scores ((importer, imported) ∷ graph) boosts (i, g) h =
      let score = or_else (dict_get importer scores) (rt.of_nat 0) in
      boosts_from-OnlySpecifiers scores graph _ g (
        if-either OnlySpecifiers (rt.le score (rt.of_nat 0)) boosts
          (boost_all rt score imported boosts) (λ e. h)
          (λ e. boost_all-OnlySpecifiers score imported boosts i h))

  abbrev NoSpecifiers : Dict Double → Type 0
  NoSpecifiers = All (λ (path, score). is_specifier path ≡ false)

  with_boosts-none :
      (boosts scores : Dict Double)
      → OnlySpecifiers boosts
      → NoSpecifiers scores
      → with_boosts rt boosts scores ≡ with_boosts rt [] scores
  unfolding with_boosts
  with_boosts-none boosts [] h n = refl
  with_boosts-none boosts ((path, score) ∷ scores) h (p, n) =
      rw (h path p, with_boosts-none boosts scores h n) (unfold dict_get in refl)

  -- The paths of the files are no texts that an import can be.
  abbrev pub NoImportPaths : List CodeFile → Type 0
  NoImportPaths = All (λ f. is_specifier f.path ≡ false)

  set_score-NoSpecifiers :
      (files : List CodeFile) (n : ℕ) (score : Double) (scores : Dict Double)
      → NoImportPaths files
      → NoSpecifiers scores
      → NoSpecifiers (set_score rt (file_at rt n files) score scores)
  set_score-NoSpecifiers [] zero score scores f h = h
  set_score-NoSpecifiers [] (suc n) score scores f h = h
  set_score-NoSpecifiers (g ∷ fs) zero score scores (p, f) h =
      dict_set-All _ g.path score scores p (λ j w q. q) h
  set_score-NoSpecifiers (g ∷ fs) (suc n) score scores (p, f) h =
      set_score-NoSpecifiers fs n score scores f h

  score_map-NoSpecifiers :
      (files : List CodeFile) (ds : List (ScoredDoc rt)) (scores : Dict Double)
      → NoImportPaths files
      → NoSpecifiers scores
      → NoSpecifiers (score_map rt files ds scores)
  unfolding score_map
  score_map-NoSpecifiers files [] scores f h = h
  score_map-NoSpecifiers files (d ∷ ds) scores f h =
      score_map-NoSpecifiers files ds _ f (set_score-NoSpecifiers files d.index d.score scores f h)

  final_scores-graph :
      (files : List CodeFile) (query : Text)
      → NoImportPaths files
      → final_scores rt files query true ≡ final_scores rt files query false
  unfolding final_scores calculate_import_boosts build_import_graph
  final_scores-graph files query f =
      let docs = map (λ (g : CodeFile). g.path ++ (str " " ++ g.content)) files in
      let scored = score_all rt (new_bm25 rt docs) query in
      with_boosts-none _ (score_map rt files scored [])
        (boosts_from-OnlySpecifiers _ (graph_from files []) []
          (graph_from-GraphSpecifiers files [] tt) (λ path p. unfold dict_get in refl))
        (score_map-NoSpecifiers files scored [] f tt)

  select_files-flag :
      (a b : Bool) (opts : TrimOptions rt) (scores : Dict Double) (n : ℕ) (fs : List CodeFile)
      → select_files rt scores (record opts { use_import_graph = a }) n fs
        ≡ select_files rt scores (record opts { use_import_graph = b }) n fs
  unfolding select_files
  select_files-flag a b opts scores n [] = refl
  select_files-flag a b opts scores n (f ∷ fs) =
      rw
        (
          select_files-flag a b opts scores n fs,
          select_files-flag a b opts scores (n + f.tokens) fs,
        )
        refl

  -- The import graph changes nothing for files whose paths do not begin with a dot and are not `super`
  -- or `self`: whatever they import and whatever the query, they are trimmed as without the graph.
  pub trim_files-graph :
      (files : List CodeFile) (query : Text) (opts : TrimOptions rt)
      → NoImportPaths files
      → trim_files rt files query (record opts { use_import_graph = true })
        ≡ trim_files rt files query (record opts { use_import_graph = false })
  unfolding trim_files trim_by
  trim_files-graph files query opts f =
      rw (final_scores-graph files query f, select_files-flag true false opts _ 0 _) refl
