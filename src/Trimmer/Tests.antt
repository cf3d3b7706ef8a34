-- ===== src/Trimmer/Tests.antt =====
-- Runs of `trimFiles` (trimmer.ts).
use ctxlite.Prelude.{
  ℕ, ◌≡◌, refl, ◌⊎◌, true, false, [], ◌∷◌, Text, str, text_eq, dict_get, dict_set, any, trim_end,
  starts_with,
}
use ctxlite.Bm25.{
  new_bm25, score_all, score_from, score_doc, sum_scores, term_score, bm25_denominator,
  count_tokens, compute_idf, idf_of, document_counts, first_tokens,
}
use ctxlite.Bm25.Tests.{thousandths, tokens}
use ctxlite.Imports.{
  CodeFile, span, behind, some_units, skip_blanks, quoted_path, script_import, import_pattern,
  find_imports, imports_of, graph_from, build_import_graph, boost_all, boosts_from,
  calculate_import_boosts,
}
use ctxlite.Imports.Specifiers.{is_specifier}
use ctxlite.Trimmer.{
  TrimOptions, untrimmed, select_files, keep_or_trim, sorted_files, trim_by, final_scores,
  score_map, with_boosts, trim_files, trim_defaults,
}
use ctxlite.Trimmer.Laws.{IsTrimmed, trim_files-cases}
use ctxlite.Trimmer.Graph.{NoImportPaths, trim_files-graph}
use ctxlite.Prelude.{sort_descending}
use ctxlite.Prelude.{insert_descending}
use ctxlite.Prelude.{trim}
use ctxlite.Prelude.{trim_start}
use ctxlite.Prelude.{is_space}

run : Unit {0}
unfolding tokens new_bm25 score_all score_from score_doc sum_scores term_score bm25_denominator
    count_tokens compute_idf idf_of document_counts first_tokens span behind some_units skip_blanks
    quoted_path script_import import_pattern find_imports imports_of graph_from build_import_graph
    boost_all boosts_from calculate_import_boosts is_specifier untrimmed select_files keep_or_trim
    sorted_files trim_by final_scores score_map with_boosts trim_files dict_get dict_set text_eq str
    starts_with sort_descending insert_descending trim trim_start trim_end is_space any
run = tt

abbrev file : Text → Text → ℕ → CodeFile
file path content tokens = record {
  path = path;
  content = content;
  language = str "typescript";
  tokens = tokens;
}

abbrev main : CodeFile
main = file (str "src/main.ts") (str "import { parser } from './parser'") 100

abbrev parser : CodeFile
parser = file (str "./parser") (str "grammar rules") 50

abbrev notes : CodeFile
notes = file (str "notes.ts") (str "nothing") 70

abbrev options : TrimOptions thousandths
options = trim_defaults thousandths

some_imports : imports_of main ≡ str "./parser" ∷ []
unfolding run
some_imports = refl

kept : (trim_files thousandths (notes ∷ main ∷ []) (str "main") options).files ≡ main ∷ []
unfolding run
kept = refl

trim_files-cases_example :
    (trim_files thousandths (notes ∷ main ∷ []) (str "main") options
      ≡ untrimmed thousandths (notes ∷ main ∷ []))
    ⊎ IsTrimmed thousandths
        (final_scores thousandths (notes ∷ main ∷ []) (str "main") true)
        options
        (notes ∷ main ∷ [])
        (trim_files thousandths (notes ∷ main ∷ []) (str "main") options)
trim_files-cases_example = trim_files-cases thousandths (notes ∷ main ∷ []) (str "main") options

notes-NoImportPaths : NoImportPaths thousandths (notes ∷ main ∷ [])
unfolding run
notes-NoImportPaths = (refl, (refl, tt))

trim_files-graph_example :
    trim_files thousandths
      (notes ∷ main ∷ [])
      (str "main")
      (record options { use_import_graph = true })
    ≡ trim_files thousandths
        (notes ∷ main ∷ [])
        (str "main")
        (record options { use_import_graph = false })
trim_files-graph_example =
    trim_files-graph thousandths (notes ∷ main ∷ []) (str "main") options notes-NoImportPaths
