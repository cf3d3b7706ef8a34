-- ===== src/CodeSearch/Tests.antt =====
-- Runs of the search (code-search.ts).
use ctxlite.Prelude.{
  ◌≡◌, refl, true, false, none, some, List, [], ◌∷◌, ◌++◌, Text, str, text_eq, starts_with,
  includes, any, filter_by, unlines, lines_of, join, split_on, print_nat, trim, trim_start,
  trim_end, is_space, sort_descending, insert_descending, dict_get, dict_set,
}
use ctxlite.Host.{Host}
use ctxlite.Ignore.{is_ignored, load_ignore_patterns}
use ctxlite.SmartRead.{extension_of, last_of}
use ctxlite.Tokens.{estimate_tokens}
use ctxlite.Bm25.{
  new_bm25, score_all, score_from, score_doc, sum_scores, term_score, bm25_denominator,
  count_tokens, compute_idf, idf_of, document_counts, first_tokens,
}
use ctxlite.Bm25.Tests.{thousandths, tokens}
use ctxlite.CodeSearch.{
  end, directory, file, Directory, ScannedFile, child_path, is_code_file, code_extensions,
  is_passed_over, scan_file, visit_entries, walk_queue, walk_code_files,
}
use ctxlite.CodeSearch.Found.Specified.{IsFoundIn, directory_files, code_files}
use ctxlite.CodeSearch.Found.{walk_code_files-IsFoundIn}
use ctxlite.CodeSearch.Snippet.{
  search_terms, line_score, best_line_from, drop_last_lines, snippet_at, extract_snippet,
}
use ctxlite.CodeSearch.Snippet.Laws.{IsSnippet, extract_snippet-IsSnippet}
use ctxlite.CodeSearch.Search.{
  CodeSearchOptions, search_defaults, failed, hit_of, show_hits, ranked, search_files,
  search_codebase, hit_lines, format_code_search_output,
}
use ctxlite.CodeSearch.Search.Laws.{IsSearched, search_codebase-IsSearched}

run : Unit {0}
unfolding tokens new_bm25 score_all score_from score_doc sum_scores term_score bm25_denominator
    count_tokens compute_idf idf_of document_counts first_tokens text_eq str starts_with includes
    any sort_descending insert_descending trim trim_start trim_end is_space dict_get dict_set
    unlines lines_of join split_on print_nat is_ignored load_ignore_patterns extension_of last_of
    estimate_tokens child_path is_code_file code_extensions is_passed_over scan_file visit_entries
    walk_queue walk_code_files code_files search_terms line_score best_line_from drop_last_lines
    snippet_at extract_snippet hit_of show_hits ranked search_files search_codebase hit_lines
    format_code_search_output filter_by
run = tt

-- A workspace with a source, a test below it, and what the walk passes over.
abbrev workspace : Directory
workspace = record {
  path = [];
  readable = true;
  entries =
      directory (str "src") true
        (file (str "parser.ts") (some 40) (some (str "const x = 1\nclass Parser {}\nparser.run()"))
          end)
        (directory (str "node_modules") true
          (file (str "dep.js") (some 9) (some (str "parser")) end)
          (directory (str "locked") false end (
            file (str "README.MD") (some 20) (some (str "about the parser")) (
              file (str "big.ts") (some 2000000) (some (str "parser"))
                (file (str "logo.png") (some 5) (some (str "parser")) end)))));
}

abbrev readme : ScannedFile
readme = record { path = str "README.MD"; content = str "about the parser"; tokens = 4 }

abbrev source : ScannedFile
source = record {
  path = str "src/parser.ts";
  content = str "const x = 1\nclass Parser {}\nparser.run()";
  tokens = 10;
}

-- The files of the directories nearer to the root come first.
some_files : walk_code_files workspace [] 500 ≡ some (readme ∷ source ∷ [])
unfolding run
some_files = refl

one_file : walk_code_files workspace [] 1 ≡ some (readme ∷ [])
unfolding run
one_file = refl

walk_code_files-IsFoundIn_example :
    (files : List ScannedFile) × (walk_code_files workspace [] 500 ≡ some files)
    × IsFoundIn [] 500 (directory_files [] workspace) files
walk_code_files-IsFoundIn_example = walk_code_files-IsFoundIn workspace [] 500

abbrev text : Text
text = str "const x = 1\nclass Parser {}\nparser.run()"

some_snippet :
    extract_snippet thousandths text (str "the parser") 6
    ≡ record { snippet = str "const x = 1"; line = 2 }
unfolding run
some_snippet = refl

extract_snippet-IsSnippet_example :
    IsSnippet thousandths text
      (str "the parser")
      6
      (extract_snippet thousandths text (str "the parser") 6)
extract_snippet-IsSnippet_example = extract_snippet-IsSnippet thousandths text (str "the parser") 6

abbrev host : Host
host = record {
  size_of = λ p. none;
  content_of = λ p. none;
  join = λ a b. a ++ (str "/" ++ b);
  resolve = λ a b. b;
  is_absolute = λ p. true;
}

abbrev options : CodeSearchOptions thousandths
options = search_defaults thousandths (str "parser") (str "/work")

some_output :
    format_code_search_output thousandths (str "parser") (
      record { path = str "README.MD"; score = 500; snippet = str "about the parser"; line = 1 }
      ∷ [])
    ≡ str "## code_search \"parser\"\n1. README.MD (score 0.500) L1\n```\nabout the parser\n```"
unfolding run
some_output = refl

blank_query :
    search_codebase thousandths host workspace
      (search_defaults thousandths (str "  ") (str "/work"))
    ≡ some (failed (str "query must not be empty"))
unfolding run
blank_query = refl

search_codebase-IsSearched_example :
    IsSearched thousandths options host workspace
      (search_codebase thousandths host workspace options)
search_codebase-IsSearched_example = search_codebase-IsSearched thousandths options host workspace
