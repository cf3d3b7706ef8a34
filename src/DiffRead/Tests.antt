-- ===== src/DiffRead/Tests.antt =====
-- Runs of the reads of a diff (diff-read.ts).
use ctxlite.Prelude.{
  ℕ, ◌+◌, ◌≤◌, ◌<◌, ◌≡◌, refl, ◌⊎◌, [], ◌∷◌, ◌++◌, map, str, length, join, take, trim, lines_of,
  newline,
}
use ctxlite.Tokens.{estimate_tokens}
use ctxlite.DiffRead.{
  DiffHunk, digits_from, number_at, expect, optional_count, parse_header, hunks_of_lines,
  parse_unified_diff_hunks, block_of, DiffReadResult, read, heading, read_hunks,
}
use ctxlite.DiffRead.Laws.{tokens_of, note_after, read_hunks-reads}

diffs : Unit {0}
unfolding digits_from number_at expect optional_count parse_header hunks_of_lines
    parse_unified_diff_hunks str trim lines_of
diffs = tt

headers :
    (parse_unified_diff_hunks (str "@@ -1,2 +3,40 @@ f()" ++ 10 ∷ str " @@ -1 +7 @@")
      ≡ record { new_start = 3; new_count = 40 } ∷ record { new_start = 7; new_count = 1 } ∷ [])
    × (parse_unified_diff_hunks (str "@@ -0,0 +0,0 @@") ≡ [])
    × (parse_unified_diff_hunks (str "@@ -1,a +2 @@") ≡ [])
unfolding diffs
headers = (refl, refl, refl)

abbrev first_hunk : DiffHunk
first_hunk = record { new_start = 2; new_count = 1 }

abbrev second_hunk : DiffHunk
second_hunk = record { new_start = 9; new_count = 0 }

-- The first hunk is included even where it does not fit.
read_hunks-reads_example :
    let all_hunks = first_hunk ∷ second_hunk ∷ [] in
    let blocks = map (block_of 3 (lines_of (str "one line"))) all_hunks in
    (n : ℕ) × (r : DiffReadResult) × (read_hunks (str "a.ts") 3 1 (str "one line") all_hunks
      ≡ read r)
    × (0 < n)
    × (n ≤ length all_hunks)
    × (r.hunks_included ≡ n)
    × (r.output
        ≡ join
            (newline ∷ newline ∷ [])
            (heading (str "a.ts") ∷ take n blocks ++ note_after n (length all_hunks) 1))
    × ((n ≡ 1) ⊎ (estimate_tokens (heading (str "a.ts")) + tokens_of (take n blocks) ≤ 1))
read_hunks-reads_example =
    read_hunks-reads (str "a.ts") 3 1 (str "one line") first_hunk (second_hunk ∷ [])
