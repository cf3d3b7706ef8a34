-- ===== src/Mcp/Logged.antt =====
-- About what the tools of the server log (trim-context.ts).
use ctxlite.Prelude.{
  ◌≤◌, ◌≡◌, refl, ap, ◌⊎◌, inl, inr, some, List, ◌++◌, map, arith, Text, str, length, or_else,
}
use mathlib.Core.List.{Perm}
use ctxlite.Runtime.{Runtime}
use ctxlite.Imports.{CodeFile}
use ctxlite.Trimmer.{TrimResult, untrimmed, sum_tokens, trim_files}
use ctxlite.Trimmer.Laws.{IsTrimmed, trim_files-cases}
use ctxlite.Stats.{Store}
use ctxlite.Stats.Loggers.{log_trim_result}
use ctxlite.Mcp.{
  McpServer, TrimArgs, code_file_of, candidate_files, no_trimming_text, counts_of, trim_answer,
  trim_context_options, handle_trim_context,
}
use ctxlite.Prelude.{◌∙◌}
use ctxlite.Mcp.{trimming_text, excluded_files}
use ctxlite.Prelude.{filter_by, if-either, print_nat, unlines, ◌<◌}
use ctxlite.Mcp.{any}
use ctxlite.Prelude.{ℕ}
use ctxlite.Prelude.{
  ◌==◌, if-either, filter_by, any, text_eq, print_nat, not, unlines, ℕ, ◌<◌, ◌∷◌, [],
}

module _ (rt : Runtime) (server : McpServer) (args : TrimArgs) (store : Store) where
  abbrev pub candidates : List CodeFile
  candidates = map code_file_of (candidate_files server args.files)

  abbrev listed_line : CodeFile → Text
  listed_line f = str "- `" ++ (f.path ++ (str "` (" ++ (print_nat f.tokens ++ str " tokens)")))

  -- The candidates whose path is that of no selected file.
  unfoldable pub others : List CodeFile → List CodeFile
  unfolding filter_by any
  others selected =
      filter_by (λ (f : CodeFile). not (any (λ (s : CodeFile). text_eq s.path f.path) selected))
        candidates

  -- The list of the selected files and the others, for a saving and a percentage.
  unfoldable pub listing : List CodeFile → ℕ → Text → Text
  unfolding unlines others
  listing selected saved percent = unlines (
      str "## trim_context result"
      ∷ []
      ∷ (str "**Selected** — "
          ++ (print_nat (length selected)
              ++ (str " of "
                  ++ (print_nat (length candidates)
                      ++ (str " files, " ++ (print_nat (sum_tokens selected) ++ str " tokens:"))))))
      ∷ unlines (map listed_line selected)
      ∷ []
      ∷ (str "**Excluded** — saved "
          ++ (print_nat saved ++ (str " tokens (-" ++ (percent ++ str "%):"))))
      ∷ unlines (map listed_line (others selected))
      ∷ []
      ∷ str "_Include only the selected files in your next prompt to reduce token usage._"
      ∷ [])

  -- The answer lists the selected files, or says that nothing is trimmed where nothing is saved.
  abbrev pub IsListed : List CodeFile → List CodeFile → Text → Type 0
  IsListed selected left text =
      ((sum_tokens left ≡ 0)
        × (text ≡ no_trimming_text (length candidates) (sum_tokens candidates)))
      ⊎ ((0 < sum_tokens left)
          × (percent : Text) × (text ≡ listing selected (sum_tokens left) percent))

  -- The candidates are parted, the answer lists the parts, and what is logged are their tokens.
  pub record IsLogged (r : TrimResult rt) (answer : Text × Store) : Type 0 where
    pub selected : List CodeFile
    pub left : List CodeFile
    pub chosen : selected ≡ r.files
    pub parted : Perm (selected ++ left) candidates
    pub in_budget : sum_tokens selected ≤ or_else args.max_tokens 4096
    pub listed : IsListed selected left answer.0
    pub logged :
        answer.1
        ≡ log_trim_result server.moment
            (record {
              tokens_in = sum_tokens candidates;
              tokens_out = sum_tokens selected;
              tokens_saved = sum_tokens left;
            })
            (str "mcp")
            (some server.session_id)
            store

  -- The answer for what the core makes of the candidates.
  abbrev pub IsAnswerFor : TrimResult rt → Text × Store → Type 0
  IsAnswerFor r answer =
      ((r ≡ untrimmed rt candidates)
        × (answer ≡ (no_trimming_text (length candidates) (sum_tokens candidates), store)))
      ⊎ IsLogged r answer

  abbrev pub IsTrimAnswer : Text × Store → Type 0
  IsTrimAnswer answer =
      IsAnswerFor (trim_files rt candidates args.query (trim_context_options rt args)) answer

  counts-trimmed :
      (scores : List (Text × rt.Double)) (r : TrimResult rt)
      → (t : IsTrimmed rt scores (trim_context_options rt args) candidates r)
      → counts_of rt r ≡ record {
        tokens_in = sum_tokens candidates;
        tokens_out = sum_tokens r.files;
        tokens_saved = sum_tokens t.left;
      }
  counts-trimmed scores r t = let (i, o, s, files_in, files_out) = t.counts in rw (i, o, s) refl

  trim_answer-IsListed :
      (scores : List (Text × rt.Double)) (r : TrimResult rt)
      → (t : IsTrimmed rt scores (trim_context_options rt args) candidates r)
      → IsListed r.files t.left (trim_answer rt candidates r)
  unfolding trimming_text excluded_files listing others
  trim_answer-IsListed scores r t =
      let (i, o, s, files_in, files_out) = t.counts in
      if-either (IsListed r.files t.left) (r.tokens_saved == 0) _ _
        (λ e. inl (ground (arith, e, s), ap (no_trimming_text (length candidates)) i))
        (λ e. inr (
          ground (arith, e, s),
          rt.print (rt.round (rt.mul r.trim_ratio (rt.of_nat 100))),
          rw (o, s, files_in, files_out) refl,
        ))

  answer_of : TrimResult rt → Text × Store
  answer_of r = (
    trim_answer rt candidates r,
    log_trim_result server.moment (counts_of rt r) (str "mcp") (some server.session_id) store,
  )

  answer_of-untrimmed :
      answer_of (untrimmed rt candidates)
      ≡ (no_trimming_text (length candidates) (sum_tokens candidates), store)
  unfolding answer_of untrimmed log_trim_result
  answer_of-untrimmed = refl

  answer_of-IsTrimAnswer :
      (scores : List (Text × rt.Double)) (r : TrimResult rt)
      → (r ≡ untrimmed rt candidates)
        ⊎ IsTrimmed rt scores (trim_context_options rt args) candidates r
      → IsAnswerFor r (answer_of r)
  answer_of-IsTrimAnswer scores r (inl e) = inl (e, ap answer_of e ∙ answer_of-untrimmed)
  answer_of-IsTrimAnswer scores r (inr t) =
      let (i, o, s, files_in, files_out) = t.counts in
      inr (record {
        selected = r.files;
        chosen = refl;
        left = t.left;
        parted = t.perm;
        in_budget = omega (arith, t.in_budget, o);
        listed = unfold answer_of in trim_answer-IsListed scores r t;
        logged =
            unfold answer_of in
            ap (λ c. log_trim_result server.moment c (str "mcp") (some server.session_id) store)
              (counts-trimmed scores r t);
      })

  -- Whatever its arguments, trim_context answers for what trimFiles makes of the candidates,
  -- which are the files that no pattern ignores. Where they are left untrimmed, it says so, with
  -- their number and tokens, and the table stays as it is. Otherwise the selected files are those
  -- of trimFiles, within maxTokens, and the others are left out; the answer lists exactly the
  -- selected files and the candidates whose path is that of none of them, with the numbers of
  -- files and tokens and a percentage, or says that no trimming is applied where the files left
  -- out have no tokens; and the tokens logged are those of all candidates, of the selected ones
  -- and, as the saving, of those left out.
  pub handle_trim_context-IsTrimAnswer : IsTrimAnswer (handle_trim_context rt server args store)
  unfolding handle_trim_context answer_of
  handle_trim_context-IsTrimAnswer =
      answer_of-IsTrimAnswer _ (trim_files rt candidates args.query (trim_context_options rt args))
        (trim_files-cases rt candidates args.query (trim_context_options rt args))
