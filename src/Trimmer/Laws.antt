-- ===== src/Trimmer/Laws.antt =====
-- About the files that are kept and left out (trimmer.ts).
use ctxlite.Prelude.{
  ℕ, ◌+◌, ◌-◌, ◌*◌, ◌≤◌, ◌<◌, max, ◌≡◌, refl, ◌⊎◌, inl, inr, Bool, true, false, ◌||◌, List, [], ◌∷◌,
  ◌++◌, arith, Text, length, Dict, All, ltb, ◌==◌,
}
use mathlib.Core.List.{Perm, perm_middle}
use mathlib.Core.List.Perm
use ctxlite.Runtime.{Runtime}
use ctxlite.Imports.{CodeFile}
use ctxlite.Trimmer.{
  sum_tokens, TrimOptions, TrimResult, untrimmed, score_of, select_file, select_files, saves_little,
  keep_or_trim, sorted_files, trim_by, final_scores, trim_files,
}
use ctxlite.Prelude.{if-either, insert_descending, sort_descending}
use ctxlite.Prelude.{trim}
use ctxlite.Prelude.{sort_descending-perm}

sum_tokens-insert :
    {D : Type 0} (lt : D → D → Bool) (key : CodeFile → D) (f : CodeFile) (fs : List CodeFile)
    → sum_tokens (insert_descending lt key f fs) ≡ f.tokens + sum_tokens fs
unfolding insert_descending
sum_tokens-insert lt key f [] = refl
sum_tokens-insert lt key f (g ∷ fs) = ground (arith, sum_tokens-insert lt key f fs)

sum_tokens-sort :
    {D : Type 0} (lt : D → D → Bool) (key : CodeFile → D) (fs : List CodeFile)
    → sum_tokens (sort_descending lt key fs) ≡ sum_tokens fs
unfolding sort_descending
sum_tokens-sort lt key [] = refl
sum_tokens-sort lt key (f ∷ fs) =
    omega (arith, sum_tokens-insert lt key f (sort_descending lt key fs), sum_tokens-sort lt key fs)

module _ (rt : Runtime) (scores : Dict rt.Double) (opts : TrimOptions rt) where
  abbrev pub IsRelevant : CodeFile → Type 0
  IsRelevant f = rt.lt (score_of rt scores f) opts.min_score ≡ false

  -- A file is left out for its score, or it would not fit beside what is selected.
  abbrev pub IsLeftOut : ℕ → CodeFile → Type 0
  IsLeftOut tokens_out f =
      (rt.lt (score_of rt scores f) opts.min_score ≡ true)
      ⊎ (opts.max_tokens < tokens_out + f.tokens)

  -- What a selection is: with the files that it leaves it makes up the files that it is made from.
  pub record IsSelection (tokens_out : ℕ) (fs : List CodeFile) (out : List CodeFile × ℕ)
      : Type 0 where
    pub left : List CodeFile
    pub perm : Perm (out.0 ++ left) fs
    pub total : sum_tokens out.0 + sum_tokens left ≡ sum_tokens fs
    pub counted : out.1 ≡ tokens_out + sum_tokens out.0
    pub fits : out.1 ≤ max opts.max_tokens tokens_out
    pub relevant : All IsRelevant out.0
    pub left_out : All (IsLeftOut out.1) left

  IsSelection-pass :
      (n : ℕ) (f : CodeFile) (fs : List CodeFile) (out : List CodeFile × ℕ)
      → IsLeftOut n f
      → IsSelection n fs out
      → IsSelection n (f ∷ fs) out
  IsSelection-pass n f fs out h s = record {
    left = f ∷ s.left;
    perm = Perm.trans (perm_middle out.0 s.left) (Perm.cons f s.perm);
    total = omega (arith, s.total);
    counted = s.counted;
    fits = s.fits;
    relevant = s.relevant;
    left_out = (elim h [ inl e ↦ inl e | inr k ↦ inr (omega (arith, s.counted)) ], s.left_out);
  }

  IsSelection-take :
      (n : ℕ) (f : CodeFile) (fs : List CodeFile) (out : List CodeFile × ℕ)
      → IsRelevant f
      → n + f.tokens ≤ opts.max_tokens
      → IsSelection (n + f.tokens) fs out
      → IsSelection n (f ∷ fs) (select_file rt f out)
  IsSelection-take n f fs (selected, tokens_out) h fit s = record {
    left = s.left;
    perm = Perm.cons f s.perm;
    total = omega (arith, s.total);
    counted = omega (arith, s.counted);
    fits = omega (arith, s.fits);
    relevant = (h, s.relevant);
    left_out = s.left_out;
  }

  pub select_files-IsSelection :
      (n : ℕ) (fs : List CodeFile) → IsSelection n fs (select_files rt scores opts n fs)
  unfolding select_files
  select_files-IsSelection n [] = record {
    left = [];
    perm = Perm.rfl;
    total = omega arith;
    counted = omega arith;
    fits = omega arith;
    relevant = tt;
    left_out = tt;
  }
  select_files-IsSelection n (f ∷ fs) =
      let pass = select_files-IsSelection n fs in
      let taken = select_files-IsSelection (n + f.tokens) fs in
      if-either (IsSelection n (f ∷ fs)) (rt.lt (score_of rt scores f) opts.min_score) _ _
        (λ e. IsSelection-pass n f fs _ (inl e) pass)
        (λ e.
          if-either (IsSelection n (f ∷ fs)) (ltb opts.max_tokens (n + f.tokens)) _ _
            (λ h. IsSelection-pass n f fs _ (inr (ground arith)) pass)
            (λ h. IsSelection-take n f fs _ e (ground arith) taken))

-- What a trimming is: nothing is changed and nothing saved; or some of the files are kept, the others
-- left out, and the counts are theirs.
pub record IsTrimmed (rt : Runtime) (scores : Dict rt.Double) (opts : TrimOptions rt)
    (files : List CodeFile) (r : TrimResult rt) : Type 0 where
  pub left : List CodeFile
  pub perm : Perm (r.files ++ left) files
  pub counts :
      (r.tokens_in ≡ sum_tokens files)
      × (r.tokens_out ≡ sum_tokens r.files)
      × (r.tokens_saved ≡ sum_tokens left)
      × (r.files_in ≡ length files)
      × (r.files_out ≡ length r.files)
  pub in_budget : r.tokens_out ≤ opts.max_tokens
  pub worth_it : r.tokens_in ≤ 10 * r.tokens_saved
  pub relevant : All (IsRelevant rt scores opts) r.files
  pub left_out : All (IsLeftOut rt scores opts r.tokens_out) left

keep_or_trim-cases :
    (rt : Runtime) (scores : Dict rt.Double) (opts : TrimOptions rt) (files sorted : List CodeFile)
    (out : List CodeFile × ℕ)
    → Perm sorted files
    → sum_tokens sorted ≡ sum_tokens files
    → IsSelection rt scores opts 0 sorted out
    → (keep_or_trim rt files out ≡ untrimmed rt files)
      ⊎ IsTrimmed rt scores opts files (keep_or_trim rt files out)
unfolding keep_or_trim
keep_or_trim-cases rt scores opts files sorted (selected, tokens_out) p same s =
    if-either (λ r. (r ≡ untrimmed rt files) ⊎ IsTrimmed rt scores opts files r)
      (saves_little rt (sum_tokens files) (sum_tokens files - tokens_out)) _ _ (λ h. inl refl)
      (λ h. inr (record {
        left = s.left;
        perm = Perm.trans s.perm p;
        counts =
            (refl, omega (arith, s.counted), omega (arith, s.counted, s.total, same), refl, refl);
        in_budget = omega (arith, s.fits);
        worth_it = ground (arith, h);
        relevant = s.relevant;
        left_out = s.left_out;
      }))

-- Whatever the files, the query and the options, `trimFiles` returns the files as they are and saves
-- nothing, or it parts them: the files that it returns and those that it leaves out are all of them;
-- the counts are those of the files, so that what is saved is what is left out; what is returned is
-- within the budget, and at least a tenth is saved; no file that is returned has a score below the
-- least one, and each file that is left out has, or would not fit into the rest of the budget.
pub trim_files-cases :
    (rt : Runtime) (files : List CodeFile) (query : Text) (opts : TrimOptions rt)
    → (trim_files rt files query opts ≡ untrimmed rt files)
      ⊎ IsTrimmed rt
          (final_scores rt files query opts.use_import_graph)
          opts
          files
          (trim_files rt files query opts)
unfolding trim_files trim_by sorted_files
trim_files-cases rt files query opts =
    let scores = final_scores rt files query opts.use_import_graph in
    let sorted = sort_descending rt.lt (score_of rt scores) files in
    if-either (λ r. (r ≡ untrimmed rt files) ⊎ IsTrimmed rt scores opts files r)
      (length files == 0 || length (trim query) == 0) _ _ (λ e. inl refl)
      (λ e.
        keep_or_trim-cases rt scores opts files sorted (select_files rt scores opts 0 sorted)
          (sort_descending-perm rt.lt (score_of rt scores) files)
          (sum_tokens-sort rt.lt (score_of rt scores) files)
          (select_files-IsSelection rt scores opts 0 sorted))
