-- ===== src/CodeSearch/Found/Visits.antt =====
-- What the loop over the entries of a directory leaves of the files to be found (code-search.ts).
use ctxlite.CodeSearch.Found.Specified.{
  pending, pending-append, scan_file-length, code_files, directory_files, queue_files,
  queue_files-append, swap_inner, queued_last,
}
use ctxlite.Prelude.{
  ℕ, suc, ◌+◌, ◌≤◌, ◌<◌, ◌≡◌, refl, List, [], ◌∷◌, ◌++◌, arith, Text, length, length-append, leb,
  if-either,
}
use mathlib.Core.List.{Perm}
use mathlib.Core.List.Perm
use ctxlite.Ignore.{IgnorePattern}
use ctxlite.CodeSearch.{
  Listing, end, directory, file, ScannedFile, Directory, child_path, is_passed_over, scan_file,
  Walk, push_file, push_directory, visit_entries, visit_directory, count_directories,
}
use ctxlite.Prelude.{Bool-cases}
use ctxlite.Prelude.{inl}
use ctxlite.Prelude.{inr}

module _ (patterns : List IgnorePattern) (max_files : ℕ) where
  -- What a loop over entries does: of the files that are there, still in the queue, or to be found
  -- in the entries, those are left that it has no room for.
  pub record IsVisit (todo : List ScannedFile) (n : ℕ) (w v : Walk) : Type 0 where
    pub left : List ScannedFile
    pub perm :
        Perm
          ((v.files ++ queue_files patterns v.queue) ++ left)
          ((w.files ++ queue_files patterns w.queue) ++ todo)
    pub grows : length w.files ≤ length v.files
    pub shrinks : pending v.queue ≤ pending w.queue + n
    pub bounded : length w.files ≤ max_files → length v.files ≤ max_files
    pub complete : length v.files < max_files → left ≡ []

  pub IsVisit-full :
      (todo : List ScannedFile) (n : ℕ) (w : Walk) → max_files ≤ length w.files → IsVisit todo n w w
  IsVisit-full todo n w h = record {
    left = todo;
    perm = Perm.rfl;
    grows = omega arith;
    shrinks = omega arith;
    bounded = λ b. b;
    complete = λ b. let no : ⊥ = omega (arith, h, b) in elim no [ ];
  }

  pub IsVisit-push_directory :
      (d : Directory) (todo : List ScannedFile) (n : ℕ) (w v : Walk)
      → IsVisit todo n (push_directory d w) v
      → IsVisit (directory_files patterns d ++ todo) (suc (count_directories d.entries) + n) w v
  IsVisit-push_directory d todo n w v s = record {
    left = s.left;
    perm = Perm.trans s.perm (
        queued_last w.files (queue_files patterns w.queue) (directory_files patterns d) todo
          (queue_files-append patterns w.queue (d ∷ [])));
    grows = s.grows;
    shrinks = omega (arith, s.shrinks, pending-append w.queue (d ∷ []));
    bounded = s.bounded;
    complete = s.complete;
  }

  pub IsVisit-push_file :
      (found todo : List ScannedFile) (n : ℕ) (w v : Walk)
      → length found ≤ 1
      → length w.files < max_files
      → IsVisit todo n (push_file found w) v
      → IsVisit (found ++ todo) n w v
  IsVisit-push_file found todo n w v one room s = record {
    left = s.left;
    perm = Perm.trans s.perm (swap_inner w.files found (queue_files patterns w.queue) todo);
    grows = omega (arith, s.grows, length-append w.files found);
    shrinks = s.shrinks;
    bounded = λ b. s.bounded (omega (arith, length-append w.files found));
    complete = s.complete;
  }

  pub IsVisit-more :
      (todo : List ScannedFile) (n m : ℕ) (w v : Walk)
      → n ≤ m
      → IsVisit todo n w v
      → IsVisit todo m w v
  IsVisit-more todo n m w v h s = record {
    left = s.left;
    perm = s.perm;
    grows = s.grows;
    shrinks = omega (arith, s.shrinks);
    bounded = s.bounded;
    complete = s.complete;
  }

  pub visit_entries-IsVisit :
      (dir : Text) (es : Listing) (w : Walk)
      → IsVisit
          (code_files patterns dir es)
          (count_directories es)
          w
          (visit_entries patterns max_files dir es w)
  unfolding visit_entries code_files
  visit_entries-IsVisit dir end w = record {
    left = [];
    perm = Perm.rfl;
    grows = omega arith;
    shrinks = omega arith;
    bounded = λ b. b;
    complete = λ b. refl;
  }
  visit_entries-IsVisit dir (directory name readable inner rest) w =
      let d : Directory = record {
        path = child_path dir name;
        readable = readable;
        entries = inner;
      } in
      let passed = visit_entries-IsVisit dir rest w in
      let queued = visit_entries-IsVisit dir rest (push_directory d w) in
      if-either (IsVisit _ _ w) (leb max_files (length w.files)) _ _
        (λ h. IsVisit-full _ _ w (ground arith))
        (λ h. elim (Bool-cases (is_passed_over patterns dir name)) [
          | inl e ↦ rw e (IsVisit-more _ _ _ w _ (omega arith) passed)
          | inr e ↦ rw e (IsVisit-push_directory d _ _ w _ queued)
        ])
  visit_entries-IsVisit dir (file name size content rest) w =
      let found = scan_file (child_path dir name) name size content in
      let passed = visit_entries-IsVisit dir rest w in
      let pushed = visit_entries-IsVisit dir rest (push_file found w) in
      if-either (IsVisit _ _ w) (leb max_files (length w.files)) _ _
        (λ h. IsVisit-full _ _ w (ground arith))
        (λ h. elim (Bool-cases (is_passed_over patterns dir name)) [
          | inl e ↦ rw e passed
          | inr e ↦ rw e (
              IsVisit-push_file found _ _ w _
                (scan_file-length (child_path dir name) name size content) (ground arith) pushed)
        ])

  pub visit_directory-IsVisit :
      (d : Directory) (w : Walk)
      → IsVisit
          (directory_files patterns d)
          (count_directories d.entries)
          w
          (visit_directory patterns max_files d w)
  unfolding code_files visit_entries
  visit_directory-IsVisit d w = elim (Bool-cases d.readable) [
    | inl e ↦ rw e (visit_entries-IsVisit d.path d.entries w)
    | inr e ↦ rw e (IsVisit-more [] 0 _ w w (omega arith) (visit_entries-IsVisit d.path end w))
  ]
