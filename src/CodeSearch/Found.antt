-- ===== src/CodeSearch/Found.antt =====
-- About the files that the walk finds (code-search.ts).
pub mod Specified
pub mod Visits
use ctxlite.CodeSearch.Found.Specified.{
  IsFoundIn, directory_files, queue_files, pending, next_first, last_first,
}
use ctxlite.CodeSearch.Found.Visits.{IsVisit, visit_directory-IsVisit}
use ctxlite.Prelude.{
  ℕ, zero, suc, ◌+◌, ◌≤◌, ◌<◌, ◌≡◌, refl, sym, ap, ◌∙◌, Option, none, some, List, [], ◌∷◌, ◌++◌,
  append_assoc, arith, Text, length, length-append, leb, if◌then◌else◌, if-either,
}
use mathlib.Core.List.{Perm, perm_append_comm}
use mathlib.Core.List.Perm
use ctxlite.Ignore.{IgnorePattern}
use ctxlite.CodeSearch.{
  Listing, end, directory, file, ScannedFile, Directory, child_path, is_passed_over, scan_file,
  Walk, push_file, push_directory, visit_entries, visit_directory, walk_queue, count_directories,
  walk_code_files,
}
use ctxlite.Prelude.{Bool-cases, append-nil}
use ctxlite.Prelude.{inl}
use ctxlite.Prelude.{inr}

module _ (patterns : List IgnorePattern) (max_files : ℕ) where
  IsFoundIn-from :
      (d : Directory) (queue : List Directory) (files out : List ScannedFile) (w : Walk)
      → IsVisit patterns max_files
          (directory_files patterns d)
          (count_directories d.entries)
          (record { files = files; queue = queue })
          w
      → length w.files ≤ length out
      → IsFoundIn patterns max_files (w.files ++ queue_files patterns w.queue) out
      → IsFoundIn patterns max_files (files ++ queue_files patterns (d ∷ queue)) out
  IsFoundIn-from d queue files out w s more found = record {
    left = found.left ++ s.left;
    perm = Perm.trans (next_first out found.left s.left found.perm) (
        Perm.trans s.perm
          (last_first files (queue_files patterns queue) (directory_files patterns d)));
    bounded = found.bounded;
    complete = λ h. rw (found.complete h, s.complete (omega (arith, more, h))) refl;
  }

  -- With as much fuel as there are directories the loop over the queue comes to an end.
  walk_queue-IsFoundIn :
      (fuel : ℕ) (files : List ScannedFile) (queue : List Directory)
      → pending queue ≤ fuel
      → length files ≤ max_files
      → (out : List ScannedFile) × (walk_queue patterns max_files fuel files queue ≡ some out)
        × (length files ≤ length out)
        × IsFoundIn patterns max_files (files ++ queue_files patterns queue) out
  unfolding walk_queue
  walk_queue-IsFoundIn fuel files [] p b = (
    files,
    refl,
    omega arith,
    record { left = []; perm = Perm.rfl; bounded = b; complete = λ h. refl },
  )
  walk_queue-IsFoundIn zero files (d ∷ queue) p b = let no : ⊥ = omega (arith, p) in elim no [ ]
  walk_queue-IsFoundIn (suc fuel) files (d ∷ queue) p b =
      let w = visit_directory patterns max_files d (record { files = files; queue = queue }) in
      let s =
        visit_directory-IsVisit patterns max_files d (record { files = files; queue = queue }) in
      elim (Bool-cases (leb max_files (length files))) [
        | inl e ↦ (
          files,
          rw e refl,
          omega arith,
          record {
            left = queue_files patterns (d ∷ queue);
            perm = Perm.rfl;
            bounded = b;
            complete = λ h. let no : ⊥ = ground (arith, e, h) in elim no [ ];
          },
        )
        | inr e ↦
            let (out, eq, more, found) =
              walk_queue-IsFoundIn fuel w.files w.queue (omega (arith, s.shrinks, p))
                (s.bounded b) in
            (
              out,
              rw (e, eq) refl,
              omega (arith, s.grows, more),
              IsFoundIn-from d queue files out w s more found,
            )
      ]

-- The walk over the queue of directories always comes to an end, and what it finds is what a search
-- of the tree finds depth first: the files that it returns are a part of all files that are to be
-- searched, in another order, each once; there are at most as many as are asked for, and none is
-- left out where there are fewer.
pub walk_code_files-IsFoundIn :
    (root : Directory) (patterns : List IgnorePattern) (max_files : ℕ)
    → (files : List ScannedFile) × (walk_code_files root patterns max_files ≡ some files)
      × IsFoundIn patterns max_files (directory_files patterns root) files
unfolding walk_code_files
walk_code_files-IsFoundIn root patterns max_files =
    let (files, e, more, found) =
      walk_queue-IsFoundIn patterns max_files (suc (count_directories root.entries)) [] (root ∷ [])
        (omega arith) (omega arith) in
    (files, e, rw append-nil at found)
