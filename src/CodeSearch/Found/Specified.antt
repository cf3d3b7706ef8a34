-- ===== src/CodeSearch/Found/Specified.antt =====
-- What the walk is to find: the files of a tree, depth first and without a limit (code-search.ts).
use ctxlite.Prelude.{
  ℕ, suc, ◌+◌, ◌≤◌, ◌<◌, ◌≡◌, refl, sym, ap, ◌∙◌, Option, none, some, List, [], ◌∷◌, ◌++◌,
  append_assoc, arith, Text, length, if◌then◌else◌,
}
use mathlib.Core.List.{Perm, perm_append_comm}
use mathlib.Core.List.Perm
use ctxlite.Ignore.{IgnorePattern}
use ctxlite.CodeSearch.{
  Listing, end, directory, file, ScannedFile, Directory, child_path, is_passed_over, scan_file,
  count_directories,
}
use ctxlite.Prelude.{append-nil}

pub swap_inner :
    {A : Type 0} (a b c d : List A) → Perm (((a ++ b) ++ c) ++ d) ((a ++ c) ++ (b ++ d))
swap_inner a b c d =
    let left : ((a ++ b) ++ c) ++ d ≡ a ++ ((b ++ c) ++ d) =
      rw (append_assoc, append_assoc, append_assoc) in
    let right : (a ++ c) ++ (b ++ d) ≡ a ++ ((c ++ b) ++ d) = rw (append_assoc, append_assoc) in
    rw (left, right) (Perm.append_left a (Perm.append_right d (perm_append_comm b c)))

pub queued_last :
    {A : Type 0} (a b c d : List A) {bc : List A}
    → bc ≡ b ++ (c ++ [])
    → Perm ((a ++ bc) ++ d) ((a ++ b) ++ (c ++ d))
queued_last a b c d e =
    let left : (a ++ (b ++ c)) ++ d ≡ a ++ (b ++ (c ++ d)) = rw (append_assoc, append_assoc) in
    rw (e, append-nil, left, append_assoc a b (c ++ d)) Perm.rfl

pub next_first :
    {A : Type 0} (a b c : List A) {ab : List A} → Perm (a ++ b) ab → Perm (a ++ (b ++ c)) (ab ++ c)
next_first a b c p = rw (sym (append_assoc a b c)) (Perm.append_right c p)

pub last_first : {A : Type 0} (a b c : List A) → Perm ((a ++ b) ++ c) (a ++ (c ++ b))
last_first a b c = rw (append_assoc a b c) (Perm.append_left a (perm_append_comm b c))

-- How many directories are still to be visited.
abbrev pub pending : List Directory → ℕ
pending [] = 0
pending (d ∷ ds) = suc (count_directories d.entries) + pending ds

pub pending-append : (ds es : List Directory) → pending (ds ++ es) ≡ pending ds + pending es
pending-append [] es = omega arith
pending-append (d ∷ ds) es = omega (arith, pending-append ds es)

pub scan_file-length :
    (path name : Text) (size : Option ℕ) (content : Option Text)
    → length (scan_file path name size content) ≤ 1
unfolding scan_file
scan_file-length path name none content = ground arith
scan_file-length path name (some size) none = ground arith
scan_file-length path name (some size) (some content) = ground arith

module _ (patterns : List IgnorePattern) where
  -- All files of a tree that the search reads, depth first and without a limit.
  unfoldable pub code_files : Text → Listing → List ScannedFile
  code_files dir end = []
  code_files dir (directory name readable inner rest) =
      let below = if readable then code_files (child_path dir name) inner else [] in
      let others = code_files dir rest in
      if is_passed_over patterns dir name then others else below ++ others
  code_files dir (file name size content rest) =
      let found = scan_file (child_path dir name) name size content in
      let others = code_files dir rest in
      if is_passed_over patterns dir name then others else found ++ others

  abbrev pub directory_files : Directory → List ScannedFile
  directory_files d = if d.readable then code_files d.path d.entries else []

  abbrev pub queue_files : List Directory → List ScannedFile
  queue_files [] = []
  queue_files (d ∷ ds) = directory_files d ++ queue_files ds

  pub queue_files-append :
      (ds es : List Directory) → queue_files (ds ++ es) ≡ queue_files ds ++ queue_files es
  queue_files-append [] es = refl
  queue_files-append (d ∷ ds) es =
      ap (λ (fs : List ScannedFile). directory_files d ++ fs) (queue_files-append ds es)
      ∙ sym (append_assoc (directory_files d) (queue_files ds) (queue_files es))

  module _ (max_files : ℕ) where
    -- Files are a part of others, at most so many, and all of them where there are fewer.
    pub record IsFoundIn (all files : List ScannedFile) : Type 0 where
      pub left : List ScannedFile
      pub perm : Perm (files ++ left) all
      pub bounded : length files ≤ max_files
      pub complete : length files < max_files → left ≡ []
