-- ===== src/CodeSearch.antt =====
-- packages/core/src/code-search.ts: `walkCodeFiles`, the files of a workspace that are searched. The
-- tree of directories is what `readdir`, `stat` and `readFile` say of it.
pub mod Found
pub mod Snippet
pub mod Search
mod Tests
use ctxlite.Prelude.{
  ℕ, zero, suc, ◌+◌, Bool, true, false, ◌||◌, Option, none, some, List, [], ◌∷◌, ◌++◌, Text, str,
  text_eq, length, any, ltb, leb, if◌then◌else◌, starts_with,
}
use ctxlite.SmartRead.{extension_of}
use ctxlite.Ignore.{IgnorePattern, is_ignored}
use ctxlite.Tokens.{estimate_tokens}
use ctxlite.Prelude.{◌==◌}

-- What `readdir` lists, entry for entry: a directory with its name, whether it can be listed itself,
-- and its entries; or anything else with its name, its size and its text, `none` where `stat` or
-- `readFile` throws.
pub data Listing : Type 0 where
  end : Listing
  directory : Text → Bool → Listing → Listing → Listing
  file : Text → Option ℕ → Option Text → Listing → Listing

unfoldable pub code_extensions : List Text
code_extensions =
    str "ts"
    ∷ str "tsx"
    ∷ str "js"
    ∷ str "jsx"
    ∷ str "mjs"
    ∷ str "cjs"
    ∷ str "go"
    ∷ str "py"
    ∷ str "rs"
    ∷ str "java"
    ∷ str "md"
    ∷ []

abbrev pub max_file_bytes : ℕ
max_file_bytes = 1048576

pub record ScannedFile : Type 0 where
  pub path : Text
  pub content : Text
  pub tokens : ℕ

-- A directory of the queue: its path from the root, whether it can be listed, and its entries.
pub record Directory : Type 0 where
  pub path : Text
  pub readable : Bool
  pub entries : Listing

-- `relative(root, join(dir, name))`; the path of the root is empty.
unfoldable pub child_path : Text → Text → Text
child_path dir name = if length dir == 0 then name else dir ++ (str "/" ++ name)

unfoldable pub is_code_file : Text → Bool
unfolding code_extensions any
is_code_file name = any (λ ext. text_eq ext (extension_of name)) code_extensions

-- The entries that are passed over.
unfoldable pub is_passed_over : List IgnorePattern → Text → Text → Bool
is_passed_over patterns dir name =
    text_eq name (str "node_modules")
    || text_eq name (str ".git")
    || starts_with name (str ".")
    || is_ignored (child_path dir name) patterns

abbrev scanned : Text → Option Text → List ScannedFile
scanned path none = []
scanned path (some content) =
    record { path = path; content = content; tokens = estimate_tokens content } ∷ []

abbrev stat_and_read : Text → Option ℕ → Option Text → List ScannedFile
stat_and_read path none content = []
stat_and_read path (some size) content =
    if ltb max_file_bytes size then [] else scanned path content

-- What a file adds to the files that are found: itself, or nothing.
unfoldable pub scan_file : Text → Text → Option ℕ → Option Text → List ScannedFile
unfolding is_code_file
scan_file path name size content = if is_code_file name then stat_and_read path size content else []

-- The state of the walk.
pub record Walk : Type 0 where
  pub files : List ScannedFile
  pub queue : List Directory

abbrev pub push_file : List ScannedFile → Walk → Walk
push_file found w = record { files = w.files ++ found; queue = w.queue }

abbrev pub push_directory : Directory → Walk → Walk
push_directory d w = record { files = w.files; queue = w.queue ++ (d ∷ []) }

-- The loop over the entries of a directory.
unfoldable pub visit_entries : List IgnorePattern → ℕ → Text → Listing → Walk → Walk
unfolding scan_file is_passed_over child_path
visit_entries patterns max_files dir end w = w
visit_entries patterns max_files dir (directory name readable inner rest) w =
    let path = child_path dir name in
    let passed = visit_entries patterns max_files dir rest w in
    let d : Directory = record { path = path; readable = readable; entries = inner } in
    let queued = visit_entries patterns max_files dir rest (push_directory d w) in
    if leb max_files (length w.files)
    then w
    else if is_passed_over patterns dir name
    then passed
    else queued
visit_entries patterns max_files dir (file name size content rest) w =
    let found = scan_file (child_path dir name) name size content in
    let passed = visit_entries patterns max_files dir rest w in
    let pushed = visit_entries patterns max_files dir rest (push_file found w) in
    if leb max_files (length w.files)
    then w
    else if is_passed_over patterns dir name
    then passed
    else pushed

abbrev pub visit_directory : List IgnorePattern → ℕ → Directory → Walk → Walk
visit_directory patterns max_files d w =
    if d.readable then visit_entries patterns max_files d.path d.entries w else w

-- The loop over the queue, `none` where the fuel is used up. It leaves the files as they are once
-- there are enough.
unfoldable pub walk_queue :
    List IgnorePattern → ℕ → ℕ → List ScannedFile → List Directory → Option (List ScannedFile)
unfolding visit_entries
walk_queue patterns max_files fuel files [] = some files
walk_queue patterns max_files zero files (d ∷ queue) =
    if leb max_files (length files) then some files else none
walk_queue patterns max_files (suc fuel) files (d ∷ queue) =
    let w = visit_directory patterns max_files d (record { files = files; queue = queue }) in
    let rest = walk_queue patterns max_files fuel w.files w.queue in
    if leb max_files (length files) then some files else rest

-- How many directories there are below.
abbrev pub count_directories : Listing → ℕ
count_directories end = 0
count_directories (directory name readable inner rest) =
    suc (count_directories inner) + count_directories rest
count_directories (file name size content rest) = count_directories rest

-- The root is the first of the queue; each directory is visited once at most.
unfoldable pub walk_code_files : Directory → List IgnorePattern → ℕ → Option (List ScannedFile)
unfolding walk_queue
walk_code_files root patterns max_files =
    walk_queue patterns max_files (suc (count_directories root.entries)) [] (root ∷ [])
