-- ===== src/Install/Run/Settled.antt =====
-- About a file that an installation has written and examines again (install/run.ts).
use mathlib.Core.Path.{subst}
use ctxlite.Install.Again.{is_blank}
use ctxlite.Install.Merge.{as_object}
use ctxlite.Prelude.{
  ◌≡◌, refl, ◌∙◌, ◌⊎◌, inl, inr, Bool, true, false, Option, none, some, arith, Text, text_eq,
  text_eq_refl, dict_get, dict_set, get-set, get-delete, Option-cases, Bool-cases,
}
use ctxlite.Json.{Json, obj, end}
use ctxlite.Install.Merge.{to_object}
use ctxlite.Install.Apply.{ConfigKind, apply_config_change}
use ctxlite.Install.Paths.{InstallTarget, ok}
use ctxlite.Install.Run.{
  File, json, text, locked, Disk, skip, full_file_content, full_file_changed, read_text_file,
  read_json_file, action_for, examine, examine_file, write_file, write_full_file, write_config,
  write_target,
}
use ctxlite.Install.Run.Blank.{NotBlank, next-NotBlank}
use ctxlite.Install.Repeat.{apply_config_change-again}

-- No configuration on the disk has a blank `$schema`.
abbrev pub NoBlanks : Disk → Type 0
NoBlanks d = (path : Text) (j : Json) → dict_get path d ≡ some (json j) → NotBlank j

abbrev pub NotBlankFile : Option File → Type 0
NotBlankFile file = (j : Json) → file ≡ some (json j) → NotBlank j

-- The JSON that a file is read as, where it is read.
read_json-of_ok :
    (kind : ConfigKind) (removing : Bool) (path : Text) (file : Option File) (found : Bool × Bool)
    → NotBlankFile file
    → examine_file none kind removing path file ≡ ok found
    → (existed : Bool) × (j : Json) × (read_json_file path file ≡ ok (existed, j)) × NotBlank j
unfolding examine_file read_json_file
read_json-of_ok kind removing path none found blanks h =
    (false, obj end, refl, unfold is_blank dict_get as_object in refl)
read_json-of_ok kind removing path (some (json j)) found blanks h = (true, j, refl, blanks j refl)
read_json-of_ok kind removing path (some (text t)) found blanks h = cc
read_json-of_ok kind removing path (some locked) found blanks h = cc

-- What a change of a target does to the disk.
pub record IsWritten (kind : ConfigKind) (removing : Bool) (path : Text) (d d' : Disk)
    : Type 0 where
  pub settled : (existed : Bool) × (examine d' removing kind path ≡ ok (existed, false))
  pub others : (other : Text) → text_eq path other ≡ false → dict_get other d' ≡ dict_get other d
  pub blanks : NoBlanks d → NoBlanks d'

set-other :
    (path other : Text) (file : File) (d : Disk)
    → text_eq path other ≡ false
    → dict_get other (dict_set path file d) ≡ dict_get other d
set-other path other file d h = rw (get-set path other file d, h) refl

NoBlanks-set :
    (path : Text) (file : File) (d : Disk)
    → NotBlankFile (some file)
    → NoBlanks d
    → NoBlanks (dict_set path file d)
NoBlanks-set path file d h blanks other j e = elim (Bool-cases (text_eq path other)) [
  | inl same ↦ h j (ground (arith, get-set path other file d))
  | inr differ ↦ blanks other j (ground (arith, get-set path other file d))
]

write_config-IsWritten :
    (kind : ConfigKind) (removing : Bool) (path : Text) (d : Disk) (existed : Bool) (j : Json)
    → full_file_content kind ≡ none
    → read_json_file path (dict_get path d) ≡ ok (existed, j)
    → NotBlank j
    → (d' : Disk) × (write_config kind path removing d ≡ ok d') × IsWritten kind removing path d d'
unfolding write_config
write_config-IsWritten kind removing path d existed j e r b =
    let next = to_object (apply_config_change kind (some j) removing).next in
    (
      dict_set path (json next) d,
      rw r refl,
      record {
        settled = (
          true,
          unfold examine examine_file read_json_file in
              rw
                (
                  e,
                  get-set path path (json next) d,
                  text_eq_refl path,
                  apply_config_change-again kind (some j) removing b,
                )
                refl,
        );
        others = λ other h. set-other path other (json next) d h;
        blanks = λ h.
            NoBlanks-set path (json next) d
              (λ k p.
                let same : next ≡ k = cc p in subst NotBlank same (next-NotBlank kind removing j b))
              h;
      },
    )

set_content-IsWritten :
    (kind : ConfigKind) (path expected : Text) (d : Disk)
    → full_file_content kind ≡ some expected
    → IsWritten kind false path d (dict_set path (text expected) d)
set_content-IsWritten kind path expected d e = record {
  settled = (
    true,
    unfold examine examine_file read_text_file full_file_changed in
        rw (e, get-set path path (text expected) d, text_eq_refl path, text_eq_refl expected) refl,
  );
  others = λ other h. set-other path other (text expected) d h;
  blanks = λ h. NoBlanks-set path (text expected) d (λ j p. cc p) h;
}

write_full_file-IsWritten :
    (kind : ConfigKind) (removing existed : Bool) (path expected : Text) (d : Disk)
    → full_file_content kind ≡ some expected
    → IsWritten kind removing path d
        (write_full_file path expected (action_for existed true removing) d)
unfolding write_full_file action_for
write_full_file-IsWritten kind true existed path expected d e = record {
  settled = (
    false,
    unfold examine examine_file read_text_file full_file_changed in
        rw (e, get-delete path path d, text_eq_refl path) refl,
  );
  others = λ other h. rw (get-delete path other d, h) refl;
  blanks = λ blanks other j h. blanks other j (ground (arith, get-delete path other d));
}
write_full_file-IsWritten kind false true path expected d e =
    set_content-IsWritten kind path expected d e
write_full_file-IsWritten kind false false path expected d e =
    set_content-IsWritten kind path expected d e

-- The disk still has what it had at the path, or a file there that is settled.
abbrev pub IsSettled : Bool → Disk → ConfigKind → Text → Type 0
IsSettled removing d kind path =
    (existed : Bool) × (examine d removing kind path ≡ ok (existed, false))

action_for-same : (removing existed : Bool) → action_for existed false removing ≡ skip
unfolding action_for
action_for-same removing existed = refl

write_owned :
    (expected : Text) (kind : ConfigKind) (path : Text) (removing existed : Bool) (d : Disk)
    → write_file (some expected) kind path removing (action_for existed true removing) d
      ≡ ok (write_full_file path expected (action_for existed true removing) d)
unfolding write_file action_for
write_owned expected kind path true existed d = refl
write_owned expected kind path false true d = refl
write_owned expected kind path false false d = refl

write_json :
    (kind : ConfigKind) (path : Text) (removing existed : Bool) (d : Disk)
    → write_file none kind path removing (action_for existed true removing) d
      ≡ write_config kind path removing d
unfolding write_file action_for
write_json kind path true existed d = refl
write_json kind path false true d = refl
write_json kind path false false d = refl

changed-IsWritten :
    (t : InstallTarget) (removing existed : Bool) (d : Disk) (found : Bool × Bool)
    → NoBlanks d
    → examine d removing t.kind t.config_path ≡ ok found
    → (d' : Disk) × (write_target t removing (action_for existed true removing) d ≡ ok d')
      × IsWritten t.kind removing t.config_path d d'
unfolding write_target
changed-IsWritten t removing existed d found blanks h =
    elim (Option-cases (full_file_content t.kind)) [
      | inl e ↦
          let (there, j, read, b) =
            read_json-of_ok t.kind removing t.config_path (dict_get t.config_path d) found
              (λ j p. blanks t.config_path j p) (unfold examine in rw e at h) in
          let (d', w, written) =
            write_config-IsWritten t.kind removing t.config_path d there j e read b in
          (d', rw (e, write_json t.kind t.config_path removing existed d) w, written)
      | inr (expected, e) ↦ (
        write_full_file t.config_path expected (action_for existed true removing) d,
        rw (e, write_owned expected t.kind t.config_path removing existed d) refl,
        write_full_file-IsWritten t.kind removing existed t.config_path expected d e,
      )
    ]

kept-IsWritten :
    (kind : ConfigKind) (removing : Bool) (path : Text) (d : Disk)
    → IsSettled removing d kind path
    → IsWritten kind removing path d d
kept-IsWritten kind removing path d s = record {
  settled = s;
  others = λ other h. refl;
  blanks = λ h. h;
}

skipped :
    (t : InstallTarget) (removing existed : Bool) (d : Disk)
    → write_target t removing (action_for existed false removing) d ≡ ok d
unfolding write_target action_for
skipped t removing existed d =
    elim (full_file_content t.kind)
      as (λ c. write_file c t.kind t.config_path removing skip d ≡ ok d) [
        | none ↦ unfold write_file in refl
        | some expected ↦ unfold write_file in refl
      ]

pub examine-get :
    (d d' : Disk) (removing : Bool) (kind : ConfigKind) (path : Text)
    → dict_get path d ≡ dict_get path d'
    → examine d removing kind path ≡ examine d' removing kind path
unfolding examine
examine-get d d' removing kind path h = rw h refl

-- A target whose action comes from the disk `d0`, where the file has not changed since or is settled.
pub write_target-IsWritten :
    (t : InstallTarget) (removing existed changed : Bool) (d0 d : Disk)
    → NoBlanks d
    → examine d0 removing t.kind t.config_path ≡ ok (existed, changed)
    → (dict_get t.config_path d ≡ dict_get t.config_path d0)
      ⊎ IsSettled removing d t.kind t.config_path
    → (d' : Disk) × (write_target t removing (action_for existed changed removing) d ≡ ok d')
      × IsWritten t.kind removing t.config_path d d'
write_target-IsWritten t removing existed true d0 d blanks h (inl same) =
    changed-IsWritten t removing existed d (existed, true) blanks
      (examine-get d d0 removing t.kind t.config_path same ∙ h)
write_target-IsWritten t removing existed true d0 d blanks h (inr (there, s)) =
    changed-IsWritten t removing existed d (there, false) blanks s
write_target-IsWritten t removing existed false d0 d blanks h (inl same) = (
  d,
  skipped t removing existed d,
  kept-IsWritten t.kind removing t.config_path d
      (existed, examine-get d d0 removing t.kind t.config_path same ∙ h),
)
write_target-IsWritten t removing existed false d0 d blanks h (inr s) =
    (d, skipped t removing existed d, kept-IsWritten t.kind removing t.config_path d s)
