-- ===== src/Install/Run/Again.antt =====
-- About an installation as a whole, and one that is made again (install/run.ts).
use ctxlite.Prelude.{
  ◌≡◌, refl, ap, ◌⊎◌, inl, inr, Bool, false, List, [], ◌∷◌, arith, Text, text_eq, dict_get, All,
  if◌then◌else◌, Bool-cases,
}
use ctxlite.Install.Paths.{Machine, InstallTarget, Result, InstallError, ok, error}
use ctxlite.Install.Run.{
  Disk, InstallOptions, skip, InstallPlanItem, plan_item, plan_targets, to_path_context, targets_of,
  plan_install, write_targets, run_install,
}
use ctxlite.Install.Run.Kinds.{HasKind, OnOk, build_targets-HasKind}
use ctxlite.Install.Run.Settled.{NoBlanks}
use ctxlite.Install.Run.{carry_out, write_plan}
use ctxlite.Install.Run.Kinds.{Result-cases}
use ctxlite.Install.Run.Loop.{
  IsIn, IsPlanned, SettledAt, plan_targets-IsPlanned, IsRun, write_targets-IsRun,
}
use ctxlite.Install.Run.{report_plan}

abbrev pub Skips : InstallPlanItem → Type 0
Skips item = item.action ≡ skip

plan_item-Skips :
    (t : InstallTarget) (removing existed : Bool) → Skips (plan_item t removing (existed, false))
unfolding plan_item
plan_item-Skips t removing existed = refl

plan_targets-Skips :
    (m : Machine) (removing : Bool) (d0 d : Disk) (ts : List InstallTarget)
    → All (HasKind m) ts
    → All (λ t. SettledAt m removing d0 d t.config_path) ts
    → (plan : List InstallPlanItem) × (plan_targets d removing ts ≡ ok plan) × All Skips plan
unfolding plan_targets
plan_targets-Skips m removing d0 d [] ks ss = ([], refl, tt)
plan_targets-Skips m removing d0 d (t ∷ ts) (k, ks) ((existed, s), ss) =
    let (plan, e, skips) = plan_targets-Skips m removing d0 d ts ks ss in
    (
      plan_item t removing (existed, false) ∷ plan,
      rw (rw k at s, e) refl,
      (plan_item-Skips t removing existed, skips),
    )

-- The path of no target.
abbrev pub IsForeign : Text → List InstallTarget → Type 0
IsForeign path = All (λ t. text_eq t.config_path path ≡ false)

-- The plan and its writing, for the targets of the options.
plan-writes :
    (m : Machine) (removing : Bool) (disk : Disk) (plan : List InstallPlanItem)
    (ts : List InstallTarget)
    → NoBlanks disk
    → All (HasKind m) ts
    → plan_targets disk removing ts ≡ ok plan
    → IsRun m removing disk ts disk (write_targets plan removing ts disk)
plan-writes m removing disk plan ts blanks ks h =
    let (ps, ins) : All (IsPlanned m removing disk) plan × All (IsIn m removing disk plan) ts =
      rw h at (plan_targets-IsPlanned m removing disk ts ks) in
    write_targets-IsRun m removing disk plan ts disk
      (record { blanks = blanks; seen_or_settled = λ path. inl refl }) ks ps ins

targets-HasKind :
    (m : Machine) (o : InstallOptions) (ts : List InstallTarget)
    → targets_of m o ≡ ok ts
    → All (HasKind m) ts
unfolding targets_of
targets-HasKind m o ts h = rw h at (build_targets-HasKind m o.tools o.scope (to_path_context o))

report_plan-finished :
    (plan : List InstallPlanItem) (out : Result (Unit {0}) × Disk)
    → out.0 ≡ ok tt
    → report_plan plan out ≡ (ok plan, out.1)
report_plan-finished plan (ok u, d) h = refl
report_plan-finished plan (error e, d) h = cc

-- A plan that is carried out.
installed :
    (m : Machine) (removing : Bool) (disk : Disk) (plan : List InstallPlanItem)
    (ts : List InstallTarget)
    → NoBlanks disk
    → All (HasKind m) ts
    → plan_targets disk removing ts ≡ ok plan
    → carry_out false removing (ok ts) disk (ok plan)
      ≡ (ok plan, (write_targets plan removing ts disk).1)
unfolding carry_out write_plan
installed m removing disk plan ts blanks ks h =
    report_plan-finished plan (write_targets plan removing ts disk)
      (plan-writes m removing disk plan ts blanks ks h).finished

failed : {A : Type 0} {e : InstallError} {a : A} → error e ≡ ok a → ⊥
failed h = cc

planned-targets :
    (m : Machine) (disk : Disk) (o : InstallOptions) (plan : List InstallPlanItem)
    → plan_install m disk o ≡ ok plan
    → (ts : List InstallTarget) × (targets_of m o ≡ ok ts)
      × (plan_targets disk o.removing ts ≡ ok plan)
unfolding plan_install
planned-targets m disk o plan h = elim (Result-cases (targets_of m o)) [
  | inl (ts, e) ↦ (ts, e, rw e at h)
  | inr (err, e) ↦ absurd (failed (rw e at h))
]

-- An installation is made once: after a run that was no dry run and that was planned, which then
-- reports the plan and never fails, the same options give a plan in which every item is skipped. So it
-- is for additions and removals, whatever the tools, the scope, the machine and the files, where no
-- configuration on the disk has a blank `$schema`.
pub run_install-again :
    (m : Machine) (disk : Disk) (o : InstallOptions) (plan : List InstallPlanItem)
    → NoBlanks disk
    → o.dry_run ≡ false
    → plan_install m disk o ≡ ok plan
    → ((run_install m disk o).0 ≡ ok plan)
      × ((after : List InstallPlanItem) × (plan_install m (run_install m disk o).1 o ≡ ok after)
          × All Skips after)
unfolding run_install
run_install-again m disk o plan blanks dry h =
    let (ts, t, p) = planned-targets m disk o plan h in
    let ks = targets-HasKind m o ts t in
    let r = plan-writes m o.removing disk plan ts blanks ks p in
    let out = write_targets plan o.removing ts disk in
    let (after, e, skips) = plan_targets-Skips m o.removing disk out.1 ts ks r.settled in
    let run : run_install m disk o ≡ (ok plan, out.1) =
      rw (h, t, dry) (installed m o.removing disk plan ts blanks ks p) in
    (
      ap (λ (x : Result (List InstallPlanItem) × Disk). x.0) run,
      (after, rw run (unfold plan_install in rw (t, e) refl), skips),
    )

-- An installation is made or not made: a plan that fails leaves the disk as it is, and otherwise the
-- run reports the plan. A dry run leaves the disk as it is, and no run touches a file that is at the
-- path of none of its targets. So it is where no configuration on the disk has a blank `$schema`.
pub run_install-cases :
    (m : Machine) (disk : Disk) (o : InstallOptions) (path : Text)
    → NoBlanks disk
    → OnOk (IsForeign path) (targets_of m o)
    → (((e : InstallError) × (plan_install m disk o ≡ error e)
          × (run_install m disk o ≡ (error e, disk)))
        ⊎ ((plan : List InstallPlanItem) × (plan_install m disk o ≡ ok plan)
            × ((run_install m disk o).0 ≡ ok plan)))
      × (dict_get path (run_install m disk o).1 ≡ dict_get path disk)
      × ((if o.dry_run then disk else (run_install m disk o).1) ≡ (run_install m disk o).1)
unfolding run_install
run_install-cases m disk o path blanks foreign = elim (Result-cases (plan_install m disk o)) [
  | inr (err, e) ↦ unfold carry_out in rw e (inl (err, refl, refl), refl, ground arith)
  | inl (plan, e) ↦ elim (Bool-cases o.dry_run) [
    | inl dry ↦ unfold carry_out in rw (e, dry) (inr (plan, refl, refl), refl, refl)
    | inr dry ↦
        let (ts, t, p) = planned-targets m disk o plan e in
        let ks = targets-HasKind m o ts t in
        let r = plan-writes m o.removing disk plan ts blanks ks p in
        rw (e, t, dry, installed m o.removing disk plan ts blanks ks p)
          (inr (plan, refl, refl), r.others path (rw t at foreign), refl)
  ]
]
