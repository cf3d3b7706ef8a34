-- ===== src/Install/Run/Loop.antt =====
-- About the loop of an installation over its targets, with the plan that it follows (install/run.ts).
use ctxlite.Prelude.{
  ◌≡◌, refl, ◌∙◌, ◌⊎◌, inl, inr, Bool, true, false, List, [], ◌∷◌, arith, Text, text_eq,
  text_eq_iff, text_eq_refl, dict_get, any, All, Bool-cases,
}
use ctxlite.Install.Apply.{ConfigKind}
use ctxlite.Install.Paths.{Machine, InstallTarget, Result, ok}
use ctxlite.Install.Run.{
  Disk, InstallAction, InstallPlanItem, action_for, examine, plan_item, plan_targets, is_item_of,
  action_of, tool_index, write_targets,
}
use ctxlite.Install.Run.Kinds.{kind_at, HasKind, OnOk}
use ctxlite.Install.Run.Settled.{
  NoBlanks, IsWritten, IsSettled, examine-get, write_target-IsWritten,
}
use ctxlite.Install.Run.Kinds.{Result-cases}
use ctxlite.Install.Run.Kinds.{OnOk-then_do}

module _ (m : Machine) (removing : Bool) (d0 : Disk) where
  -- The action is the one for what was found at the path, as a file of a kind.
  abbrev pub IsAction : ConfigKind → Text → InstallAction → Type 0
  IsAction kind path action =
      (existed : Bool) × (changed : Bool) × (examine d0 removing kind path ≡ ok (existed, changed))
      × (action ≡ action_for existed changed removing)

  abbrev pub IsPlanned : InstallPlanItem → Type 0
  IsPlanned item = IsAction (kind_at m item.config_path) item.config_path item.action

  plan_item-IsPlanned :
      (t : InstallTarget) (found : Bool × Bool)
      → HasKind m t
      → examine d0 removing t.kind t.config_path ≡ ok found
      → IsPlanned (plan_item t removing found)
  unfolding plan_item
  plan_item-IsPlanned t (existed, changed) k h = (existed, changed, rw k h, refl)

  is_item_of-plan_item :
      (t : InstallTarget) (found : Bool × Bool) → is_item_of t (plan_item t removing found) ≡ true
  unfolding plan_item
  is_item_of-plan_item t (existed, changed) =
      rw (text_eq_refl t.config_path) (ground (arith, text_eq_refl (tool_index t.tool)))

  -- An item of the plan is about each of the targets.
  abbrev pub IsIn : List InstallPlanItem → InstallTarget → Type 0
  IsIn plan t = any (is_item_of t) plan ≡ true

  IsIn-cons :
      (item : InstallPlanItem) (plan : List InstallPlanItem) (ts : List InstallTarget)
      → All (IsIn plan) ts
      → All (IsIn (item ∷ plan)) ts
  unfolding any
  IsIn-cons item plan [] h = tt
  IsIn-cons item plan (t ∷ ts) (h, hs) = (ground arith, IsIn-cons item plan ts hs)

  pub plan_targets-IsPlanned :
      (ts : List InstallTarget)
      → All (HasKind m) ts
      → OnOk (λ plan. All IsPlanned plan × All (IsIn plan) ts) (plan_targets d0 removing ts)
  unfolding plan_targets any
  plan_targets-IsPlanned [] ks = (tt, tt)
  plan_targets-IsPlanned (t ∷ ts) (k, ks) =
      elim (Result-cases (examine d0 removing t.kind t.config_path)) [
        | inl (found, e) ↦ rw e (
            OnOk-then_do (λ plan. All IsPlanned plan × All (IsIn plan) ts)
              (λ plan. All IsPlanned plan × All (IsIn plan) (t ∷ ts)) (plan_targets d0 removing ts)
              _ (plan_targets-IsPlanned ts ks)
              (λ items (ps, ins). (
                (plan_item-IsPlanned t found k e, ps),
                (
                  rw (is_item_of-plan_item t found) refl,
                  IsIn-cons (plan_item t removing found) items ts ins,
                ),
              )))
        | inr (err, e) ↦ rw e tt
      ]

  pub action_of-IsAction :
      (t : InstallTarget) (plan : List InstallPlanItem)
      → HasKind m t
      → All IsPlanned plan
      → IsIn plan t
      → IsAction t.kind t.config_path (action_of t plan)
  unfolding action_of any
  action_of-IsAction t [] k p h = cc
  action_of-IsAction t (item ∷ plan) k (p, ps) h = elim (Bool-cases (is_item_of t item)) [
    | inl e ↦
        let same : item.config_path ≡ t.config_path =
          (text_eq_iff item.config_path t.config_path).0 (ground arith) in
        let (existed, changed, x, a) = p in rw e (existed, changed, rw (same, k) at x, a)
    | inr e ↦ rw e (action_of-IsAction t plan k ps (ground arith))
  ]

  abbrev pub SettledAt : Disk → Text → Type 0
  SettledAt d path = IsSettled removing d (kind_at m path) path

  written-here :
      (t : InstallTarget) (path : Text) (d d' : Disk)
      → HasKind m t
      → IsWritten t.kind removing t.config_path d d'
      → text_eq t.config_path path ≡ true
      → SettledAt d' path
  written-here t path d d' k w e =
      let same : t.config_path ≡ path = (text_eq_iff t.config_path path).0 e in
      let (existed, s) = w.settled in (existed, rw (← k, same) at s)

  written-keeps :
      (t : InstallTarget) (path : Text) (d d' : Disk)
      → HasKind m t
      → IsWritten t.kind removing t.config_path d d'
      → SettledAt d path
      → SettledAt d' path
  written-keeps t path d d' k w (existed, s) = elim (Bool-cases (text_eq t.config_path path)) [
    | inl e ↦ written-here t path d d' k w e
    | inr e ↦ (existed, examine-get d' d removing (kind_at m path) path (w.others path e) ∙ s)
  ]

  -- Before each round of the loop: a file is the one that the plan saw, or settled.
  pub record Inv (d : Disk) : Type 0 where
    pub blanks : NoBlanks d
    pub seen_or_settled : (path : Text) → (dict_get path d ≡ dict_get path d0) ⊎ SettledAt d path

  Inv-step :
      (t : InstallTarget) (d d' : Disk)
      → HasKind m t
      → IsWritten t.kind removing t.config_path d d'
      → Inv d
      → Inv d'
  Inv-step t d d' k w i = record {
    blanks = w.blanks i.blanks;
    seen_or_settled = λ path. elim (Bool-cases (text_eq t.config_path path)) [
      | inl e ↦ inr (written-here t path d d' k w e)
      | inr e ↦ elim (i.seen_or_settled path) [
        | inl same ↦ inl (w.others path e ∙ same)
        | inr s ↦ inr (written-keeps t path d d' k w s)
      ]
    ];
  }

  -- What a run of the loop over the targets does.
  pub record IsRun (ts : List InstallTarget) (d : Disk) (out : Result (Unit {0}) × Disk)
      : Type 0 where
    pub finished : out.0 ≡ ok tt
    pub settled : All (λ t. SettledAt out.1 t.config_path) ts
    pub keeps : (path : Text) → SettledAt d path → SettledAt out.1 path
    pub others :
        (path : Text)
        → All (λ t. text_eq t.config_path path ≡ false) ts
        → dict_get path out.1 ≡ dict_get path d

  pub write_targets-IsRun :
      (plan : List InstallPlanItem) (ts : List InstallTarget) (d : Disk)
      → Inv d
      → All (HasKind m) ts
      → All IsPlanned plan
      → All (IsIn plan) ts
      → IsRun ts d (write_targets plan removing ts d)
  unfolding write_targets
  write_targets-IsRun plan [] d i ks ps ins = record {
    finished = refl;
    settled = tt;
    keeps = λ path s. s;
    others = λ path h. refl;
  }
  write_targets-IsRun plan (t ∷ ts) d i (k, ks) ps (is_in, ins) =
      let (existed, changed, x, a) = action_of-IsAction t plan k ps is_in in
      let here : (dict_get t.config_path d ≡ dict_get t.config_path d0)
          ⊎ IsSettled removing d t.kind t.config_path =
        rw k at (i.seen_or_settled t.config_path) in
      let (d', e, w) = write_target-IsWritten t removing existed changed d0 d i.blanks x here in
      let r = write_targets-IsRun plan ts d' (Inv-step t d d' k w i) ks ps ins in
      rw (a, e)
        (record {
          finished = r.finished;
          settled = (
            r.keeps t.config_path
                (written-here t t.config_path d d' k w (text_eq_refl t.config_path)),
            r.settled,
          );
          keeps = λ path s. r.keeps path (written-keeps t path d d' k w s);
          others = λ path (h, hs). r.others path hs ∙ w.others path h;
        })
