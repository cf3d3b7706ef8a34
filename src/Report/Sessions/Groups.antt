-- ===== src/Report/Sessions/Groups.antt =====
-- About the listing of sessions by host (report.ts).
use ctxlite.Prelude.{
  ℕ, suc, ◌≡◌, refl, sym, ap, ◌∙◌, inl, inr, false, none, some, List, [], ◌∷◌, ◌++◌, append_assoc,
  append-nil, arith, Text, text_eq, text_eq_iff, All, if◌then◌else◌, if-either, Bool-cases,
}
use ctxlite.Report.Sessions.{host_label, by_host}
use ctxlite.Stats.Breakdown.{SessionRow}
use ctxlite.Report.Sessions.{session_line, render_session_breakdown, id_width, saved_width}
use ctxlite.Prelude.{length}
use ctxlite.Prelude.{◌==◌}

-- What follows one another for the same host.
abbrev pub Run : Type 0 → Type 0
Run A = Text × List A

module _ {A : Type 0} (host_of : A → Text) where
  abbrev put_in_front : A → List (Run A) → List (Run A)
  put_in_front x [] = (host_of x, x ∷ []) ∷ []
  put_in_front x ((host, group) ∷ runs) =
      if text_eq host (host_of x)
      then (host, x ∷ group) ∷ runs
      else (host_of x, x ∷ []) ∷ (host, group) ∷ runs

  unfoldable pub runs_of : List A → List (Run A)
  runs_of [] = []
  runs_of (x ∷ xs) = put_in_front x (runs_of xs)

  -- The entries of all runs, in their order.
  abbrev pub members : List (Run A) → List A
  members [] = []
  members ((host, group) ∷ runs) = group ++ members runs

  abbrev pub Apart : Text → List (Run A) → Type 0
  Apart host [] = Unit
  Apart host ((next, group) ∷ runs) = text_eq next host ≡ false

  -- All entries of a run have its host, and runs that follow one another have different ones.
  abbrev pub AreRuns : List (Run A) → Type 0
  AreRuns [] = Unit
  AreRuns ((host, group) ∷ runs) =
      All (λ x. host_of x ≡ host) group × Apart host runs × AreRuns runs

  put_in_front-AreRuns :
      (x : A) (runs : List (Run A))
      → AreRuns runs
      → (members (put_in_front x runs) ≡ x ∷ members runs) × AreRuns (put_in_front x runs)
  put_in_front-AreRuns x [] h = (refl, ((refl, tt), tt, tt))
  put_in_front-AreRuns x ((host, group) ∷ runs) (all, apart, are) =
      if-either (λ rs. (members rs ≡ x ∷ (group ++ members runs)) × AreRuns rs)
        (text_eq host (host_of x)) _ _
        (λ e.
          let same : host ≡ host_of x = (text_eq_iff host (host_of x)).0 e in
          (refl, ((sym same, all), apart, are)))
        (λ e. (refl, ((refl, tt), e, (all, apart, are))))

  pub runs_of-AreRuns : (xs : List A) → (members (runs_of xs) ≡ xs) × AreRuns (runs_of xs)
  unfolding runs_of
  runs_of-AreRuns [] = (refl, tt)
  runs_of-AreRuns (x ∷ xs) =
      let (same, are) = runs_of-AreRuns xs in
      let (front, all) = put_in_front-AreRuns x (runs_of xs) are in
      (front ∙ ap (λ (ys : List A). x ∷ ys) same, all)

module _ {A : Type 0} (host_of : A → Text) (lines_of : A → List Text) where
  abbrev pub entries_of : List A → List Text
  entries_of [] = []
  entries_of (x ∷ xs) = lines_of x ++ entries_of xs

  -- The runs, each with its host once, and a blank line between them.
  unfoldable pub blocks_of : List (Run A) → List Text
  blocks_of [] = []
  blocks_of ((host, group) ∷ []) = host_label host ∷ entries_of group
  blocks_of ((host, group) ∷ next ∷ runs) =
      host_label host ∷ (entries_of group ++ ([] ∷ blocks_of (next ∷ runs)))

  abbrev further : List (Run A) → List Text
  further [] = []
  further (run ∷ runs) = [] ∷ blocks_of (run ∷ runs)

  blocks_of-further :
      (host : Text) (group : List A) (runs : List (Run A))
      → blocks_of ((host, group) ∷ runs) ≡ host_label host ∷ (entries_of group ++ further runs)
  unfolding blocks_of
  blocks_of-further host group [] = rw append-nil refl
  blocks_of-further host group (next ∷ runs) = refl

  -- What is listed behind an entry of a host.
  abbrev after : Text → List (Run A) → List Text
  after current [] = []
  after current ((host, group) ∷ runs) =
      if text_eq host current
      then entries_of group ++ further runs
      else further ((host, group) ∷ runs)

  -- The first run when an entry is put in front, and what is listed from the entry on.
  record Fronted (x : A) (runs : List (Run A)) : Type 0 where
    group : List A
    rest : List (Run A)
    front : put_in_front host_of x runs ≡ (host_of x, group) ∷ rest
    listed : lines_of x ++ after (host_of x) runs ≡ entries_of group ++ further rest

  put_in_front-Fronted : (x : A) (runs : List (Run A)) → Fronted x runs
  put_in_front-Fronted x [] = record {
    group = x ∷ [];
    rest = [];
    front = refl;
    listed = rw (append-nil, append-nil) refl;
  }
  put_in_front-Fronted x ((host, group) ∷ runs) = elim (Bool-cases (text_eq host (host_of x))) [
    | inl e ↦
        let same : host ≡ host_of x = (text_eq_iff host (host_of x)).0 e in
        record {
          group = x ∷ group;
          rest = runs;
          front = rw e (ap (λ (h : Text). (h, x ∷ group) ∷ runs) same);
          listed = rw e (sym (append_assoc (lines_of x) (entries_of group) (further runs)));
        }
    | inr e ↦ record {
      group = x ∷ [];
      rest = (host, group) ∷ runs;
      front = rw e refl;
      listed = rw (e, append-nil) refl;
    }
  ]

  by_host-after :
      (current : Text) (xs : List A)
      → by_host host_of lines_of (some current) xs ≡ after current (runs_of host_of xs)
  unfolding by_host runs_of
  by_host-after current [] = refl
  by_host-after current (x ∷ xs) =
      let f = put_in_front-Fronted x (runs_of host_of xs) in
      elim (Bool-cases (text_eq (host_of x) current)) [
        | inl e ↦ rw (e, f.front, e) (rw (by_host-after (host_of x) xs) f.listed)
        | inr e ↦
            rw (e, f.front, e, blocks_of-further (host_of x) f.group f.rest)
              (ap (λ (ls : List Text). [] ∷ host_label (host_of x) ∷ ls)
                (rw (by_host-after (host_of x) xs) f.listed))
      ]

  -- The listing.
  pub by_host-blocks_of :
      (xs : List A) → by_host host_of lines_of none xs ≡ blocks_of (runs_of host_of xs)
  unfolding by_host runs_of
  by_host-blocks_of [] = unfold blocks_of in refl
  by_host-blocks_of (x ∷ xs) =
      let f = put_in_front-Fronted x (runs_of host_of xs) in
      rw (f.front, blocks_of-further (host_of x) f.group f.rest)
        (ap (λ (ls : List Text). host_label (host_of x) ∷ ls)
          (rw (by_host-after (host_of x) xs) f.listed))

abbrev pub session_host : SessionRow → Text
session_host r = r.host

-- The listing of at least one session is that of the runs of sessions of the same host: each run
-- has the label of its host once and then a line for each of its sessions, a blank line stands
-- exactly between two runs, all sessions are listed in their order, and neighbouring runs have
-- different hosts.
pub render_session_breakdown-blocks :
    (locale_time : ℕ → Text) (r : SessionRow) (rows : List SessionRow)
    → (ids : ℕ) × (tokens : ℕ) × (runs : List (Run SessionRow)) × (render_session_breakdown
          locale_time
          (r ∷ rows)
        ≡ blocks_of session_host (λ row. session_line locale_time ids tokens row ∷ []) runs)
      × (members session_host runs ≡ r ∷ rows)
      × AreRuns session_host runs
unfolding render_session_breakdown
render_session_breakdown-blocks locale_time r rows =
    let ids = id_width (r ∷ rows) in
    let tokens = saved_width (r ∷ rows) in
    let lines : SessionRow → List Text = λ row. session_line locale_time ids tokens row ∷ [] in
    let some_rows : (suc (length rows) == 0) ≡ false = ground arith in
    let (same, are) = runs_of-AreRuns session_host (r ∷ rows) in
    (
      ids,
      tokens,
      runs_of session_host (r ∷ rows),
      rw some_rows (by_host-blocks_of session_host lines (r ∷ rows)),
      same,
      are,
    )
