-- ===== src/Stats/Breakdown/Totals.antt =====
-- About the groups of the session breakdown and the pruning of rows (stats.ts).
use ctxlite.Prelude.{
  ℕ, ◌+◌, ◌-◌, ◌*◌, ◌/◌, ◌≡◌, refl, ◌∙◌, Bool, true, false, ◌&&◌, Option, none, some, List, [], ◌∷◌,
  arith, Text, text_eq, text_eq_iff, length, filter_by, any, all, ltb, leb, if◌then◌else◌,
}
use ctxlite.Stats.{Row, Moment, Store, has_id}
use ctxlite.Stats.Log.{has_unique_ids}
use ctxlite.Stats.Summary.{sum_case, saved, in_period, equals_column}
use ctxlite.Stats.Breakdown.{
  SessionRow, is_group, start_group, extend_group, add_to_groups, add_session, group_rows,
  insert_session, order_sessions, session_breakdown, prune_older_than,
}

-- A sum over the groups of one session.
unfoldable pub sum_group : Text → Text → (SessionRow → ℕ) → List SessionRow → ℕ
sum_group host session f [] = 0
sum_group host session f (g ∷ gs) =
    let rest = sum_group host session f gs in if is_group host session g then f g + rest else rest

-- The row belongs to the session.
unfoldable pub is_row_of : Text → Text → Row → Bool
is_row_of host session r = equals_column r.host host && equals_column r.session_id session

abbrev requests : SessionRow → ℕ
requests g = g.total_requests

abbrev saving : SessionRow → ℕ
saving g = g.tokens_saved

sum_group-add :
    (host session h s : Text) (r : Row) (gs : List SessionRow)
    → (sum_group host session requests (add_to_groups h s r gs)
        ≡ sum_group host session requests gs
          + (if text_eq h host && text_eq s session then 1 else 0))
      × (sum_group host session saving (add_to_groups h s r gs)
          ≡ sum_group host session saving gs
            + (if text_eq h host && text_eq s session then r.tokens_saved else 0))
unfolding sum_group add_to_groups is_group start_group extend_group
sum_group-add host session h s r [] = ground arith
sum_group-add host session h s r (g ∷ gs) =
    ground
      (arith, text_eq_iff g.host h, text_eq_iff g.session_id s, sum_group-add host session h s r gs)

sum_group-add_session :
    (host session : Text) (h s : Option Text) (r : Row) (gs : List SessionRow)
    → (sum_group host session requests (add_session h s r gs)
        ≡ sum_group host session requests gs
          + (if equals_column h host && equals_column s session then 1 else 0))
      × (sum_group host session saving (add_session h s r gs)
          ≡ sum_group host session saving gs
            + (if equals_column h host && equals_column s session then r.tokens_saved else 0))
unfolding add_session equals_column
sum_group-add_session host session none s r gs = (omega arith, omega arith)
sum_group-add_session host session (some h) none r gs = ground arith
sum_group-add_session host session (some h) (some s) r gs = sum_group-add host session h s r gs

sum_group-group_rows :
    (host session : Text) (rows : List Row) (gs : List SessionRow)
    → (sum_group host session requests (group_rows rows gs)
        ≡ sum_group host session requests gs + length (filter_by (is_row_of host session) rows))
      × (sum_group host session saving (group_rows rows gs)
          ≡ sum_group host session saving gs + sum_case (is_row_of host session) saved rows)
unfolding group_rows filter_by sum_case is_row_of
sum_group-group_rows host session [] gs = (omega arith, omega arith)
sum_group-group_rows host session (r ∷ rows) gs =
    unfold filter_by sum_case is_row_of in
    ground (
      arith,
      sum_group-add_session host session r.host r.session_id r gs,
      sum_group-group_rows host session rows (add_session r.host r.session_id r gs),
    )

sum_group-insert :
    (host session : Text) (f : SessionRow → ℕ) (g : SessionRow) (gs : List SessionRow)
    → sum_group host session f (insert_session g gs) ≡ sum_group host session f (g ∷ gs)
unfolding insert_session sum_group
sum_group-insert host session f g [] = refl
sum_group-insert host session f g (h ∷ gs) = ground (arith, sum_group-insert host session f g gs)

sum_group-order_sessions :
    (host session : Text) (f : SessionRow → ℕ) (gs : List SessionRow)
    → sum_group host session f (order_sessions gs) ≡ sum_group host session f gs
unfolding order_sessions sum_group
sum_group-order_sessions host session f [] = refl
sum_group-order_sessions host session f (g ∷ gs) =
    sum_group-insert host session f g (order_sessions gs)
    ∙ ground (arith, sum_group-order_sessions host session f gs)

-- The sessions of a breakdown, taken together for one host and session: they count every row of the
-- period with this host and session, and their savings are those of these rows.
pub session_breakdown-totals :
    (host session : Text) (since : ℕ) (only : Option Text) (rows : List Row)
    → let selected = filter_by (in_period since only) rows in
      (sum_group host session (λ g. g.total_requests) (session_breakdown since only rows)
        ≡ length (filter_by (is_row_of host session) selected))
      × (sum_group host session (λ g. g.tokens_saved) (session_breakdown since only rows)
          ≡ sum_case (is_row_of host session) saved selected)
unfolding session_breakdown
session_breakdown-totals host session since only rows =
    let selected = filter_by (in_period since only) rows in
    let (counted, summed) = sum_group-group_rows host session selected [] in
    let start : sum_group host session requests [] ≡ 0 = unfold sum_group in refl in
    let start_saving : sum_group host session saving [] ≡ 0 = unfold sum_group in refl in
    (
      omega (
        arith,
        sum_group-order_sessions host session requests (group_rows selected []),
        counted,
        start,
      ),
      omega (
        arith,
        sum_group-order_sessions host session saving (group_rows selected []),
        summed,
        start_saving,
      ),
    )

filter-length :
    (cutoff : ℕ) (rows : List Row)
    → length (filter_by (λ (r : Row). ltb r.ts cutoff) rows)
        + length (filter_by (λ (r : Row). leb cutoff r.ts) rows)
      ≡ length rows
unfolding filter_by
filter-length cutoff [] = refl
filter-length cutoff (r ∷ rows) = ground (arith, filter-length cutoff rows)

has_id-filter :
    (id : Text) (p : Row → Bool) (rows : List Row)
    → has_id id rows ≡ false
    → has_id id (filter_by p rows) ≡ false
unfolding has_id any filter_by
has_id-filter id p [] h = refl
has_id-filter id p (r ∷ rows) h = ground (arith, has_id-filter id p rows)

unique_filter :
    (p : Row → Bool) (rows : List Row)
    → has_unique_ids rows ≡ true
    → has_unique_ids (filter_by p rows) ≡ true
unfolding has_unique_ids filter_by
unique_filter p [] h = refl
unique_filter p (r ∷ rows) h = ground (arith, unique_filter p rows, has_id-filter r.id p rows)

all-filter :
    (t d : ℕ) (rows : List Row)
    → all (λ (r : Row). leb t (r.ts + d)) (filter_by (λ (r : Row). leb (t - d) r.ts) rows) ≡ true
unfolding filter_by all
all-filter t d [] = refl
all-filter t d (r ∷ rows) = ground (arith, all-filter t d rows)

filter-filter :
    (t d : ℕ) (rows : List Row)
    → filter_by (λ (r : Row). leb t (r.ts + d)) (filter_by (λ (r : Row). leb (t - d) r.ts) rows)
      ≡ filter_by (λ (r : Row). leb t (r.ts + d)) rows
unfolding filter_by
filter-filter t d [] = refl
filter-filter t d (r ∷ rows) = ground (arith, filter-filter t d rows)

-- Pruning removes the old rows and no other: the count that it returns and the rows that it leaves are
-- all rows, every row left is at most the given days old, the rows that are so young are all there in
-- their order, and ids that were unique stay so.
pub prune_older_than-counts :
    (m : Moment) (days : ℕ) (s : Store)
    → has_unique_ids s.rows ≡ true
    → let (deleted, t) = prune_older_than m days s in
      let is_young = λ (r : Row). leb (m.now / 1000) (r.ts + days * 86400) in
      (deleted + length t.rows ≡ length s.rows)
      × (all is_young t.rows ≡ true)
      × (filter_by is_young t.rows ≡ filter_by is_young s.rows)
      × (has_unique_ids t.rows ≡ true)
unfolding prune_older_than
prune_older_than-counts m days s u =
    let t = m.now / 1000 in
    (
      filter-length (t - days * 86400) s.rows,
      all-filter t (days * 86400) s.rows,
      filter-filter t (days * 86400) s.rows,
      unique_filter (λ r. leb (t - days * 86400) r.ts) s.rows u,
    )
