-- ===== src/Stats/Breakdown.antt =====
-- `sessionBreakdown`, `cacheStats`, `pruneOlderThan`: the sessions of the table, its size and its
-- upkeep (stats.ts).
pub mod Totals
use ctxlite.Prelude.{
  ℕ, zero, suc, ◌+◌, ◌-◌, ◌*◌, ◌/◌, ◌%◌, ◌≤◌, ◌<◌, min, max, String, ◌≡◌, refl, sym, ap, ap₂, ◌∙◌,
  ◌≢◌, ◌↔◌, ◌⊎◌, inl, inr, Bool, true, false, ◌&&◌, ◌||◌, not, Option, none, some, List, [], ◌∷◌,
  ◌++◌, map, append_assoc, append-nil, map-append, arith, Text, str, text_eq, text_eq_iff,
  text_eq_refl, length, length-append, join, Dict, dict_get, dict_set, dict_delete, get-set,
  get-delete, or_else, slice, take, drop, filter_by, any, all, All, trim_end, starts_with,
  ends_with, includes, ltb, leb, ◌==◌, if◌then◌else◌, Option-cases, Bool-cases, print_nat,
  round_seven_tenths, lines_of, unlines, lower_unit, length-take, length-drop, take-append-drop,
}
use ctxlite.Stats.{Source, Row, Moment, Store}
use ctxlite.Stats.Summary.{sum_case, saved, in_period}
use ctxlite.Context.ArgsKey.{text_lt}

pub record SessionRow : Type 0 where
  pub host : Text
  pub session_id : Text
  pub total_requests : ℕ
  pub tokens_saved : ℕ
  pub first_ts : ℕ
  pub last_ts : ℕ

unfoldable pub is_group : Text → Text → SessionRow → Bool
is_group host session g = text_eq g.host host && text_eq g.session_id session

unfoldable pub start_group : Text → Text → Row → SessionRow
start_group host session r = record {
  host = host;
  session_id = session;
  total_requests = 1;
  tokens_saved = r.tokens_saved;
  first_ts = r.ts;
  last_ts = r.ts;
}

unfoldable pub extend_group : Row → SessionRow → SessionRow
extend_group r g = record {
  host = g.host;
  session_id = g.session_id;
  total_requests = g.total_requests + 1;
  tokens_saved = g.tokens_saved + r.tokens_saved;
  first_ts = min g.first_ts r.ts;
  last_ts = max g.last_ts r.ts;
}

-- `COUNT(*)`, `SUM`, `MIN` and `MAX` of the group of a row
unfoldable pub add_to_groups : Text → Text → Row → List SessionRow → List SessionRow
add_to_groups host session r [] = start_group host session r ∷ []
add_to_groups host session r (g ∷ gs) =
    let rest = add_to_groups host session r gs in
    if is_group host session g then extend_group r g ∷ gs else g ∷ rest

-- `host IS NOT NULL AND session_id IS NOT NULL`
unfoldable pub add_session : Option Text → Option Text → Row → List SessionRow → List SessionRow
add_session none session r gs = gs
add_session (some host) none r gs = gs
add_session (some host) (some session) r gs = add_to_groups host session r gs

-- `GROUP BY host, session_id`
unfoldable pub group_rows : List Row → List SessionRow → List SessionRow
group_rows [] gs = gs
group_rows (r ∷ rows) gs = group_rows rows (add_session r.host r.session_id r gs)

-- `ORDER BY host, last_ts DESC`: the order of two sessions of one host with the same last second,
-- which SQLite leaves open, is that of their first rows
unfoldable pub comes_before : SessionRow → SessionRow → Bool
comes_before a b = text_lt a.host b.host || text_eq a.host b.host && ltb b.last_ts a.last_ts

unfoldable pub insert_session : SessionRow → List SessionRow → List SessionRow
insert_session a [] = a ∷ []
insert_session a (b ∷ bs) =
    let rest = insert_session a bs in if comes_before b a then b ∷ rest else a ∷ b ∷ bs

unfoldable pub order_sessions : List SessionRow → List SessionRow
order_sessions [] = []
order_sessions (a ∷ rest) = insert_session a (order_sessions rest)

unfoldable pub session_breakdown : ℕ → Option Text → List Row → List SessionRow
session_breakdown since host rows =
    order_sessions (group_rows (filter_by (in_period since host) rows) [])

pub record CacheStats : Type 0 where
  pub total_entries : ℕ
  pub size_bytes : ℕ
  pub oldest_entry : Option ℕ

-- `MIN(ts)`, and `NULL` for no row
unfoldable pub oldest : List Row → Option ℕ
oldest [] = none
oldest (r ∷ rows) = elim (oldest rows) [ none ↦ some r.ts | some t ↦ some (min r.ts t) ]

-- `row?.oldest ? … : null`: the second 0 is no date either; a date is in milliseconds
abbrev date_of : Option ℕ → Option ℕ
date_of none = none
date_of (some zero) = none
date_of (some (suc t)) = some (suc t * 1000)

-- `LENGTH` counts the characters of a text, which are its units in the basic plane.
unfoldable pub cache_stats : List Row → CacheStats
cache_stats rows = record {
  total_entries = length rows;
  size_bytes = sum_case (λ r. true) (λ r. length r.upstream + length r.id + 100) rows;
  oldest_entry = date_of (oldest rows);
}

-- `DELETE FROM requests WHERE ts < ?`: a cutoff below 0 deletes no row, as 0 does
unfoldable pub prune_older_than : Moment → ℕ → Store → ℕ × Store
prune_older_than m days s =
    let cutoff = m.now / 1000 - days * 86400 in
    (
      length (filter_by (λ r. ltb r.ts cutoff) s.rows),
      record s { rows = filter_by (λ r. leb cutoff r.ts) s.rows },
    )
