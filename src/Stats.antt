-- ===== src/Stats.antt =====
-- packages/core/src/stats.ts: the table of savings. The database is a list of rows, in the order of
-- their insertion.
pub mod Loggers
pub mod Log
pub mod Summary
pub mod Breakdown
pub mod Tests
use ctxlite.Prelude.{
  ℕ, zero, suc, ◌+◌, ◌-◌, ◌*◌, ◌/◌, ◌%◌, ◌≤◌, ◌<◌, min, max, String, ◌≡◌, refl, sym, ap, ap₂, ◌∙◌,
  ◌≢◌, ◌↔◌, ◌⊎◌, inl, inr, Bool, true, false, ◌&&◌, ◌||◌, not, Option, none, some, List, [], ◌∷◌,
  ◌++◌, map, append_assoc, append-nil, map-append, arith, Text, str, text_eq, text_eq_iff,
  text_eq_refl, length, length-append, join, Dict, dict_get, dict_set, dict_delete, get-set,
  get-delete, or_else, slice, take, drop, filter_by, any, all, All, trim_end, starts_with,
  ends_with, includes, ltb, leb, ◌==◌, if◌then◌else◌, Option-cases, Bool-cases, print_nat,
  round_seven_tenths, lines_of, unlines, lower_unit, length-take, length-drop, take-append-drop,
}
use ctxlite.Tokens.{estimate_cost, estimate_conciseness_savings}

-- The values of the column `source`. `other` is a text that is none of the twelve, from a version
-- before the column was filled.
pub data Source : Type 0 where
  trim concise compress prune precall compact smart_read diff_read log_summary code_search : Source
  cache session : Source
  other : Text → Source

-- the place of a source among the constructors
abbrev tag : Source → ℕ
tag trim = 0
tag concise = 1
tag compress = 2
tag prune = 3
tag precall = 4
tag compact = 5
tag smart_read = 6
tag diff_read = 7
tag log_summary = 8
tag code_search = 9
tag cache = 10
tag session = 11
tag (other t) = 12

-- `source = 'trim'` and so on, for one of the twelve, and `source NOT IN (…)` for `other`
abbrev pub same_source : Source → Source → Bool
same_source s t = tag s == tag t

-- A row of the table `requests`.
pub record Row : Type 0 where
  pub id : Text
  pub ts : ℕ
  pub upstream : Text
  pub trimmed : Bool
  pub tokens_in : ℕ
  pub tokens_used : ℕ
  pub tokens_out : ℕ
  pub tokens_saved : ℕ
  pub cost_saved : ℕ
  pub latency_ms : ℕ
  pub source : Source
  pub host : Option Text
  pub session_id : Option Text

pub record RequestLog : Type 0 where
  pub upstream : Text
  pub cache_hit : Bool
  pub tokens_in : ℕ
  pub tokens_used : ℕ
  pub tokens_out : ℕ
  pub tokens_saved : ℕ
  pub cost_saved : ℕ
  pub latency_ms : ℕ
  pub source : Option Source
  pub host : Option Text
  pub session_id : Option Text

-- What the clock, the random numbers and the database give at a call: the milliseconds, an id made of
-- both, whether the store can be opened, and which attempts to write throw.
pub record Moment : Type 0 where
  pub now : ℕ
  pub fresh_id : Text
  pub opens : Bool
  pub throws : ℕ → Bool

-- The table and the count of writes that were given up.
pub record Store : Type 0 where
  pub rows : List Row
  pub log_failure_count : ℕ

-- `runWithRetry`: up to `left` attempts from attempt `i` on; `none` is the exception of the last one
unfoldable pub run_with_retry {ℓ} : {S : Type ℓ} → (ℕ → S → Option S) → ℕ → ℕ → S → Option S
run_with_retry fn i zero s = none
run_with_retry fn i (suc left) s =
    let again = run_with_retry fn (i + 1) left s in elim (fn i s) [ none ↦ again | some t ↦ some t ]

unfoldable pub has_id : Text → List Row → Bool
has_id id rows = any (λ r. text_eq r.id id) rows

-- `INSERT OR IGNORE INTO requests`
unfoldable pub insert_or_ignore : Row → List Row → List Row
insert_or_ignore row rows = if has_id row.id rows then rows else rows ++ row ∷ []

unfoldable pub source_of : RequestLog → Source
source_of entry = or_else entry.source (
    if ltb entry.tokens_used entry.tokens_in
    then trim
    else if ltb 0 entry.tokens_saved
    then concise
    else trim)

unfoldable pub row_of : Moment → RequestLog → Option Text → Row
row_of m entry id = record {
  id = or_else id m.fresh_id;
  ts = m.now / 1000;
  upstream = entry.upstream;
  trimmed = same_source (source_of entry) trim;
  tokens_in = entry.tokens_in;
  tokens_used = entry.tokens_used;
  tokens_out = entry.tokens_out;
  tokens_saved = entry.tokens_saved;
  cost_saved = entry.cost_saved;
  latency_ms = entry.latency_ms;
  source = source_of entry;
  host = entry.host;
  session_id = entry.session_id;
}

-- one attempt: an exception leaves the table as it was
unfoldable pub write : Moment → Row → ℕ → List Row → Option (List Row)
write m row i rows = if m.throws i then none else some (insert_or_ignore row rows)

abbrev written : Option (List Row) → Store → Store
written none s = record s { log_failure_count = s.log_failure_count + 1 }
written (some rows) s = record s { rows = rows }

-- `StatsStore.log`
unfoldable pub log : Moment → RequestLog → Option Text → Store → Store
log m entry id s = written (run_with_retry (write m (row_of m entry id)) 0 3 s.rows) s

-- `getSharedStore(dbPath).log(…)` under the `try` of the loggers
unfoldable pub log_shared : Moment → RequestLog → Option Text → Store → Store
log_shared m entry id s = if m.opens then log m entry id s else s
