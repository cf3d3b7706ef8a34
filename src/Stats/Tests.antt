-- ===== src/Stats/Tests.antt =====
-- Runs of the statistics (stats.ts).
use ctxlite.Prelude.{
  ◌+◌, ◌≡◌, refl, true, false, none, some, [], ◌∷◌, map, str, text_eq, length, filter_by, any, ltb,
}
use ctxlite.Tokens.{estimate_cost}
use ctxlite.Stats.{
  compress, Moment, Store, run_with_retry, has_id, insert_or_ignore, source_of, row_of, write, log,
  log_shared, RequestLog,
}
use ctxlite.Stats.Loggers.{
  SessionUsage, OptimizationLog, given_id, log_optimization_savings, log_session_usage,
}
use ctxlite.Stats.Log.{has_unique_ids, log_unique, log_session_usage-twice}
use ctxlite.Stats.Summary.{
  summary_with_filter, sum_case, select, equals_column, in_period, summary_for_session, saved,
}
use ctxlite.Stats.Summary.Partition.{summary-partition, is_unnamed}
use ctxlite.Stats.Breakdown.{
  is_group, start_group, extend_group, add_to_groups, add_session, group_rows, session_breakdown,
  order_sessions, insert_session, prune_older_than,
}
use ctxlite.Stats.Breakdown.Totals.{sum_group, is_row_of, session_breakdown-totals}

unfoldable pub stats : Unit {0}
unfolding estimate_cost run_with_retry has_id insert_or_ignore source_of row_of write log log_shared
    given_id log_optimization_savings log_session_usage has_unique_ids summary_with_filter sum_case
    select equals_column in_period summary_for_session is_group start_group extend_group
    add_to_groups add_session group_rows session_breakdown order_sessions insert_session
    prune_older_than any filter_by text_eq str
stats = tt

-- The first two attempts throw.
abbrev busy : Moment
busy = record { now = 86400000; fresh_id = str "1-a"; opens = true; throws = λ i. ltb i 2 }

abbrev empty : Store
empty = record { rows = []; log_failure_count = 0 }

abbrev turn : SessionUsage
turn = record {
  message_id = str "m1";
  input_tokens = 900;
  output_tokens = 100;
  host = some (str "opencode");
  session_id = some (str "s1");
}

abbrev compressed : OptimizationLog
compressed = record {
  source = compress;
  upstream = str "bash";
  tokens_in = 300;
  tokens_out = 200;
  id = some (str "compress-c1");
  host = some (str "opencode");
  session_id = some (str "s1");
}

abbrev two_rows : Store
two_rows = log_optimization_savings busy compressed (log_session_usage busy turn empty)

-- The saving of 100 of 1100 tokens; a session counts its usage rows too, which the summary does not.
report :
    let s = summary_for_session (str "opencode") (str "s1") two_rows.rows in
    (length two_rows.rows ≡ 2)
    × (s.tokens_before ≡ 1100)
    × (s.realtime_tokens_saved ≡ 100)
    × (s.total_requests ≡ 1)
    × (map (λ g. g.total_requests) (session_breakdown 0 none two_rows.rows) ≡ 2 ∷ [])
unfolding stats
report = (refl, refl, refl, refl, refl)

log_session_usage-twice_example :
    (log_session_usage busy turn (log_session_usage busy turn empty)).rows
    ≡ (log_session_usage busy turn empty).rows
log_session_usage-twice_example = log_session_usage-twice busy busy turn turn empty refl refl refl

abbrev request : RequestLog
request = record {
  upstream = str "mcp";
  cache_hit = false;
  tokens_in = 50;
  tokens_used = 20;
  tokens_out = 0;
  tokens_saved = 30;
  cost_saved = 0;
  latency_ms = 3;
  source = none;
  host = none;
  session_id = none;
}

two_rows_unique : has_unique_ids two_rows.rows ≡ true
unfolding stats
two_rows_unique = refl

log_unique_example : has_unique_ids (log busy request none two_rows).rows ≡ true
log_unique_example = log_unique busy request none two_rows two_rows_unique

summary-partition_example :
    let s = summary_with_filter (λ r. true) (str "all time") two_rows.rows in
    s.tokens_saved
    ≡ s.trim_tokens_saved
      + s.conciseness_tokens_saved
      + s.compress_tokens_saved
      + s.prune_tokens_saved
      + s.precall_tokens_saved
      + s.compact_tokens_saved
      + s.smart_read_tokens_saved
      + s.diff_read_tokens_saved
      + s.log_summary_tokens_saved
      + s.code_search_tokens_saved
      + sum_case is_unnamed saved (select (λ r. true) two_rows.rows)
summary-partition_example = summary-partition (λ r. true) (str "all time") two_rows.rows

session_breakdown-totals_example :
    let selected = filter_by (in_period 0 none) two_rows.rows in
    (sum_group
        (str "opencode")
        (str "s1")
        (λ g. g.total_requests)
        (session_breakdown 0 none two_rows.rows)
      ≡ length (filter_by (is_row_of (str "opencode") (str "s1")) selected))
    × (sum_group
          (str "opencode")
          (str "s1")
          (λ g. g.tokens_saved)
          (session_breakdown 0 none two_rows.rows)
        ≡ sum_case (is_row_of (str "opencode") (str "s1")) saved selected)
session_breakdown-totals_example =
    session_breakdown-totals (str "opencode") (str "s1") 0 none two_rows.rows
