-- ===== src/Stats/Summary.antt =====
-- `summary`, `summaryForSession`: the sums over the rows of a period or a session (stats.ts, types.ts).
pub mod Partition
use ctxlite.Prelude.{
  ℕ, zero, suc, ◌+◌, ◌-◌, ◌*◌, ◌/◌, ◌%◌, ◌≤◌, ◌<◌, min, max, String, ◌≡◌, refl, sym, ap, ap₂, ◌∙◌,
  ◌≢◌, ◌↔◌, ◌⊎◌, inl, inr, Bool, true, false, ◌&&◌, ◌||◌, not, Option, none, some, List, [], ◌∷◌,
  ◌++◌, map, append_assoc, append-nil, map-append, arith, Text, str, text_eq, text_eq_iff,
  text_eq_refl, length, length-append, join, Dict, dict_get, dict_set, dict_delete, get-set,
  get-delete, or_else, slice, take, drop, filter_by, any, all, All, trim_end, starts_with,
  ends_with, includes, ltb, leb, ◌==◌, if◌then◌else◌, Option-cases, Bool-cases, print_nat,
  round_seven_tenths, lines_of, unlines, lower_unit, length-take, length-drop, take-append-drop,
}
use ctxlite.Stats.{
  Source, trim, concise, compress, prune, precall, compact, smart_read, diff_read, log_summary,
  code_search, cache, session, other, same_source, Row,
}

-- `SUM(CASE WHEN p THEN f ELSE 0 END)`
unfoldable pub sum_case : (Row → Bool) → (Row → ℕ) → List Row → ℕ
sum_case p f [] = 0
sum_case p f (r ∷ rows) = let rest = sum_case p f rows in if p r then f r + rest else rest

abbrev pub one : Row → ℕ
one r = 1

abbrev pub saved : Row → ℕ
saved r = r.tokens_saved

abbrev pub is_of : Source → Row → Bool
is_of s r = same_source r.source s

-- `source NOT IN (…) AND trimmed`
abbrev pub is_legacy_trim : Row → Bool
is_legacy_trim r = same_source r.source (other []) && r.trimmed

-- `source != 'session'`
abbrev pub not_session : Row → Bool
not_session r = not (same_source r.source session)

-- `Math.round(AVG(…))`, 0 where there is no row
abbrev rounded_average : ℕ → ℕ → ℕ
rounded_average total count = if count == 0 then 0 else (2 * total + count) / (2 * count)

-- A quotient, in hundredths: `(a / b) * 100`, and 0 where `b` is 0.
pub record Percent : Type 0 where
  pub numerator : ℕ
  pub denominator : ℕ

abbrev percent_of : ℕ → ℕ → Percent
percent_of a b =
    if ltb 0 b
    then record { numerator = 100 * a; denominator = b }
    else record { numerator = 0; denominator = 1 }

pub record Summary : Type 0 where
  pub total_requests : ℕ
  pub trimmed_requests : ℕ
  pub conciseness_requests : ℕ
  pub compress_requests : ℕ
  pub prune_requests : ℕ
  pub precall_requests : ℕ
  pub compact_requests : ℕ
  pub tokens_saved : ℕ
  pub trim_tokens_saved : ℕ
  pub conciseness_tokens_saved : ℕ
  pub compress_tokens_saved : ℕ
  pub prune_tokens_saved : ℕ
  pub precall_tokens_saved : ℕ
  pub compact_tokens_saved : ℕ
  pub smart_read_requests : ℕ
  pub smart_read_tokens_saved : ℕ
  pub diff_read_requests : ℕ
  pub diff_read_tokens_saved : ℕ
  pub log_summary_requests : ℕ
  pub log_summary_tokens_saved : ℕ
  pub code_search_requests : ℕ
  pub code_search_tokens_saved : ℕ
  pub realtime_tokens_saved : ℕ
  pub session_tokens_used : ℕ
  pub session_turn_count : ℕ
  pub tokens_before : ℕ
  pub savings_percent : Percent
  pub cost_saved : ℕ
  pub avg_latency_ms : ℕ
  pub period : Text

-- `WHERE …`
unfoldable pub select : (Row → Bool) → List Row → List Row
select p rows = filter_by p rows

unfoldable pub summary_with_filter : (Row → Bool) → Text → List Row → Summary
summary_with_filter filter period_label table =
    let rows = filter_by not_session (select filter table) in
    let legacy = select filter table in
    let sessions = filter_by (is_of session) (select filter table) in
    let tokens_saved = sum_case (λ r. true) saved rows in
    let trim_saved = sum_case (is_of trim) saved rows + sum_case is_legacy_trim saved legacy in
    let concise_saved = sum_case (is_of concise) saved rows in
    let input_saved = tokens_saved - trim_saved - concise_saved in
    let session_input = sum_case (λ r. true) (λ r. r.tokens_used) sessions in
    let session_output = sum_case (λ r. true) (λ r. r.tokens_out) sessions in
    let realtime = input_saved + concise_saved in
    let before = input_saved + session_input + concise_saved + session_output in
    record {
      total_requests = length rows;
      trimmed_requests = sum_case (is_of trim) one rows + sum_case is_legacy_trim one legacy;
      conciseness_requests = sum_case (is_of concise) one rows;
      compress_requests = sum_case (is_of compress) one rows;
      prune_requests = sum_case (is_of prune) one rows;
      precall_requests = sum_case (is_of precall) one rows;
      compact_requests = sum_case (is_of compact) one rows;
      tokens_saved = tokens_saved;
      trim_tokens_saved = trim_saved;
      conciseness_tokens_saved = concise_saved;
      compress_tokens_saved = sum_case (is_of compress) saved rows;
      prune_tokens_saved = sum_case (is_of prune) saved rows;
      precall_tokens_saved = sum_case (is_of precall) saved rows;
      compact_tokens_saved = sum_case (is_of compact) saved rows;
      smart_read_requests = sum_case (is_of smart_read) one rows;
      smart_read_tokens_saved = sum_case (is_of smart_read) saved rows;
      diff_read_requests = sum_case (is_of diff_read) one rows;
      diff_read_tokens_saved = sum_case (is_of diff_read) saved rows;
      log_summary_requests = sum_case (is_of log_summary) one rows;
      log_summary_tokens_saved = sum_case (is_of log_summary) saved rows;
      code_search_requests = sum_case (is_of code_search) one rows;
      code_search_tokens_saved = sum_case (is_of code_search) saved rows;
      realtime_tokens_saved = realtime;
      session_tokens_used = session_input + session_output;
      session_turn_count = length sessions;
      tokens_before = before;
      savings_percent = percent_of realtime before;
      cost_saved = sum_case (λ r. true) (λ r. r.cost_saved) rows;
      avg_latency_ms =
          rounded_average (sum_case (is_of trim) (λ r. r.latency_ms) rows)
            (sum_case (is_of trim) one rows);
      period = period_label;
    }

-- `host = ?`, which a row without a host does not satisfy
unfoldable pub equals_column : Option Text → Text → Bool
equals_column none t = false
equals_column (some s) t = text_eq s t

unfoldable pub in_period : ℕ → Option Text → Row → Bool
in_period since none r = since == 0 || leb since r.ts
in_period since (some []) r = since == 0 || leb since r.ts
in_period since (some (c ∷ host)) r =
    (since == 0 || leb since r.ts) && equals_column r.host (c ∷ host)

-- `new Date(since * 1000).toLocaleDateString()` is a parameter.
unfoldable pub summary : (ℕ → Text) → ℕ → Option Text → List Row → Summary
summary locale_date since host rows =
    summary_with_filter (in_period since host)
      (if since == 0 then str "all time" else str "since " ++ locale_date since) rows

unfoldable pub summary_for_session : Text → Text → List Row → Summary
summary_for_session host session_id rows =
    summary_with_filter (λ r. equals_column r.host host && equals_column r.session_id session_id)
      (str "current session") rows
