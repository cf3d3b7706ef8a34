-- ===== src/Stats/Loggers.antt =====
-- The functions of stats.ts that log one kind of saving each.
use ctxlite.Prelude.{
  ℕ, ◌+◌, ◌-◌, false, ◌&&◌, Option, none, some, [], ◌∷◌, ◌++◌, Text, str, leb, ◌==◌, if◌then◌else◌,
}
use ctxlite.Tokens.{estimate_cost, estimate_conciseness_savings}
use ctxlite.Stats.{Source, trim, concise, session, RequestLog, Moment, Store, log_shared}

-- The two counts of a `TrimResult` that are logged, and its saving.
pub record TrimCounts : Type 0 where
  pub tokens_in : ℕ
  pub tokens_out : ℕ
  pub tokens_saved : ℕ

unfoldable pub log_trim_result : Moment → TrimCounts → Text → Option Text → Store → Store
log_trim_result m result tool session_id s =
    let entry : RequestLog = record {
      upstream = tool;
      cache_hit = false;
      tokens_in = result.tokens_in;
      tokens_used = result.tokens_out;
      tokens_out = 0;
      tokens_saved = result.tokens_saved;
      cost_saved = estimate_cost result.tokens_saved tool;
      latency_ms = 0;
      source = some trim;
      host = some tool;
      session_id = session_id;
    } in
    if result.tokens_saved == 0 then s else log_shared m entry none s

pub record ConcisenessLog : Type 0 where
  pub message_id : Text
  pub provider_id : Text
  pub input_tokens : ℕ
  pub output_tokens : ℕ
  pub reasoning_tokens : ℕ
  pub host : Option Text
  pub session_id : Option Text

unfoldable pub log_conciseness_savings : Moment → ConcisenessLog → Store → Store
log_conciseness_savings m entry s =
    let saved = estimate_conciseness_savings entry.output_tokens entry.reasoning_tokens in
    let generative = entry.output_tokens + entry.reasoning_tokens in
    let request : RequestLog = record {
      upstream = entry.provider_id;
      cache_hit = false;
      tokens_in = entry.input_tokens;
      tokens_used = generative;
      tokens_out = generative;
      tokens_saved = saved;
      cost_saved = estimate_cost saved entry.provider_id;
      latency_ms = 0;
      source = some concise;
      host = entry.host;
      session_id = entry.session_id;
    } in
    if saved == 0 then s else log_shared m request (some (str "concise-" ++ entry.message_id)) s

pub record OptimizationLog : Type 0 where
  pub source : Source
  pub upstream : Text
  pub tokens_in : ℕ
  pub tokens_out : ℕ
  pub id : Option Text
  pub host : Option Text
  pub session_id : Option Text

-- `entry.id ? { id: entry.id } : undefined`
unfoldable pub given_id : Option Text → Option Text
given_id none = none
given_id (some []) = none
given_id (some (c ∷ id)) = some (c ∷ id)

unfoldable pub log_optimization_savings : Moment → OptimizationLog → Store → Store
log_optimization_savings m entry s =
    let saved = entry.tokens_in - entry.tokens_out in
    let request : RequestLog = record {
      upstream = entry.upstream;
      cache_hit = false;
      tokens_in = entry.tokens_in;
      tokens_used = entry.tokens_out;
      tokens_out = entry.tokens_out;
      tokens_saved = saved;
      cost_saved = estimate_cost saved entry.upstream;
      latency_ms = 0;
      source = some entry.source;
      host = entry.host;
      session_id = entry.session_id;
    } in
    if leb entry.tokens_in entry.tokens_out then s else log_shared m request (given_id entry.id) s

pub record SessionUsage : Type 0 where
  pub message_id : Text
  pub input_tokens : ℕ
  pub output_tokens : ℕ
  pub host : Option Text
  pub session_id : Option Text

abbrev pub usage_request : SessionUsage → RequestLog
usage_request entry = record {
  upstream = str "session";
  cache_hit = false;
  tokens_in = entry.input_tokens;
  tokens_used = entry.input_tokens;
  tokens_out = entry.output_tokens;
  tokens_saved = 0;
  cost_saved = 0;
  latency_ms = 0;
  source = some session;
  host = entry.host;
  session_id = entry.session_id;
}

unfoldable pub log_session_usage : Moment → SessionUsage → Store → Store
log_session_usage m entry s =
    if entry.input_tokens == 0 && entry.output_tokens == 0
    then s
    else log_shared m (usage_request entry) (some (str "session-" ++ entry.message_id)) s
