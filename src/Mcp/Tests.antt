-- ===== src/Mcp/Tests.antt =====
-- Runs of the tools of the server.
use ctxlite.Prelude.{◌≡◌, refl, false, true, none, some, [], ◌∷◌, ◌++◌, str, print_nat}
use ctxlite.Host.{Host}
use ctxlite.Stats.{Store}
use ctxlite.Bm25.Tests.{thousandths}
use ctxlite.Cli.StatsCommand.{StatsMachine}
use ctxlite.Mcp.{McpServer, TrimArgs, handle_trim_context}
use ctxlite.Mcp.Logged.{IsTrimAnswer, handle_trim_context-IsTrimAnswer}
use ctxlite.Mcp.GetStats.{handle_get_stats}

abbrev host : Host
host = record {
  size_of = λ p. none;
  content_of = λ p. none;
  join = λ a b. a ++ (str "/" ++ b);
  resolve = λ a b. b;
  is_absolute = λ p. true;
}

abbrev server : McpServer
server = record {
  host = host;
  cwd = str "/work";
  moment = record { now = 100; fresh_id = str "r1"; opens = true; throws = λ n. false };
  session_id = str "p1";
}

abbrev store : Store
store = record { rows = []; log_failure_count = 0 }

abbrev arguments : TrimArgs
arguments = record {
  files =
      record { path = str "src/parser.ts"; content = str "class Parser {}"; language = none }
      ∷ record { path = str "notes.md"; content = str "nothing of interest"; language = none }
      ∷ [];
  query = str "parser";
  max_tokens = some 4;
}

handle_trim_context-IsTrimAnswer_example :
    IsTrimAnswer thousandths server arguments store
      (handle_trim_context thousandths server arguments store)
handle_trim_context-IsTrimAnswer_example =
    handle_trim_context-IsTrimAnswer thousandths server arguments store

abbrev machine : StatsMachine
machine = record {
  now = 5000000;
  midnight = 4990000;
  locale_date = print_nat;
  locale_time = print_nat;
  open_table = λ path. none;
  open_message = λ path. str "locked";
}

closed_table :
    handle_get_stats machine (str "p1") none (str "stats.db")
    ≡ str "ctxlite stats unavailable: locked"
unfolding handle_get_stats str
closed_table = refl
