-- ===== src/Lib.antt =====
-- ctxlite, the token optimizer for coding agents: its business logic, in packages/core/src, and
-- the hooks that call it.
--
-- Texts are lists of UTF-16 code units, so that `length` is JavaScript's; a literal is `str "…"`.
-- Numbers are natural numbers, and a difference that may be negative is an integer. A field that
-- may be missing is an `Option`.
--
-- Prelude: shared names, Boolean tests, lists, texts, lines, decimals, maps with string keys.
-- Tokens: packages/core/src/tokens.ts, the estimates and amounts.
-- Json: JSON values and `JSON.stringify`.
-- Host: what the program asks of Node's file system and paths, as a record of functions.
-- Regex: regular expressions as functions from a text to the ends of their matches, in the order in
-- which backtracking finds them.
-- Ignore: packages/core/src/ctxliteignore.ts. SmartRead: which files packages/core/src/smart-read.ts
-- serves.
-- Compress: packages/core/src/tool-output-compress.ts, `compressToolOutput`.
-- Context: packages/core/src/context-prune.ts. ArgsKey is the key of a tool call, Sweep the shape
-- of both passes over the messages, Prune is `pruneMessageContext`, Cap is `capStaleToolOutputs`,
-- which calls Compress.
-- Grep: packages/core/src/grep-output-compress.ts. Groups is about the lines of a file, Laws about
-- the result and its size.
-- Precall: packages/core/src/tool-precall.ts. Skeleton is `stripEmbeddedText`, Split
-- `splitTopLevel`, with Operators about where it splits and Tiles about the places of the segments;
-- Rules is `matchQuietPattern`, Bash `optimizeBashCommand`, with Quieted about one segment and Pieces
-- about the command; Paths is `optimizeReadPath` and `optimizeToolArgs`, with Effects about what
-- becomes of a call and Threshold about large files.
-- Bm25: packages/core/src/bm25.ts. Imports: packages/core/src/imports.ts, with Specifiers about what an
-- import can be. Trimmer: packages/core/src/trimmer.ts, with Laws about what is kept and left out and
-- Graph about the imports. Runtime is what these take from JavaScript: doubles and `toLowerCase`.
-- CodeSearch: packages/core/src/code-search.ts, the walk; Found is about the files that it finds,
-- with Specified for what these are and Visits about the loop over a directory; Snippet has
-- `extractSnippet` and Search `searchCodebase`, with Ranked about the order of the files and Laws about
-- what is shown. The fuel of the walk is the number of directories
-- below the root and one, since each is visited once.
-- Report: packages/core/src/report.ts, the rows and the bar chart, with Chart about the chart; Sessions
-- has the listings of sessions and the help, with Groups about the hosts. Prelude/Doubles has the
-- quotients and products of whole numbers as doubles, with Bounds about them.
-- LogSummary: packages/core/src/log-summary.ts. DiffRead: packages/core/src/diff-read.ts.
-- Budget: packages/core/src/budget-planner.ts.
-- Install: packages/core/src/install/merge.ts. Merge has the servers and plugins, Hooks the hooks,
-- Apply `applyConfigChange`; Keys, Again and Repeat are about what a change keeps and about making
-- it twice. Paths, Targets and Contents are packages/core/src/install/paths.ts and the texts of the
-- skill and the rules, Run is install/run.ts over a disk, which is a map from paths to files; Kinds is
-- about the paths and the kinds, Settled and Loop about the writing, Again about the whole. ParseTools
-- and Refresh are the tools on offer and install/opencode-refresh.ts.
-- Stats: packages/core/src/stats.ts. The table is a list of rows; a `Moment` gives what the clock
-- and the database do at a call. Loggers are the functions that log one kind of saving, Summary
-- and Breakdown the reports.
-- Opencode: packages/opencode/src. Its state is that of precall-state.ts and the table, Hooks are
-- the three hooks, Runs the states that they reach, Events the handler of stats-events.ts, Display
-- session-display.ts, with Titles about the suffix of a title.
-- Cli: packages/cli/src/hook.ts and cursor-hook.ts, whose hooks call the same core; a `Dialect` is
-- what differs between the two hosts. InstallCommand is packages/cli/src/install.ts,
-- Format is format.ts and StatsCommand stats-command.ts, with Output about what it prints and
-- Outcomes about how it ends.
-- Mcp: packages/mcp/src/tools, the handlers of the tools, with Logged about the answer and the log of
-- trim_context;
-- GetStats is get-stats.ts.
--
-- Loops are structural recursion on their list or text. `bits_from` counts the binary digits of a
-- number with the number as fuel, which is more than its digits; `runWithRetry` runs three times.
-- `shrink` has the number of lines as fuel, and each round takes one away.
--
-- Doubles appear where the source multiplies a count by a constant (0.65, 0.15): the model has the
-- rounded rational number, which is the same integer for every count below 2^50. In the reports a
-- quotient of counts is the double nearest to it, as a mantissa and an exponent.
-- Not modelled: the hosts' plugin interfaces, the registration of the server's tools and the SQLite
-- drivers, which are calls of libraries; the symbols of smart_read, which are read off the trees of
-- tree-sitter; the JSON texts of a plan and of a summary; the benchmarks, and the proxy in Go.
mod Prelude
pub mod Tokens
pub mod Json
pub mod Host
pub mod Ignore
pub mod SmartRead
pub mod Regex
pub mod Compress
pub mod Context
pub mod Precall
pub mod Grep
pub mod Stats
pub mod Opencode
pub mod Install
pub mod Budget
pub mod LogSummary
pub mod DiffRead
pub mod Cli
pub mod Runtime
pub mod Bm25
pub mod Imports
pub mod Trimmer
pub mod CodeSearch
pub mod Report
pub mod Mcp
