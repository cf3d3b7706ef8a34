-- ===== src/Install/Contents.antt =====
-- The texts of the skill and of the rules (install/skill-content.ts, install/conciseness-rule-content.ts).
use ctxlite.Prelude.{List, [], ◌∷◌, ◌++◌, Text, str, trim, unlines}

unfoldable skill_lines : List Text
skill_lines =
    str "---"
    ∷ str "name: ctxlite"
    ∷ str "description: >-"
    ∷ str "  Token-efficiency MCP tools: smart_read, trim_context, get_stats, diff_read,"
    ∷ str "  log_summary, code_search, budget_planner. Use when ctxlite MCP is available"
    ∷ str "  to minimize reads, diffs, logs, and search-heavy tasks."
    ∷ str "---"
    ∷ str ""
    ∷ str "# ctxlite token efficiency"
    ∷ str ""
    ∷ str "## Available tools"
    ∷ str ""
    ∷ str "| Tool | When to use |"
    ∷ str "|------|-------------|"
    ∷ str "| `smart_read` | File shape/API only — not for editing exact lines |"
    ∷ str "| `trim_context` | Multi-file tasks with many candidates |"
    ∷ str "| `get_stats` | Any question about savings or ctxlite activity |"
    ∷ str "| `diff_read` | Review/fix with a unified diff |"
    ∷ str "| `log_summary` | Noisy build/test logs |"
    ∷ str "| `code_search` | Unknown which files matter |"
    ∷ str "| `budget_planner` | Large refactors — plan before unbounded reads |"
    ∷ str ""
    ∷ str "If MCP is unavailable, apply the same intent with native read/grep using budgets."
    ∷ str ""
    ∷ str "## Reading code efficiently"
    ∷ str ""
    ∷ str "Prefer `smart_read` over a full read when a source file is large (roughly"
    ∷ str "2–3k+ tokens of content) and you need exports, signatures, or structure — not"
    ∷ str "exact implementation to edit."
    ∷ str ""
    ∷ str "Use a full read only when you must match existing content for an edit or"
    ∷ str "debug a specific line. `smart_read` falls back to a budgeted head/tail read"
    ∷ str "for unsupported languages."
    ∷ str ""
    ∷ str "## Multi-file tasks"
    ∷ str ""
    ∷ str "After collecting candidate files for a refactor or cross-file investigation,"
    ∷ str "call `trim_context` with their content and the task description. Drop"
    ∷ str "excluded files from further reasoning unless the user expands scope."
    ∷ str ""
    ∷ str "Skip `trim_context` for a single small known file. Chain with"
    ∷ str "`code_search` when you do not yet know the candidates."
    ∷ str ""
    ∷ str "## Diff-aware reading"
    ∷ str ""
    ∷ str "When you have a unified diff and the task is review or incremental fix, use"
    ∷ str "`diff_read` for changed hunks plus minimal context — not the whole file."
    ∷ str ""
    ∷ str "Without MCP, focus manually on changed regions and nearby lines."
    ∷ str ""
    ∷ str "## Logs and grep"
    ∷ str ""
    ∷ str "For large CI/build/test output, use `log_summary` to surface failures,"
    ∷ str "stack traces, and material warnings. Reuse the summary in follow-up turns"
    ∷ str "instead of re-pasting the raw log."
    ∷ str ""
    ∷ str "## Token stats"
    ∷ str ""
    ∷ str "When asked how much ctxlite saved, call `get_stats` with an appropriate"
    ∷ str "period (`session`, `today`, `7d`, `30d`, `all`). Report only"
    ∷ str "returned numbers; distinguish estimate-labeled rows from measured ones."
    ∷ str ""
    ∷ str "## Caching / reuse"
    ∷ str ""
    ∷ str "Reuse recent tool output when the underlying file, diff, or log has not"
    ∷ str "changed — do not re-read the same unchanged content every turn."
    ∷ str ""
    ∷ str "## Budget planning"
    ∷ str ""
    ∷ str "For wide refactors or long sessions, call `budget_planner` with"
    ∷ str "`taskDescription`, `estimatedTokensIn`, `model`, and `maxBudget`"
    ∷ str "before exploratory reads. Follow the returned step order."
    ∷ str ""
    ∷ str "## Response conciseness"
    ∷ str ""
    ∷ str "Skip preamble, recap, and sign-off filler. Be direct. Explain tricky logic"
    ∷ str "inline in code comments when editing, not in long prose before the edit."
    ∷ str ""
    ∷ []

unfoldable pub skill_content : Text
unfolding skill_lines
skill_content = unlines skill_lines

unfoldable instructions_lines : List Text
instructions_lines =
    str ""
    ∷ str "## Token efficiency (ctxlite)"
    ∷ str ""
    ∷ str "When you need to understand a file's structure or API rather than edit"
    ∷ str "it (checking what a module exports, how a class is shaped, whether a"
    ∷ str "function exists before calling it), use smart_read instead of the"
    ∷ str "regular read tool — it returns signatures without implementation bodies."
    ∷ str "Use the regular read tool when you need exact content to edit."
    ∷ str ""
    ∷ str "After reading several candidate files for a multi-file task (refactor,"
    ∷ str "\"how does X work\", cross-file search), call trim_context with their"
    ∷ str "content and the task description before continuing — drop the files it"
    ∷ str "excludes from further reasoning instead of carrying all of them forward."
    ∷ str "Skip this for a single known file."
    ∷ str ""
    ∷ str "When responding, apply these rules to reduce token usage:"
    ∷ str ""
    ∷ str "- Skip preamble: never start with \"Great question!\", \"Sure!\", \"Of course!\","
    ∷ str "  \"I'll help you with that\", or similar filler phrases."
    ∷ str "- Skip recap: do not restate what the user asked before answering."
    ∷ str "- Skip sign-off: do not end with \"Let me know if you need anything else!\","
    ∷ str "  \"Hope this helps!\", \"Feel free to ask!\", or similar."
    ∷ str "- Skip obvious reasoning: if the implementation is straightforward,"
    ∷ str "  write the code — don't narrate the plan first."
    ∷ str "- Prefer inline comments over long explanations: explain tricky parts"
    ∷ str "  with a comment in the code, not a paragraph before it."
    ∷ str "- Be direct on errors: state what's wrong and how to fix it."
    ∷ str "  Don't apologize or over-explain why it happened."
    ∷ str ""
    ∷ str "These rules apply to all responses. Code quality and correctness"
    ∷ str "are not affected — only unnecessary verbosity is reduced."
    ∷ str ""
    ∷ []

-- `INSTRUCTIONS_BODY`, trimmed
unfoldable pub instructions_body : Text
unfolding instructions_lines
instructions_body = trim (unlines instructions_lines)

unfoldable pub claude_code_conciseness_rule_content : Text
claude_code_conciseness_rule_content = instructions_body ++ str "\n"

unfoldable rule_head : List Text
rule_head =
    str "---"
    ∷ str "description: ctxlite token-efficiency instructions"
    ∷ str "alwaysApply: true"
    ∷ str "---"
    ∷ str ""
    ∷ str ""
    ∷ []

unfoldable pub cursor_conciseness_rule_content : Text
unfolding rule_head
cursor_conciseness_rule_content = unlines rule_head ++ instructions_body ++ str "\n"
