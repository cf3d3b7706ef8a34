-- ===== src/Install/ParseTools.antt =====
-- `parseTools`, for which OpenCode is the one tool on offer (install/run.ts, install/types.ts).
use ctxlite.Prelude.{
  ◌||◌, not, Option, none, some, List, [], ◌∷◌, map, Text, str, text_eq, trim, filter_by, split_on,
  if◌then◌else◌,
}
use ctxlite.Install.Paths.{InstallTool, Result, ok, error, unknown_tool}
use ctxlite.Install.Targets.{then_do}

abbrev pub all_tools : List InstallTool
all_tools = InstallTool.opencode ∷ []

-- `input.split(",").map((part) => part.trim()).filter(Boolean)`
unfoldable pub tool_values : Text → List Text
tool_values input =
    filter_by (λ part. not (text_eq part [])) (map (λ part. trim part) (split_on b',' input))

-- the loop over the values: each is one of `ALL_TOOLS`
unfoldable pub tools_of_values : List Text → Result (List InstallTool)
tools_of_values [] = ok []
tools_of_values (value ∷ values) =
    let rest = tools_of_values values in
    if text_eq value (str "opencode")
    then then_do rest (λ tools. ok (InstallTool.opencode ∷ tools))
    else error (unknown_tool value)

-- `[...new Set(tools)]`, of a list that has OpenCode alone
abbrev pub distinct : List InstallTool → List InstallTool
distinct [] = []
distinct (tool ∷ tools) = tool ∷ []

unfoldable pub parse_tool_values : Text → Result (List InstallTool)
parse_tool_values input =
    if text_eq input [] || text_eq input (str "all")
    then ok all_tools
    else then_do (tools_of_values (tool_values input)) (λ tools. ok (distinct tools))

unfoldable pub parse_tools : Option Text → Result (List InstallTool)
unfolding parse_tool_values
parse_tools none = ok all_tools
parse_tools (some input) = parse_tool_values input
