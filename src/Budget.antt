-- ===== src/Budget.antt =====
-- packages/core/src/budget-planner.ts: an ordered plan of tools whose budgets sum to the limit.
pub mod Laws
mod Tests
use ctxlite.Prelude.{
  ℕ, zero, suc, ◌+◌, ◌-◌, ◌*◌, ◌/◌, ◌%◌, ◌≤◌, ◌<◌, min, max, String, ◌≡◌, refl, sym, ap, ap₂, ◌∙◌,
  ◌≢◌, ◌↔◌, ◌⊎◌, inl, inr, Bool, true, false, ◌&&◌, ◌||◌, not, Option, none, some, List, [], ◌∷◌,
  ◌++◌, map, append_assoc, append-nil, map-append, arith, Text, str, text_eq, text_eq_iff,
  text_eq_refl, length, length-append, join, Dict, dict_get, dict_set, dict_delete, get-set,
  get-delete, or_else, slice, take, drop, filter_by, any, all, All, trim, trim_end, starts_with,
  ends_with, includes, ltb, leb, ◌==◌, if◌then◌else◌, Option-cases, Bool-cases, print_nat,
  round_seven_tenths, lines_of, unlines, lower_unit, length-take, length-drop, take-append-drop,
}
use ctxlite.Regex.{Matcher, unit, ◌⨟◌, either, literal_i, word_boundary, test}

pub record BudgetPlanStep : Type 0 where
  pub order : ℕ
  pub tool : Text
  pub purpose : Text
  pub budget_tokens : ℕ

pub record BudgetPlannerOptions : Type 0 where
  pub task_description : Text
  pub estimated_tokens_in : ℕ
  pub model : Text
  pub max_budget : ℕ

pub record BudgetPlanResult : Type 0 where
  pub steps : List BudgetPlanStep
  pub total_budget : ℕ
  pub warnings : List Text

-- `\b(a|b|…)\b` under the flag `i`
abbrev one_of : List Matcher → Matcher
one_of [] = literal_i []
one_of (m ∷ []) = m
one_of (m ∷ n ∷ ms) = either m (one_of (n ∷ ms))

abbrev keywords : List Matcher → Text → Bool
keywords ms = test (word_boundary ⨟ one_of ms ⨟ word_boundary)

abbrev phrase : String → Matcher
phrase s = literal_i (str s)

unfoldable pub search_keywords : Text → Bool
search_keywords = keywords (
    phrase "where"
    ∷ phrase "find"
    ∷ phrase "search"
    ∷ phrase "locate"
    ∷ phrase "which file"
    ∷ phrase "grep"
    ∷ [])

unfoldable pub diff_keywords : Text → Bool
diff_keywords = keywords (
    phrase "review"
    ∷ phrase "diff"
    ∷ phrase "changed"
    ∷ phrase "hunk"
    ∷ phrase "fix regression"
    ∷ [])

unfoldable pub log_keywords : Text → Bool
log_keywords = keywords (
    phrase "log"
    ∷ phrase "fail"
    ∷ phrase "error"
    ∷ phrase "test output"
    ∷ phrase "ci"
    ∷ phrase "build output"
    ∷ [])

-- `multi[- ]file`
abbrev multi_file : Matcher
multi_file = phrase "multi" ⨟ unit (λ c. c == b'-' || c == b' ') ⨟ phrase "file"

unfoldable pub multi_file_keywords : Text → Bool
multi_file_keywords = keywords (
    phrase "refactor"
    ∷ phrase "across"
    ∷ phrase "monorepo"
    ∷ multi_file
    ∷ phrase "every handler"
    ∷ [])

unfoldable pub large_read_keywords : Text → Bool
large_read_keywords = keywords (
    phrase "api"
    ∷ phrase "interface"
    ∷ phrase "exports"
    ∷ phrase "structure"
    ∷ phrase "signature"
    ∷ [])

pub record Planned : Type 0 where
  pub tool : Text
  pub purpose : Text

abbrev planned : String → String → Planned
planned tool purpose = record { tool = str tool; purpose = str purpose }

abbrev when : Bool → Planned → List Planned
when b p = if b then p ∷ [] else []

-- the pushes, for the answers of the five tests
unfoldable pub push_steps : Bool → Bool → Bool → Bool → Bool → List Planned
push_steps search multi diff large logs =
    when (search || multi) (planned "code_search" "Locate relevant files before reading")
    ++ when multi (planned "trim_context" "Narrow candidate files to task-relevant subset")
    ++ (if diff
        then planned "diff_read" "Read only changed hunks plus context" ∷ []
        else when large (planned "smart_read" "Read signatures instead of full implementations"))
    ++ when logs (planned "log_summary" "Compress logs to failures and stack traces")
    ++ planned "get_stats" "Report measured savings — never estimate manually" ∷ []

unfoldable pub at_least_three : List Planned → List Planned
at_least_three steps =
    if ltb (length steps) 3
    then planned "budget_planner" "Re-run planner after scope is clearer"
      ∷ planned "smart_read" "Inspect key files with signature-only reads"
      ∷ steps
    else steps

-- `filter((step, index) => findIndex(…) === index)`: the first step of each tool
unfoldable pub unique_steps : List Text → List Planned → List Planned
unique_steps seen [] = []
unique_steps seen (p ∷ ps) =
    let rest = unique_steps (p.tool ∷ seen) ps in
    if any (text_eq p.tool) seen then rest else p ∷ rest

-- `base + (i < remainder ? 1 : 0)` for the steps from `i` on
unfoldable pub budget_steps : ℕ → ℕ → ℕ → List Planned → List BudgetPlanStep
budget_steps base remainder i [] = []
budget_steps base remainder i (p ∷ ps) =
    record {
      order = i + 1;
      tool = p.tool;
      purpose = p.purpose;
      budget_tokens = base + (if ltb i remainder then 1 else 0);
    }
    ∷ budget_steps base remainder (i + 1) ps

-- `allocateStepBudgets`; there is at least one step
unfoldable pub allocate_steps : ℕ → List Planned → List BudgetPlanStep
allocate_steps max_budget ps =
    let base = max_budget / length ps in budget_steps base (max_budget - base * length ps) 0 ps

unfoldable pub total_of : List BudgetPlanStep → ℕ
total_of [] = 0
total_of (s ∷ steps) = s.budget_tokens + total_of steps

unfoldable pub plan_steps : Text → List Planned
plan_steps task = unique_steps [] (
    at_least_three (
      push_steps (search_keywords task) (multi_file_keywords task) (diff_keywords task)
        (large_read_keywords task) (log_keywords task)))

unfoldable pub plan_budget : BudgetPlannerOptions → BudgetPlanResult
plan_budget options =
    let steps = allocate_steps options.max_budget (plan_steps options.task_description) in
    let estimated = print_nat options.estimated_tokens_in in
    let budget = print_nat options.max_budget in
    record {
      steps = steps;
      total_budget = total_of steps;
      warnings =
          (if ltb options.max_budget options.estimated_tokens_in
            then (str "estimated context ("
                ++ estimated
                ++ str ") exceeds maxBudget ("
                ++ budget
                ++ str ") — narrow scope or raise budget")
              ∷ []
            else [])
          ++ (if ltb options.max_budget (total_of steps)
              then (str "internal planner error: totalBudget "
                  ++ print_nat (total_of steps)
                  ++ str " > maxBudget "
                  ++ budget)
                ∷ []
              else [])
          ++ (if length steps == 0
              then (str "no steps generated for model " ++ options.model) ∷ []
              else []);
    }
