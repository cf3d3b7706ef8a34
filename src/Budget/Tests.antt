-- ===== src/Budget/Tests.antt =====
-- Runs of the planner (budget-planner.ts).
use ctxlite.Prelude.{
  ℕ, ◌≤◌, ◌≡◌, refl, true, [], ◌∷◌, map, Text, str, text_eq, length, any, lower_unit,
}
use ctxlite.Regex.{expressions}
use ctxlite.Budget.{
  BudgetPlanStep, BudgetPlannerOptions, search_keywords, diff_keywords, log_keywords,
  multi_file_keywords, large_read_keywords, push_steps, at_least_three, unique_steps, budget_steps,
  allocate_steps, total_of, plan_steps, plan_budget,
}
use ctxlite.Budget.Laws.{is_distinct, plan_budget-exact}

budget : Unit {0}
unfolding search_keywords diff_keywords log_keywords multi_file_keywords large_read_keywords
    push_steps at_least_three unique_steps budget_steps allocate_steps total_of plan_steps
    plan_budget expressions any text_eq str lower_unit
budget = tt

abbrev review : BudgetPlannerOptions
review = record {
  task_description = str "Review the diff and find the failing CI log";
  estimated_tokens_in = 9000;
  model = str "m";
  max_budget = 2001;
}

review_plan :
    map {B = Text × ℕ} (λ s. (s.tool, s.budget_tokens)) (plan_budget review).steps
    ≡ (str "code_search", 501)
      ∷ (str "diff_read", 500)
      ∷ (str "log_summary", 500)
      ∷ (str "get_stats", 500)
      ∷ []
unfolding budget
review_plan = refl

plan_budget-exact_example :
    let plan = plan_budget review in
    (3 ≤ length plan.steps)
    × (length plan.steps ≤ 5)
    × (is_distinct (map (λ (s : BudgetPlanStep). s.tool) plan.steps) ≡ true)
    × (plan.total_budget ≡ 2001)
plan_budget-exact_example = plan_budget-exact review
