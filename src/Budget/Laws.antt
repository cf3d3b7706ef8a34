-- ===== src/Budget/Laws.antt =====
-- About the steps of a plan and their budgets (budget-planner.ts).
use ctxlite.Prelude.{
  ℕ, suc, ◌+◌, ◌-◌, ◌*◌, ◌/◌, ◌≤◌, min, ◌≡◌, refl, ap, ◌∙◌, ◌⊎◌, inl, inr, Bool, true, false, ◌&&◌,
  not, List, [], ◌∷◌, map, arith, Text, str, text_eq, length, any, leb,
}
use ctxlite.Budget.{
  BudgetPlanStep, BudgetPlannerOptions, Planned, search_keywords, diff_keywords, log_keywords,
  multi_file_keywords, large_read_keywords, push_steps, at_least_three, unique_steps, budget_steps,
  allocate_steps, total_of, plan_steps, plan_budget,
}

-- The steps from `i` on spend the base each, and one token more for those below the remainder.
total-budget_steps :
    (base remainder i : ℕ) (ps : List Planned)
    → total_of (budget_steps base remainder i ps)
      ≡ base * length ps + (min remainder (i + length ps) - min remainder i)
unfolding budget_steps total_of
total-budget_steps base remainder i [] = omega arith
total-budget_steps base remainder i (p ∷ ps) =
    grind (arith, total-budget_steps base remainder (i + 1) ps)

-- No text stands twice.
unfoldable pub is_distinct : List Text → Bool
is_distinct [] = true
is_distinct (t ∷ ts) = not (any (text_eq t) ts) && is_distinct ts

abbrev tools : List Planned → List Text
tools ps = map (λ p. p.tool) ps

-- A test of both truth values.
abbrev both : (Bool → Bool) → Bool
both p = p true && p false

both-each : (p : Bool → Bool) → both p ≡ true → (b : Bool) → p b ≡ true
both-each p h true = ground arith
both-each p h false = ground arith

unfoldable is_good : List Planned → Bool
is_good ps = leb 3 (length ps) && leb (length ps) 5 && is_distinct (tools ps)

unfoldable steps_for : Bool → Bool → Bool → Bool → Bool → List Planned
steps_for search multi diff large logs =
    unique_steps [] (at_least_three (push_steps search multi diff large logs))

all_good :
    both (λ s. both (λ m. both (λ d. both (λ l. both (λ g. is_good (steps_for s m d l g)))))) ≡ true
unfolding steps_for is_good unique_steps at_least_three push_steps is_distinct any text_eq str
all_good = refl

each_good : (s m d l g : Bool) → is_good (steps_for s m d l g) ≡ true
each_good s m d l g =
    both-each (λ g. is_good (steps_for s m d l g))
      (both-each (λ l. both (λ g. is_good (steps_for s m d l g)))
        (both-each (λ d. both (λ l. both (λ g. is_good (steps_for s m d l g))))
          (both-each (λ m. both (λ d. both (λ l. both (λ g. is_good (steps_for s m d l g)))))
            (both-each
              (λ s. both (λ m. both (λ d. both (λ l. both (λ g. is_good (steps_for s m d l g))))))
              all_good s)
            m)
          d)
        l)
      g

plan_steps-good : (task : Text) → is_good (plan_steps task) ≡ true
unfolding plan_steps steps_for
plan_steps-good task =
    each_good (search_keywords task) (multi_file_keywords task) (diff_keywords task)
      (large_read_keywords task) (log_keywords task)

total-allocate :
    (max_budget : ℕ) (ps : List Planned)
    → 3 ≤ length ps
    → length ps ≤ 5
    → total_of (allocate_steps max_budget ps) ≡ max_budget
unfolding allocate_steps
total-allocate max_budget ps h k =
    let sum =
      λ (n : ℕ). total-budget_steps (max_budget / n) (max_budget - max_budget / n * n) 0 ps in
    let cases : (length ps ≡ 3) ⊎ ((length ps ≡ 4) ⊎ (length ps ≡ 5)) = omega arith in
    elim cases [
      | inl e ↦ rw e (omega (arith, rw e at (sum 3)))
      | inr (inl e) ↦ rw e (omega (arith, rw e at (sum 4)))
      | inr (inr e) ↦ rw e (omega (arith, rw e at (sum 5)))
    ]

length-budget_steps :
    (base remainder i : ℕ) (ps : List Planned)
    → length (budget_steps base remainder i ps) ≡ length ps
unfolding budget_steps
length-budget_steps base remainder i [] = refl
length-budget_steps base remainder i (p ∷ ps) =
    ap suc (length-budget_steps base remainder (i + 1) ps)

tools-budget_steps :
    (base remainder i : ℕ) (ps : List Planned)
    → map (λ (s : BudgetPlanStep). s.tool) (budget_steps base remainder i ps) ≡ tools ps
unfolding budget_steps
tools-budget_steps base remainder i [] = refl
tools-budget_steps base remainder i (p ∷ ps) =
    ap (λ (ts : List Text). p.tool ∷ ts) (tools-budget_steps base remainder (i + 1) ps)

-- Whatever the task and the limit, a plan has three to five steps, no tool twice, and the budgets of
-- its steps sum to exactly the limit.
pub plan_budget-exact :
    (options : BudgetPlannerOptions)
    → let plan = plan_budget options in
      (3 ≤ length plan.steps)
      × (length plan.steps ≤ 5)
      × (is_distinct (map (λ (s : BudgetPlanStep). s.tool) plan.steps) ≡ true)
      × (plan.total_budget ≡ options.max_budget)
unfolding plan_budget is_good
plan_budget-exact options =
    let ps = plan_steps options.task_description in
    let good = plan_steps-good options.task_description in
    let least : 3 ≤ length ps = ground (arith, good) in
    let most : length ps ≤ 5 = ground (arith, good) in
    let distinct : is_distinct (tools ps) ≡ true = ground (arith, good) in
    let base = options.max_budget / length ps in
    let rest = options.max_budget - base * length ps in
    let same = length-budget_steps base rest 0 ps in
    unfold allocate_steps in
    (
      omega (arith, least, same),
      omega (arith, most, same),
      ap is_distinct (tools-budget_steps base rest 0 ps) ∙ distinct,
      total-allocate options.max_budget ps least most,
    )
