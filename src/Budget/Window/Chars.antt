-- ===== src/Budget/Window/Chars.antt =====
-- The characters of the context window, by fit_context, against those of the raw context.
use qq_violation_bot.Prelude.{
  ℕ, zero, suc, ◌-◌, ◌≤◌, List, [], ◌∷◌, ◌&&◌, arith, length, ltb, length-take, if-ind,
}
use qq_violation_bot.Budget.Types.{Text, PromptBudget, RawPrompt}
use qq_violation_bot.Budget.Fit.{total_length}
use qq_violation_bot.Budget.Context.{
  Window, drop_messages, shrink, last_only, clip_all, clip_last, fit_context,
}
use qq_violation_bot.Budget.Window.{total_length-drop}

total_length-shrink :
    (limit fuel : ℕ) (w : Window)
    → total_length (shrink limit fuel w).messages ≤ total_length w.messages
unfolding shrink
total_length-shrink limit zero w = omega arith
total_length-shrink limit (suc fuel) w =
    if-ind (λ (r : Window). total_length r.messages ≤ total_length w.messages)
      (ltb 1 (length w.messages) && ltb limit (total_length w.messages))
      (λ e.
        omega (
          arith,
          total_length-shrink limit fuel (drop_messages 1 w),
          total_length-drop 1 w.messages,
        ))
      (λ e. omega arith)

total_length-clip_all :
    (limit : ℕ) (vs : List Text) → total_length (clip_all limit (last_only vs)) ≤ total_length vs
total_length-clip_all limit [] = omega arith
total_length-clip_all limit (v ∷ []) = omega (arith, length-take limit v)
total_length-clip_all limit (v ∷ u ∷ vs) = omega (arith, total_length-clip_all limit (u ∷ vs))

pub total_length-fit_context :
    (budget : PromptBudget) (raw : RawPrompt)
    → total_length (fit_context budget raw).messages ≤ total_length raw.raw_context
unfolding fit_context clip_last
total_length-fit_context budget raw =
    let all : Window = record {
      messages = raw.raw_context;
      ids = raw.raw_ids;
      refs = raw.raw_context_refs;
      removed = 0;
    } in
    let n = length raw.raw_context - budget.context_messages in
    let w = drop_messages n all in
    let limit = budget.context_chars in
    let w' = shrink limit (length w.messages) w in
    let shrunk = total_length-shrink limit (length w.messages) w in
    let dropped = total_length-drop n raw.raw_context in
    if-ind (λ (r : Window). total_length r.messages ≤ total_length raw.raw_context)
      (ltb limit (total_length w'.messages))
      (λ e. omega (arith, total_length-clip_all limit w'.messages, shrunk, dropped))
      (λ e. omega (arith, shrunk, dropped))
