-- ===== src/Budget/Fit.antt =====
-- _clip, _fit_sequence, _trim_tail and the count of characters of budget.py.
use qq_violation_bot.Prelude.{ℕ, ◌+◌, ◌-◌, List, [], ◌∷◌, length, take, leb, if◌then◌else◌}
use qq_violation_bot.Budget.Types.{Text, BudgetedPromptData}

-- sum(map(len, values))
abbrev pub total_length : List Text → ℕ
total_length [] = 0
total_length (v ∷ vs) = length v + total_length vs

unfoldable pub clip : Text → ℕ → Text × ℕ
clip value limit =
    if leb (length value) limit then (value, 0) else (take limit value, length value - limit)

-- The values kept within `remaining` characters, the number of values removed, and that of the
-- characters.
unfoldable pub fit_sequence : List Text → ℕ → List Text × ℕ × ℕ
fit_sequence [] remaining = ([], 0, 0)
fit_sequence (v ∷ vs) remaining =
    let (kept, items, chars) = fit_sequence vs (remaining - length v) in
    if leb remaining 0
    then ([], length (v ∷ vs), total_length (v ∷ vs))
    else if leb (length v) remaining
    then (v ∷ kept, items, chars)
    else (take remaining v ∷ [], length vs, length v - remaining + total_length vs)

-- Subtraction stops at 0, as `max(0, …)` does.
unfoldable pub trim_tail : List Text → ℕ → List Text × ℕ × ℕ
unfolding fit_sequence
trim_tail [] excess = ([], 0, 0)
trim_tail (v ∷ vs) excess =
    if leb excess 0 then (v ∷ vs, 0, 0) else fit_sequence (v ∷ vs) (total_length (v ∷ vs) - excess)

abbrev pub prompt_data_chars : BudgetedPromptData → ℕ
prompt_data_chars d =
    length d.persona
    + total_length d.context
    + total_length d.facts
    + length d.relationship
    + total_length d.open_topics
    + total_length d.image_descriptions
    + total_length d.web_search_data
    + length d.current
