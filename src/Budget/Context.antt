-- ===== src/Budget/Context.antt =====
-- The context of apply_prompt_budget: its count of messages, its `while` loop and the cut of the last.
use qq_violation_bot.Prelude.{
  ℕ, zero, suc, ◌+◌, ◌-◌, ◌&&◌, List, [], ◌∷◌, String, length, take, drop, ltb, if◌then◌else◌,
}
use qq_violation_bot.Budget.Types.{Text, PromptBudget, RawPrompt}
use qq_violation_bot.Budget.Fit.{total_length}

-- The context with its parallel sequences, and the number of messages removed.
pub record Window : Type 0 where
  pub messages : List Text
  pub ids : List String
  pub refs : List String
  pub removed : ℕ

abbrev pub drop_messages : ℕ → Window → Window
drop_messages n w = record {
  messages = drop n w.messages;
  ids = drop n w.ids;
  refs = drop n w.refs;
  removed = w.removed + n;
}

-- `while len(context) > 1 and sum(map(len, context)) > limit`, on fuel: a round per message.
unfoldable pub shrink : ℕ → ℕ → Window → Window
shrink limit zero w = w
shrink limit (suc fuel) w =
    let rest = shrink limit fuel (drop_messages 1 w) in
    if ltb 1 (length w.messages) && ltb limit (total_length w.messages) then rest else w

-- (values[-1],)
abbrev pub last_only {ℓ} : {A : Type ℓ} → List A → List A
last_only [] = []
last_only (x ∷ xs) = elim xs [ [] ↦ x ∷ [] | _ ∷ _ ↦ last_only xs ]

abbrev pub clip_all : ℕ → List Text → List Text
clip_all limit [] = []
clip_all limit (v ∷ vs) = take limit v ∷ clip_all limit vs

-- `if context and sum(map(len, context)) > limit`; no context has a sum above the limit.
unfoldable pub clip_last : ℕ → Window → Window
clip_last limit w =
    if ltb limit (total_length w.messages)
    then record w {
      messages = clip_all limit (last_only w.messages);
      ids = last_only w.ids;
      refs = last_only w.refs;
    }
    else w

unfoldable pub fit_context : PromptBudget → RawPrompt → Window
fit_context budget raw =
    let all : Window = record {
      messages = raw.raw_context;
      ids = raw.raw_ids;
      refs = raw.raw_context_refs;
      removed = 0;
    } in
    let w = drop_messages (length raw.raw_context - budget.context_messages) all in
    clip_last budget.context_chars (shrink budget.context_chars (length w.messages) w)
