-- ===== src/Budget/Accounts.antt =====
-- The counters of TruncationCounters: what is kept and what is counted as removed make up the raw
-- texts.
use qq_violation_bot.Prelude.{
  ℕ, zero, suc, ◌+◌, ◌-◌, ◌≡◌, List, [], ◌∷◌, ◌&&◌, arith, length, take, drop, leb, ltb,
  length-take, refl, ◌∙◌, if-ind,
}
use qq_violation_bot.Budget.Types.{Text, PromptBudget, BudgetedPromptData, RawPrompt}
use qq_violation_bot.Budget.Fit.{total_length, prompt_data_chars}
use qq_violation_bot.Budget.Chars.{trim_tail_chars, fit_sequence_chars, clip_chars}
use qq_violation_bot.Budget.Latest.{IsAligned, fit_context-IsLatest}
use qq_violation_bot.Budget.Window.Chars.{total_length-fit_context}
use qq_violation_bot.Budget.Apply.{
  Part, searches, images, topics, member_facts, trim_part, trim_parts, drop_oldest, drop_context,
  trim_relationship, trim_persona, trim_texts, trim_current, max, fit_total, fit_parts,
  apply_prompt_budget,
}

-- The characters of each text, kept or removed, and the messages of the context.
abbrev pub accounts : BudgetedPromptData → ℕ × ℕ × ℕ × ℕ × ℕ × ℕ × ℕ × ℕ × ℕ
accounts d =
    let t = d.truncation in
    (
      length d.persona + t.persona_chars_removed,
      total_length d.context + t.context_chars_removed,
      length d.context + t.context_messages_removed,
      total_length d.facts + t.facts_chars_removed,
      length d.relationship + t.relationship_chars_removed,
      total_length d.open_topics + t.topics_chars_removed,
      total_length d.image_descriptions + t.images_chars_removed,
      total_length d.web_search_data + t.web_search_chars_removed,
      length d.current + t.current_chars_removed,
    )

-- `drop_oldest` and the others keep the sums: `Kept a b` says that two data have the same.
abbrev Kept : BudgetedPromptData → BudgetedPromptData → Type 0
Kept a b = accounts a ≡ accounts b

Kept-trim_part : (n : ℕ) (p : Part) (d : BudgetedPromptData) → Kept (trim_part n p d) d
unfolding trim_part
Kept-trim_part n searches d =
    ground (arith, trim_tail_chars d.web_search_data (prompt_data_chars d - n))
Kept-trim_part n images d =
    ground (arith, trim_tail_chars d.image_descriptions (prompt_data_chars d - n))
Kept-trim_part n topics d = ground (arith, trim_tail_chars d.open_topics (prompt_data_chars d - n))
Kept-trim_part n member_facts d = ground (arith, trim_tail_chars d.facts (prompt_data_chars d - n))

Kept-trim_parts : (n : ℕ) (ps : List Part) (d : BudgetedPromptData) → Kept (trim_parts n ps d) d
unfolding trim_parts
Kept-trim_parts n [] d = refl
Kept-trim_parts n (p ∷ ps) d =
    if-ind (λ (r : BudgetedPromptData). Kept r d) (leb (prompt_data_chars d) n) (λ e. refl)
      (λ e. Kept-trim_parts n ps (trim_part n p d) ∙ Kept-trim_part n p d)

Kept-drop_oldest : (d : BudgetedPromptData) → Kept (drop_oldest d) d
Kept-drop_oldest d = elim d.context [ [] ↦ ground arith | m ∷ ms ↦ ground arith ]

Kept-drop_context :
    (least n fuel : ℕ) (d : BudgetedPromptData) → Kept (drop_context least n fuel d) d
unfolding drop_context
Kept-drop_context least n zero d = refl
Kept-drop_context least n (suc fuel) d =
    if-ind (λ (r : BudgetedPromptData). Kept r d)
      (ltb least (length d.context) && ltb n (prompt_data_chars d))
      (λ e. Kept-drop_context least n fuel (drop_oldest d) ∙ Kept-drop_oldest d) (λ e. refl)

Kept-trim_relationship : (n : ℕ) (d : BudgetedPromptData) → Kept (trim_relationship n d) d
unfolding trim_relationship
Kept-trim_relationship n d =
    ground (arith, length-take (length d.relationship - (prompt_data_chars d - n)) d.relationship)

Kept-trim_persona : (n : ℕ) (d : BudgetedPromptData) → Kept (trim_persona n d) d
unfolding trim_persona
Kept-trim_persona n d =
    ground (arith, length-take (length d.persona - (prompt_data_chars d - n)) d.persona)

Kept-trim_texts : (n : ℕ) (d : BudgetedPromptData) → Kept (trim_texts n d) d
unfolding trim_texts
Kept-trim_texts n d =
    let d' = trim_relationship n d in
    if-ind (λ (r : BudgetedPromptData). Kept r d) (leb (prompt_data_chars d) n) (λ e. refl)
      (λ e.
        if-ind (λ (r : BudgetedPromptData). Kept r d) (leb (prompt_data_chars d') n)
          (λ e'. Kept-trim_relationship n d)
          (λ e'. Kept-trim_persona n d' ∙ Kept-trim_relationship n d))

Kept-trim_current : (n : ℕ) (d : BudgetedPromptData) → Kept (trim_current n d) d
unfolding trim_current
Kept-trim_current n d =
    if-ind (λ (r : BudgetedPromptData). Kept r d) (leb (prompt_data_chars d) n) (λ e. refl)
      (λ e.
        ground
          (arith, length-take (max 1 (length d.current - (prompt_data_chars d - n))) d.current))

Kept-fit_total : (n : ℕ) (d : BudgetedPromptData) → Kept (fit_total n d) d
unfolding fit_total
Kept-fit_total n d =
    let d₁ = trim_parts n (searches ∷ images ∷ topics ∷ member_facts ∷ []) d in
    let d₂ = drop_context 2 n (length d₁.context) d₁ in
    let d₃ = trim_texts n d₂ in
    let d₄ = drop_context 0 n (length d₃.context) d₃ in
    Kept-trim_current n d₄
    ∙ Kept-drop_context 0 n (length d₃.context) d₃
    ∙ Kept-trim_texts n d₂
    ∙ Kept-drop_context 2 n (length d₁.context) d₁
    ∙ Kept-trim_parts n (searches ∷ images ∷ topics ∷ member_facts ∷ []) d

total_length-take :
    (n : ℕ) (vs : List Text) → total_length (take n vs) + total_length (drop n vs) ≡ total_length vs
total_length-take zero vs = omega arith
total_length-take (suc n) [] = omega arith
total_length-take (suc n) (v ∷ vs) = omega (arith, total_length-take n vs)

abbrev pub raw_accounts : RawPrompt → ℕ × ℕ × ℕ × ℕ × ℕ × ℕ × ℕ × ℕ × ℕ
raw_accounts raw = (
  length raw.raw_persona,
  total_length raw.raw_context,
  length raw.raw_context,
  total_length raw.raw_facts,
  length raw.raw_relationship,
  total_length raw.raw_topics,
  total_length raw.raw_images,
  total_length raw.raw_searches,
  length raw.safe_current,
)

accounts-fit_parts :
    (budget : PromptBudget) (raw : RawPrompt)
    → IsAligned raw
    → accounts (fit_parts budget raw) ≡ raw_accounts raw
unfolding fit_parts
accounts-fit_parts budget raw a =
    let latest = fit_context-IsLatest budget raw a in
    ground (
      arith,
      clip_chars raw.raw_persona budget.persona_chars,
      total_length-fit_context budget raw,
      latest.1,
      fit_sequence_chars raw.raw_facts budget.facts_chars,
      clip_chars raw.raw_relationship budget.relationship_chars,
      fit_sequence_chars (take 5 raw.raw_topics) budget.topics_chars,
      total_length-take 5 raw.raw_topics,
      fit_sequence_chars raw.raw_images budget.images_chars,
      fit_sequence_chars raw.raw_searches budget.web_search_chars,
      clip_chars raw.safe_current budget.current_chars,
    )

-- Where the raw sequences of the context are of one length: for each text, the characters of the
-- returned data and those counted as removed make up the raw text, and so do the context's messages.
pub apply_prompt_budget-accounts :
    (raw : RawPrompt) (budget : PromptBudget)
    → IsAligned raw
    → accounts (apply_prompt_budget raw budget) ≡ raw_accounts raw
unfolding apply_prompt_budget
apply_prompt_budget-accounts raw budget a =
    Kept-fit_total budget.total_chars (fit_parts budget raw) ∙ accounts-fit_parts budget raw a
