-- ===== src/Budget/Order.antt =====
-- The context of the returned data: the latest messages, under their ids and speakers.
use qq_violation_bot.Prelude.{
  ℕ, zero, suc, ◌+◌, ◌≡◌, List, [], ◌∷◌, ◌&&◌, arith, length, drop, leb, ltb, ap, ◌∙◌, ◌⊎◌, inl,
  inr, refl, subst, if-ind,
}
use qq_violation_bot.Budget.Types.{PromptBudget, BudgetedPromptData, RawPrompt}
use qq_violation_bot.Budget.Fit.{prompt_data_chars}
use qq_violation_bot.Budget.Window.{drop-drop}
use qq_violation_bot.Budget.Latest.{IsAligned, fit_context-IsLatest}
use qq_violation_bot.Budget.Apply.{
  Part, searches, images, topics, member_facts, trim_part, trim_parts, drop_oldest, drop_context,
  trim_relationship, trim_persona, trim_texts, trim_current, fit_total, fit_parts,
  apply_prompt_budget,
}

-- The ids and the speakers are those of the raw context after the removed messages, one for each
-- message of the data.
abbrev pub IsSuffix : RawPrompt → BudgetedPromptData → Type 0
IsSuffix raw d =
    let n = d.truncation.context_messages_removed in
    (n + length d.context ≡ length raw.raw_context)
    × (d.context_message_ids ≡ drop n raw.raw_ids)
    × (d.context_speaker_refs ≡ drop n raw.raw_context_refs)

IsSuffix-trim_part :
    (raw : RawPrompt) (n : ℕ) (p : Part) (d : BudgetedPromptData)
    → IsSuffix raw d
    → IsSuffix raw (trim_part n p d)
unfolding trim_part
IsSuffix-trim_part raw n searches d h = h
IsSuffix-trim_part raw n images d h = h
IsSuffix-trim_part raw n topics d h = h
IsSuffix-trim_part raw n member_facts d h = h

IsSuffix-trim_parts :
    (raw : RawPrompt) (n : ℕ) (ps : List Part) (d : BudgetedPromptData)
    → IsSuffix raw d
    → IsSuffix raw (trim_parts n ps d)
unfolding trim_parts
IsSuffix-trim_parts raw n [] d h = h
IsSuffix-trim_parts raw n (p ∷ ps) d h =
    if-ind (IsSuffix raw) (leb (prompt_data_chars d) n) (λ e. h)
      (λ e. IsSuffix-trim_parts raw n ps (trim_part n p d) (IsSuffix-trim_part raw n p d h))

pub List-cases {ℓ} :
    {A : Type ℓ} (xs : List A) → (xs ≡ []) ⊎ ((x : A) × (rest : List A) × (xs ≡ x ∷ rest))
List-cases [] = inl refl
List-cases (x ∷ rest) = inr (x, rest, refl)

pub drop_oldest_none : (d : BudgetedPromptData) → d.context ≡ [] → d ≡ drop_oldest d
drop_oldest_none d e = rw e refl

IsSuffix-drop_oldest :
    (raw : RawPrompt) (d : BudgetedPromptData) → IsSuffix raw d → IsSuffix raw (drop_oldest d)
IsSuffix-drop_oldest raw d h =
    let n = d.truncation.context_messages_removed in
    elim (List-cases d.context) [
      | inl e ↦ subst (IsSuffix raw) (drop_oldest_none d e) h
      | inr (m, ms, e) ↦ rw e (
        omega (arith, h.0, ap length e),
        ap (drop 1) h.1 ∙ drop-drop 1 n raw.raw_ids,
        ap (drop 1) h.2 ∙ drop-drop 1 n raw.raw_context_refs,
      )
    ]

IsSuffix-drop_context :
    (raw : RawPrompt) (least n fuel : ℕ) (d : BudgetedPromptData)
    → IsSuffix raw d
    → IsSuffix raw (drop_context least n fuel d)
unfolding drop_context
IsSuffix-drop_context raw least n zero d h = h
IsSuffix-drop_context raw least n (suc fuel) d h =
    if-ind (IsSuffix raw) (ltb least (length d.context) && ltb n (prompt_data_chars d))
      (λ e. IsSuffix-drop_context raw least n fuel (drop_oldest d) (IsSuffix-drop_oldest raw d h))
      (λ e. h)

IsSuffix-trim_texts :
    (raw : RawPrompt) (n : ℕ) (d : BudgetedPromptData)
    → IsSuffix raw d
    → IsSuffix raw (trim_texts n d)
unfolding trim_texts trim_relationship trim_persona
IsSuffix-trim_texts raw n d h =
    if-ind (IsSuffix raw) (leb (prompt_data_chars d) n) (λ e. h)
      (λ e.
        if-ind (IsSuffix raw) (leb (prompt_data_chars (trim_relationship n d)) n) (λ e'. h)
          (λ e'. h))

IsSuffix-trim_current :
    (raw : RawPrompt) (n : ℕ) (d : BudgetedPromptData)
    → IsSuffix raw d
    → IsSuffix raw (trim_current n d)
unfolding trim_current
IsSuffix-trim_current raw n d h =
    if-ind (IsSuffix raw) (leb (prompt_data_chars d) n) (λ e. h) (λ e. h)

IsSuffix-fit_total :
    (raw : RawPrompt) (n : ℕ) (d : BudgetedPromptData)
    → IsSuffix raw d
    → IsSuffix raw (fit_total n d)
unfolding fit_total
IsSuffix-fit_total raw n d h =
    let ps = searches ∷ images ∷ topics ∷ member_facts ∷ [] in
    let d₁ = trim_parts n ps d in
    let d₂ = drop_context 2 n (length d₁.context) d₁ in
    let d₃ = trim_texts n d₂ in
    let d₄ = drop_context 0 n (length d₃.context) d₃ in
    IsSuffix-trim_current raw n d₄ (
      IsSuffix-drop_context raw 0 n (length d₃.context) d₃ (
        IsSuffix-trim_texts raw n d₂ (
          IsSuffix-drop_context raw 2 n (length d₁.context) d₁ (IsSuffix-trim_parts raw n ps d h))))

-- Where the raw sequences of the context are of one length: the returned data have the latest
-- messages' ids and speakers, one for each message that is kept, the oldest ones being removed.
pub apply_prompt_budget-IsSuffix :
    (raw : RawPrompt) (budget : PromptBudget)
    → IsAligned raw
    → IsSuffix raw (apply_prompt_budget raw budget)
unfolding apply_prompt_budget fit_parts
apply_prompt_budget-IsSuffix raw budget a =
    let latest = fit_context-IsLatest budget raw a in
    IsSuffix-fit_total raw budget.total_chars (fit_parts budget raw) (latest.1, latest.2, latest.3)
