-- ===== src/Budget/Tests.antt =====
-- Runs of the budget, and the theorems at a concrete prompt.
use qq_violation_bot.Prelude.{ℕ, zero, suc, ◌≡◌, ◌≤◌, refl, true, false, none, [], ◌∷◌, arith}
use qq_violation_bot.Budget.Types.{Text, PromptBudget, SpeakerIdentity, RawPrompt}
use qq_violation_bot.Budget.Fit.{prompt_data_chars, fit_sequence, trim_tail, clip}
use qq_violation_bot.Budget.Latest.{IsAligned, IsLatest, fit_context-IsLatest}
use qq_violation_bot.Budget.Total.{apply_prompt_budget-total}
use qq_violation_bot.Budget.Accounts.{accounts, raw_accounts, apply_prompt_budget-accounts}
use qq_violation_bot.Budget.Order.{IsSuffix, apply_prompt_budget-IsSuffix}
use qq_violation_bot.Budget.Context.{shrink, clip_last, fit_context}
use qq_violation_bot.Budget.Pruned.{apply_prompt_budget-speakers}
use qq_violation_bot.Budget.Apply.{
  is_used, used_speakers, fit_parts, trim_part, trim_parts, drop_context, trim_relationship,
  trim_persona, trim_texts, trim_current, fit_total, apply_prompt_budget,
}

abbrev chars : ℕ → Text
chars zero = []
chars (suc n) = "a" ∷ chars n

abbrev speaker : SpeakerIdentity
speaker = record { ref = "S1"; user_id = "10001"; nickname = "one"; current = true }

abbrev silent : SpeakerIdentity
silent = record { ref = "S2"; user_id = "10002"; nickname = "two"; current = false }

-- Three messages, the oldest by another speaker.
abbrev prompt : RawPrompt
prompt = record {
  raw_persona = chars 6;
  safe_current = chars 9;
  identities = speaker ∷ silent ∷ [];
  raw_context = chars 4 ∷ chars 5 ∷ chars 6 ∷ [];
  raw_ids = "m1" ∷ "m2" ∷ "m3" ∷ [];
  raw_context_refs = "S2" ∷ "S1" ∷ "S1" ∷ [];
  raw_facts = chars 7 ∷ chars 3 ∷ [];
  raw_fact_refs = "S1" ∷ "S2" ∷ [];
  raw_relationship = chars 5;
  raw_topics = chars 2 ∷ chars 2 ∷ [];
  raw_images = chars 8 ∷ [];
  raw_searches = chars 9 ∷ [];
  current_ref = "S1";
  at_refs = [];
  reply_author_ref = none;
}

abbrev prompt-IsAligned : IsAligned prompt
prompt-IsAligned = record { ids_length = refl; refs_length = refl }

abbrev small : PromptBudget
small = record {
  persona_chars = 5;
  context_messages = 20;
  context_chars = 12;
  facts_chars = 8;
  relationship_chars = 4;
  topics_chars = 3;
  images_chars = 6;
  web_search_chars = 7;
  current_chars = 8;
  total_chars = 16;
}

cut : fit_sequence (chars 3 ∷ chars 4 ∷ chars 2 ∷ []) 5 ≡ (chars 3 ∷ chars 2 ∷ [], 1, 4)
unfolding fit_sequence
cut = refl

-- What is left of the prompt.
fitted : prompt_data_chars (apply_prompt_budget prompt small) ≡ 14
unfolding apply_prompt_budget fit_total fit_parts fit_context shrink clip_last clip fit_sequence
    trim_tail trim_part trim_parts drop_context trim_relationship trim_persona trim_texts
    trim_current
fitted = refl

pruned : (apply_prompt_budget prompt small).speakers ≡ speaker ∷ []
unfolding apply_prompt_budget fit_total fit_parts fit_context shrink clip_last clip fit_sequence
    trim_tail trim_part trim_parts drop_context trim_relationship trim_persona trim_texts
    trim_current
pruned = refl

apply_prompt_budget-total_example : prompt_data_chars (apply_prompt_budget prompt small) ≤ 16
apply_prompt_budget-total_example = apply_prompt_budget-total prompt small (omega arith)

apply_prompt_budget-accounts_example :
    accounts (apply_prompt_budget prompt small) ≡ raw_accounts prompt
apply_prompt_budget-accounts_example = apply_prompt_budget-accounts prompt small prompt-IsAligned

apply_prompt_budget-IsSuffix_example : IsSuffix prompt (apply_prompt_budget prompt small)
apply_prompt_budget-IsSuffix_example = apply_prompt_budget-IsSuffix prompt small prompt-IsAligned

fit_context-IsLatest_example : IsLatest prompt small (fit_context small prompt)
fit_context-IsLatest_example = fit_context-IsLatest small prompt prompt-IsAligned

apply_prompt_budget-speakers_example :
    (apply_prompt_budget prompt small).speakers
    ≡ used_speakers (is_used (apply_prompt_budget prompt small)) (speaker ∷ silent ∷ [])
apply_prompt_budget-speakers_example = apply_prompt_budget-speakers prompt small
