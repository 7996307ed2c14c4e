-- ===== src/Budget/Apply.antt =====
-- apply_prompt_budget and _prune_speakers of budget.py, from the raw texts on.
use qq_violation_bot.Prelude.{
  ℕ, zero, suc, ◌+◌, ◌-◌, Bool, false, not, ◌&&◌, ◌||◌, none, some, List, [], ◌∷◌, String, length,
  take, drop, leb, ltb, if◌then◌else◌,
}
use qq_violation_bot.Budget.Types.{
  Text, PromptBudget, SpeakerIdentity, BudgetedPromptData, RawPrompt, string_eq,
}
use qq_violation_bot.Budget.Context.{fit_context}
use qq_violation_bot.Budget.Fit.{total_length, clip, fit_sequence, trim_tail, prompt_data_chars}

-- The `BudgetedPromptData(…)` of the separate limits.
unfoldable pub fit_parts : PromptBudget → RawPrompt → BudgetedPromptData
fit_parts budget raw =
    let (persona, persona_removed) = clip raw.raw_persona budget.persona_chars in
    let (current, current_removed) = clip raw.safe_current budget.current_chars in
    let w = fit_context budget raw in
    let (facts, _, facts_removed) = fit_sequence raw.raw_facts budget.facts_chars in
    let (relationship, relationship_removed) =
      clip raw.raw_relationship budget.relationship_chars in
    let (topics, topics_items, topics_chars) =
      fit_sequence (take 5 raw.raw_topics) budget.topics_chars in
    let (images, images_items, images_chars) = fit_sequence raw.raw_images budget.images_chars in
    let (searches, _, search_chars) = fit_sequence raw.raw_searches budget.web_search_chars in
    record {
      persona = persona;
      speakers = raw.identities;
      context = w.messages;
      context_message_ids = w.ids;
      context_speaker_refs = w.refs;
      facts = facts;
      fact_speaker_refs = take (length facts) raw.raw_fact_refs;
      relationship = relationship;
      open_topics = topics;
      image_descriptions = images;
      web_search_data = searches;
      current = current;
      current_text = current;
      current_speaker_ref = raw.current_ref;
      current_at_speaker_refs = raw.at_refs;
      current_reply_author_ref = raw.reply_author_ref;
      truncation = record {
        persona_chars_removed = persona_removed;
        context_messages_removed = w.removed;
        context_chars_removed = total_length raw.raw_context - total_length w.messages;
        facts_chars_removed = facts_removed;
        relationship_chars_removed = relationship_removed;
        topics_removed = length raw.raw_topics - length (take 5 raw.raw_topics) + topics_items;
        topics_chars_removed = topics_chars + total_length (drop 5 raw.raw_topics);
        images_removed = images_items;
        images_chars_removed = images_chars;
        web_search_chars_removed = search_chars;
        current_chars_removed = current_removed;
      };
    }

abbrev pub member : String → List String → Bool
member r [] = false
member r (s ∷ ss) = string_eq r s || member r ss

-- `if data.current_reply_author_ref`, which an empty string does not meet.
abbrev pub is_replied : BudgetedPromptData → String → Bool
is_replied d r = elim d.current_reply_author_ref [
  | none ↦ false
  | some s ↦ not (string_eq s "") && string_eq r s
]

-- `used` of _prune_speakers.
abbrev pub is_used : BudgetedPromptData → String → Bool
is_used d r =
    string_eq r d.current_speaker_ref
    || member r d.context_speaker_refs
    || member r d.fact_speaker_refs
    || member r d.current_at_speaker_refs
    || is_replied d r

abbrev pub used_speakers : (String → Bool) → List SpeakerIdentity → List SpeakerIdentity
used_speakers used [] = []
used_speakers used (s ∷ ss) =
    let rest = used_speakers used ss in if used s.ref then s ∷ rest else rest

abbrev pub prune_speakers : BudgetedPromptData → BudgetedPromptData
prune_speakers d = record d { speakers = used_speakers (is_used d) d.speakers }

-- The four sequences that the first loop trims.
pub data Part : Type 0 where
  searches images topics member_facts : Part

abbrev pub part : Part → BudgetedPromptData → List Text
part searches d = d.web_search_data
part images d = d.image_descriptions
part topics d = d.open_topics
part member_facts d = d.facts

-- `replace(data, **{field: trimmed}, truncation=…)` with the items and the characters removed.
abbrev pub set_part : Part → BudgetedPromptData → List Text × ℕ × ℕ → BudgetedPromptData
set_part searches d (values, items, chars) =
    let t = d.truncation in
    record d {
      web_search_data = values;
      truncation = record t { web_search_chars_removed = t.web_search_chars_removed + chars };
    }
set_part images d (values, items, chars) =
    let t = d.truncation in
    record d {
      image_descriptions = values;
      truncation = record t {
        images_chars_removed = t.images_chars_removed + chars;
        images_removed = t.images_removed + items;
      };
    }
set_part topics d (values, items, chars) =
    let t = d.truncation in
    record d {
      open_topics = values;
      truncation = record t {
        topics_chars_removed = t.topics_chars_removed + chars;
        topics_removed = t.topics_removed + items;
      };
    }
set_part member_facts d (values, items, chars) =
    let t = d.truncation in
    record d {
      facts = values;
      fact_speaker_refs = take (length values) d.fact_speaker_refs;
      truncation = record t { facts_chars_removed = t.facts_chars_removed + chars };
    }

unfoldable pub trim_part : ℕ → Part → BudgetedPromptData → BudgetedPromptData
trim_part total p d =
    prune_speakers (set_part p d (trim_tail (part p d) (prompt_data_chars d - total)))

-- The `for` over the four sequences, with its `break`.
unfoldable pub trim_parts : ℕ → List Part → BudgetedPromptData → BudgetedPromptData
trim_parts total [] d = d
trim_parts total (p ∷ ps) d =
    let rest = trim_parts total ps (trim_part total p d) in
    if leb (prompt_data_chars d) total then d else rest

-- The body of both loops over the context, which is not empty there.
abbrev pub drop_oldest : BudgetedPromptData → BudgetedPromptData
drop_oldest d = elim d.context [
  | [] ↦ d
  | message ∷ rest ↦
      (let t = d.truncation in
        prune_speakers (record d {
          context = rest;
          context_message_ids = drop 1 d.context_message_ids;
          context_speaker_refs = drop 1 d.context_speaker_refs;
          truncation = record t {
            context_messages_removed = t.context_messages_removed + 1;
            context_chars_removed = t.context_chars_removed + length message;
          };
        }))
]

-- `while len(data.context) > least and prompt_data_chars(data) > total`, a round per message.
unfoldable pub drop_context : ℕ → ℕ → ℕ → BudgetedPromptData → BudgetedPromptData
drop_context least total zero d = d
drop_context least total (suc fuel) d =
    let rest = drop_context least total fuel (drop_oldest d) in
    if ltb least (length d.context) && ltb total (prompt_data_chars d) then rest else d

-- The slices `value[: max(0, len(value) - excess)]` of the `for` over two texts.
unfoldable pub trim_relationship : ℕ → BudgetedPromptData → BudgetedPromptData
trim_relationship total d =
    let t = d.truncation in
    let kept = take (length d.relationship - (prompt_data_chars d - total)) d.relationship in
    record d {
      relationship = kept;
      truncation = record t {
        relationship_chars_removed =
            t.relationship_chars_removed + (length d.relationship - length kept);
      };
    }

unfoldable pub trim_persona : ℕ → BudgetedPromptData → BudgetedPromptData
trim_persona total d =
    let t = d.truncation in
    let kept = take (length d.persona - (prompt_data_chars d - total)) d.persona in
    record d {
      persona = kept;
      truncation = record t {
        persona_chars_removed = t.persona_chars_removed + (length d.persona - length kept);
      };
    }

unfoldable pub trim_texts : ℕ → BudgetedPromptData → BudgetedPromptData
trim_texts total d =
    let d' = trim_relationship total d in
    if leb (prompt_data_chars d) total
    then d
    else if leb (prompt_data_chars d') total
    then d'
    else trim_persona total d'

abbrev pub max : ℕ → ℕ → ℕ
max a b = if leb a b then b else a

-- The current message keeps one character at least.
unfoldable pub trim_current : ℕ → BudgetedPromptData → BudgetedPromptData
trim_current total d =
    let t = d.truncation in
    let kept = take (max 1 (length d.current - (prompt_data_chars d - total))) d.current in
    if leb (prompt_data_chars d) total then d else record d {
      current = kept;
      current_text = kept;
      truncation = record t {
        current_chars_removed = t.current_chars_removed + (length d.current - length kept);
      };
    }

unfoldable pub fit_total : ℕ → BudgetedPromptData → BudgetedPromptData
fit_total total d =
    let d₁ = trim_parts total (searches ∷ images ∷ topics ∷ member_facts ∷ []) d in
    let d₂ = drop_context 2 total (length d₁.context) d₁ in
    let d₃ = trim_texts total d₂ in
    let d₄ = drop_context 0 total (length d₃.context) d₃ in prune_speakers (trim_current total d₄)

unfoldable pub apply_prompt_budget : RawPrompt → PromptBudget → BudgetedPromptData
apply_prompt_budget raw budget = fit_total budget.total_chars (fit_parts budget raw)
